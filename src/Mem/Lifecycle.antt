-- ===== src/Mem/Lifecycle.antt =====
-- An abstract command from its acceptance to its end.
use riscv_dbg.Common.{
  ℕ, suc, ◌≡◌, ◌∙◌, refl, ap, arith, Bool, true, false, List, [], ◌∷◌, ◌++◌, map, replicate, length,
  if◌then◌else◌,
}
use riscv_dbg.Mem.{
  Config, Request, Access, Mem, MemState, idle, go, cmd_executing, hart_index, aligned,
}
use riscv_dbg.Mem.Commands.{abstract_cmd}
use riscv_dbg.Mem.Control.{
  Control, control, control_case, accept, going, halted_aligned, raises_exception,
}
use riscv_dbg.Mem.Memory.{posedge, cycles}

-- A command for a hart that is halted, and no request to resume or to reset.
pub record IsCommand (c : Config) (r : Request) (s : Mem) : Type 0 where
  pub valid : r.cmd_valid_i ≡ true
  pub supported : (abstract_cmd c r.cmd_i).1 ≡ false
  pub halted : aligned c s.halted_q (hart_index c r.hartsel_i) ≡ true
  pub stays : aligned c r.resumereq_i (hart_index c r.hartsel_i) ≡ false
  pub no_reset : r.ndmreset_i ≡ false

-- What the harts do in a cycle: nothing that the control waits for.
abbrev pub IsQuiet : Access → Type 0
IsQuiet a = raises_exception a ≡ false

-- No hart starts the command, or no write of the hart ends it.
unfoldable pub NotGoing : List Access → Type 0
NotGoing [] = Unit
NotGoing (a ∷ l) = IsQuiet a × (going a ≡ false) × NotGoing l

unfoldable pub NotHalted : Config → (hart : ℕ) → List Access → Type 0
NotHalted c hart [] = Unit
NotHalted c hart (a ∷ l) = IsQuiet a × (halted_aligned c a hart ≡ false) × NotHalted c hart l

-- Busy, the flags that let the hart go and resume, and whether an error is reported.
abbrev pub Seen : Type 0
Seen = Bool × Bool × Bool × Bool

abbrev pub look : Control → Seen
look k = (k.cmdbusy_o, k.go, k.resume, k.cmderror_valid_o)

unfoldable pub watch : List Control × Mem → List Seen × MemState
watch run = (map look run.0, run.1.state_q)

abbrev pub before : Seen → List Seen × MemState → List Seen × MemState
before x run = (x ∷ run.0, run.1)

pub watch_step :
    (c : Config) (r : Request) (s : Mem) (a : Access) (l : List Access) (x : Seen)
    (later : List Seen × MemState)
    → look (control c r a s) ≡ x
    → watch (cycles c r (posedge c r a s) l) ≡ later
    → watch (cycles c r s (a ∷ l)) ≡ before x later
unfolding cycles watch
watch_step c r s a l x later seen rest =
    ap (before (look (control c r a s))) rest ∙ ap (λ y. before y later) seen

pub watch_end :
    (c : Config) (r : Request) (s : Mem) (q : MemState)
    → s.state_q ≡ q
    → watch (cycles c r s []) ≡ ([], q)
unfolding cycles watch
watch_end c r s q e = ap (λ p. ([], p)) e

-- The request behind the cycle of the write: `cmd_valid_i` is a pulse, and the rest stays.
abbrev pub issued : Request → Request
issued r = record r { cmd_valid_i = false }

-- One cycle in each of the states.
go_cycle :
    (c : Config) (r : Request) (s : Mem) (a : Access)
    → s.state_q ≡ go
    → (abstract_cmd c r.cmd_i).1 ≡ false
    → r.ndmreset_i ≡ false
    → IsQuiet a
    → (look (control c r a s) ≡ (true, true, false, false))
      × ((posedge c r a s).state_q ≡ (if going a then cmd_executing else go))
unfolding control control_case posedge
go_cycle c r s a here ok no_reset calm = ground arith

run_cycle :
    (c : Config) (r : Request) (s : Mem) (a : Access)
    → s.state_q ≡ cmd_executing
    → (abstract_cmd c r.cmd_i).1 ≡ false
    → r.ndmreset_i ≡ false
    → IsQuiet a
    → (look (control c r a s) ≡ (true, false, false, false))
      × ((posedge c r a s).state_q
          ≡ (if halted_aligned c a (hart_index c r.hartsel_i) then idle else cmd_executing))
unfolding control control_case posedge
run_cycle c r s a here ok no_reset calm = ground arith

accept_cycle :
    (c : Config) (r : Request) (s : Mem) (a : Access)
    → s.state_q ≡ idle
    → IsCommand c r s
    → IsQuiet a
    → (look (control c r a s) ≡ (false, false, false, false)) × ((posedge c r a s).state_q ≡ go)
unfolding control control_case accept posedge
accept_cycle c r s a here h calm =
    ground (arith, h.supported, h.halted, h.stays, h.valid, h.no_reset)

executing :
    (c : Config) (r : Request) (s : Mem) (runs : List Access) (d : Access)
    → s.state_q ≡ cmd_executing
    → (abstract_cmd c r.cmd_i).1 ≡ false
    → r.ndmreset_i ≡ false
    → NotHalted c (hart_index c r.hartsel_i) runs
    → IsQuiet d
    → halted_aligned c d (hart_index c r.hartsel_i) ≡ true
    → watch (cycles c r s (runs ++ d ∷ []))
      ≡ (replicate (suc (length runs)) (true, false, false, false), idle)
unfolding NotHalted
executing c r s [] d here ok no_reset calm quiet ends =
    let (seen, next) = run_cycle c r s d here ok no_reset quiet in
    watch_step c r s d [] _ ([], idle) seen
      (watch_end c r (posedge c r d s) idle (next ∙ rw ends refl))
executing c r s (a ∷ runs) d here ok no_reset calm quiet ends =
    let (seen, next) = run_cycle c r s a here ok no_reset calm.0 in
    watch_step c r s a (runs ++ d ∷ []) _ _ seen
      (executing c r (posedge c r a s) runs d (next ∙ rw calm.1 refl) ok no_reset calm.2 quiet ends)

-- The two parts of the run of a command.
abbrev busy_run : (waits runs : List Access) → List Seen
busy_run waits runs =
    replicate (suc (length waits)) (true, true, false, false)
    ++ replicate (suc (length runs)) (true, false, false, false)

scheduled :
    (c : Config) (r : Request) (s : Mem) (waits : List Access) (g : Access) (runs : List Access)
    (d : Access)
    → s.state_q ≡ go
    → (abstract_cmd c r.cmd_i).1 ≡ false
    → r.ndmreset_i ≡ false
    → NotGoing waits
    → IsQuiet g
    → going g ≡ true
    → NotHalted c (hart_index c r.hartsel_i) runs
    → IsQuiet d
    → halted_aligned c d (hart_index c r.hartsel_i) ≡ true
    → watch (cycles c r s (waits ++ (g ∷ (runs ++ d ∷ [])))) ≡ (busy_run waits runs, idle)
unfolding NotGoing
scheduled c r s [] g runs d here ok no_reset idling calm starts running quiet ends =
    let (seen, next) = go_cycle c r s g here ok no_reset calm in
    watch_step c r s g (runs ++ d ∷ []) _ _ seen (
      executing c r (posedge c r g s) runs d (next ∙ rw starts refl) ok no_reset running quiet ends)
scheduled c r s (a ∷ waits) g runs d here ok no_reset idling calm starts running quiet ends =
    let (seen, next) = go_cycle c r s a here ok no_reset idling.0 in
    watch_step c r s a (waits ++ (g ∷ (runs ++ d ∷ []))) _ _ seen (
      scheduled c r (posedge c r a s) waits g runs d (next ∙ rw idling.1 refl) ok no_reset idling.2
        calm starts running quiet ends)

-- A supported command for a halted hart, valid for the one cycle in which it is taken in Idle, then
-- shows the hart the flag `go` until it says that it is going, is busy in every cycle until the
-- selected hart has halted again, reports no error and ends in Idle, however long the hart takes for
-- either, if no exception and no reset comes, no resume is requested, and the command and the
-- selected hart stay.
pub command_runs :
    (c : Config) (r : Request) (s : Mem) (a : Access) (waits : List Access) (g : Access)
    (runs : List Access) (d : Access)
    → s.state_q ≡ idle
    → IsCommand c r s
    → IsQuiet a
    → NotGoing waits
    → IsQuiet g
    → going g ≡ true
    → NotHalted c (hart_index c r.hartsel_i) runs
    → IsQuiet d
    → halted_aligned c d (hart_index c r.hartsel_i) ≡ true
    → (look (control c r a s) ≡ (false, false, false, false))
      × (watch (cycles c (issued r) (posedge c r a s) (waits ++ (g ∷ (runs ++ d ∷ []))))
          ≡ (busy_run waits runs, idle))
command_runs c r s a waits g runs d here h first idling calm starts running quiet ends =
    let (seen, next) = accept_cycle c r s a here h first in
    (
      seen,
      scheduled c (issued r) (posedge c r a s) waits g runs d next h.supported h.no_reset idling
          calm starts running quiet ends,
    )

-- ===== src/Mem/Resume.antt =====
-- A resume request from its acceptance to its end.
use riscv_dbg.Common.{
  suc, ◌≡◌, ◌∙◌, refl, ap, arith, Bool, true, false, ◌&&◌, ◌==◌, List, [], ◌∷◌, ◌++◌, replicate,
  length, if◌then◌else◌,
}
use riscv_dbg.Mem.{Config, Request, Access, Mem, idle, resume, hart_index, hart_valid, aligned}
use riscv_dbg.Mem.Control.{
  Control, control, control_case, accept, raises_exception, writes_to, halted_d, resuming_d,
  resuming_addr, halted_aligned,
}
use riscv_dbg.Mem.Memory.{posedge, cycles}
use riscv_dbg.Mem.Lifecycle.{Seen, look, watch, watch_step, watch_end}

-- A hart that exists is asked to resume, and the request stays. No command, no halt and no reset is
-- asked for, and the old acknowledgement is no more being cleared.
pub record IsResume (c : Config) (r : Request) : Type 0 where
  pub asked : aligned c r.resumereq_i (hart_index c r.hartsel_i) ≡ true
  pub no_halt : aligned c r.haltreq_i (hart_index c r.hartsel_i) ≡ false
  pub no_command : r.cmd_valid_i ≡ false
  pub no_clear : r.clear_resumeack_i ≡ false
  pub no_reset : r.ndmreset_i ≡ false
  pub exists : hart_valid c (hart_index c r.hartsel_i) ≡ true
  pub selectable : c.selectable_harts (hart_index c r.hartsel_i) ≡ true

-- The selected hart says that it resumes.
unfoldable pub acknowledges : Config → Request → Access → Bool
unfolding writes_to hart_index
acknowledges c r a = writes_to a resuming_addr && hart_index c a.wdata_i == hart_index c r.hartsel_i

-- The selected hart does not say so, and no hart raises an exception, in any of these cycles.
unfoldable pub NotResuming : Config → Request → List Access → Type 0
unfolding acknowledges
NotResuming c r [] = Unit
NotResuming c r (a ∷ l) =
    (raises_exception a ≡ false) × (acknowledges c r a ≡ false) × NotResuming c r l

-- What a cycle does to the acknowledgement of the selected hart.
ack_cycle :
    (c : Config) (r : Request) (a : Access) (s : Mem)
    → IsResume c r
    → aligned c (posedge c r a s).resuming_q (hart_index c r.hartsel_i)
      ≡ (if acknowledges c r a then true else aligned c s.resuming_q (hart_index c r.hartsel_i))
unfolding posedge resuming_d aligned acknowledges
ack_cycle c r a s h = ground (arith, h.asked, h.no_clear, h.no_reset, h.exists, h.selectable)

-- And to its halt, if it does.
release_cycle :
    (c : Config) (r : Request) (a : Access) (s : Mem)
    → IsResume c r
    → acknowledges c r a ≡ true
    → (posedge c r a s).halted_q (hart_index c r.hartsel_i) ≡ false
unfolding posedge halted_d acknowledges
release_cycle c r a s h told = ground (arith, h.exists, h.selectable)

accept_cycle :
    (c : Config) (r : Request) (s : Mem) (a : Access)
    → s.state_q ≡ idle
    → IsResume c r
    → aligned c s.halted_q (hart_index c r.hartsel_i) ≡ true
    → aligned c s.resuming_q (hart_index c r.hartsel_i) ≡ false
    → raises_exception a ≡ false
    → (look (control c r a s) ≡ (false, false, false, false)) × ((posedge c r a s).state_q ≡ resume)
unfolding control control_case accept posedge
accept_cycle c r s a here h halted fresh calm =
    ground (arith, h.asked, h.no_halt, h.no_command, h.no_reset)

resume_cycle :
    (c : Config) (r : Request) (s : Mem) (a : Access)
    → s.state_q ≡ resume
    → IsResume c r
    → raises_exception a ≡ false
    → (look (control c r a s) ≡ (true, false, true, false))
      × ((posedge c r a s).state_q
          ≡ (if aligned c s.resuming_q (hart_index c r.hartsel_i) then idle else resume))
unfolding control control_case posedge
resume_cycle c r s a here h calm = ground (arith, h.no_command, h.no_reset)

-- A hart that has let go stays so, unless it writes that it halts.
still_running :
    (c : Config) (r : Request) (a : Access) (s : Mem)
    → IsResume c r
    → s.halted_q (hart_index c r.hartsel_i) ≡ false
    → halted_aligned c a (hart_index c r.hartsel_i) ≡ false
    → (posedge c r a s).halted_q (hart_index c r.hartsel_i) ≡ false
unfolding posedge halted_d halted_aligned
still_running c r a s h runs calm = ground (arith, h.exists, h.no_reset)

kept_true : (b : Bool) {x : Bool} → x ≡ true → (if b then true else x) ≡ true
kept_true b h = ground (arith, h)

-- What is seen, and the hart behind it: it runs, and its acknowledgement is kept.
abbrev Resumed : Config → Request → List Seen → List Control × Mem → Type 0
Resumed c r seen run =
    (watch run ≡ (seen, idle))
    × (run.1.halted_q (hart_index c r.hartsel_i) ≡ false)
    × (aligned c run.1.resuming_q (hart_index c r.hartsel_i) ≡ true)

resuming :
    (c : Config) (r : Request) (s : Mem) (waits : List Access) (g d : Access)
    → s.state_q ≡ resume
    → aligned c s.resuming_q (hart_index c r.hartsel_i) ≡ false
    → IsResume c r
    → NotResuming c r waits
    → raises_exception g ≡ false
    → acknowledges c r g ≡ true
    → raises_exception d ≡ false
    → halted_aligned c d (hart_index c r.hartsel_i) ≡ false
    → Resumed c r
        (replicate (suc (suc (length waits))) (true, false, true, false))
        (cycles c r s (waits ++ g ∷ d ∷ []))
unfolding NotResuming cycles
resuming c r s [] g d here fresh h quiet calm tells still stays =
    let t = posedge c r g s in
    let told : aligned c t.resuming_q (hart_index c r.hartsel_i) ≡ true =
      ack_cycle c r g s h
      ∙ ap (λ b. if b then true else aligned c s.resuming_q (hart_index c r.hartsel_i)) tells in
    let (seen, next) = resume_cycle c r s g here h calm in
    let (seen', last) = resume_cycle c r t d (next ∙ rw fresh refl) h still in
    (
      watch_step c r s g (d ∷ []) _ _ seen (
          watch_step c r t d [] _ ([], idle) seen'
            (watch_end c r (posedge c r d t) idle (last ∙ rw told refl))),
      still_running c r d t h (release_cycle c r g s h tells) stays,
      ack_cycle c r d t h ∙ kept_true (acknowledges c r d) told,
    )
resuming c r s (a ∷ waits) g d here fresh h quiet calm tells still stays =
    let (seen, next) = resume_cycle c r s a here h quiet.0 in
    let (later, runs, acked) =
      resuming c r (posedge c r a s) waits g d (next ∙ rw fresh refl)
        (ack_cycle c r a s h ∙ rw (quiet.1, fresh) refl) h quiet.2 calm tells still stays in
    (watch_step c r s a (waits ++ g ∷ d ∷ []) _ _ seen later, runs, acked)

-- A request to resume a halted hart that has not acknowledged one is taken in Idle, shows the hart the
-- flag `resume` and is busy until the cycle behind the hart's acknowledgement, however long the hart
-- takes, and reports no error; the control is then in Idle, the hart is not halted and its
-- acknowledgement stands. The request stays, no hart raises an exception, and the hart does not halt
-- again in the cycle behind its acknowledgement.
pub resume_runs :
    (c : Config) (r : Request) (s : Mem) (a : Access) (waits : List Access) (g d : Access)
    → s.state_q ≡ idle
    → IsResume c r
    → aligned c s.halted_q (hart_index c r.hartsel_i) ≡ true
    → aligned c s.resuming_q (hart_index c r.hartsel_i) ≡ false
    → NotResuming c r (a ∷ waits)
    → raises_exception g ≡ false
    → acknowledges c r g ≡ true
    → raises_exception d ≡ false
    → halted_aligned c d (hart_index c r.hartsel_i) ≡ false
    → Resumed c r
        ((false, false, false, false)
          ∷ replicate (suc (suc (length waits))) (true, false, true, false))
        (cycles c r s (a ∷ waits ++ g ∷ d ∷ []))
unfolding NotResuming cycles
resume_runs c r s a waits g d here h halted fresh quiet calm tells still stays =
    let (seen, next) = accept_cycle c r s a here h halted fresh quiet.0 in
    let (later, runs, acked) =
      resuming c r (posedge c r a s) waits g d next
        (ack_cycle c r a s h
          ∙ ap (λ b. if b then true else aligned c s.resuming_q (hart_index c r.hartsel_i)) quiet.1
          ∙ fresh)
        h quiet.2 calm tells still stays in
    (watch_step c r s a (waits ++ g ∷ d ∷ []) _ _ seen later, runs, acked)

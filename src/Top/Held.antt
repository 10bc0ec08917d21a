-- ===== src/Top/Held.antt =====
-- What a running abstract command keeps from the debugger.
use riscv_dbg.Common.{◌≡◌, ◌≢◌, ◌∙◌, refl, arith, true, List, [], ◌∷◌}
use riscv_dbg.Mem.{Config, Access, MemState, idle, go, resume, cmd_executing}
use riscv_dbg.Mem.Control.{control, control_case}
use riscv_dbg.Csrs.{Csrs, Inputs}
use riscv_dbg.Csrs.Step
use riscv_dbg.Csrs.Step.{csr_read_write, access, registered}
use riscv_dbg.Csrs.Busy.{access-IsProtected}
use riscv_dbg.Top.{Top, controlled, wired, step, steps}

-- In every cycle the module is active and the control is not in Idle.
unfoldable pub AllBusy : Config → List (Inputs × Access) → Top → Type 0
unfolding step
AllBusy c [] s = Unit
AllBusy c ((i, a) ∷ l) s =
    (s.csrs.dmcontrol_q.dmactive ≡ true) × (s.mem.state_q ≢ idle) × AllBusy c l (step c i a s)

busy_case :
    (q : MemState) (c : Config) (a : Access) (s : Top)
    → s.mem.state_q ≡ q
    → q ≢ idle
    → (controlled c a s).cmdbusy_o ≡ true
unfolding controlled control control_case
busy_case idle c a s here away = absurd (away refl)
busy_case go c a s here away = ground (arith, here)
busy_case resume c a s here away = ground (arith, here)
busy_case cmd_executing c a s here away = ground (arith, here)

wired-busy :
    (c : Config) (i : Inputs) (a : Access) (s : Top)
    → s.mem.state_q ≢ idle
    → (wired c i a s).cmdbusy_i ≡ true
unfolding wired
wired-busy c i a s away = busy_case s.mem.state_q c a s refl away

-- The program of a command.
record IsHeld (s t : Csrs) : Type 0 where
  command_held : t.command_q ≡ s.command_q
  progbuf_held : t.progbuf_q ≡ s.progbuf_q

posedge-IsHeld :
    (c : Config) (i : Inputs) (s : Csrs)
    → i.cmdbusy_i ≡ true
    → s.dmcontrol_q.dmactive ≡ true
    → IsHeld s (Step.posedge c i s)
unfolding Step.posedge registered csr_read_write
posedge-IsHeld c i s busy active =
    let p = access-IsProtected c i s busy in ground (arith, p.command_kept, p.progbuf_kept)

step-IsHeld :
    (c : Config) (i : Inputs) (a : Access) (s : Top)
    → s.csrs.dmcontrol_q.dmactive ≡ true
    → s.mem.state_q ≢ idle
    → IsHeld s.csrs (step c i a s).csrs
unfolding step
step-IsHeld c i a s active away =
    posedge-IsHeld c (wired c i a s) s.csrs (wired-busy c i a s away) active

-- While the control is not in Idle and the module stays active, no sequence of requests of the
-- debugger and of accesses of the harts changes the command or the program buffer: the harts run the
-- program that was there when the command started.
pub steps-held :
    (c : Config) (l : List (Inputs × Access)) (s : Top)
    → AllBusy c l s
    → ((steps c l s).csrs.command_q ≡ s.csrs.command_q)
      × ((steps c l s).csrs.progbuf_q ≡ s.csrs.progbuf_q)
unfolding AllBusy steps
steps-held c [] s h = (refl, refl)
steps-held c ((i, a) ∷ l) s h =
    let once = step-IsHeld c i a s h.0 h.1 in
    let rest = steps-held c l (step c i a s) h.2 in
    (rest.0 ∙ once.command_held, rest.1 ∙ once.progbuf_held)

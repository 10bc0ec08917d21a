-- ===== src/Top/Outcome.antt =====
-- What comes of a write of the command register.
use riscv_dbg.Common.{ℕ, ◌≡◌, ◌∙◌, ap, arith, Bool, false, not, ◌&&◌, ◌||◌, if◌then◌else◌}
use riscv_dbg.Mem.{
  Config, Access, CmdErr, none, not_supported, halt_resume, idle, go, hart_index, aligned,
}
use riscv_dbg.Mem.Commands.{abstract_cmd}
use riscv_dbg.Dmi.{dtm_write}
use riscv_dbg.Csrs.{Csrs, Dmcontrol, Inputs, accepted, dm_csr}
use riscv_dbg.Csrs
use riscv_dbg.Csrs.Status.{hartsel_of}
use riscv_dbg.Csrs.Step.{csr_read_write}
use riscv_dbg.Csrs.RoundTrip.{IsRequest}
use riscv_dbg.Top.{Top, request, controlled, wired, step, cmderr_code}
use riscv_dbg.Top.Command.{
  IsCalm, IsWritten, written, idle_cycle, quiet_cycle, halts_kept, command_cycle, request-IsStill,
}

IsCalm-same : (c : Config) (s t : Csrs) → IsCalm c s → t.dmcontrol_q ≡ s.dmcontrol_q → IsCalm c t
IsCalm-same c s t h same = record {
  legal = rw same h.legal;
  active = rw same h.active;
  no_reset = rw same h.no_reset;
  no_resume = rw same h.no_resume;
}

-- The strobe of `clear_resumeack` in a cycle.
abbrev clearing : Config → Inputs → Access → Top → Bool
clearing c i a s = (csr_read_write c (wired c i a s) s.csrs).clear_resumeack_o

-- The first cycle.
write_cycle :
    (c : Config) (i : Inputs) (a : Access) (s : Top)
    → s.mem.state_q ≡ idle
    → s.csrs.cmd_valid_q ≡ false
    → IsCalm c s.csrs
    → IsRequest dtm_write i
    → dm_csr i.dmi_req_addr ≡ Csrs.command
    → a.req_i ≡ false
    → IsWritten i.dmi_req_data s.csrs (step c i a s).csrs × ((step c i a s).mem.state_q ≡ idle)
unfolding step wired controlled request
write_cycle c i a s here no_command calm asks at silent =
    let still = request-IsStill c false s.csrs a s.mem calm here silent in
    let (free, quiet, stays) = quiet_cycle c (request c false s.csrs) a s.mem still no_command in
    let still' = request-IsStill c (clearing c i a s) s.csrs a s.mem calm here silent in
    (
      written c (wired c i a s) s.csrs calm (record { taken = asks.taken; does = asks.does }) at
          free quiet,
      (quiet_cycle c (request c (clearing c i a s) s.csrs) a s.mem still' no_command).2,
    )

-- The hart that is selected is halted, and may be.
unfoldable pub can_run : Config → Top → Bool
unfolding aligned hart_index
can_run c s =
    let h = hart_index c (hartsel_of s.csrs.dmcontrol_q) in
    c.selectable_harts h && aligned c s.mem.halted_q h

align_case :
    (c : Config) (v w : ℕ → Bool) (h : ℕ)
    → v h ≡ c.selectable_harts h && w h
    → aligned c v h ≡ c.selectable_harts h && aligned c w h
unfolding aligned
align_case c v w h e = ground arith

halted_still :
    (c : Config) (i : Inputs) (a : Access) (s : Top)
    → s.mem.state_q ≡ idle
    → IsCalm c s.csrs
    → a.req_i ≡ false
    → (step c i a s).csrs.dmcontrol_q ≡ s.csrs.dmcontrol_q
    → aligned c
        (step c i a s).mem.halted_q
        (hart_index c (hartsel_of (step c i a s).csrs.dmcontrol_q))
      ≡ can_run c s
unfolding can_run aligned step
halted_still c i a s here calm silent same =
    let h = hart_index c (hartsel_of s.csrs.dmcontrol_q) in
    let kept =
      halts_kept c (request c (clearing c i a s) s.csrs) a s.mem h
        (request-IsStill c (clearing c i a s) s.csrs a s.mem calm here silent) in
    ap (λ (d : Dmcontrol). aligned c (step c i a s).mem.halted_q (hart_index c (hartsel_of d))) same
    ∙ align_case c (step c i a s).mem.halted_q s.mem.halted_q h kept

-- The error of the second cycle.
error_case :
    (bad halted flagged : Bool) (e : CmdErr) (old : ℕ)
    → flagged ≡ bad || not halted
    → e ≡ (if bad then not_supported else if halted then none else halt_resume)
    → (if flagged then cmderr_code e else old) ≡ (if bad then 2 else if halted then old else 4)
unfolding cmderr_code
error_case bad halted flagged e old f g = ground arith

-- What the two tests decide.
same_state :
    {x y v w : Bool}
    → x ≡ y
    → v ≡ w
    → (if x || not v then idle else go) ≡ (if y || not w then idle else go)
same_state {x} {y} {v} {w} e f =
    ap (λ b. if b || not v then idle else go) e ∙ ap (λ b. if y || not b then idle else go) f

same_error :
    {x y v w : Bool} {old new : ℕ}
    → x ≡ y
    → v ≡ w
    → old ≡ new
    → (if x then 2 else if v then old else 4) ≡ (if y then 2 else if w then new else 4)
same_error e f g = ground (arith, e, f, g)

-- A command that the debugger writes while the control is idle and no command is pending, in an
-- active module whose dmcontrol is legal and asks for no reset and no resume, is dealt with in the
-- next cycle, if the debugger is then silent and no hart accesses the memory in either cycle: it is
-- kept, and starts if it is supported and the selected hart is halted. Otherwise the control stays
-- idle and the error says which of the two is missing.
pub step-outcome :
    (c : Config) (i j : Inputs) (a b : Access) (s : Top)
    → s.mem.state_q ≡ idle
    → s.csrs.cmd_valid_q ≡ false
    → IsCalm c s.csrs
    → IsRequest dtm_write i
    → dm_csr i.dmi_req_addr ≡ Csrs.command
    → a.req_i ≡ false
    → accepted j ≡ false
    → b.req_i ≡ false
    → let t = step c j b (step c i a s) in
      let bad = (abstract_cmd c i.dmi_req_data).1 in
      (t.csrs.command_q ≡ i.dmi_req_data)
      × (t.mem.state_q ≡ (if bad || not (can_run c s) then idle else go))
      × (t.csrs.cmderr_q ≡ (if bad then 2 else if can_run c s then s.csrs.cmderr_q else 4))
unfolding step wired controlled request
step-outcome c i j a b s here no_command calm asks at silent ends quiet =
    let s' = step c i a s in
    let (wrote, still) = write_cycle c i a s here no_command calm asks at silent in
    let calm' = IsCalm-same c s.csrs s'.csrs calm wrote.same in
    let halted = halted_still c i a s here calm silent wrote.same in
    let bad : (abstract_cmd c s'.csrs.command_q).1 ≡ (abstract_cmd c i.dmi_req_data).1 =
      ap (λ (w : ℕ). (abstract_cmd c w).1) wrote.command in
    let before =
      command_cycle c (request c false s'.csrs) b s'.mem
        (request-IsStill c false s'.csrs b s'.mem calm' still quiet) wrote.valid in
    let later =
      command_cycle c (request c (clearing c j b s') s'.csrs) b s'.mem
        (request-IsStill c (clearing c j b s') s'.csrs b s'.mem calm' still quiet) wrote.valid in
    let (kept, error) = idle_cycle c (wired c j b s') s'.csrs calm'.active ends in
    let told = error_case _ _ _ _ s'.csrs.cmderr_q before.0 before.1 in
    (
      kept ∙ wrote.command,
      later.2 ∙ same_state bad halted,
      error ∙ (told ∙ same_error bad halted wrote.error),
    )

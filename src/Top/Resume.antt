-- ===== src/Top/Resume.antt =====
-- What comes of a write of dmcontrol that asks the selected hart to resume.
use riscv_dbg.Common.{
  ℕ, ◌+◌, ◌*◌, ◌/◌, ◌%◌, ◌^◌, ◌≡◌, ◌∙◌, refl, ap, arith, Bool, true, false, not, ◌&&◌, ltb, ◌==◌,
  if◌then◌else◌,
}
use riscv_dbg.Mem.{
  Config, Access, Request, Mem, idle, resume, clog2, hart_index, hart_valid, aligned,
}
use riscv_dbg.Mem.Control.{control, control_case, accept, writes_to, resuming_d}
use riscv_dbg.Mem.Memory
use riscv_dbg.Dmi.{dtm_write}
use riscv_dbg.Csrs.{Csrs, Dmcontrol, Inputs, dm_csr, dmcontrol}
use riscv_dbg.Csrs.Words.{dmcontrol_of}
use riscv_dbg.Csrs.Status.{hartsel_of, selected_hart}
use riscv_dbg.Csrs.Access.{write_csr}
use riscv_dbg.Csrs.Step
use riscv_dbg.Csrs.Step.{
  csr_read_write, access, registered, defaults, legal_dmcontrol, haltreq_o, resumereq_o,
}
use riscv_dbg.Csrs.RoundTrip.{IsRequest, access-write}
use riscv_dbg.Top.{Top, request, controlled, wired, step}
use riscv_dbg.Top.Command.{IsCalm, quiet_cycle, halts_kept, request-IsStill}

-- A word for dmcontrol that asks to resume and for nothing else.
pub record AsksResume (w : ℕ) : Type 0 where
  pub asks : (dmcontrol_of w).resumereq ≡ true
  pub no_halt : (dmcontrol_of w).haltreq ≡ false
  pub no_reset : (dmcontrol_of w).ndmreset ≡ false
  pub stays_active : (dmcontrol_of w).dmactive ≡ true

-- The hart that it selects.
unfoldable pub selects_hart : Config → ℕ → ℕ
unfolding hart_index dmcontrol_of clog2
selects_hart c w = hart_index c (hartsel_of (dmcontrol_of w) % 2 ^ clog2 c.nr_harts)

-- What the registers hold behind the write.
record IsAsked (c : Config) (w : ℕ) (t : Csrs) : Type 0 where
  resumes : t.dmcontrol_q.resumereq ≡ true
  not_halts : t.dmcontrol_q.haltreq ≡ false
  not_resets : t.dmcontrol_q.ndmreset ≡ false
  active : t.dmcontrol_q.dmactive ≡ true
  selected : hart_index c (hartsel_of t.dmcontrol_q) ≡ selects_hart c w
  none : t.cmd_valid_q ≡ false

write_fields :
    (c : Config) (i : Inputs) (s : Csrs)
    → access c i s ≡ write_csr dmcontrol c i s (defaults i s)
    → ((access c i s).next.dmcontrol_q ≡ dmcontrol_of i.dmi_req_data)
      × ((access c i s).next.cmd_valid_q ≡ false)
unfolding write_csr defaults
write_fields c i s wrote = rw wrote (refl, refl)

rejoined : (x : ℕ) → x / 2 ^ 10 * 2 ^ 10 + x % 2 ^ 10 ≡ x
rejoined x = omega arith

legal_asked :
    (c : Config) (i : Inputs) (q d : Dmcontrol) (w : ℕ)
    → q.resumereq ≡ false
    → AsksResume w
    → d ≡ dmcontrol_of w
    → let n = legal_dmcontrol c i q d in
      (n.resumereq ≡ true)
      × (n.haltreq ≡ false)
      × (n.ndmreset ≡ false)
      × (n.dmactive ≡ true)
      × (hart_index c (hartsel_of n) ≡ selects_hart c w)
unfolding legal_dmcontrol selects_hart
legal_asked c i q d w fresh h e =
    rw (e, fresh) (h.asks, h.no_halt, h.no_reset, h.stays_active, ap (hart_index c) (rejoined _))

active_registered :
    (c : Config) (active : Bool) (n : Csrs) (w : ℕ)
    → active ≡ true
    → IsAsked c w n
    → IsAsked c w (registered c active n)
unfolding registered
active_registered c true n w on h = record {
  resumes = h.resumes;
  not_halts = h.not_halts;
  not_resets = h.not_resets;
  active = h.active;
  selected = h.selected;
  none = h.none;
}
active_registered c false n w on h = absurd (ground arith)

dmcontrol_write :
    (c : Config) (i : Inputs) (s : Csrs)
    → s.dmcontrol_q.dmactive ≡ true
    → s.dmcontrol_q.resumereq ≡ false
    → access c i s ≡ write_csr dmcontrol c i s (defaults i s)
    → AsksResume i.dmi_req_data
    → IsAsked c i.dmi_req_data (Step.posedge c i s)
      × ((csr_read_write c i s).clear_resumeack_o ≡ true)
unfolding Step.posedge csr_read_write
dmcontrol_write c i s active fresh wrote h =
    let (written, none) = write_fields c i s wrote in
    let (x, y, z, u, v) =
      legal_asked c i s.dmcontrol_q (access c i s).next.dmcontrol_q i.dmi_req_data fresh h
        written in
    (
      active_registered c s.dmcontrol_q.dmactive (csr_read_write c i s).next i.dmi_req_data active
          (record {
            resumes = x;
            not_halts = y;
            not_resets = z;
            active = u;
            selected = v;
            none = none;
          }),
      ap (λ (d : Dmcontrol). not s.dmcontrol_q.resumereq && d.resumereq) written
          ∙ ground (arith, fresh, h.asks),
    )

-- The acknowledgements behind the cycle of the write: that of the hart that was selected is cleared.
acks_after :
    (c : Config) (r : Request) (a : Access) (m : Mem) (h : ℕ)
    → r.clear_resumeack_i ≡ true
    → r.ndmreset_i ≡ false
    → a.req_i ≡ false
    → (Memory.posedge c r a m).resuming_q h
      ≡ c.selectable_harts h
        && m.resuming_q h
        && not (hart_valid c (hart_index c r.hartsel_i) && h == hart_index c r.hartsel_i)
unfolding Memory.posedge resuming_d writes_to
acks_after c r a m h clears no_reset silent = ground arith

-- The test of the control in Idle.
abbrev tested : Config → Request → Mem → ℕ → Bool
tested c r m k =
    aligned c r.resumereq_i k
    && not (aligned c m.resuming_q k)
    && not (aligned c r.haltreq_i k)
    && aligned c m.halted_q k

-- In Idle without a command a resume starts by this test.
resume_case :
    (c : Config) (r : Request) (a : Access) (m : Mem)
    → m.state_q ≡ idle
    → r.cmd_valid_i ≡ false
    → r.ndmreset_i ≡ false
    → (Memory.posedge c r a m).state_q
      ≡ (if tested c r m (hart_index c r.hartsel_i) then resume else idle)
unfolding Memory.posedge control control_case accept
resume_case c r a m here none no_reset = ground arith

-- The selected hart is halted, may be, and its acknowledgement is cleared with the request: that is so
-- if it was selected before, and otherwise only if it had none.
unfoldable pub can_resume : Config → Top → ℕ → Bool
unfolding hart_valid hart_index aligned
can_resume c s h =
    let old = hart_index c (hartsel_of s.csrs.dmcontrol_q) in
    hart_valid c h
    && c.selectable_harts h
    && aligned c s.mem.halted_q h
    && not (s.mem.resuming_q h && not (hart_valid c old && h == old))

requested_outputs :
    (c : Config) (w : ℕ) (t : Csrs)
    → IsAsked c w t
    → (aligned c (resumereq_o c t) (selects_hart c w)
        ≡ ltb (selects_hart c w) c.nr_harts && hart_valid c (selects_hart c w))
      × (aligned c (haltreq_o c t) (selects_hart c w) ≡ false)
unfolding aligned resumereq_o haltreq_o selected_hart
requested_outputs c w t h = ground (arith, h.selected, h.resumes, h.not_halts)

test_case :
    (c : Config) (s : Top) (h : ℕ) (asked halts : Bool) (acks halted : ℕ → Bool)
    → asked ≡ ltb h c.nr_harts && hart_valid c h
    → halts ≡ false
    → (let old = hart_index c (hartsel_of s.csrs.dmcontrol_q) in
        acks h ≡ c.selectable_harts h && s.mem.resuming_q h && not (hart_valid c old && h == old))
    → halted h ≡ c.selectable_harts h && s.mem.halted_q h
    → asked && not (aligned c acks h) && not halts && aligned c halted h ≡ can_resume c s h
unfolding can_resume aligned
test_case c s h asked halts acks halted e f g k = ground (arith, e, f, g, k)

-- The debugger writes dmcontrol, in an active module whose dmcontrol is legal and asks for no reset
-- and no resume, while the control is idle, no command is pending and no hart accesses the memory:
-- the word has resumereq and dmactive and neither haltreq nor ndmreset. The control starts the resume
-- in the next cycle, whatever comes in that, exactly if the hart that the word selects is halted and
-- has no old acknowledgement. The write clears the acknowledgement of the hart that was
-- selected before it only, so a hart that is selected by the same write and has an old one stays
-- halted.
pub step-resumes :
    (c : Config) (i j : Inputs) (a b : Access) (s : Top)
    → s.mem.state_q ≡ idle
    → s.csrs.cmd_valid_q ≡ false
    → IsCalm c s.csrs
    → IsRequest dtm_write i
    → dm_csr i.dmi_req_addr ≡ dmcontrol
    → AsksResume i.dmi_req_data
    → a.req_i ≡ false
    → (step c j b (step c i a s)).mem.state_q
      ≡ (if can_resume c s (selects_hart c i.dmi_req_data) then resume else idle)
unfolding step wired controlled request
step-resumes c i j a b s here no_command calm asks at wants silent =
    let d = wired c i a s in
    let wrote =
      access-write c d s.csrs asks.taken asks.does
      ∙ ap (λ r. write_csr r c d s.csrs (defaults d s.csrs)) at in
    let (asked, clears) = dmcontrol_write c d s.csrs calm.active calm.no_resume wrote wants in
    let clear = (csr_read_write c d s.csrs).clear_resumeack_o in
    let still = request-IsStill c clear s.csrs a s.mem calm here silent in
    let s' = step c i a s in
    let h = selects_hart c i.dmi_req_data in
    let (resumes, halts) = requested_outputs c i.dmi_req_data s'.csrs asked in
    let (_, _, stays) = quiet_cycle c (request c clear s.csrs) a s.mem still no_command in
    let clear' = (csr_read_write c (wired c j b s') s'.csrs).clear_resumeack_o in
    let next =
      resume_case c (request c clear' s'.csrs) b s'.mem stays asked.none asked.not_resets in
    let known =
      test_case c s h _ _ s'.mem.resuming_q s'.mem.halted_q resumes halts
        (acks_after c (request c clear s.csrs) a s.mem h clears calm.no_reset silent)
        (halts_kept c (request c clear s.csrs) a s.mem h still) in
    next
    ∙ ap (λ k. if tested c (request c clear' s'.csrs) s'.mem k then resume else idle) asked.selected
    ∙ ap (λ x. if x then resume else idle) known

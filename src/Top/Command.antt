-- ===== src/Top/Command.antt =====
-- A write of the command register, from the debugger to the hart.
use riscv_dbg.Common.{
  ℕ, ◌%◌, ◌^◌, ◌≡◌, ◌∙◌, ap, subst, sym, arith, Bool, true, false, not, ◌&&◌, ◌||◌, if◌then◌else◌,
}
use native.Mathlib.Nat.{mod-eq_of_lt}
use riscv_dbg.Mem.{
  Config, Request, Access, Mem, none, not_supported, halt_resume, idle, go, clog2, hart_index,
  aligned,
}
use riscv_dbg.Mem.Control.{control, control_case, accept, raises_exception, halted_d, writes_to}
use riscv_dbg.Mem.Commands.{abstract_cmd}
use riscv_dbg.Mem.Memory
use riscv_dbg.Mem.Memory.{data_valid_o}
use riscv_dbg.Dmi.{dtm_write}
use riscv_dbg.Csrs.{Csrs, Dmcontrol, Inputs, accepted, dm_csr}
use riscv_dbg.Csrs
use riscv_dbg.Csrs.Status.{hartsel_of}
use riscv_dbg.Csrs.Access.{write_csr, refuse_busy}
use riscv_dbg.Csrs.Step
use riscv_dbg.Csrs.Step.{
  csr_read_write, access, registered, defaults, legal_dmcontrol, haltreq_o, resumereq_o,
}
use riscv_dbg.Csrs.RoundTrip.{IsRequest, access-write}
use riscv_dbg.Csrs.Sound.{IsLegal}
use riscv_dbg.Top.{request}

-- The registers ask the control for nothing, and the module is active.
pub record IsCalm (c : Config) (s : Csrs) : Type 0 where
  pub legal : IsLegal c s.dmcontrol_q
  pub active : s.dmcontrol_q.dmactive ≡ true
  pub no_reset : s.dmcontrol_q.ndmreset ≡ false
  pub no_resume : s.dmcontrol_q.resumereq ≡ false

-- What the registers hold behind the write of the command `w`.
pub record IsWritten (w : ℕ) (s t : Csrs) : Type 0 where
  pub valid : t.cmd_valid_q ≡ true
  pub command : t.command_q ≡ w
  pub error : t.cmderr_q ≡ s.cmderr_q
  pub same : t.dmcontrol_q ≡ s.dmcontrol_q

-- A legal `dmcontrol` without a request to resume is left as it is.
legal_dmcontrol-same :
    (c : Config) (i : Inputs) (d : Dmcontrol)
    → IsLegal c d
    → d.resumereq ≡ false
    → legal_dmcontrol c i d d ≡ d
unfolding legal_dmcontrol
legal_dmcontrol-same c i d h no_resume =
    let whole : hartsel_of d % 2 ^ clog2 c.nr_harts ≡ hartsel_of d = mod-eq_of_lt h.selects in
    ground (arith, whole, h.low, h.constants, no_resume)

-- What the case of the write leaves.
command_write :
    (c : Config) (i : Inputs) (s : Csrs)
    → i.cmdbusy_i ≡ false
    → IsWritten i.dmi_req_data s (write_csr Csrs.command c i s (defaults i s)).next
unfolding write_csr refuse_busy defaults
command_write c i s free = ground arith

posedge_write :
    (c : Config) (i : Inputs) (s : Csrs) (w : ℕ)
    → s.dmcontrol_q.dmactive ≡ true
    → i.cmderror_valid_i ≡ false
    → legal_dmcontrol c i s.dmcontrol_q s.dmcontrol_q ≡ s.dmcontrol_q
    → IsWritten w s (access c i s).next
    → IsWritten w s (Step.posedge c i s)
unfolding Step.posedge registered csr_read_write
posedge_write c i s w active quiet kept h =
    let same : legal_dmcontrol c i s.dmcontrol_q (access c i s).next.dmcontrol_q ≡ s.dmcontrol_q =
      ap (legal_dmcontrol c i s.dmcontrol_q) h.same ∙ kept in
    ground (arith, h.valid, h.command, h.error, same)

pub written :
    (c : Config) (i : Inputs) (s : Csrs)
    → IsCalm c s
    → IsRequest dtm_write i
    → dm_csr i.dmi_req_addr ≡ Csrs.command
    → i.cmdbusy_i ≡ false
    → i.cmderror_valid_i ≡ false
    → IsWritten i.dmi_req_data s (Step.posedge c i s)
written c i s h asks at free quiet =
    let wrote =
      access-write c i s asks.taken asks.does ∙ ap (λ r. write_csr r c i s (defaults i s)) at in
    let kept = legal_dmcontrol-same c i s.dmcontrol_q h.legal h.no_resume in
    posedge_write c i s i.dmi_req_data h.active quiet kept (
      subst (λ (o : Csrs.Outcome). IsWritten i.dmi_req_data s o.next) (sym wrote)
        (command_write c i s free))

-- The debugger is silent, and the control may report an error: what the next cycle makes of it.
pub idle_cycle :
    (c : Config) (i : Inputs) (s : Csrs)
    → s.dmcontrol_q.dmactive ≡ true
    → accepted i ≡ false
    → ((Step.posedge c i s).command_q ≡ s.command_q)
      × ((Step.posedge c i s).cmderr_q ≡ (if i.cmderror_valid_i then i.cmderror_i else s.cmderr_q))
unfolding Step.posedge registered csr_read_write access defaults
idle_cycle c i s active silent = ground arith

-- The control in Idle with a request that does not ask to resume or to reset, while no hart
-- accesses the memory.
pub record IsStill (c : Config) (r : Request) (a : Access) (s : Mem) : Type 0 where
  pub here : s.state_q ≡ idle
  pub stays : aligned c r.resumereq_i (hart_index c r.hartsel_i) ≡ false
  pub no_reset : r.ndmreset_i ≡ false
  pub silent : a.req_i ≡ false

-- Without a command.
pub quiet_cycle :
    (c : Config) (r : Request) (a : Access) (s : Mem)
    → IsStill c r a s
    → r.cmd_valid_i ≡ false
    → ((control c r a s).cmdbusy_o ≡ false)
      × ((control c r a s).cmderror_valid_o ≡ false)
      × ((Memory.posedge c r a s).state_q ≡ idle)
unfolding control control_case accept raises_exception writes_to Memory.posedge
quiet_cycle c r a s h no_command = ground (arith, h.here, h.stays, h.no_reset, h.silent)

pub halts_kept :
    (c : Config) (r : Request) (a : Access) (s : Mem) (k : ℕ)
    → IsStill c r a s
    → (Memory.posedge c r a s).halted_q k ≡ c.selectable_harts k && s.halted_q k
unfolding halted_d writes_to Memory.posedge
halts_kept c r a s k h = ground (arith, h.no_reset, h.silent)

-- With one.
pub command_cycle :
    (c : Config) (r : Request) (a : Access) (s : Mem)
    → IsStill c r a s
    → r.cmd_valid_i ≡ true
    → let bad = (abstract_cmd c r.cmd_i).1 in
      let halted = aligned c s.halted_q (hart_index c r.hartsel_i) in
      let k = control c r a s in
      (k.cmderror_valid_o ≡ bad || not halted)
      × (k.cmderror_o ≡ (if bad then not_supported else if halted then none else halt_resume))
      × ((Memory.posedge c r a s).state_q ≡ (if bad || not halted then idle else go))
unfolding control control_case accept raises_exception writes_to Memory.posedge
command_cycle c r a s h given = ground (arith, h.here, h.stays, h.no_reset, h.silent)

no_resume_request :
    (c : Config) (s : Csrs) (h : ℕ)
    → s.dmcontrol_q.resumereq ≡ false
    → aligned c (resumereq_o c s) h ≡ false
unfolding aligned resumereq_o
no_resume_request c s h never = ground arith

pub request-IsStill :
    (c : Config) (clear : Bool) (s : Csrs) (a : Access) (m : Mem)
    → IsCalm c s
    → m.state_q ≡ idle
    → a.req_i ≡ false
    → IsStill c (request c clear s) a m
unfolding request
request-IsStill c clear s a m h here silent = record {
  here = here;
  stays = no_resume_request c s (hart_index c (hartsel_of s.dmcontrol_q)) h.no_resume;
  no_reset = h.no_reset;
  silent = silent;
}

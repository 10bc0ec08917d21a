-- ===== src/Mem/Control.antt =====
-- The control of the harts, `p_hart_ctrl_queue` of src/dm_mem.sv, and the writes of the harts that it
-- waits for.
use riscv_dbg.Common.{ℕ, ◌%◌, ◌^◌, Bool, true, false, not, ◌&&◌, ◌==◌, if◌then◌else◌}
use riscv_dbg.Mem.{
  Config, Request, Access, Mem, MemState, CmdErr, none, not_supported, exception, halt_resume, idle,
  go, resume, cmd_executing, hart_index, hart_valid, aligned,
}
use riscv_dbg.Mem.Commands.{abstract_cmd}

-- `addr_i[DbgAddressBits-1:0]`
abbrev pub dbg_address : Access → ℕ
dbg_address a = a.addr_i % 2 ^ 12

abbrev halted_addr : ℕ
halted_addr = 0x100

abbrev going_addr : ℕ
going_addr = 0x108

abbrev pub resuming_addr : ℕ
resuming_addr = 0x110

abbrev exception_addr : ℕ
exception_addr = 0x118

-- A write of a hart to this address.
unfoldable pub writes_to : Access → ℕ → Bool
writes_to a x = a.req_i && a.we_i && dbg_address a == x

-- `v[i] = b`
abbrev pub set_bit : (ℕ → Bool) → ℕ → Bool → ℕ → Bool
set_bit v i b h = if h == i then b else v h

-- `halted_aligned`, `going` and `exception` of `p_rw_logic`.
unfoldable pub halted_aligned : Config → Access → ℕ → Bool
unfolding writes_to hart_index
halted_aligned c a h = writes_to a halted_addr && h == hart_index c a.wdata_i

unfoldable pub going : Access → Bool
unfolding writes_to
going a = writes_to a going_addr

unfoldable pub raises_exception : Access → Bool
unfolding writes_to
raises_exception a = writes_to a exception_addr

-- `halted_d`
unfoldable pub halted_d : Config → Request → Access → Mem → ℕ → Bool
unfolding writes_to hart_index hart_valid
halted_d c r a s h =
    let w = hart_index c a.wdata_i in
    let halted =
      if writes_to a halted_addr && hart_valid c w
      then set_bit s.halted_q w true h
      else s.halted_q h in
    let released =
      if writes_to a resuming_addr && hart_valid c w
      then set_bit s.halted_q w false h
      else halted in
    if r.ndmreset_i then false else released

-- `p_resuming`
unfoldable pub resuming_d : Config → Request → Access → Mem → ℕ → Bool
unfolding writes_to hart_index hart_valid
resuming_d c r a s h =
    let w = hart_index c a.wdata_i in
    let sel = hart_index c r.hartsel_i in
    let cleared =
      if r.clear_resumeack_i && hart_valid c sel
      then set_bit s.resuming_q sel false h
      else s.resuming_q h in
    let acknowledged =
      if writes_to a resuming_addr && hart_valid c w
      then (if h == w then true else cleared)
      else cleared in
    if r.ndmreset_i then false else acknowledged

pub record Control : Type 0 where
  pub cmderror_valid_o : Bool
  pub cmderror_o : CmdErr
  pub state_d : MemState
  pub go : Bool
  pub resume : Bool
  pub cmdbusy_o : Bool

abbrev quiet : MemState → Control
quiet q = record {
  cmderror_valid_o = false;
  cmderror_o = none;
  state_d = q;
  go = false;
  resume = false;
  cmdbusy_o = true;
}

abbrev unsupported_command : Config → Request → Bool
unsupported_command c r = (abstract_cmd c r.cmd_i).1

-- The case Idle: first the command, then a request to resume.
unfoldable pub accept : Config → Request → Mem → Control
unfolding aligned hart_index
accept c r s =
    let sel = hart_index c r.hartsel_i in
    let halted = aligned c s.halted_q sel in
    let rest = record (quiet idle) { cmdbusy_o = false } in
    let command =
      if r.cmd_valid_i && halted && not (unsupported_command c r)
      then record rest { state_d = go }
      else if r.cmd_valid_i
      then record rest { cmderror_valid_o = true; cmderror_o = halt_resume }
      else rest in
    if aligned c r.resumereq_i sel
      && not (aligned c s.resuming_q sel)
      && not (aligned c r.haltreq_i sel)
      && halted
    then record command { state_d = resume }
    else command

-- The `unique case`.
unfoldable pub control_case : MemState → Config → Request → Access → Mem → Control
unfolding accept aligned hart_index going halted_aligned
control_case idle c r a s = accept c r s
control_case go c r a s = record (quiet (if going a then cmd_executing else go)) { go = true }
control_case resume c r a s =
    record (quiet (if aligned c s.resuming_q (hart_index c r.hartsel_i) then idle else resume)) {
      resume = true;
    }
control_case cmd_executing c r a s =
    quiet (if halted_aligned c a (hart_index c r.hartsel_i) then idle else cmd_executing)

abbrev raise : CmdErr → Control → Control
raise e k = record k { cmderror_valid_o = true; cmderror_o = e }

-- The three `if`s behind the case.
unfoldable pub control : Config → Request → Access → Mem → Control
unfolding control_case raises_exception
control c r a s =
    let k = control_case s.state_q c r a s in
    let k' = if unsupported_command c r && r.cmd_valid_i then raise not_supported k else k in
    let k'' = if raises_exception a then raise exception k' else k' in
    if r.ndmreset_i then record k'' { state_d = idle; go = false; resume = false } else k''

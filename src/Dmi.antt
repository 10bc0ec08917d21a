-- ===== src/Dmi.antt =====
-- The debug module interface over JTAG, src/dmi_jtag.sv: the registers that TCK clocks. The strobes
-- of the test access port and the answers from the clock domain crossing are inputs. A register is a
-- number below 2 to its width.
pub mod Sticky
pub mod Handshake
mod Examples
pub mod Scan
use riscv_dbg.Common.{
  ℕ, ◌+◌, ◌*◌, ◌/◌, ◌%◌, ◌^◌, Bool, true, false, not, ◌&&◌, ◌||◌, ◌==◌, if◌then◌else◌, to_bit,
}

pub data DmiError : Type 0 where
  dmi_no_error dmi_reserved_error dmi_op_failed dmi_busy : DmiError

unfoldable pub error_code : DmiError → ℕ
error_code dmi_no_error = 0
error_code dmi_reserved_error = 1
error_code dmi_op_failed = 2
error_code dmi_busy = 3

-- `state_e`; `parasitic` is any of the encodings that name no state.
pub data DmiState : Type 0 where
  idle read wait_read_valid write wait_write_valid parasitic : DmiState

abbrev pub dtm_read : ℕ
dtm_read = 1

abbrev pub dtm_write : ℕ
dtm_write = 2

-- `dtm_op_status_e`
abbrev pub dtm_success : ℕ
dtm_success = 0

abbrev pub dtm_err : ℕ
dtm_err = 2

abbrev pub dtm_busy : ℕ
dtm_busy = 3

pub record Dmi : Type 0 where
  pub dr_q : ℕ
  pub state_q : DmiState
  pub address_q : ℕ
  pub data_q : ℕ
  pub error_q : DmiError
  pub dtmcs_q : ℕ

-- What the test access port drives.
pub record Strobe : Type 0 where
  pub jtag_dmi_clear : Bool
  pub update : Bool
  pub capture : Bool
  pub shift : Bool
  pub tdi : Bool
  pub dtmcs_select : Bool
  pub dmi_select : Bool

-- What the clock domain crossing drives.
pub record Answer : Type 0 where
  pub dmi_req_ready : Bool
  pub dmi_resp_valid : Bool
  pub resp : ℕ
  pub resp_data : ℕ

-- The fields of `dtmcs_t` that the code reads.
unfoldable pub dmihardreset : ℕ → Bool
dmihardreset dtmcs = dtmcs / 2 ^ 17 % 2 == 1

unfoldable pub dmireset : ℕ → Bool
dmireset dtmcs = dtmcs / 2 ^ 16 % 2 == 1

unfoldable pub dmi_clear : Strobe → Dmi → Bool
unfolding dmihardreset
dmi_clear i s = i.jtag_dmi_clear || (i.dtmcs_select && i.update && dmihardreset s.dtmcs_q)

unfoldable pub dtmcs_d : Strobe → Dmi → ℕ
unfolding error_code
dtmcs_d i s =
    let status = 1 * 2 ^ 12 + error_code s.error_q * 2 ^ 10 + 7 * 2 ^ 4 + 1 in
    let captured = if i.capture && i.dtmcs_select then status else s.dtmcs_q in
    if i.shift && i.dtmcs_select then to_bit i.tdi * 2 ^ 31 + s.dtmcs_q / 2 else captured

-- The fields of `dmi_t`.
abbrev pub op_field : ℕ → ℕ
op_field dr = dr % 4

abbrev pub data_field : ℕ → ℕ
data_field dr = dr / 4 % 2 ^ 32

abbrev pub address_field : ℕ → ℕ
address_field dr = dr / 2 ^ 34 % 2 ^ 7

-- What `p_fsm` sets.
pub record Fsm : Type 0 where
  pub state_d : DmiState
  pub address_d : ℕ
  pub data_d : ℕ
  pub error_d : DmiError
  pub dmi_req_valid : Bool
  pub error_dmi_busy : Bool
  pub error_dmi_op_failed : Bool

abbrev unchanged : Dmi → Fsm
unchanged s = record {
  state_d = s.state_q;
  address_d = s.address_q;
  data_d = s.data_q;
  error_d = s.error_q;
  dmi_req_valid = false;
  error_dmi_busy = false;
  error_dmi_op_failed = false;
}

abbrev pub is_clean : DmiError → Bool
is_clean dmi_no_error = true
is_clean _ = false

unfoldable pub idle_case : Strobe → Dmi → Fsm
idle_case i s =
    let op = op_field s.dr_q in
    let next = if op == dtm_read then read else if op == dtm_write then write else idle in
    if i.dmi_select && i.update && is_clean s.error_q
    then record (unchanged s) {
      address_d = address_field s.dr_q;
      data_d = data_field s.dr_q;
      state_d = next;
    }
    else unchanged s

unfoldable pub read_response : Answer → Dmi → Fsm
read_response a s =
    let back = record (unchanged s) { state_d = idle } in
    if a.resp == dtm_success
    then record back { data_d = a.resp_data }
    else if a.resp == dtm_err
    then record back { data_d = 0xdeadbeef; error_dmi_op_failed = true }
    else if a.resp == dtm_busy
    then record back { data_d = 0xb051b051; error_dmi_busy = true }
    else record back { data_d = 0xbaadc0de }

unfoldable pub write_response : Answer → Dmi → Fsm
write_response a s =
    let back = record (unchanged s) { state_d = idle } in
    if a.resp == dtm_err
    then record back { error_dmi_op_failed = true }
    else if a.resp == dtm_busy
    then record back { error_dmi_busy = true }
    else back

-- The `unique case`.
unfoldable pub fsm_case : DmiState → Strobe → Answer → Dmi → Fsm
unfolding idle_case read_response write_response
fsm_case idle i a s = idle_case i s
fsm_case read i a s = record (unchanged s) {
  dmi_req_valid = true;
  state_d = if a.dmi_req_ready then wait_read_valid else read;
}
fsm_case wait_read_valid i a s = if a.dmi_resp_valid then read_response a s else unchanged s
fsm_case write i a s = record (unchanged s) {
  dmi_req_valid = true;
  state_d = if a.dmi_req_ready then wait_write_valid else write;
}
fsm_case wait_write_valid i a s = if a.dmi_resp_valid then write_response a s else unchanged s
fsm_case parasitic i a s =
    if a.dmi_resp_valid then record (unchanged s) { state_d = idle } else unchanged s

abbrev is_idle : DmiState → Bool
is_idle idle = true
is_idle _ = false

abbrev is_reading : DmiState → Bool
is_reading read = true
is_reading wait_read_valid = true
is_reading _ = false

-- The `if`s behind the case that set `error_dmi_busy`, and those that set `error_d`.
unfoldable pub overrun : Strobe → Dmi → Fsm → Fsm
overrun i s f =
    if (i.update && not (is_idle s.state_q)) || (i.capture && is_reading s.state_q)
    then record f { error_dmi_busy = true }
    else f

unfoldable pub collect : Strobe → Dmi → Fsm → Fsm
unfolding dmireset
collect i s f =
    let clean = is_clean s.error_q in
    let busy = if f.error_dmi_busy && clean then dmi_busy else f.error_d in
    let failed = if f.error_dmi_op_failed && clean then dmi_op_failed else busy in
    let cleared =
      if i.update && dmireset s.dtmcs_q && i.dtmcs_select then dmi_no_error else failed in
    record f { error_d = cleared }

unfoldable pub fsm : Strobe → Answer → Dmi → Fsm
unfolding dmi_clear fsm_case overrun collect
fsm i a s =
    if dmi_clear i s
    then record (unchanged s) { state_d = idle; data_d = 0; error_d = dmi_no_error; address_d = 0 }
    else collect i s (overrun i s (fsm_case s.state_q i a s))

abbrev pub is_busy_error : DmiError → Bool
is_busy_error dmi_busy = true
is_busy_error _ = false

-- `p_shift`
unfoldable pub dr_d : Strobe → Answer → Dmi → ℕ
unfolding dmi_clear fsm error_code
dr_d i a s =
    let busy = (fsm i a s).error_dmi_busy in
    let word = s.address_q * 2 ^ 34 + s.data_q * 4 in
    let capture_value =
      if is_clean s.error_q && not busy
      then word + error_code dmi_no_error
      else if is_busy_error s.error_q || busy
      then word + error_code dmi_busy
      else s.dr_q in
    let captured = if i.capture && i.dmi_select then capture_value else s.dr_q in
    let shifted =
      if i.shift && i.dmi_select then to_bit i.tdi * 2 ^ 40 + s.dr_q / 2 else captured in
    if dmi_clear i s then 0 else shifted

-- The asynchronous reset.
unfoldable pub reset : Dmi
reset = record {
  dr_q = 0;
  state_q = idle;
  address_q = 0;
  data_q = 0;
  error_q = dmi_no_error;
  dtmcs_q = 0;
}

-- A rising edge of TCK.
unfoldable pub posedge : Strobe → Answer → Dmi → Dmi
unfolding fsm dr_d dtmcs_d
posedge i a s =
    let f = fsm i a s in
    record {
      dr_q = dr_d i a s;
      state_q = f.state_d;
      address_q = f.address_d;
      data_q = f.data_d;
      error_q = f.error_d;
      dtmcs_q = dtmcs_d i s;
    }

-- `dmi_req`
pub record Request : Type 0 where
  pub addr : ℕ
  pub op : ℕ
  pub req_data : ℕ

abbrev is_writing : DmiState → Bool
is_writing write = true
is_writing _ = false

unfoldable pub dmi_req : Dmi → Request
dmi_req s = record {
  addr = s.address_q;
  op = if is_writing s.state_q then dtm_write else dtm_read;
  req_data = s.data_q;
}

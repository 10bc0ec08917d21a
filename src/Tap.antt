-- ===== src/Tap.antt =====
-- The JTAG test access port, src/dmi_jtag_tap.sv, at the width 5 of the instruction register with
-- which src/dmi_jtag.sv instantiates it. A register is a number below 2 to its width; the low bit
-- is the one that is shifted out.
pub mod Controller
pub mod Shift
pub mod Select
pub mod Wire
pub mod Ticks
mod Examples
use riscv_dbg.Common.{
  ℕ, ◌+◌, ◌*◌, ◌/◌, ◌%◌, ◌^◌, Bool, true, false, ◌||◌, ◌==◌, if◌then◌else◌, to_bit,
}

pub data TapState : Type 0 where
  test_logic_reset run_test_idle select_dr_scan : TapState
  capture_dr shift_dr exit1_dr pause_dr exit2_dr : TapState
  update_dr select_ir_scan capture_ir shift_ir : TapState
  exit1_ir pause_ir exit2_ir update_ir : TapState

-- The values of `ir_reg_e` that the case statements name; any other value selects the bypass.
abbrev bypass0 : ℕ
bypass0 = 0x0

abbrev pub idcode_ir : ℕ
idcode_ir = 0x1

abbrev pub dtmcsr : ℕ
dtmcsr = 0x10

abbrev pub dmiaccess : ℕ
dmiaccess = 0x11

abbrev bypass1 : ℕ
bypass1 = 0x1f

-- The registers clocked by TCK.
pub record Tap : Type 0 where
  pub tap_state_q : TapState
  pub jtag_ir_shift_q : ℕ
  pub jtag_ir_q : ℕ
  pub idcode_q : ℕ
  pub bypass_q : ℕ

-- The registers clocked by the inverted TCK.
pub record Output : Type 0 where
  pub td_o : ℕ
  pub tdo_oe_o : Bool

-- `tap_state_d`
pub next_state : TapState → Bool → TapState
next_state test_logic_reset tms = if tms then test_logic_reset else run_test_idle
next_state run_test_idle tms = if tms then select_dr_scan else run_test_idle
next_state select_dr_scan tms = if tms then select_ir_scan else capture_dr
next_state capture_dr tms = if tms then exit1_dr else shift_dr
next_state shift_dr tms = if tms then exit1_dr else shift_dr
next_state exit1_dr tms = if tms then update_dr else pause_dr
next_state pause_dr tms = if tms then exit2_dr else pause_dr
next_state exit2_dr tms = if tms then update_dr else shift_dr
next_state update_dr tms = if tms then select_dr_scan else run_test_idle
next_state select_ir_scan tms = if tms then test_logic_reset else capture_ir
next_state capture_ir tms = if tms then exit1_ir else shift_ir
next_state shift_ir tms = if tms then exit1_ir else shift_ir
next_state exit1_ir tms = if tms then update_ir else pause_ir
next_state pause_ir tms = if tms then exit2_ir else pause_ir
next_state exit2_ir tms = if tms then update_ir else shift_ir
next_state update_ir tms = if tms then select_dr_scan else run_test_idle

-- The strobes of `p_tap_fsm`, each high in one state.
pub record Strobes : Type 0 where
  pub test_logic_reset : Bool
  pub capture_dr : Bool
  pub shift_dr : Bool
  pub update_dr : Bool
  pub capture_ir : Bool
  pub shift_ir : Bool
  pub update_ir : Bool

abbrev quiet : Strobes
quiet = record {
  test_logic_reset = false;
  capture_dr = false;
  shift_dr = false;
  update_dr = false;
  capture_ir = false;
  shift_ir = false;
  update_ir = false;
}

unfoldable pub strobes : TapState → Strobes
strobes test_logic_reset = record quiet { test_logic_reset = true }
strobes capture_dr = record quiet { capture_dr = true }
strobes shift_dr = record quiet { shift_dr = true }
strobes update_dr = record quiet { update_dr = true }
strobes capture_ir = record quiet { capture_ir = true }
strobes shift_ir = record quiet { shift_ir = true }
strobes update_ir = record quiet { update_ir = true }
strobes _ = quiet

-- `p_data_reg_sel`
pub record Selects : Type 0 where
  pub dmi_select_o : Bool
  pub dtmcs_select_o : Bool
  pub idcode_select : Bool
  pub bypass_select : Bool

abbrev unselected : Selects
unselected = record {
  dmi_select_o = false;
  dtmcs_select_o = false;
  idcode_select = false;
  bypass_select = false;
}

unfoldable pub selects : ℕ → Selects
selects ir =
    if ir == bypass0
    then record unselected { bypass_select = true }
    else if ir == idcode_ir
    then record unselected { idcode_select = true }
    else if ir == dtmcsr
    then record unselected { dtmcs_select_o = true }
    else if ir == dmiaccess
    then record unselected { dmi_select_o = true }
    else if ir == bypass1
    then record unselected { bypass_select = true }
    else record unselected { bypass_select = true }

-- A later `if` of an `always_comb` block overrides an earlier one.
jtag_ir_shift_d : Strobes → Bool → ℕ → ℕ
jtag_ir_shift_d on td q =
    let shifted = if on.shift_ir then to_bit td * 2 ^ 4 + q / 2 else q in
    let captured = if on.capture_ir then 0b0101 else shifted in
    if on.test_logic_reset then 0 else captured

jtag_ir_d : Strobes → ℕ → ℕ → ℕ
jtag_ir_d on shift_q ir_q =
    let updated = if on.update_ir then shift_q else ir_q in
    if on.test_logic_reset then idcode_ir else updated

idcode_d : ℕ → Strobes → Bool → Bool → ℕ → ℕ
idcode_d idcode_value on idcode_select td q =
    let captured = if on.capture_dr then (if idcode_select then idcode_value else q) else q in
    let shifted =
      if on.shift_dr
      then (if idcode_select then to_bit td * 2 ^ 31 + q / 2 else captured)
      else captured in
    if on.test_logic_reset then idcode_value else shifted

bypass_d : Strobes → Bool → Bool → ℕ → ℕ
bypass_d on bypass_select td q =
    let captured = if on.capture_dr then (if bypass_select then 0 else q) else q in
    let shifted =
      if on.shift_dr then (if bypass_select then to_bit td else captured) else captured in
    if on.test_logic_reset then 0 else shifted

-- The asynchronous reset `trst_ni`.
unfoldable pub reset : ℕ → Tap
reset idcode_value = record {
  tap_state_q = test_logic_reset;
  jtag_ir_shift_q = 0;
  jtag_ir_q = idcode_ir;
  idcode_q = idcode_value;
  bypass_q = 0;
}

-- A rising edge of TCK with the levels of TMS and TDI.
unfoldable pub posedge : ℕ → Bool → Bool → Tap → Tap
unfolding next_state strobes selects jtag_ir_shift_d jtag_ir_d idcode_d bypass_d
posedge idcode_value tms td t =
    let on = strobes t.tap_state_q in
    let sel = selects t.jtag_ir_q in
    record {
      tap_state_q = next_state t.tap_state_q tms;
      jtag_ir_shift_q = jtag_ir_shift_d on td t.jtag_ir_shift_q;
      jtag_ir_q = jtag_ir_d on t.jtag_ir_shift_q t.jtag_ir_q;
      idcode_q = idcode_d idcode_value on sel.idcode_select td t.idcode_q;
      bypass_q = bypass_d on sel.bypass_select td t.bypass_q;
    }

-- `p_out_sel`, with the low bits of the two registers of dmi_jtag.sv.
pub tdo_mux : ℕ → ℕ → Tap → ℕ
unfolding strobes
tdo_mux dtmcs_tdo dmi_tdo t =
    if (strobes t.tap_state_q).shift_ir
    then t.jtag_ir_shift_q % 2
    else if t.jtag_ir_q == idcode_ir
    then t.idcode_q % 2
    else if t.jtag_ir_q == dtmcsr
    then dtmcs_tdo
    else if t.jtag_ir_q == dmiaccess
    then dmi_tdo
    else t.bypass_q

-- A falling edge of TCK.
negedge : ℕ → ℕ → Tap → Output
unfolding tdo_mux strobes
negedge dtmcs_tdo dmi_tdo t =
    let on = strobes t.tap_state_q in
    record { td_o = tdo_mux dtmcs_tdo dmi_tdo t; tdo_oe_o = on.shift_ir || on.shift_dr }

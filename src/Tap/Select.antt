-- ===== src/Tap/Select.antt =====
-- The decoding of the instruction register and of the controller's state.
use riscv_dbg.Common.{ℕ, ◌+◌, ◌≤◌, ◌≡◌, ◌↔◌, arith, true, to_bit}
use riscv_dbg.Tap.{TapState, Strobes, Selects, strobes, selects, dtmcsr, dmiaccess, idcode_ir}

-- How many strobes are high.
abbrev strobe_count : Strobes → ℕ
strobe_count on =
    to_bit on.test_logic_reset
    + to_bit on.capture_dr
    + to_bit on.shift_dr
    + to_bit on.update_dr
    + to_bit on.capture_ir
    + to_bit on.shift_ir
    + to_bit on.update_ir

abbrev select_count : Selects → ℕ
select_count sel =
    to_bit sel.dmi_select_o
    + to_bit sel.dtmcs_select_o
    + to_bit sel.idcode_select
    + to_bit sel.bypass_select

-- In no state are two strobes high, and for every instruction exactly one data register is
-- selected: the DMI, DTMCS and IDCODE by their own codes, the bypass by all others.
one_register_selected :
    (s : TapState) (ir : ℕ)
    → (strobe_count (strobes s) ≤ 1)
      × (select_count (selects ir) ≡ 1)
      × (((selects ir).dmi_select_o ≡ true) ↔ (ir ≡ dmiaccess))
      × (((selects ir).dtmcs_select_o ≡ true) ↔ (ir ≡ dtmcsr))
      × (((selects ir).idcode_select ≡ true) ↔ (ir ≡ idcode_ir))
unfolding strobes selects
one_register_selected s ir = (
  ground arith,
  ground arith,
  (λ h. ground arith, λ h. ground arith),
  (λ h. ground arith, λ h. ground arith),
  (λ h. ground arith, λ h. ground arith),
)

-- ===== src/Tap/Shift.antt =====
-- What the port shifts: the instruction register is loaded, the IDCODE is read out.
use mathlib.Core.List.{append_assoc, append-nil}
use riscv_dbg.Common.{
  ℕ, ◌≡◌, refl, sym, ap, ◌∙◌, arith, Bool, true, false, List, [], ◌∷◌, ◌++◌, map, length, take,
  drop, to_bit, length-append,
}
use riscv_dbg.Common.Register.{value, value_low, shift_in}
use riscv_dbg.Tap.{run_test_idle, shift_dr, Tap, idcode_ir, posedge, tdo_mux}
use riscv_dbg.Tap.Controller.{edges}

-- The edges that load an instruction, from Run-Test/Idle and back, with the bits `b0` to `b4`
-- shifted in and any others while nothing is shifted.
abbrev pub load_ir : (b0 b1 b2 b3 b4 : Bool) (x : ℕ → Bool) → List (Bool × Bool)
load_ir b0 b1 b2 b3 b4 x =
    (true, x 0)
    ∷ (true, x 1)
    ∷ (false, x 2)
    ∷ (false, x 3)
    ∷ (false, b0)
    ∷ (false, b1)
    ∷ (false, b2)
    ∷ (false, b3)
    ∷ (true, b4)
    ∷ (true, x 4)
    ∷ (false, x 5)
    ∷ []

-- The instruction is the five bits, the first one lowest; the data registers are untouched.
edges-load_ir :
    (idcode_value : ℕ) (b0 b1 b2 b3 b4 : Bool) (x : ℕ → Bool) (t : Tap)
    → t.tap_state_q ≡ run_test_idle
    → let u = edges idcode_value (load_ir b0 b1 b2 b3 b4 x) t in
      (u.tap_state_q ≡ run_test_idle)
      × (u.jtag_ir_q ≡ value (b0 ∷ b1 ∷ b2 ∷ b3 ∷ b4 ∷ []))
      × (u.idcode_q ≡ t.idcode_q)
      × (u.bypass_q ≡ t.bypass_q)
unfolding edges posedge
edges-load_ir idcode_value b0 b1 b2 b3 b4 x t h = ground arith

-- Rising edges with TMS low in Shift-DR, and what stands on TDO before each.
pub scan : ℕ → List Bool → Tap → List ℕ × Tap
scan idcode_value [] t = ([], t)
scan idcode_value (d ∷ ds) t =
    let (out, u) = scan idcode_value ds (posedge idcode_value false d t) in (tdo_mux 0 0 t ∷ out, u)

-- One edge in Shift-DR with the IDCODE selected: the register's low bit is on TDO, and the bit on
-- TDI enters at its top.
shift_idcode :
    (idcode_value : ℕ) (b d : Bool) (bs : List Bool) (t : Tap)
    → t.tap_state_q ≡ shift_dr
    → t.jtag_ir_q ≡ idcode_ir
    → t.idcode_q ≡ value (b ∷ bs)
    → length bs ≡ 31
    → let u = posedge idcode_value false d t in
      (tdo_mux 0 0 t ≡ to_bit b)
      × (u.tap_state_q ≡ shift_dr)
      × (u.jtag_ir_q ≡ idcode_ir)
      × (u.idcode_q ≡ value (bs ++ d ∷ []))
unfolding posedge tdo_mux
shift_idcode idcode_value b d bs t s i v l = ground (arith, value_low b bs, shift_in 31 b d bs l)

-- With the IDCODE selected, the 32-bit register is a queue: TDO shows the bits that it held, the
-- lowest first, and then those that were shifted in, and it keeps the last 32.
pub scan_idcode :
    (idcode_value : ℕ) (ds bits : List Bool) (t : Tap)
    → t.tap_state_q ≡ shift_dr
    → t.jtag_ir_q ≡ idcode_ir
    → t.idcode_q ≡ value bits
    → length bits ≡ 32
    → ((scan idcode_value ds t).0 ≡ map to_bit (take (length ds) (bits ++ ds)))
      × ((scan idcode_value ds t).1.idcode_q ≡ value (drop (length ds) (bits ++ ds)))
unfolding scan
scan_idcode idcode_value [] bits t s i v l = (refl, v ∙ ap value (sym (append-nil bits)))
scan_idcode idcode_value (d ∷ ds) [] t s i v l = absurd (omega arith)
scan_idcode idcode_value (d ∷ ds) (b ∷ bits) t s i v l =
    let (out, s', i', v') = shift_idcode idcode_value b d bits t s i v (omega arith) in
    let (outs, kept) =
      scan_idcode idcode_value ds (bits ++ d ∷ []) (posedge idcode_value false d t) s' i' v'
        (omega (arith, length-append bits (d ∷ []))) in
    let regroup = append_assoc bits (d ∷ []) ds in
    (rw (out, outs, regroup) refl, kept ∙ ap (λ l. value (drop (length ds) l)) regroup)

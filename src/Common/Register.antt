-- ===== src/Common/Register.antt =====
-- Shift registers: a register holds the bits of a list, the low bit first.
use Prim.Native.Nat.{ℕ, ◌+◌, ◌*◌, ◌/◌, ◌%◌, ◌^◌, ◌<◌}
use mathlib.Core.Path.{◌≡◌, ap}
use mathlib.Core.Bool.{Bool, true, false}
use mathlib.Core.List.{List, [], ◌∷◌, ◌++◌}
use native.Mathlib.Nat.{pow-suc}
use native.Mathlib.Omega.{arith}
use riscv_dbg.Common.Tests.{to_bit}
use riscv_dbg.Common.Lists.{length}

abbrev pub value : List Bool → ℕ
value [] = 0
value (b ∷ bs) = to_bit b + 2 * value bs

to_bit-le : (b : Bool) → to_bit b < 2
to_bit-le true = omega arith
to_bit-le false = omega arith

pub value_low : (b : Bool) (bs : List Bool) → value (b ∷ bs) % 2 ≡ to_bit b
value_low b bs = omega (arith, to_bit-le b)

value_high : (b : Bool) (bs : List Bool) → value (b ∷ bs) / 2 ≡ value bs
value_high b bs = omega (arith, to_bit-le b)

value-append_bit :
    (bs : List Bool) (d : Bool) → value (bs ++ d ∷ []) ≡ to_bit d * 2 ^ length bs + value bs
value-append_bit [] d = omega arith
value-append_bit (b ∷ bs) d =
    omega (arith, value-append_bit bs d, ap (λ (t : ℕ). to_bit d * t) (pow-suc 2 (length bs)))

-- A shift by one: the low bit leaves and `d` enters at the top.
pub shift_in :
    (width : ℕ) (b d : Bool) (bs : List Bool)
    → length bs ≡ width
    → to_bit d * 2 ^ width + value (b ∷ bs) / 2 ≡ value (bs ++ d ∷ [])
shift_in width b d bs h = rw (← h) (omega (arith, value-append_bit bs d, value_high b bs))

value-lt : (bs : List Bool) → value bs < 2 ^ length bs
value-lt [] = omega arith
value-lt (b ∷ bs) = omega (arith, value-lt bs, pow-suc 2 (length bs), to_bit-le b)

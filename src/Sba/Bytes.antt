-- ===== src/Sba/Bytes.antt =====
-- The bytes that an access moves.
use riscv_dbg.Common.{
  ℕ, zero, suc, ◌-◌, ◌*◌, ◌/◌, ◌%◌, ◌^◌, ◌≤◌, ◌<◌, ◌≡◌, refl, ap, arith, not, ◌==◌, Bool-cases, inl,
  inr,
}
use riscv_dbg.Common.Masks.{bit_and_ones}
use riscv_dbg.Sba.{
  Config, Request, bus_width, be_idx_width, be_mask, sbaccess_mask, be_idx, is_misaligned,
}

below_8 : (P : ℕ → Type 0) → P 0 → P 1 → P 2 → P 3 → P 4 → P 5 → P 6 → P 7 → (n : ℕ) → n < 8 → P n
below_8 P a b c d e f g h zero lt = a
below_8 P a b c d e f g h (suc zero) lt = b
below_8 P a b c d e f g h (suc (suc zero)) lt = c
below_8 P a b c d e f g h (suc (suc (suc zero))) lt = d
below_8 P a b c d e f g h (suc (suc (suc (suc zero)))) lt = e
below_8 P a b c d e f g h (suc (suc (suc (suc (suc zero))))) lt = f
below_8 P a b c d e f g h (suc (suc (suc (suc (suc (suc zero)))))) lt = g
below_8 P a b c d e f g h (suc (suc (suc (suc (suc (suc (suc zero))))))) lt = h
below_8 P a b c d e f g h (suc (suc (suc (suc (suc (suc (suc (suc n)))))))) lt =
    absurd (omega arith)

low_bits : (c : Config) (n : ℕ) → n < 8 → 2 ^ bus_width c - 1 - sbaccess_mask c n ≡ 2 ^ n - 1
unfolding bus_width sbaccess_mask
low_bits c n small = elim (Bool-cases c.wide) [
  | inl e ↦ rw e (
      below_8 (λ k. 2 ^ 64 - 1 - (2 ^ 64 - 1) * 2 ^ k % 2 ^ 64 ≡ 2 ^ k - 1) refl refl refl refl refl
        refl refl refl n small)
  | inr e ↦ rw e (
      below_8 (λ k. 2 ^ 32 - 1 - (2 ^ 32 - 1) * 2 ^ k % 2 ^ 32 ≡ 2 ^ k - 1) refl refl refl refl refl
        refl refl refl n small)
]

-- The test of the address is a test of its remainder.
pub is_misaligned_lem :
    (c : Config) (r : Request)
    → r.sbaccess_i < 8
    → is_misaligned c r ≡ not (r.sbaddress_i % 2 ^ r.sbaccess_i == 0)
unfolding is_misaligned
is_misaligned_lem c r small =
    rw (low_bits c r.sbaccess_i small, bit_and_ones r.sbaccess_i r.sbaddress_i) refl

-- Ones in the lanes of the `2 ^ sbaccess` bytes from `be_idx` on.
unfoldable pub accessed : (sbaccess be_idx : ℕ) → ℕ
accessed sbaccess be_idx = (2 ^ 2 ^ sbaccess - 1) * 2 ^ be_idx

pub be_mask-accessed :
    (c : Config) (n i : ℕ)
    → n ≤ be_idx_width c
    → i < 2 ^ be_idx_width c
    → i % 2 ^ n ≡ 0
    → be_mask c n i ≡ accessed n i
unfolding be_mask accessed be_idx_width bus_width
be_mask-accessed c zero i small bound h = omega arith
be_mask-accessed c (suc zero) i small bound h =
    let even : i / 2 * 2 ≡ i = omega arith in ap (λ k. 3 * 2 ^ k) even
be_mask-accessed c (suc (suc zero)) i small bound h = elim (Bool-cases c.wide) [
  | inl e ↦ let even : i / 4 * 4 ≡ i = omega arith in rw (e) (ap (λ k. 15 * 2 ^ k) even)
  | inr e ↦ let start : i ≡ 0 = ground arith in rw (e, start) refl
]
be_mask-accessed c (suc (suc (suc zero))) i small bound h = elim (Bool-cases c.wide) [
  | inl e ↦ let start : i ≡ 0 = ground arith in rw (e, start) refl
  | inr e ↦ absurd (ground arith)
]
be_mask-accessed c (suc (suc (suc (suc n)))) i small bound h = absurd (ground arith)

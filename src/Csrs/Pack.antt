-- ===== src/Csrs/Pack.antt =====
-- Words of bits, and tests of some bit, as src/dm_csrs.sv makes them for the summaries of halted harts.
use riscv_dbg.Common.{
  ℕ, zero, suc, ◌+◌, ◌*◌, ◌/◌, ◌%◌, ◌^◌, ◌<◌, ◌≡◌, ◌∙◌, refl, ap, subst, sym, arith, Bool, true,
  false, ◌==◌, to_bit, Bool-cases, inl, inr,
}
use native.Mathlib.Nat.{zero-div, pow-suc, div-div-eq-div-mul}
use riscv_dbg.Mem.{bit}
use riscv_dbg.Csrs.Status.{pack, any_bit}

-- The word of some bits is below the power of two, and has these bits.
pub pack_bound : (n : ℕ) (v : ℕ → Bool) → pack n v < 2 ^ n
unfolding pack
pack_bound zero v = omega arith
pack_bound (suc n) v = let small = pack_bound n v in ground (arith, small)

pub any_bit-has : (n : ℕ) (v : ℕ → Bool) (k : ℕ) → k < n → v k ≡ true → any_bit n v ≡ true
unfolding any_bit
any_bit-has zero v k small h = absurd (omega (arith, small))
any_bit-has (suc n) v k small h = elim (Bool-cases (k == n)) [
  | inl e ↦ let same : k ≡ n = ground (arith, e) in ground (arith, subst (λ m. v m ≡ true) same h)
  | inr e ↦ let rest = any_bit-has n v k (ground (arith, e, small)) h in ground (arith, rest)
]

-- One of the bits, if there is one.
abbrev pub Has : ℕ → (ℕ → Bool) → Type 0
Has n v = (k : ℕ) × (k < n) × (v k ≡ true)

pub any_bit-found : (n : ℕ) (v : ℕ → Bool) → any_bit n v ≡ true → Has n v
unfolding any_bit
any_bit-found zero v h = absurd (ground arith)
any_bit-found (suc n) v h = elim (Bool-cases (v n)) [
  | inl e ↦ (n, omega arith, e)
  | inr e ↦
      let (k, small, found) = any_bit-found n v (ground (arith, e, h)) in
      (k, omega (arith, small), found)
]

-- Two tests that imply each other.
pub same_test : (p q : Bool) → (p ≡ true → q ≡ true) → (q ≡ true → p ≡ true) → p ≡ q
same_test true q f g = sym (f refl)
same_test false true f g = g refl
same_test false false f g = refl

pack-shift : (n : ℕ) (v : ℕ → Bool) → pack (suc n) v ≡ to_bit (v 0) + 2 * pack n (λ k. v (suc k))
unfolding pack
pack-shift zero v = omega arith
pack-shift (suc n) v =
    let low = pack-shift n v in
    let double : 2 ^ suc n ≡ 2 * 2 ^ n = omega (arith, pow-suc 2 n) in ground (arith, low, double)

pub bit-half : (b x : ℕ) → bit (suc b) x ≡ bit b (x / 2)
bit-half b x =
    let double : 2 ^ suc b ≡ 2 * 2 ^ b = omega (arith, pow-suc 2 b) in
    ap (λ (y : ℕ). y % 2 == 1) (ap (λ (w : ℕ). x / w) double ∙ sym (div-div-eq-div-mul x 2 (2 ^ b)))

pub zero_bit : (b : ℕ) → bit b 0 ≡ false
zero_bit b = rw (zero-div (2 ^ b)) refl

half_pack : (b : Bool) (x : ℕ) → (to_bit b + 2 * x) / 2 ≡ x
half_pack b x = ground arith

lowest_bit : (b : Bool) (x : ℕ) → bit 0 (to_bit b + 2 * x) ≡ b
lowest_bit b x = ground arith

pub bit-pack : (n : ℕ) (v : ℕ → Bool) (b : ℕ) → b < n → bit b (pack n v) ≡ v b
bit-pack zero v b small = absurd (omega (arith, small))
bit-pack (suc n) v zero small =
    ap (bit 0) (pack-shift n v) ∙ lowest_bit (v 0) (pack n (λ k. v (suc k)))
bit-pack (suc n) v (suc b) small =
    bit-half b (pack (suc n) v)
    ∙ ap (λ (x : ℕ). bit b (x / 2)) (pack-shift n v)
    ∙ ap (bit b) (half_pack (v 0) (pack n (λ k. v (suc k))))
    ∙ bit-pack n (λ k. v (suc k)) b (omega (arith, small))

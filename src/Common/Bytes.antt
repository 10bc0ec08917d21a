-- ===== src/Common/Bytes.antt =====
-- The bytes of a word, and shifts by whole bytes.
use Prim.Native.Nat.{ℕ, zero, suc, ◌+◌, ◌*◌, ◌/◌, ◌%◌, ◌^◌, ◌<◌}
use mathlib.Core.Path.{◌≡◌, ◌∙◌, sym, ap}
use native.Mathlib.Nat.{
  pow-suc, div-div-eq-div-mul, mul-div_cancel, one-le-pow, mod-add-div, add-mul-mod_self_left,
  add-mul-div_left, mul-mod_left, div-eq_of_lt,
}
use native.Mathlib.Omega.{arith}

-- Byte `k` of a word.
unfoldable pub byte_at : ℕ → ℕ → ℕ
byte_at k x = x / 2 ^ (8 * k) % 256

pub pow_plus : (m n : ℕ) → 2 ^ (m + n) ≡ 2 ^ m * 2 ^ n
pow_plus zero n =
    let nothing : zero + n ≡ n = omega arith in ap (λ (t : ℕ). 2 ^ t) nothing ∙ omega arith
pow_plus (suc m) n =
    let carried : suc m + n ≡ suc (m + n) = omega arith in
    let double = ap (λ (t : ℕ). t * 2 ^ n) (pow-suc 2 m) in
    ap (λ (t : ℕ). 2 ^ t) carried ∙ omega (arith, pow-suc 2 (m + n), pow_plus m n)

power_split : (i k : ℕ) → 2 ^ (8 * (i + k)) ≡ 2 ^ (8 * i) * 2 ^ (8 * k)
power_split i k =
    let sum : 8 * (i + k) ≡ 8 * i + 8 * k = omega arith in
    ap (λ (t : ℕ). 2 ^ t) sum ∙ pow_plus (8 * i) (8 * k)

pub byte_at-shift_down : (i k x : ℕ) → byte_at k (x / 2 ^ (8 * i)) ≡ byte_at (i + k) x
unfolding byte_at
byte_at-shift_down i k x =
    ap (λ (t : ℕ). t % 256)
      (div-div-eq-div-mul x (2 ^ (8 * i)) (2 ^ (8 * k))
        ∙ ap (λ (t : ℕ). x / t) (sym (power_split i k)))

pub byte_at-shift_up : (i k x : ℕ) → byte_at (i + k) (x * 2 ^ (8 * i)) ≡ byte_at k x
byte_at-shift_up i k x =
    sym (byte_at-shift_down i k (x * 2 ^ (8 * i)))
    ∙ ap (byte_at k) (mul-div_cancel x (one-le-pow (8 * i) 2 (omega arith)))

-- A byte below the cut is not touched by it.
byte_more : (r : ℕ) → 2 ^ (8 * suc r) ≡ 256 * 2 ^ (8 * r)
byte_more r =
    let one_more : 8 * suc r ≡ 8 * (1 + r) = omega arith in
    ap (λ (t : ℕ). 2 ^ t) one_more ∙ power_split 1 r

pub byte_at-cut : (k r x : ℕ) → byte_at k (x % 2 ^ (8 * (k + suc r))) ≡ byte_at k x
unfolding byte_at
byte_at-cut k r x =
    let p = 2 ^ (8 * k) in
    let cut = 2 ^ (8 * (k + suc r)) in
    let split : cut ≡ p * (256 * 2 ^ (8 * r)) =
      power_split k (suc r) ∙ ap (λ (t : ℕ). p * t) (byte_more r) in
    let high = 2 ^ (8 * r) * (x / cut) in
    let parts : x % cut + p * (256 * high) ≡ x =
      omega (arith, mod-add-div x cut, ap (λ (t : ℕ). t * (x / cut)) split) in
    let divided = add-mul-div_left (x % cut) (256 * high) (one-le-pow (8 * k) 2 (omega arith)) in
    sym (
      ap (λ (t : ℕ). t / p % 256) (sym parts)
      ∙ (ap (λ (t : ℕ). t % 256) divided ∙ add-mul-mod_self_left (x % cut / p) 256 high))

-- A byte alone in its place: the other places are 0.
pub byte_at-above : (m d f : ℕ) → f < 256 → byte_at (m + suc d) (f * 2 ^ (8 * m)) ≡ 0
unfolding byte_at
byte_at-above m d f small =
    byte_at-shift_up m (suc d) f
    ∙ ap (λ (t : ℕ). t % 256)
        (div-eq_of_lt (omega (arith, byte_more d, one-le-pow (8 * d) 2 (omega arith))))

pub byte_at-below : (j d f : ℕ) → byte_at j (f * 2 ^ (8 * (j + suc d))) ≡ 0
unfolding byte_at
byte_at-below j d f =
    let p = 2 ^ (8 * j) in
    let rest = 2 ^ (8 * d) in
    let split : 2 ^ (8 * (j + suc d)) ≡ 256 * rest * p =
      omega (arith, power_split j (suc d), ap (λ (t : ℕ). p * t) (byte_more d)) in
    let scaled : f * 2 ^ (8 * (j + suc d)) ≡ f * rest * 256 * p =
      omega (arith, ap (λ (t : ℕ). f * t) split) in
    ap (λ (t : ℕ). t / p % 256) scaled
    ∙ (ap (λ (t : ℕ). t % 256)
          (mul-div_cancel (f * rest * 256) (one-le-pow (8 * j) 2 (omega arith)))
        ∙ mul-mod_left (f * rest) 256)

pub byte_at-first : (f : ℕ) → f < 256 → byte_at 0 f ≡ f
unfolding byte_at
byte_at-first f small = omega arith

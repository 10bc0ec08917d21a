-- ===== src/Common/Masks.antt =====
-- `bit_and` at variables: masks can be applied in either order.
use Prim.Native.Nat.{
  ℕ, zero, suc, ◌+◌, ◌-◌, ◌*◌, ◌/◌, ◌%◌, ◌≤◌, ◌<◌, ◌^◌, digits, bit_and, bit_and-bitwise, min,
}
use mathlib.Core.Path.{◌≡◌, ◌∙◌, refl, sym, ap}
use native.Mathlib.Nat.{pow-suc, one-le-pow, mod-add-div, div-div-eq-div-mul}
use native.Mathlib.Omega.{arith}

-- The digits both numbers have, out of the lowest `count` of them.
abbrev shared : (count w mask : ℕ) → ℕ
shared count w mask = digits (λ _. 0) min count w mask

shared-more : (count w mask : ℕ) → w ≤ count → shared (suc count) w mask ≡ shared count w mask
shared-more zero zero mask fits = refl
shared-more (suc count) zero mask fits = refl
shared-more zero (suc w) mask fits = absurd (omega arith)
shared-more (suc count) (suc w) mask fits =
    let half = shared-more count (suc w / 2) (mask / 2) (omega arith) in omega (arith, half)

-- A count that is large enough makes no difference.
shared-plus : (extra w mask : ℕ) → shared (extra + w) w mask ≡ bit_and w mask
shared-plus zero w mask =
    let same : zero + w ≡ w = omega arith in
    ap (λ c. shared c w mask) same ∙ sym (bit_and-bitwise w mask)
shared-plus (suc extra) w mask =
    let one_out : suc extra + w ≡ suc (extra + w) = omega arith in
    ap (λ c. shared c w mask) one_out
    ∙ (shared-more (extra + w) w mask (omega arith) ∙ shared-plus extra w mask)

shared-enough : (count w mask : ℕ) → w ≤ count → shared count w mask ≡ bit_and w mask
shared-enough count w mask fits =
    let split : count ≡ (count - w) + w = omega arith in
    ap (λ c. shared c w mask) split ∙ shared-plus (count - w) w mask

nothing_kept : (mask : ℕ) → bit_and 0 mask ≡ 0
nothing_kept = bit_and-bitwise 0

-- The law for the lowest digit, read from the digit upwards.
pub digit_by_digit :
    (w mask : ℕ) → min (w % 2) (mask % 2) + 2 * bit_and (w / 2) (mask / 2) ≡ bit_and w mask
digit_by_digit zero mask = omega (arith, nothing_kept mask, nothing_kept (mask / 2))
digit_by_digit (suc w) mask =
    let high = shared-enough w (suc w / 2) (mask / 2) (omega arith) in
    let all = bit_and-bitwise (suc w) mask in omega arith

bit_and_half : (a b : ℕ) → bit_and a b / 2 ≡ bit_and (a / 2) (b / 2)
bit_and_half a b = omega (arith, digit_by_digit a b)

bit_and_low : (a b : ℕ) → bit_and a b % 2 ≡ min (a % 2) (b % 2)
bit_and_low a b = omega (arith, digit_by_digit a b)

-- One digit of two masks in a row.
two_masks_step :
    (w a b : ℕ)
    → bit_and (bit_and w a) b
      ≡ bit_and (bit_and (w / 2) (a / 2)) (b / 2) * 2 + min (min (w % 2) (a % 2)) (b % 2)
two_masks_step w a b =
    let outer = digit_by_digit (bit_and w a) b in
    let half = bit_and_half w a in
    let low = bit_and_low w a in rw (sym outer, half, low) omega arith

two_masks_fuel : (n w a b : ℕ) → w ≤ n → bit_and (bit_and w a) b ≡ bit_and (bit_and w b) a
two_masks_fuel n zero a b h = rw (nothing_kept a, nothing_kept b, nothing_kept a) refl
two_masks_fuel zero (suc w) a b h = absurd (omega arith)
two_masks_fuel (suc n) (suc w) a b h = omega (
  arith,
  two_masks_step (suc w) a b,
  two_masks_step (suc w) b a,
  two_masks_fuel n (suc w / 2) (a / 2) (b / 2) (omega arith),
)

pub two_masks : (w a b : ℕ) → bit_and (bit_and w a) b ≡ bit_and (bit_and w b) a
two_masks w a b = two_masks_fuel w w a b (omega arith)

-- A mask whose two low bits are set keeps the two low bits.
pub bit_and_quarter : (w mask : ℕ) → mask % 4 ≡ 3 → bit_and w mask % 4 ≡ w % 4
bit_and_quarter w mask h = omega (arith, digit_by_digit w mask, digit_by_digit (w / 2) (mask / 2))

-- An empty mask.
bit_and_zero_bounded : (n w : ℕ) → w ≤ n → bit_and w 0 ≡ 0
bit_and_zero_bounded n zero fits = nothing_kept 0
bit_and_zero_bounded zero (suc w) fits = absurd (omega arith)
bit_and_zero_bounded (suc n) (suc w) fits =
    let rest = bit_and_zero_bounded n (suc w / 2) (omega arith) in
    omega (arith, digit_by_digit (suc w) 0)

pub bit_and_zero : (w : ℕ) → bit_and w 0 ≡ 0
bit_and_zero w = bit_and_zero_bounded w w (omega arith)

-- The remainder by an even number: the lowest digit and the remainder of the rest.
mod_double : (w p : ℕ) → w % (2 * p) ≡ w % 2 + 2 * (w / 2 % p)
mod_double w p =
    let whole = mod-add-div w (2 * p) in
    let high = mod-add-div (w / 2) p in
    let same = ap (λ (t : ℕ). p * t) (div-div-eq-div-mul w 2 p) in omega arith

-- A mask of the lowest `n` digits leaves the remainder.
pub bit_and_ones : (n w : ℕ) → bit_and w (2 ^ n - 1) ≡ w % 2 ^ n
bit_and_ones zero w = bit_and_zero w ∙ omega arith
bit_and_ones (suc n) w =
    let double : 2 ^ suc n ≡ 2 * 2 ^ n = omega (arith, pow-suc 2 n) in
    let some_ones = one-le-pow n 2 (omega arith) in
    let low : (2 ^ suc n - 1) % 2 ≡ 1 = omega arith in
    let half : (2 ^ suc n - 1) / 2 ≡ 2 ^ n - 1 = omega arith in
    let digit = digit_by_digit w (2 ^ suc n - 1) in
    let rest = ap (bit_and (w / 2)) half ∙ bit_and_ones n (w / 2) in
    let remainder = ap (λ (t : ℕ). w % t) double ∙ mod_double w (2 ^ n) in omega arith

-- A mask in two parts: its lowest `n` digits and the rest.
pub bit_and_split :
    (n w high low : ℕ)
    → low < 2 ^ n
    → bit_and w (high * 2 ^ n + low) ≡ bit_and (w / 2 ^ n) high * 2 ^ n + bit_and (w % 2 ^ n) low
bit_and_split zero w high low h =
    let none : low ≡ 0 = omega arith in
    let whole : high * 2 ^ 0 + low ≡ high = omega arith in
    let all : w / 2 ^ 0 ≡ w = omega arith in
    let nothing = nothing_kept low in
    let empty : w % 2 ^ 0 ≡ 0 = omega arith in rw (whole, all, empty, nothing) omega arith
bit_and_split (suc n) w high low h =
    let p = 2 ^ n in
    let double : 2 ^ suc n ≡ 2 * p = omega (arith, pow-suc 2 n) in
    let scaled = ap (λ (t : ℕ). high * t) double in
    let tail = mod_double w p in
    let rest = bit_and_split n (w / 2) high (low / 2) (omega arith) in
    let mask_half : (high * 2 ^ suc n + low) / 2 ≡ high * p + low / 2 = omega arith in
    let mask_low : (high * 2 ^ suc n + low) % 2 ≡ low % 2 = omega arith in
    let tail_half : w % 2 ^ suc n / 2 ≡ w / 2 % p = rw double omega arith in
    let tail_low : w % 2 ^ suc n % 2 ≡ w % 2 = rw double omega arith in
    let upper : w / 2 ^ suc n ≡ w / 2 / p = rw double (sym (div-div-eq-div-mul w 2 p)) in
    let left = digit_by_digit w (high * 2 ^ suc n + low) in
    let right = digit_by_digit (w % 2 ^ suc n) low in
    let below = ap (bit_and (w / 2)) mask_half ∙ rest in
    let above = ap (λ (t : ℕ). bit_and t high * 2 ^ suc n) upper in
    let doubled = ap (λ (t : ℕ). bit_and (w / 2 / p) high * t) double in
    let same = ap (λ (t : ℕ). bit_and t (low / 2)) tail_half in omega arith

bit_and-le_fuel : (fuel w mask : ℕ) → mask ≤ fuel → bit_and w mask ≤ mask
bit_and-le_fuel zero w mask h =
    let none : mask ≡ 0 = omega (arith, h) in rw none (omega (arith, bit_and_zero w))
bit_and-le_fuel (suc fuel) w zero h = omega (arith, bit_and_zero w)
bit_and-le_fuel (suc fuel) w (suc mask) h = omega (
  arith,
  digit_by_digit w (suc mask),
  bit_and-le_fuel fuel (w / 2) (suc mask / 2) (omega (arith, h)),
)

-- A mask keeps no more than it has.
pub bit_and-le : (w mask : ℕ) → bit_and w mask ≤ mask
bit_and-le w mask = bit_and-le_fuel mask w mask (omega arith)

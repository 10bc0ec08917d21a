-- ===== src/Csrs/Groups.antt =====
-- The groups of harts behind the summaries in src/dm_csrs.sv: which of them have a halted hart.
use riscv_dbg.Common.{
  ℕ, zero, suc, ◌+◌, ◌*◌, ◌/◌, ◌%◌, ◌^◌, ◌≤◌, ◌<◌, ◌≡◌, ◌∙◌, refl, ap, subst, sym, arith, Bool,
  true, false, ◌&&◌, ltb, ◌==◌, Bool-cases, inl, inr,
}
use native.Mathlib.Nat.{div-div-eq-div-mul}
use riscv_dbg.Common.Bytes.{pow_plus}
use riscv_dbg.Csrs.Pack.{any_bit-has, any_bit-found, same_test}
use riscv_dbg.Mem.{Config}
use riscv_dbg.Csrs.{Inputs}
use riscv_dbg.Csrs.Status.{any_bit, group, reduced, flat_size, halted_flat}

-- Whether a hart of group `k` of level `l`, of `32 ^ l` harts, is halted.
unfoldable pub some_halted : ℕ → Config → Inputs → ℕ → Bool
unfolding any_bit
some_halted l c i k = any_bit c.nr_harts (λ h. i.halted_i h && h / 2 ^ (5 * l) == k)

-- The number of a hart's group at the next level.
next_group : (l h : ℕ) → h / 2 ^ (5 * suc l) ≡ h / 2 ^ (5 * l) / 32
next_group l h =
    let next : 5 * suc l ≡ 5 * l + 5 = omega arith in
    let power : 2 ^ (5 * suc l) ≡ 2 ^ (5 * l) * 32 =
      ap (λ (e : ℕ). 2 ^ e) next ∙ pow_plus (5 * l) 5 in
    ap (λ (w : ℕ). h / w) power ∙ sym (div-div-eq-div-mul h (2 ^ (5 * l)) 32)

-- Every group has a bit.
size_covers :
    (l : ℕ) (c : Config) (h : ℕ)
    → l < 3
    → h < c.nr_harts
    → h / 2 ^ (5 * suc l) < flat_size (suc l) c
unfolding flat_size
size_covers zero c h low small = omega (arith, small)
size_covers (suc zero) c h low small = omega (arith, small)
size_covers (suc (suc zero)) c h low small = omega (arith, small)
size_covers (suc (suc (suc l))) c h low small = absurd (omega (arith, low))

flat_found :
    (l : ℕ) (c : Config) (i : Inputs) (k : ℕ)
    → some_halted l c i k ≡ true
    → (h : ℕ) × (h < c.nr_harts) × (i.halted_i h ≡ true) × (h / 2 ^ (5 * l) ≡ k)
unfolding some_halted
flat_found l c i k e =
    let (h, small, both) = any_bit-found c.nr_harts _ e in
    (h, small, ground (arith, both), ground (arith, both))

flat_has :
    (l : ℕ) (c : Config) (i : Inputs) (k h : ℕ)
    → h < c.nr_harts
    → i.halted_i h ≡ true
    → h / 2 ^ (5 * l) ≡ k
    → some_halted l c i k ≡ true
unfolding some_halted
flat_has l c i k h small halts here = any_bit-has c.nr_harts _ h small (ground (arith, halts, here))

in_group : (q j b : ℕ) → b < 32 → q ≡ 32 * j + b → q / 32 ≡ j
in_group q j b small e = omega (arith, small, e)

whole_group : (q j : ℕ) → q / 32 ≡ j → 32 * j + q % 32 ≡ q
whole_group q j e = omega (arith, e)

-- A group of the next level, if the groups of this one are known.
next_level :
    (l : ℕ) (c : Config) (i : Inputs) (j : ℕ)
    → l < 3
    → ((k : ℕ) → halted_flat l c i k ≡ some_halted l c i k)
    → halted_flat (suc l) c i j ≡ some_halted (suc l) c i j
unfolding halted_flat reduced
next_level l c i j low known =
    same_test _ (some_halted (suc l) c i j)
      (λ e.
        let some = any_bit-found 32 (group (halted_flat l c i) j) (ground (arith, e)) in
        let (b, small, found) = some in
        let (h, exists, halts, here) =
          flat_found l c i (32 * j + b) (sym (known (32 * j + b)) ∙ found) in
        flat_has (suc l) c i j h exists halts
          (next_group l h ∙ in_group (h / 2 ^ (5 * l)) j b small here))
      (λ e.
        let (h, exists, halts, here) = flat_found (suc l) c i j e in
        let q = h / 2 ^ (5 * l) in
        let mine = whole_group q j (sym (next_group l h) ∙ here) in
        let inside = subst (λ x. x < flat_size (suc l) c) here (size_covers l c h low exists) in
        let found =
          any_bit-has 32 (group (halted_flat l c i) j) (q % 32) (omega arith)
            (ap (halted_flat l c i) mine ∙ known q ∙ flat_has l c i q h exists halts refl) in
        ground (arith, inside, found))

first_level : (c : Config) (i : Inputs) (j : ℕ) → halted_flat 0 c i j ≡ some_halted 0 c i j
unfolding halted_flat flat_size
first_level c i j =
    same_test _ (some_halted 0 c i j)
      (λ e. flat_has 0 c i j j (ground (arith, e)) (ground (arith, e)) (omega arith))
      (λ e.
        let (h, small, halts, here) = flat_found 0 c i j e in
        let same : h ≡ j = omega (arith, here) in
        subst (λ k. ltb k c.nr_harts && i.halted_i k ≡ true) same (ground (arith, small, halts)))

-- The vectors of the code at the levels that it has.
pub each_level :
    (l : ℕ) (c : Config) (i : Inputs) (k : ℕ) → l ≤ 3 → halted_flat l c i k ≡ some_halted l c i k
each_level zero c i k low = first_level c i k
each_level (suc l) c i k low =
    next_level l c i k (omega (arith, low)) (λ j. each_level l c i j (omega (arith, low)))

-- No hart is in a group behind the last.
pub none_beyond :
    (l : ℕ) (c : Config) (i : Inputs) (k b size : ℕ)
    → b < 32
    → ((h : ℕ) → h < c.nr_harts → h / 2 ^ (5 * suc l) < size)
    → size ≤ k
    → some_halted l c i (32 * k + b) ≡ false
none_beyond l c i k b size small covers beyond =
    elim (Bool-cases (some_halted l c i (32 * k + b))) [
      | inr e ↦ e
      | inl e ↦
          let (h, exists, halts, here) = flat_found l c i (32 * k + b) e in
          let mine = next_group l h ∙ in_group (h / 2 ^ (5 * l)) k b small here in
          absurd (omega (arith, covers h exists, mine, beyond))
    ]

-- ===== src/Csrs/Halted.antt =====
-- What the summaries of halted harts in src/dm_csrs.sv tell of the harts.
use riscv_dbg.Common.{
  ℕ, zero, suc, ◌+◌, ◌-◌, ◌*◌, ◌/◌, ◌%◌, ◌^◌, ◌≤◌, ◌<◌, ◌≡◌, ◌≢◌, ◌∙◌, refl, ap, sym, arith, Bool,
  ◌&&◌, ltb, ◌==◌, if◌then◌else◌, Bool-cases, inl, inr,
}
use native.Mathlib.Nat.{div-eq_of_lt, mod-eq_of_lt}
use riscv_dbg.Csrs.Pack.{bit-pack, zero_bit}
use riscv_dbg.Mem.{Config, bit}
use riscv_dbg.Csrs.{Csrs, Inputs}
use riscv_dbg.Csrs.Status.{
  hartsel_of, pack, group, reduced, flat_size, halted_flat, halted_flat3, haltsum,
}
use riscv_dbg.Csrs.Groups.{some_halted, each_level, none_beyond}

-- A word of a group, if the group is in range, and else 0.
summary_case :
    (l : ℕ) (c : Config) (i : Inputs) (k b size : ℕ)
    → l ≤ 3
    → b < 32
    → ((h : ℕ) → h < c.nr_harts → h / 2 ^ (5 * suc l) < size)
    → bit b (if ltb k size then pack 32 (group (halted_flat l c i) k) else 0)
      ≡ some_halted l c i (32 * k + b)
summary_case l c i k b size low small covers = elim (Bool-cases (ltb k size)) [
  | inl e ↦
      rw e (bit-pack 32 (group (halted_flat l c i) k) b small ∙ each_level l c i (32 * k + b) low)
  | inr e ↦ rw e (zero_bit b ∙ sym (none_beyond l c i k b size small covers (ground (arith, e))))
]

-- The window that the selected hart lies in, and the number of windows, as the code cuts them.
window_0 :
    (x n : ℕ)
    → x < 2 ^ 20
    → n ≤ 31 * 2 ^ 15
    → (x / 2 ^ 5 % 2 ^ 15 ≡ x / 2 ^ 5) × (((n - 1) / 2 ^ 5 + 1) % 2 ^ 15 ≡ (n - 1) / 2 ^ 5 + 1)
window_0 x n h k = (mod-eq_of_lt (omega arith), mod-eq_of_lt (omega arith))

window_1 :
    (x n : ℕ)
    → x < 2 ^ 20
    → n ≤ 31 * 2 ^ 15
    → (x / 2 ^ 10 % 2 ^ 10 ≡ x / 2 ^ 10) × (((n - 1) / 2 ^ 10 + 1) % 2 ^ 10 ≡ (n - 1) / 2 ^ 10 + 1)
window_1 x n h k = (mod-eq_of_lt (omega arith), mod-eq_of_lt (omega arith))

window_2 :
    (x n : ℕ)
    → x < 2 ^ 20
    → n ≤ 31 * 2 ^ 15
    → (x / 2 ^ 15 % 2 ^ 5 ≡ x / 2 ^ 15) × (((n - 1) / 2 ^ 15 + 1) % 2 ^ 5 ≡ (n - 1) / 2 ^ 15 + 1)
window_2 x n h k = (mod-eq_of_lt (omega arith), mod-eq_of_lt (omega arith))

windowed :
    (l : ℕ) (c : Config) (i : Inputs) (k j b size number : ℕ)
    → l ≤ 3
    → b < 32
    → j ≡ k
    → number ≡ size
    → ((h : ℕ) → h < c.nr_harts → h / 2 ^ (5 * suc l) < size)
    → bit b (if ltb j number then pack 32 (group (halted_flat l c i) j) else 0)
      ≡ some_halted l c i (32 * k + b)
windowed l c i k j b size number low small same all covers =
    rw (same, all) (summary_case l c i k b size low small covers)

only_window : (x size b : ℕ) → x < size → 32 * (x / size) + b ≡ b
only_window x size b h = let none = div-eq_of_lt h in omega (arith, none)

-- The loop of the last summary stays within the words, but for one.
last_word :
    (k n : ℕ)
    → (k ≡ n / 2 ^ 15 → n % 2 ^ 15 ≢ 0)
    → ltb k (n / 2 ^ 15 + 1) ≡ ltb k ((n - 1) / 2 ^ 15 + 1)
last_word k n there = elim (Bool-cases (k == n / 2 ^ 15)) [
  | inl e ↦ let odd = there (ground (arith, e)) in ground (arith, odd, e)
  | inr e ↦ ground (arith, e)
]

clipped : (x y v p : Bool) → x ≡ y → (x && (if y then v else p)) ≡ (y && v)
clipped x y v p e = ground (arith, e)

last_level :
    (c : Config) (i : Inputs) (k : ℕ)
    → (k ≡ c.nr_harts / 2 ^ 15 → c.nr_harts % 2 ^ 15 ≢ 0)
    → halted_flat3 c i k ≡ halted_flat 3 c i k
unfolding halted_flat3 halted_flat reduced flat_size
last_level c i k there = clipped _ _ _ c.past_end (last_word k c.nr_harts there)

-- Bit `b` of `haltsum` at level `l`, of four, tells whether a hart of group `b` around the selected
-- hart is halted, a group having `32 ^ l` harts, if there are at most 31 * 2 ^ 15 harts and the number
-- of the selected hart has 20 bits, and unless `b` is the number of the group behind the last of
-- level 3, which the code reads if the number of harts is a multiple of 2 ^ 15.
pub haltsum-bit :
    (l : ℕ) (c : Config) (i : Inputs) (s : Csrs) (b : ℕ)
    → l ≤ 3
    → b < 32
    → c.nr_harts ≤ 31 * 2 ^ 15
    → hartsel_of s.dmcontrol_q < 2 ^ 20
    → (l ≡ 3 → b ≡ c.nr_harts / 2 ^ 15 → c.nr_harts % 2 ^ 15 ≢ 0)
    → bit b (haltsum l c i s)
      ≡ some_halted l c i (32 * (hartsel_of s.dmcontrol_q / 2 ^ (5 * suc l)) + b)
unfolding haltsum
haltsum-bit zero c i s b low small few sel there =
    let x = hartsel_of s.dmcontrol_q in
    let (k, size) = window_0 x c.nr_harts sel few in
    windowed 0 c i (x / 2 ^ 5) _ b ((c.nr_harts - 1) / 2 ^ 5 + 1) _ low small k size
      (λ h lt. omega (arith, lt))
haltsum-bit (suc zero) c i s b low small few sel there =
    let x = hartsel_of s.dmcontrol_q in
    let (k, size) = window_1 x c.nr_harts sel few in
    windowed 1 c i (x / 2 ^ 10) _ b ((c.nr_harts - 1) / 2 ^ 10 + 1) _ low small k size
      (λ h lt. omega (arith, lt))
haltsum-bit (suc (suc zero)) c i s b low small few sel there =
    let x = hartsel_of s.dmcontrol_q in
    let (k, size) = window_2 x c.nr_harts sel few in
    windowed 2 c i (x / 2 ^ 15) _ b ((c.nr_harts - 1) / 2 ^ 15 + 1) _ low small k size
      (λ h lt. omega (arith, lt))
haltsum-bit (suc (suc (suc zero))) c i s b low small few sel there =
    bit-pack 32 (halted_flat3 c i) b small
    ∙ last_level c i b (there refl)
    ∙ each_level 3 c i b low
    ∙ ap (some_halted 3 c i) (sym (only_window (hartsel_of s.dmcontrol_q) (2 ^ 20) b sel))
haltsum-bit (suc (suc (suc (suc l)))) c i s b low small few sel there = absurd (omega (arith, low))

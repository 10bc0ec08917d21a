-- ===== src/Rom/Fetch.antt =====
-- What a fetch from the hardware ROM gives, for every address.
use riscv_dbg.Common.{
  List, [], ◌∷◌, ltb, ℕ, zero, suc, ◌+◌, ◌*◌, ◌/◌, ◌%◌, ◌^◌, ◌<◌, ◌≡◌, refl, arith, Bool, true,
  false, ◌&&◌, get_elem?, ◌==◌, ==_iff, if◌then◌else◌, Bool-cases, inl, inr, ap, ◌∙◌, ◌≢◌,
}
use riscv_dbg.Rom.{words, addr_width, clock, rdata_o, or_zero}

-- The word of 32 bits that the bus takes: the upper half if bit 2 of the address is set, as
-- `gen_word_mux32` of src/dm_mem.sv selects it.
unfoldable pub half : ℕ → ℕ → ℕ
half addr_i rdata = if addr_i / 4 % 2 == 1 then rdata / 2 ^ 32 else rdata % 2 ^ 32

-- The word of the C array, and 0 behind its end.
unfoldable pub word_at : Bool → ℕ → ℕ
word_at snd_scratch i = or_zero (get_elem? (words snd_scratch) i)

halves_agree : Bool → ℕ → Bool
halves_agree snd_scratch q =
    (rdata_o snd_scratch q % 2 ^ 32 == word_at snd_scratch (2 * q))
    && (rdata_o snd_scratch q / 2 ^ 32 == word_at snd_scratch (2 * q + 1))

-- The test for `count` double words from `first` on.
rows_agree : Bool → (first count : ℕ) → Bool
rows_agree snd_scratch first zero = true
rows_agree snd_scratch first (suc count) =
    halves_agree snd_scratch first && rows_agree snd_scratch (first + 1) count

rows_agree_at :
    (snd_scratch : Bool) (first count k : ℕ)
    → rows_agree snd_scratch first count ≡ true
    → k < count
    → halves_agree snd_scratch (first + k) ≡ true
unfolding rows_agree
rows_agree_at snd_scratch first zero k tested inside = absurd (omega arith)
rows_agree_at snd_scratch first (suc count) zero tested inside =
    let here : first + 0 ≡ first = omega arith in
    ap (halves_agree snd_scratch) here ∙ ground (arith, tested)
rows_agree_at snd_scratch first (suc count) (suc k) tested inside =
    let further : first + suc k ≡ first + 1 + k = omega arith in
    ap (halves_agree snd_scratch) further
    ∙ rows_agree_at snd_scratch (first + 1) count k (ground (arith, tested)) (omega arith)

all_rows_agree : (snd_scratch : Bool) → rows_agree snd_scratch 0 (2 ^ addr_width snd_scratch) ≡ true
unfolding rows_agree halves_agree rdata_o word_at words addr_width
all_rows_agree true = refl
all_rows_agree false = refl

rdata_halves :
    (snd_scratch : Bool) (q : ℕ)
    → q < 2 ^ addr_width snd_scratch
    → (rdata_o snd_scratch q % 2 ^ 32 ≡ word_at snd_scratch (2 * q))
      × (rdata_o snd_scratch q / 2 ^ 32 ≡ word_at snd_scratch (2 * q + 1))
unfolding halves_agree
rdata_halves snd_scratch q h =
    let from_start : q ≡ 0 + q = omega arith in
    let both =
      ap (halves_agree snd_scratch) from_start
      ∙ rows_agree_at snd_scratch 0 _ q (all_rows_agree snd_scratch) h in
    (ground (arith, both), ground (arith, both))

ne_one : (n : ℕ) → (n == 1) ≡ false → n ≢ 1
ne_one n h = ground arith

-- The half that bit 2 selects, of the double word `q`.
fetch_half :
    (snd_scratch : Bool) (addr_i q : ℕ)
    → q < 2 ^ addr_width snd_scratch
    → half addr_i (rdata_o snd_scratch q) ≡ word_at snd_scratch (2 * q + addr_i / 4 % 2)
unfolding half
fetch_half snd_scratch addr_i q h =
    let (low, high) = rdata_halves snd_scratch q h in
    elim (Bool-cases (addr_i / 4 % 2 == 1)) [
      | inl e ↦ let odd : addr_i / 4 % 2 ≡ 1 = (==_iff _ 1).0 e in rw (e, odd) high
      | inr e ↦
          let even : addr_i / 4 % 2 ≡ 0 = omega (arith, ne_one (addr_i / 4 % 2) e) in
          rw (e, even) (low ∙ ap (word_at snd_scratch) (omega arith))
    ]

-- A fetch gives the simulator's word at the address: the two forms of each ROM hold one program.
-- The address counts by 4, modulo the size of the decoded space; behind the end the hardware
-- gives 0.
pub fetch_word :
    (snd_scratch : Bool) (addr_i addr_q : ℕ)
    → half addr_i (rdata_o snd_scratch (clock snd_scratch true addr_i addr_q))
      ≡ word_at snd_scratch (addr_i / 4 % (2 * 2 ^ addr_width snd_scratch))
unfolding half clock addr_width
fetch_word true addr_i addr_q =
    fetch_half true addr_i (addr_i / 8 % 32) (omega arith) ∙ ap (word_at true) (omega arith)
fetch_word false addr_i addr_q =
    fetch_half false addr_i (addr_i / 8 % 16) (omega arith) ∙ ap (word_at false) (omega arith)

below : List ℕ → Bool
below [] = true
below (w ∷ l) = ltb w (2 ^ 32) && below l

bounded_at : (l : List ℕ) (k : ℕ) → below l ≡ true → or_zero (get_elem? l k) < 2 ^ 32
unfolding below
bounded_at [] k h = omega arith
bounded_at (w ∷ l) zero h = ground (arith, h)
bounded_at (w ∷ l) (suc k) h = bounded_at l k (ground (arith, h))

bounded : (snd_scratch : Bool) → below (words snd_scratch) ≡ true
unfolding below words
bounded true = refl
bounded false = refl

-- An entry of the array is a word.
pub word_at-bound : (snd_scratch : Bool) (i : ℕ) → word_at snd_scratch i < 2 ^ 32
unfolding word_at
word_at-bound snd_scratch i = bounded_at (words snd_scratch) i (bounded snd_scratch)

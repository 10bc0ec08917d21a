-- ===== src/Encoding/Decode.antt =====
-- The tables of debug_rom/encoding.h as a whole, and the test that tells two entries apart.
use Prim.Native.Nat.{bit_and}
use riscv_dbg.Common.{
  ℕ, zero, suc, ◌≡◌, refl, sym, ap, ◌∙◌, arith, Bool, true, not, ◌&&◌, List, [], ◌∷◌, ◌++◌, Option,
  some, none, get_elem?, ◌==◌, ==_iff, if◌then◌else◌,
}
use riscv_dbg.Encoding.{Insn, matches}
use riscv_dbg.Encoding.Integer.{integer_table}
use riscv_dbg.Encoding.System.{system_table}
use riscv_dbg.Encoding.Float.{float_table}
use riscv_dbg.Encoding.Custom.{custom_table}
use riscv_dbg.Common.Masks.{two_masks}

-- Every instruction of 32 bits.
unfoldable pub table : List Insn
unfolding integer_table system_table float_table custom_table
table = integer_table ++ system_table ++ float_table ++ custom_table

-- The first entry that the word matches.
unfoldable pub decode : List Insn → ℕ → Option Insn
decode [] word = none
decode (x ∷ l) word = if matches x word then some x else decode l word

-- Two entries differ in a bit that both masks keep.
abbrev apart : Insn → Insn → Bool
apart x y = not (bit_and x.match y.mask == bit_and y.match x.mask)

apart_from : Insn → List Insn → Bool
apart_from x [] = true
apart_from x (y ∷ l) = apart x y && apart_from x l

unfoldable pub all_apart : List Insn → Bool
unfolding apart_from
all_apart [] = true
all_apart (x ∷ l) = apart_from x l && all_apart l

-- No word matches both of two such entries.
apart_sound :
    (x y : Insn) (word : ℕ) → apart x y ≡ true → matches x word ≡ true → matches y word ≡ true → ⊥
apart_sound x y word a hx hy =
    let ex = (==_iff (bit_and word x.mask) x.match).0 hx in
    let ey = (==_iff (bit_and word y.mask) y.match).0 hy in
    let same : bit_and x.match y.mask ≡ bit_and y.match x.mask =
      ap (λ (t : ℕ). bit_and t y.mask) (sym ex)
      ∙ two_masks word x.mask y.mask
      ∙ ap (λ (t : ℕ). bit_and t x.mask) ey in
    ground (arith, same)

apart_from_get :
    (x y : Insn) (l : List Insn) (j : ℕ)
    → apart_from x l ≡ true
    → get_elem? l j ≡ some y
    → apart x y ≡ true
unfolding apart_from
apart_from_get x y [] j h e = cc
apart_from_get x y (z ∷ l) zero h e = ground arith
apart_from_get x y (z ∷ l) (suc j) h e = apart_from_get x y l j (ground arith) e

-- In a table whose entries are all apart, a word matches one place at most.
pub all_apart_sound :
    (l : List Insn) (i j : ℕ) (x y : Insn) (word : ℕ)
    → all_apart l ≡ true
    → get_elem? l i ≡ some x
    → get_elem? l j ≡ some y
    → matches x word ≡ true
    → matches y word ≡ true
    → i ≡ j
unfolding all_apart
all_apart_sound [] i j x y word h ei ej hx hy = cc
all_apart_sound (z ∷ l) zero zero x y word h ei ej hx hy = refl
all_apart_sound (z ∷ l) zero (suc j) x y word h ei ej hx hy =
    absurd (apart_sound z y word (apart_from_get z y l j (ground arith) ej) (ground arith) hy)
all_apart_sound (z ∷ l) (suc i) zero x y word h ei ej hx hy =
    absurd (apart_sound z x word (apart_from_get z x l i (ground arith) ei) (ground arith) hx)
all_apart_sound (z ∷ l) (suc i) (suc j) x y word h ei ej hx hy =
    ap suc (all_apart_sound l i j x y word (ground arith) ei ej hx hy)

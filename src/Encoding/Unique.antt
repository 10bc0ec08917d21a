-- ===== src/Encoding/Unique.antt =====
-- The 32-bit instructions of debug_rom/encoding.h do not overlap, so a word can be decoded in one
-- way only.
use riscv_dbg.Common.{
  ℕ, zero, suc, ◌%◌, ◌≡◌, ◌≢◌, ◌↔◌, refl, sym, ap, ◌∙◌, arith, Bool, true, List, [], ◌∷◌, Option,
  some, get_elem?, ==_iff, ◌==◌, ◌&&◌, not, Bool-cases, inl, inr,
}
use riscv_dbg.Encoding.{Insn, matches}
use riscv_dbg.Encoding.Compressed.{compressed_table}
use riscv_dbg.Common.Masks.{bit_and_quarter}
use riscv_dbg.Encoding.Decode.{table, decode, all_apart, all_apart_sound}

table_apart : all_apart table ≡ true
unfolding all_apart table
table_apart = refl

decode_place :
    (l : List Insn) (word : ℕ) (x : Insn)
    → decode l word ≡ some x
    → (i : ℕ) × (get_elem? l i ≡ some x) × (matches x word ≡ true)
unfolding decode
decode_place [] word x h = absurd (none≢some h)
  where
    none≢some : Option.none ≡ some x → ⊥
    none≢some e = cc
decode_place (y ∷ l) word x h = elim (Bool-cases (matches y word)) [
  | inl e ↦ (0, ground arith, ground arith)
  | inr e ↦ let (i, at, m) = decode_place l word x (ground arith) in (suc i, at, m)
]

decode_total :
    (l : List Insn) (word i : ℕ) (x : Insn)
    → get_elem? l i ≡ some x
    → matches x word ≡ true
    → (y : Insn) × (decode l word ≡ some y)
unfolding decode
decode_total [] word i x h m = absurd (none≢some h)
  where
    none≢some : Option.none ≡ some x → ⊥
    none≢some e = cc
decode_total (y ∷ l) word zero x h m = (y, ground arith)
decode_total (y ∷ l) word (suc i) x h m =
    let (z, e) = decode_total l word i x h m in
    elim (Bool-cases (matches y word)) [ inl f ↦ (y, rw f) | inr f ↦ (z, rw f e) ]

same_place :
    (l : List Insn) (i j : ℕ) (x y : Insn)
    → get_elem? l i ≡ some x
    → get_elem? l j ≡ some y
    → i ≡ j
    → some x ≡ some y
same_place l i j x y p q e = sym p ∙ ap (get_elem? l) e ∙ q

-- Decoding does not depend on the order of the table: an instruction is found exactly if it stands
-- somewhere in the table and the word has its bits.
pub decode_iff :
    (word : ℕ) (x : Insn)
    → (decode table word ≡ some x)
      ↔ ((i : ℕ) × (get_elem? table i ≡ some x) × (matches x word ≡ true))
decode_iff word x = (
  decode_place table word x,
  λ p.
      let (y, e) = decode_total table word p.0 x p.1 p.2 in
      let (j, at, m) = decode_place table word y e in
      e
      ∙ sym (
          same_place table p.0 j x y p.1 at
            (all_apart_sound table p.0 j x y word table_apart p.1 at p.2 m)),
)

-- The two low bits that every entry fixes.
fixes : (ℕ → Bool) → Insn → Bool
fixes low x = (x.mask % 4 == 3) && low (x.match % 4)

all_fix : (ℕ → Bool) → List Insn → Bool
all_fix low [] = true
all_fix low (x ∷ l) = fixes low x && all_fix low l

all_fix_get :
    (low : ℕ → Bool) (l : List Insn) (i : ℕ) (x : Insn)
    → all_fix low l ≡ true
    → get_elem? l i ≡ some x
    → fixes low x ≡ true
unfolding all_fix
all_fix_get low [] i x h e = cc
all_fix_get low (y ∷ l) zero x h e = ground arith
all_fix_get low (y ∷ l) (suc i) x h e = all_fix_get low l i x (ground arith) e

fixes_sound :
    (low : ℕ → Bool) (x : Insn) (word : ℕ)
    → fixes low x ≡ true
    → matches x word ≡ true
    → low (word % 4) ≡ true
unfolding fixes
fixes_sound low x word h m = ground (arith, bit_and_quarter word x.mask, ==_iff (x.mask % 4) 3)

is_long : ℕ → Bool
is_long n = n == 3

is_short : ℕ → Bool
is_short n = not (n == 3)

table_long : all_fix is_long table ≡ true
unfolding all_fix fixes is_long table
table_long = refl

compressed_short : all_fix is_short compressed_table ≡ true
unfolding all_fix fixes is_short compressed_table
compressed_short = refl

-- The two low bits tell the length: they are 3 in a word that a 32-bit instruction matches, and
-- not 3 in one that a compressed instruction matches.
low_bits_tell_length :
    (v w i j : ℕ) (x y : Insn)
    → get_elem? table i ≡ some x
    → get_elem? compressed_table j ≡ some y
    → matches x v ≡ true
    → matches y w ≡ true
    → (v % 4 ≡ 3) × (w % 4 ≢ 3)
unfolding is_long is_short
low_bits_tell_length v w i j x y ex ey mx my = (
  ground (arith, fixes_sound is_long x v (all_fix_get is_long table i x table_long ex) mx),
  ground (
    arith,
    fixes_sound is_short y w (all_fix_get is_short compressed_table j y compressed_short ey) my,
  ),
)

-- ===== src/Mem/Lanes.antt =====
-- The bytes of the data registers behind an access of a hart, `p_data_write` of src/dm_mem.sv.
use riscv_dbg.Common.{
  ℕ, zero, suc, ◌+◌, ◌-◌, ◌*◌, ◌/◌, ◌%◌, ◌^◌, ◌<◌, ◌≡◌, ◌∙◌, refl, ap, arith, Bool, true, false,
  ◌&&◌, ltb, leb, ◌==◌, if◌then◌else◌, List, [], ◌∷◌, length, Bool-cases, inl, inr,
}
use riscv_dbg.Common.Bytes.{byte_at}
use riscv_dbg.Mem.{Config, Request, Access, data_count, bit}
use riscv_dbg.Mem.Control.{dbg_address}
use riscv_dbg.Mem.Memory.{
  word_at, set_byte, update_word, write_lanes, data_valid_o, data_o, data_base_addr,
}

-- A byte of a word of which one is set.
byte_at-set_byte :
    (j k v w : ℕ)
    → j < 4
    → k < 4
    → byte_at j (set_byte k v w) ≡ (if j == k then v % 256 else byte_at j w)
unfolding byte_at set_byte
byte_at-set_byte zero zero v w a b = omega arith
byte_at-set_byte zero (suc zero) v w a b = omega arith
byte_at-set_byte zero (suc (suc zero)) v w a b = omega arith
byte_at-set_byte zero (suc (suc (suc zero))) v w a b = omega arith
byte_at-set_byte (suc zero) zero v w a b = omega arith
byte_at-set_byte (suc zero) (suc zero) v w a b = omega arith
byte_at-set_byte (suc zero) (suc (suc zero)) v w a b = omega arith
byte_at-set_byte (suc zero) (suc (suc (suc zero))) v w a b = omega arith
byte_at-set_byte (suc (suc zero)) zero v w a b = omega arith
byte_at-set_byte (suc (suc zero)) (suc zero) v w a b = omega arith
byte_at-set_byte (suc (suc zero)) (suc (suc zero)) v w a b = omega arith
byte_at-set_byte (suc (suc zero)) (suc (suc (suc zero))) v w a b = omega arith
byte_at-set_byte (suc (suc (suc zero))) zero v w a b = omega arith
byte_at-set_byte (suc (suc (suc zero))) (suc zero) v w a b = omega arith
byte_at-set_byte (suc (suc (suc zero))) (suc (suc zero)) v w a b = omega arith
byte_at-set_byte (suc (suc (suc zero))) (suc (suc (suc zero))) v w a b = omega arith
byte_at-set_byte (suc (suc (suc (suc j)))) k v w a b = absurd (omega (arith, a))
byte_at-set_byte j (suc (suc (suc (suc k)))) v w a b = absurd (omega (arith, b))

pub length-update_word : (l : List ℕ) (i : ℕ) (f : ℕ → ℕ) → length (update_word l i f) ≡ length l
unfolding update_word
length-update_word [] i f = refl
length-update_word (w ∷ l) zero f = refl
length-update_word (w ∷ l) (suc i) f = ap suc (length-update_word l i f)

updated_here :
    (l : List ℕ) (i : ℕ) (f : ℕ → ℕ)
    → i < length l
    → word_at (update_word l i f) i ≡ f (word_at l i)
unfolding update_word
updated_here [] i f small = absurd (omega (arith, small))
updated_here (w ∷ l) zero f small = refl
updated_here (w ∷ l) (suc i) f small = updated_here l i f (omega (arith, small))

updated_elsewhere :
    (l : List ℕ) (i j : ℕ) (f : ℕ → ℕ)
    → (j == i) ≡ false
    → word_at (update_word l i f) j ≡ word_at l j
unfolding update_word
updated_elsewhere [] i j f other = refl
updated_elsewhere (w ∷ l) zero zero f other = absurd (ground (arith, other))
updated_elsewhere (w ∷ l) zero (suc j) f other = refl
updated_elsewhere (w ∷ l) (suc i) zero f other = refl
updated_elsewhere (w ∷ l) (suc i) (suc j) f other =
    updated_elsewhere l i j f (ground (arith, other))

-- The data registers behind one lane.
lane_written : (lane idx be wdata : ℕ) → List ℕ → List ℕ
lane_written lane idx be wdata words =
    if bit lane be && ltb (idx + lane / 4) data_count
    then update_word words (idx + lane / 4) (set_byte (lane % 4) (wdata / 2 ^ (8 * lane)))
    else words

length-lane_written :
    (lane idx be wdata : ℕ) (words : List ℕ)
    → length (lane_written lane idx be wdata words) ≡ length words
unfolding lane_written
length-lane_written lane idx be wdata words =
    let same =
      length-update_word words (idx + lane / 4) (set_byte (lane % 4) (wdata / 2 ^ (8 * lane))) in
    ground (arith, same)

-- The lane of byte `j` of word `i` is this one.
abbrev is_lane : (lane idx i j : ℕ) → Bool
is_lane lane idx i j = leb idx i && 4 * (i - idx) + j == lane

-- This lane's byte.
mine :
    (lane idx be wdata : ℕ) (words : List ℕ) (i j : ℕ)
    → length words ≡ data_count
    → i < data_count
    → j < 4
    → is_lane lane idx i j ≡ true
    → byte_at j (word_at (lane_written lane idx be wdata words) i)
      ≡ (if bit lane be then byte_at lane wdata else byte_at j (word_at words i))
unfolding lane_written byte_at
mine lane idx be wdata words i j two inside small here = elim (Bool-cases (bit lane be)) [
  | inl e ↦
      let row : idx + lane / 4 ≡ i = ground (arith, here, small) in
      let column : lane % 4 ≡ j = ground (arith, here, small) in
      let f = set_byte j (wdata / 2 ^ (8 * lane)) in
      let fits : ltb i data_count ≡ true = ground (arith, inside) in
      rw (e, row, column, fits)
        (ap (byte_at j) (updated_here words i f (omega (arith, two, inside)))
          ∙ (byte_at-set_byte j j (wdata / 2 ^ (8 * lane)) (word_at words i) small small
              ∙ ground arith))
  | inr e ↦ rw e refl
]

either_way :
    (p : Bool) (l m : List ℕ) (i j x : ℕ)
    → byte_at j (word_at l i) ≡ x
    → byte_at j (word_at m i) ≡ x
    → byte_at j (word_at (if p then l else m) i) ≡ x
either_way true l m i j x e f = e
either_way false l m i j x e f = f

-- Another lane's byte.
other :
    (lane idx be wdata : ℕ) (words : List ℕ) (i j : ℕ)
    → length words ≡ data_count
    → i < data_count
    → j < 4
    → is_lane lane idx i j ≡ false
    → byte_at j (word_at (lane_written lane idx be wdata words) i) ≡ byte_at j (word_at words i)
unfolding lane_written
other lane idx be wdata words i j two inside small away =
    let v = wdata / 2 ^ (8 * lane) in
    let f = set_byte (lane % 4) v in
    either_way (bit lane be && ltb (idx + lane / 4) data_count)
      (update_word words (idx + lane / 4) f) words i j (byte_at j (word_at words i))
      (elim (Bool-cases (i == idx + lane / 4)) [
        | inr e ↦ ap (byte_at j) (updated_elsewhere words (idx + lane / 4) i f e)
        | inl e ↦
            let row : idx + lane / 4 ≡ i = ground (arith, e) in
            let column : (j == lane % 4) ≡ false = ground (arith, e, away, small) in
            ap (λ (k : ℕ). byte_at j (word_at (update_word words k f) i)) row
            ∙ ap (byte_at j) (updated_here words i f (omega (arith, two, inside)))
            ∙ byte_at-set_byte j (lane % 4) v (word_at words i) small (omega arith)
            ∙ ap (λ b. if b then v % 256 else byte_at j (word_at words i)) column
      ])
      refl

-- The lane of a byte, if the access has it.
lane_of : (idx i j : ℕ) → ℕ
lane_of idx i j = 4 * (i - idx) + j

-- The first lane of a loop and the others.
first_lane :
    (n lane k w old new : ℕ) (p b : Bool)
    → p && k == lane ≡ true
    → new ≡ (if b then w else old)
    → (if p && leb (lane + 1) k && ltb k (lane + 1 + n) && b then w else new)
      ≡ (if p && leb lane k && ltb k (lane + suc n) && b then w else old)
first_lane n lane k w old new p b here e = ground (arith, here, e)

later_lane :
    (n lane k w old new : ℕ) (p b : Bool)
    → p && k == lane ≡ false
    → new ≡ old
    → (if p && leb (lane + 1) k && ltb k (lane + 1 + n) && b then w else new)
      ≡ (if p && leb lane k && ltb k (lane + suc n) && b then w else old)
later_lane n lane k w old new p b away e = ground (arith, away, e)

-- What a loop over the lanes leaves in a byte.
write_lanes-byte :
    (n lane idx be wdata : ℕ) (words : List ℕ) (i j : ℕ)
    → length words ≡ data_count
    → i < data_count
    → j < 4
    → byte_at j (word_at (write_lanes n lane idx be wdata words) i) ≡ (
        if leb idx i
          && leb lane (lane_of idx i j)
          && ltb (lane_of idx i j) (lane + n)
          && bit (lane_of idx i j) be
        then byte_at (lane_of idx i j) wdata
        else byte_at j (word_at words i))
unfolding write_lanes lane_of lane_written
write_lanes-byte zero lane idx be wdata words i j two inside small =
    let out : leb lane (4 * (i - idx) + j) && ltb (4 * (i - idx) + j) (lane + 0) ≡ false =
      ground arith in
    ground (arith, out)
write_lanes-byte (suc n) lane idx be wdata words i j two inside small =
    let rest =
      write_lanes-byte n (lane + 1) idx be wdata (lane_written lane idx be wdata words) i j
        (length-lane_written lane idx be wdata words ∙ two) inside small in
    let k = lane_of idx i j in
    let new = byte_at j (word_at (lane_written lane idx be wdata words) i) in
    elim (Bool-cases (is_lane lane idx i j)) [
      | inl e ↦
          let same : lane ≡ k = ground (arith, e) in
          rest
          ∙ first_lane n lane k (byte_at k wdata) (byte_at j (word_at words i)) new (leb idx i)
              (bit k be) e
              (mine lane idx be wdata words i j two inside small e
                ∙ ap (λ (l : ℕ). if bit l be then byte_at l wdata else byte_at j (word_at words i))
                    same)
      | inr e ↦
          rest
          ∙ later_lane n lane k (byte_at k wdata) (byte_at j (word_at words i)) new (leb idx i)
              (bit k be) e (other lane idx be wdata words i j two inside small e)
    ]

-- How many lanes the bus has.
abbrev pub bus_lanes : Config → ℕ
bus_lanes c = if c.wide then 8 else 4

-- The word that the access starts at.
abbrev pub first_word : Access → ℕ
first_word a = (dbg_address a / 4 - data_base_addr / 4) % 2

from_first :
    (idx i k n x y : ℕ) (b : Bool)
    → (if leb idx i && leb 0 k && ltb k (0 + n) && b then x else y)
      ≡ (if leb idx i && ltb k n && b then x else y)
from_first idx i k n x y b = ground arith

-- Byte `j` of data register `i` behind an access of a hart: the byte of its lane, if the hart writes
-- the data registers and the bus has the lane and enables it, and else what it was.
pub data_o-byte :
    (c : Config) (r : Request) (a : Access) (i j : ℕ)
    → length r.data_i ≡ data_count
    → i < data_count
    → j < 4
    → let k = 4 * (i - first_word a) + j in
      byte_at j (word_at (data_o c r a) i) ≡ (
        if data_valid_o a && leb (first_word a) i && ltb k (bus_lanes c) && bit k a.be_i
        then byte_at k a.wdata_i
        else byte_at j (word_at r.data_i i))
unfolding data_o lane_of
data_o-byte c r a i j two inside small = elim (Bool-cases (data_valid_o a)) [
  | inl e ↦ rw e (
      write_lanes-byte (bus_lanes c) 0 (first_word a) a.be_i a.wdata_i r.data_i i j two inside small
      ∙ from_first (first_word a) i (lane_of (first_word a) i j) (bus_lanes c)
          (byte_at (lane_of (first_word a) i j) a.wdata_i) (byte_at j (word_at r.data_i i))
          (bit (lane_of (first_word a) i j) a.be_i))
  | inr e ↦ rw e refl
]

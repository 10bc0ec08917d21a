-- ===== src/Encoding/Apart.antt =====
-- The fields of a register in debug_rom/encoding.h do not overlap.
use Prim.Native.Nat.{bit_and}
use riscv_dbg.Common.{
  ℕ, zero, suc, ◌≡◌, ◌≢◌, refl, ap, arith, Bool, true, ◌&&◌, List, [], ◌∷◌, some, get_elem?, ==_iff,
  ◌==◌,
}
use riscv_dbg.Encoding.Fields.{Field, register_fields}

-- A test that holds of every entry.
every {ℓ} : {A : Type ℓ} → (A → Bool) → List A → Bool
every p [] = true
every p (x ∷ l) = p x && every p l

every_get {ℓ} :
    {A : Type ℓ} (p : A → Bool) (l : List A) (i : ℕ) (x : A)
    → every p l ≡ true
    → get_elem? l i ≡ some x
    → p x ≡ true
unfolding every
every_get p [] i x h e = cc
every_get p (y ∷ l) zero x h e = ground arith
every_get p (y ∷ l) (suc i) x h e = every_get p l i x (ground arith) e

apart : Field → Field → Bool
apart x y = bit_and x.mask y.mask == 0

-- Every entry is apart from every other.
all_apart : List Field → Bool
unfolding every
all_apart [] = true
all_apart (x ∷ l) = every (apart x) l && every (λ y. apart y x) l && all_apart l

apart_sound : (x y : Field) → apart x y ≡ true → bit_and x.mask y.mask ≡ 0
unfolding apart
apart_sound x y h = (==_iff _ _).0 h

all_apart_sound :
    (l : List Field) (i j : ℕ) (x y : Field)
    → all_apart l ≡ true
    → get_elem? l i ≡ some x
    → get_elem? l j ≡ some y
    → i ≢ j
    → bit_and x.mask y.mask ≡ 0
unfolding all_apart
all_apart_sound [] i j x y h ex ey ne = cc
all_apart_sound (z ∷ l) zero zero x y h ex ey ne = absurd (ne refl)
all_apart_sound (z ∷ l) zero (suc j) x y h ex ey ne =
    let d = apart_sound z y (every_get (apart z) l j y (ground arith) ey) in ground (arith, d)
all_apart_sound (z ∷ l) (suc i) zero x y h ex ey ne =
    let d = apart_sound x z (every_get (λ v. apart v z) l i x (ground arith) ex) in
    ground (arith, d)
all_apart_sound (z ∷ l) (suc i) (suc j) x y h ex ey ne =
    all_apart_sound l i j x y (ground arith) ex ey (λ e. ne (ap suc e))

registers_apart : every all_apart register_fields ≡ true
unfolding every all_apart apart register_fields
registers_apart = refl

-- Two different fields of one register have no bit in common: mstatus, sstatus, dcsr, mcontrol of 32
-- and 64 bits, mip, both forms of satp, the PMP configuration and the page table entry.
fields_apart :
    (r i j : ℕ) (l : List Field) (x y : Field)
    → get_elem? register_fields r ≡ some l
    → get_elem? l i ≡ some x
    → get_elem? l j ≡ some y
    → i ≢ j
    → bit_and x.mask y.mask ≡ 0
fields_apart r i j l x y at ex ey ne =
    all_apart_sound l i j x y (every_get all_apart register_fields r l registers_apart at) ex ey ne

-- ===== src/Encoding/Csrs.antt =====
-- The register addresses of debug_rom/encoding.h, among themselves and against src/dm_pkg.sv.
use text.Mathlib.Text.{◌==◌ as str_eq}
use text.Mathlib.TextEquality.{eq_iff}
use riscv_dbg.Common.{
  ℕ, zero, suc, ◌≡◌, ◌⊎◌, inl, inr, refl, ap, arith, Bool, true, List, [], ◌∷◌, ◌++◌, some,
  get_elem?, ==_iff, ◌==◌, ◌&&◌, ◌||◌, not, if◌then◌else◌,
}
use riscv_dbg.Encoding.{Csr}
use riscv_dbg.Encoding.UserCsrs.{user_csrs}
use riscv_dbg.Encoding.MachineCsrs.{machine_csrs}
use riscv_dbg.Encoding.PkgCsrs.{csr_reg_t}

unfoldable pub csrs : List Csr
unfolding user_csrs machine_csrs
csrs = user_csrs ++ machine_csrs

-- A test that holds of every pair of an entry of one list and an entry of another.
all_of : (Csr → Bool) → List Csr → Bool
all_of p [] = true
all_of p (x ∷ l) = p x && all_of p l

all_of_get :
    (p : Csr → Bool) (l : List Csr) (i : ℕ) (x : Csr)
    → all_of p l ≡ true
    → get_elem? l i ≡ some x
    → p x ≡ true
unfolding all_of
all_of_get p [] i x h e = cc
all_of_get p (y ∷ l) zero x h e = ground arith
all_of_get p (y ∷ l) (suc i) x h e = all_of_get p l i x (ground arith) e

-- `dscratch` and its alias `dscratch0`.
abbrev aliased : ℕ
aliased = 0x7b2

distinct : Csr → Csr → Bool
distinct x y = not (x.address == y.address) || (x.address == aliased)

all_distinct : List Csr → Bool
all_distinct [] = true
all_distinct (x ∷ l) = all_of (distinct x) l && all_distinct l

distinct_sound : (x y : Csr) → distinct x y ≡ true → x.address ≡ y.address → x.address ≡ aliased
unfolding distinct
distinct_sound x y h e = ground arith

all_distinct_sound :
    (l : List Csr) (i j : ℕ) (x y : Csr)
    → all_distinct l ≡ true
    → get_elem? l i ≡ some x
    → get_elem? l j ≡ some y
    → x.address ≡ y.address
    → (i ≡ j) ⊎ (x.address ≡ aliased)
unfolding all_distinct
all_distinct_sound [] i j x y h ex ey e = cc
all_distinct_sound (z ∷ l) zero zero x y h ex ey e = inl refl
all_distinct_sound (z ∷ l) zero (suc j) x y h ex ey e =
    let d = distinct_sound z y (all_of_get (distinct z) l j y (ground arith) ey) in
    inr (ground (arith, d))
all_distinct_sound (z ∷ l) (suc i) zero x y h ex ey e =
    let d = distinct_sound z x (all_of_get (distinct z) l i x (ground arith) ex) in
    inr (ground (arith, d))
all_distinct_sound (z ∷ l) (suc i) (suc j) x y h ex ey e =
    elim (all_distinct_sound l i j x y (ground arith) ex ey e) [
      | inl p ↦ inl (ap suc p)
      | inr q ↦ inr q
    ]

csrs_distinct : all_distinct csrs ≡ true
unfolding all_distinct all_of distinct csrs
csrs_distinct = refl

-- Two entries with one address are one entry, but for `dscratch` and its alias.
addresses_distinct :
    (i j : ℕ) (x y : Csr)
    → get_elem? csrs i ≡ some x
    → get_elem? csrs j ≡ some y
    → x.address ≡ y.address
    → (i ≡ j) ⊎ (x.address ≡ aliased)
addresses_distinct i j x y = all_distinct_sound csrs i j x y csrs_distinct

agree : Csr → Csr → Bool
agree x y = if str_eq x.name y.name then x.address == y.address else true

agree_sound : (x y : Csr) → agree x y ≡ true → x.name ≡ y.name → x.address ≡ y.address
unfolding agree
agree_sound x y h e = ground (arith, eq_iff x.name y.name, ==_iff x.address y.address)

tables_agree : all_of (λ x. all_of (agree x) csrs) csr_reg_t ≡ true
unfolding all_of agree csrs csr_reg_t
tables_agree = refl

-- A register that the hardware package and the header both name has one address.
hardware_agrees :
    (i j : ℕ) (x y : Csr)
    → get_elem? csr_reg_t i ≡ some x
    → get_elem? csrs j ≡ some y
    → x.name ≡ y.name
    → x.address ≡ y.address
hardware_agrees i j x y ex ey =
    agree_sound x y (all_of_get (agree x) csrs j y (all_of_get _ csr_reg_t i x tables_agree ex) ey)

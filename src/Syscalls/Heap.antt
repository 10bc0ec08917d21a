-- ===== src/Syscalls/Heap.antt =====
-- The program break, `_sbrk` of tb/prog/syscalls.c, over the requests of a program.
use riscv_dbg.Common.{
  ℕ, ◌+◌, ◌*◌, ◌≤◌, ◌<◌, ◌≡◌, ◌≢◌, ◌∙◌, refl, ap, arith, List, [], ◌∷◌, ◌++◌, replicate, length,
}
use riscv_dbg.Syscalls.{Machine, Returned, value, address_mod, _sbrk}

-- What the calls return, one for each increment, and the machine behind them.
unfoldable pub grants : (heap_start heap_end : ℕ) → List ℕ → Machine → List Returned × Machine
grants heap_start heap_end [] m = ([], m)
grants heap_start heap_end (x ∷ xs) m =
    let (t, r) = _sbrk heap_start heap_end x m in
    let (rs, u) = grants heap_start heap_end xs t in (r ∷ rs, u)

-- Regions that follow each other, each behind a gap of its own size.
unfoldable pub spaced : (base : ℕ) → List ℕ → List Returned
spaced base [] = []
spaced base (x ∷ xs) = value base ∷ spaced (base + 2 * x) xs

abbrev pub total : List ℕ → ℕ
total [] = 0
total (x ∷ xs) = x + total xs

-- No request wraps around from the end of the heap.
abbrev pub NoWrap : ℕ → List ℕ → Type 0
NoWrap heap_end [] = Unit {0}
NoWrap heap_end (y ∷ ys) = (heap_end + y < address_mod) × NoWrap heap_end ys

before : Returned → List Returned × Machine → List Returned × Machine
before r run = (r ∷ run.0, run.1)

grants_step :
    (heap_start heap_end x : ℕ) (xs : List ℕ) (m t : Machine) (base : ℕ)
    (later : List Returned × Machine)
    → _sbrk heap_start heap_end x m ≡ (t, value base)
    → grants heap_start heap_end xs t ≡ later
    → grants heap_start heap_end (x ∷ xs) m ≡ before (value base) later
unfolding grants before
grants_step heap_start heap_end x xs m t base later e f = rw (e, f) refl

-- A request that fits, and one that does not.
_sbrk_fits :
    (heap_start heap_end x : ℕ) (m : Machine)
    → heap_start ≢ heap_end
    → heap_end < address_mod
    → m.brk + 2 * x ≤ heap_end
    → _sbrk heap_start heap_end x m ≡ (record m { brk = m.brk + 2 * x }, value m.brk)
unfolding _sbrk
_sbrk_fits heap_start heap_end x m ne small fits = ground arith

_sbrk_overruns :
    (heap_start heap_end x : ℕ) (m : Machine)
    → heap_start ≢ heap_end
    → m.brk + x < address_mod
    → heap_end ≤ m.brk + x
    → _sbrk heap_start heap_end x m ≡ (record m { brk = heap_end }, value m.brk)
unfolding _sbrk
_sbrk_overruns heap_start heap_end x m ne small over = ground arith

exhausted :
    (heap_start heap_end : ℕ) (ys : List ℕ) (m : Machine)
    → heap_start ≢ heap_end
    → NoWrap heap_end ys
    → let full = record m { brk = heap_end } in
      grants heap_start heap_end ys full ≡ (replicate (length ys) (value heap_end), full)
unfolding grants before
exhausted heap_start heap_end [] m ne small = refl
exhausted heap_start heap_end (y ∷ ys) m ne small =
    let full = record m { brk = heap_end } in
    grants_step heap_start heap_end y ys full full heap_end _
      (_sbrk_overruns heap_start heap_end y full ne small.0 (omega arith))
      (exhausted heap_start heap_end ys m ne small.1)

regroup : (b z t : ℕ) → b + 2 * z + 2 * t ≡ b + 2 * (z + t)
regroup b z t = omega arith

-- In a heap that is not empty the requests `xs` that fit twice are granted one behind the other, each
-- region followed by a gap of its own size. A request that ends at the end of the heap or behind
-- it, without wrapping around, is granted too, and every later one is granted the end of the heap,
-- where all of them overlap.
pub grants_until_full :
    (heap_start heap_end x : ℕ) (xs ys : List ℕ) (m : Machine)
    → heap_start ≢ heap_end
    → heap_end < address_mod
    → m.brk + 2 * total xs ≤ heap_end
    → heap_end ≤ m.brk + 2 * total xs + x
    → m.brk + 2 * total xs + x < address_mod
    → NoWrap heap_end ys
    → grants heap_start heap_end (xs ++ x ∷ ys) m ≡ (
      spaced m.brk xs ++ value (m.brk + 2 * total xs) ∷ replicate (length ys) (value heap_end),
      record m { brk = heap_end },
    )
unfolding spaced before
grants_until_full heap_start heap_end x [] ys m ne small fits over bounded later =
    grants_step heap_start heap_end x ys m (record m { brk = heap_end }) m.brk _
      (_sbrk_overruns heap_start heap_end x m ne (omega arith) (omega arith))
      (exhausted heap_start heap_end ys m ne later)
    ∙ ap
        (λ (b : ℕ). (value b ∷ replicate (length ys) (value heap_end), record m { brk = heap_end }))
        (let same : m.brk ≡ m.brk + 0 = omega arith in same)
grants_until_full heap_start heap_end x (z ∷ xs) ys m ne small fits over bounded later =
    let t = record m { brk = m.brk + 2 * z } in
    grants_step heap_start heap_end z (xs ++ x ∷ ys) m t m.brk _
      (_sbrk_fits heap_start heap_end z m ne small (omega arith))
      (grants_until_full heap_start heap_end x xs ys t ne small (omega arith) (omega arith)
        (omega arith) later)
    ∙ ap
        (λ (b : ℕ). (
          value m.brk
              ∷ (spaced (m.brk + 2 * z) xs ++ value b ∷ replicate (length ys) (value heap_end)),
          record m { brk = heap_end },
        ))
        (regroup m.brk z (total xs))

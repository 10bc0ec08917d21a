-- ===== src/Syscalls/Console.antt =====
-- What the system calls of tb/prog/syscalls.c show on the simulated console.
use riscv_dbg.Common.{
  ℕ, zero, suc, ◌+◌, ◌%◌, ◌<◌, ◌≡◌, refl, sym, ap, ◌∙◌, arith, List, [], ◌∷◌, ◌++◌, some, ◌==◌,
  if◌then◌else◌, Bool-cases, inl, inr,
}
use mathlib.Core.List.{append-nil, append_assoc}
use riscv_dbg.Syscalls.{
  stdout_reg, stdout_fileno, enosys, plus, Event, store, wfi, Machine, value, minus_one, emit,
  fail_with, print_loop, address_mod, write_loop, with_result, _write,
}

-- What stands on the console, the first byte first.
unfoldable pub console : List Event → List ℕ
console [] = []
console (store address c ∷ es) =
    let earlier = console es in if address == stdout_reg then earlier ++ c ∷ [] else earlier
console (wfi ∷ es) = console es

-- The memory from `ptr` on, wrapping at the end of the address space.
unfoldable pub bytes_at : (ℕ → ℕ) → ℕ → ℕ → List ℕ
bytes_at memory ptr zero = []
bytes_at memory ptr (suc len) = memory ptr ∷ bytes_at memory ((ptr + 1) % address_mod) len

shown : List ℕ → Machine → Machine
shown [] m = m
shown (c ∷ cs) m = shown cs (emit (store stdout_reg c) m)

write_loop-shown :
    (memory : ℕ → ℕ) (len fuel ptr eptr : ℕ) (m : Machine)
    → len < fuel
    → len < address_mod
    → ptr < address_mod
    → eptr ≡ (ptr + len) % address_mod
    → write_loop memory fuel ptr eptr m ≡ some (shown (bytes_at memory ptr len) m)
unfolding write_loop shown bytes_at
write_loop-shown memory len zero ptr eptr m lt small fits e = absurd (omega arith)
write_loop-shown memory zero (suc fuel) ptr eptr m lt small fits e = ground arith
write_loop-shown memory (suc len) (suc fuel) ptr eptr m lt small fits e = ground (
  arith,
  write_loop-shown memory len fuel ((ptr + 1) % address_mod) eptr
      (emit (store stdout_reg (memory ptr)) m) (omega arith) (omega arith) (omega arith)
      (omega arith),
)

console-shown : (cs : List ℕ) (m : Machine) → console (shown cs m).events ≡ console m.events ++ cs
unfolding shown console emit
console-shown [] m = sym (append-nil (console m.events))
console-shown (c ∷ cs) m =
    console-shown cs (emit (store stdout_reg c) m) ∙ append_assoc (console m.events) (c ∷ []) cs

shown_errno : (cs : List ℕ) (m : Machine) → (shown cs m).errno ≡ m.errno
unfolding shown emit
shown_errno [] m = refl
shown_errno (c ∷ cs) m = shown_errno cs (emit (store stdout_reg c) m)

shown_brk : (cs : List ℕ) (m : Machine) → (shown cs m).brk ≡ m.brk
unfolding shown emit
shown_brk [] m = refl
shown_brk (c ∷ cs) m = shown_brk cs (emit (store stdout_reg c) m)

-- `_write` with bounded arguments returns. On the standard output it shows exactly the `len` bytes
-- from `ptr` on, in order, and returns `len`; on any other file it shows nothing, sets ENOSYS and
-- returns -1.
pub _write-console :
    (memory : ℕ → ℕ) (file ptr len : ℕ) (m : Machine)
    → ptr < address_mod
    → len < address_mod
    → (t : Machine) × (_write memory file ptr len m
        ≡ some (t, if file == stdout_fileno then value len else minus_one))
      × (console t.events
          ≡ console m.events ++ (if file == stdout_fileno then bytes_at memory ptr len else []))
      × (t.errno ≡ (if file == stdout_fileno then m.errno else plus enosys))
      × (t.brk ≡ m.brk)
unfolding _write fail_with
_write-console memory file ptr len m hp hl = elim (Bool-cases (file == stdout_fileno)) [
  | inl e ↦
      let cs = bytes_at memory ptr len in
      rw e (
        shown cs m,
        ap (with_result (value len)) (
            write_loop-shown memory len (suc len) ptr ((ptr + len) % address_mod) m (omega arith) hl
              hp refl),
        console-shown cs m,
        shown_errno cs m,
        shown_brk cs m,
      )
  | inr e ↦
      rw e (record m { errno = plus enosys }, refl, sym (append-nil (console m.events)), refl, refl)
]

-- The text up to its terminating zero.
pub until_zero : List ℕ → List ℕ
until_zero [] = []
until_zero (zero ∷ cs) = []
until_zero (suc c ∷ cs) = suc c ∷ until_zero cs

print_loop-shown : (cs : List ℕ) (m : Machine) → print_loop cs m ≡ shown (until_zero cs) m
unfolding print_loop shown until_zero
print_loop-shown [] m = refl
print_loop-shown (zero ∷ cs) m = refl
print_loop-shown (suc c ∷ cs) m = print_loop-shown cs (emit (store stdout_reg (suc c)) m)

pub print_loop-console :
    (cs : List ℕ) (m : Machine)
    → console (print_loop cs m).events ≡ console m.events ++ until_zero cs
print_loop-console cs m = rw (print_loop-shown cs m) (console-shown (until_zero cs) m)

-- ===== src/Syscalls/Examples.antt =====
-- The system calls at concrete inputs.
use riscv_dbg.Common.{◌≡◌, refl, arith, List, [], ◌∷◌, ◌++◌, some, ℕ}
use riscv_dbg.Syscalls.{Machine, value, untouched}
use riscv_dbg.Syscalls.Console.{console, bytes_at}
use riscv_dbg.Syscalls.Heap.{grants, spaced, grants_until_full}
use riscv_dbg.Syscalls.Programs.{SysCall, write, sbrk, exit, unimplemented, run, texts, run-console}

-- A memory whose bytes are their addresses.
abbrev memory : ℕ → ℕ
memory a = a

abbrev machine : Machine
machine = record { errno = untouched; events = []; brk = 0x1000 }

written : bytes_at memory 65 3 ≡ 65 ∷ 66 ∷ 67 ∷ []
unfolding bytes_at
written = refl

-- A heap of 0x1000 bytes: 0x100 and 0x200 fit twice, 0xb00 does not, and the last two overlap.
grants_until_full_example : grants 0x1000 0x2000 (0x100 ∷ 0x200 ∷ 0xb00 ∷ 16 ∷ 32 ∷ []) machine ≡ (
  value 0x1000 ∷ value 0x1200 ∷ value 0x1600 ∷ value 0x2000 ∷ value 0x2000 ∷ [],
  record machine { brk = 0x2000 },
)
unfolding spaced
grants_until_full_example =
    grants_until_full 0x1000 0x2000 0xb00 (0x100 ∷ 0x200 ∷ []) (16 ∷ 32 ∷ []) machine (omega arith)
      (omega arith) (omega arith) (omega arith) (omega arith) (omega arith)

abbrev program : List SysCall
program = write 1 65 3 ∷ write 2 65 3 ∷ sbrk 16 ∷ unimplemented ∷ exit 0 ∷ []

run-console_example :
    (t : Machine) × (run memory 0x1000 0x2000 program machine ≡ some t)
    × (console t.events ≡ console machine.events ++ texts memory program)
run-console_example = run-console memory 0x1000 0x2000 program machine (omega arith)

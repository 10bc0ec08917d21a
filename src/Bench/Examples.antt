-- ===== src/Bench/Examples.antt =====
-- The theorems on the main program of the simulation for a concrete design.
use riscv_dbg.Common.{ℕ, suc, ◌≡◌, refl, arith, true, some, ◌==◌}
use riscv_dbg.Bench.{Design, start, round, main_loop, File}
use riscv_dbg.Bench.Clock.{rounds, pins_at, NotYet, main_loop-runs}
use riscv_dbg.Bench.Dump.{IsWorking}

-- A design that counts its evaluations and finishes with the third.
abbrev counter : Design
counter = record { State = ℕ; eval = λ p n. suc n; got_finish = λ n. n == 3 }

main_loop-runs_example :
    let b = rounds counter 2 (start counter 0) in
    (main_loop counter 5 (start counter 0) ≡ some b) × (b.pins ≡ pins_at 2) × (b.t ≡ 10)
unfolding NotYet rounds start round
main_loop-runs_example = main_loop-runs counter 2 5 0 (omega arith) (refl, (refl, tt)) refl

abbrev disk : File
disk = record { opens = true; writes = λ i. true; closes = true }

disk-IsWorking : IsWorking disk
disk-IsWorking = record { opened = refl; written = λ i. refl; closed = refl }

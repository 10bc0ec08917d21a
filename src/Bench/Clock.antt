-- ===== src/Bench/Clock.antt =====
-- The clock and the reset that the simulation sees.
use riscv_dbg.Common.{
  ℕ, zero, suc, ◌+◌, ◌*◌, ◌%◌, ◌≤◌, ◌≡◌, refl, subst, arith, true, false, not, some, ltb, leb, ◌==◌,
  if◌then◌else◌,
}
use riscv_dbg.Bench.{Pins, Design, Bench, time_mod, start, round, main_loop}

-- The state behind `n` rounds.
unfoldable pub rounds : (d : Design) → ℕ → Bench d → Bench d
unfolding round
rounds d zero b = b
rounds d (suc n) b = rounds d n (round d b)

-- The pins behind `n` rounds: the clock is high behind an odd number of them, and the reset is
-- released in the tenth.
abbrev pub pins_at : ℕ → Pins
pins_at n = record { fetch_enable_i = true; clk_i = n % 2 == 1; rst_ni = leb 10 n }

record IsAt (d : Design) (n : ℕ) (b : Bench d) : Type 0 where
  time : b.t ≡ 5 * n % time_mod
  driven : b.pins ≡ pins_at n

pins_next :
    (t n : ℕ) (p : Pins)
    → t ≡ 5 * n % time_mod
    → p ≡ pins_at n
    → (let released = if ltb 40 t then record p { rst_ni = true } else p in
        record released { clk_i = not released.clk_i })
      ≡ pins_at (suc n)
pins_next t n p e f = ground (arith, e, f)

round-IsAt : (d : Design) (k : ℕ) (b : Bench d) → IsAt d k b → IsAt d (suc k) (round d b)
unfolding round
round-IsAt d k b h = record {
  time = omega (arith, h.time);
  driven = pins_next b.t k b.pins h.time h.driven;
}

-- The program has not finished before any of the rounds.
unfoldable pub NotYet : (d : Design) → ℕ → Bench d → Type 0
unfolding round
NotYet d zero b = Unit
NotYet d (suc n) b = (d.got_finish b.top ≡ false) × NotYet d n (round d b)

ends_at :
    (d : Design) (fuel : ℕ) (b : Bench d) → d.got_finish b.top ≡ true → main_loop d fuel b ≡ some b
unfolding main_loop
ends_at d zero b ends = rw ends refl
ends_at d (suc fuel) b ends = rw ends refl

main_loop-from :
    (d : Design) (n fuel k m : ℕ) (b : Bench d)
    → n ≤ fuel
    → k + n ≡ m
    → IsAt d k b
    → NotYet d n b
    → d.got_finish (rounds d n b).top ≡ true
    → (main_loop d fuel b ≡ some (rounds d n b)) × IsAt d m (rounds d n b)
unfolding rounds NotYet main_loop
main_loop-from d zero fuel k m b enough at h early ends =
    let here : k ≡ m = omega (arith, at) in (ends_at d fuel b ends, subst (λ j. IsAt d j b) here h)
main_loop-from d (suc n) zero k m b enough at h early ends = absurd (omega (arith, enough))
main_loop-from d (suc n) (suc fuel) k m b enough at h early ends =
    let (runs, there) =
      main_loop-from d n fuel (suc k) m (round d b) (omega (arith, enough)) (omega (arith, at))
        (round-IsAt d k b h) early.1 ends in
    (rw early.0 runs, there)

start-IsAt : (d : Design) (top : d.State) → IsAt d 0 (start d top)
unfolding start
start-IsAt d top = record { time = refl; driven = refl }

-- If the design first finishes behind `n` rounds, the loop ends there with any fuel from `n` on. The
-- clock has then toggled in every round, the time is five for each, and the reset is held for nine
-- rounds and released with the falling edge of the tenth.
pub main_loop-runs :
    (d : Design) (n fuel : ℕ) (top : d.State)
    → n ≤ fuel
    → NotYet d n (start d top)
    → d.got_finish (rounds d n (start d top)).top ≡ true
    → let b = rounds d n (start d top) in
      (main_loop d fuel (start d top) ≡ some b) × (b.pins ≡ pins_at n) × (b.t ≡ 5 * n % time_mod)
main_loop-runs d n fuel top enough early ends =
    let (runs, at) =
      main_loop-from d n fuel 0 n (start d top) enough (omega arith) (start-IsAt d top) early
        ends in
    (runs, at.driven, at.time)

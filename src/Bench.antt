-- ===== src/Bench.antt =====
-- The main program of the simulation, tb/tb_top_verilator.cpp. The design that Verilator builds is a
-- parameter: its state, what an evaluation with the pins does, and whether it has finished. So are the
-- byte that it reads from its memory and the answers of the file system.
pub mod Clock
pub mod Dump
mod Examples
use riscv_dbg.Common.{
  ℕ, zero, suc, ◌+◌, ◌*◌, ◌/◌, ◌%◌, ◌^◌, Bool, true, false, not, List, [], ◌∷◌, ◌++◌, Option, none,
  some, ltb, if◌then◌else◌,
}

-- The pins of `top` that the program drives.
pub record Pins : Type 0 where
  pub fetch_enable_i : Bool
  pub clk_i : Bool
  pub rst_ni : Bool

pub record Design : Type 1 where
  pub State : Type 0
  pub eval : Pins → State → State
  pub got_finish : State → Bool

-- The globals `t` and `top`.
pub record Bench (d : Design) : Type 0 where
  pub t : ℕ
  pub pins : Pins
  pub top : d.State

-- `vluint64_t`
abbrev pub time_mod : ℕ
time_mod = 2 ^ 64

-- Up to the loop.
unfoldable pub start : (d : Design) → d.State → Bench d
start d top =
    let pins : Pins = record { fetch_enable_i = true; clk_i = false; rst_ni = false } in
    record { t = 0; pins = pins; top = d.eval pins top }

-- The body of the loop.
unfoldable pub round : (d : Design) → Bench d → Bench d
round d b =
    let released = if ltb 40 b.t then record b.pins { rst_ni = true } else b.pins in
    let pins = record released { clk_i = not released.clk_i } in
    record { t = (b.t + 5) % time_mod; pins = pins; top = d.eval pins b.top }

-- The loop in at most `fuel` rounds.
unfoldable pub main_loop : (d : Design) → ℕ → Bench d → Option (Bench d)
unfolding round
main_loop d zero b = if d.got_finish b.top then some b else none
main_loop d (suc fuel) b =
    let later = main_loop d fuel (round d b) in if d.got_finish b.top then some b else later

unfoldable sc_time_stamp : {d : Design} → Bench d → ℕ
sc_time_stamp b = b.t

-- The hexadecimal digits of a number in at most `fuel` places, and a line of the dump: at least two
-- of them. A `uint32_t` has eight.
unfoldable pub hex : ℕ → ℕ → List ℕ
hex zero v = []
hex (suc fuel) v =
    let high = hex fuel (v / 16) in if ltb v 16 then v ∷ [] else high ++ (v % 16 ∷ [])

abbrev pad : List ℕ → List ℕ
pad [] = 0 ∷ 0 ∷ []
pad (x ∷ []) = 0 ∷ x ∷ []
pad l = l

unfoldable pub line : ℕ → List ℕ
unfolding hex
line v = pad (hex 8 v)

-- Whether the file is opened, whether each line is written, and whether it is closed.
pub record File : Type 0 where
  pub opens : Bool
  pub writes : ℕ → Bool
  pub closes : Bool

-- What the program says at the end: that it has finished, or that an exception came.
pub data Report : Type 0 where
  finished exception : Report

-- The lines from `i` on, `size` of them, that reach the file.
unfoldable pub dump_from : (ℕ → ℕ) → File → (size i : ℕ) → List (List ℕ) × Report
unfolding line
dump_from read_byte f zero i = ([], if f.closes then finished else exception)
dump_from read_byte f (suc size) i =
    let (lines, report) = dump_from read_byte f size (i + 1) in
    if f.writes i then (line (read_byte i % 2 ^ 32) ∷ lines, report) else ([], exception)

abbrev pub memory_size : ℕ
memory_size = 1048576

unfoldable pub dump_memory : (ℕ → ℕ) → File → List (List ℕ) × Report
unfolding dump_from
dump_memory read_byte f = if f.opens then dump_from read_byte f memory_size 0 else ([], exception)

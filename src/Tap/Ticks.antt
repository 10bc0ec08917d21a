-- ===== src/Tap/Ticks.antt =====
-- When tb/SimJTAG.sv calls `jtag_tick`: the counter of its clock cycles and what gates it.
use native.Mathlib.Nat.{suc-mod, mod-eq_of_lt, mod_self, mod-lt}
use riscv_dbg.Common.{
  ℕ, suc, ◌+◌, ◌-◌, ◌%◌, ◌<◌, ◌≡◌, ◌∙◌, refl, ap, arith, Bool, false, not, ◌&&◌, ◌||◌, ◌==◌,
  if◌then◌else◌, List, [], ◌∷◌, Bool-cases, inl, inr,
}

pub record SimJtag : Type 0 where
  pub r_reset : Bool
  pub tick_counter_reg : ℕ
  pub init_done_sticky : Bool

-- The inputs of a cycle.
pub record Gate : Type 0 where
  pub reset : Bool
  pub enable : Bool
  pub init_done : Bool

-- `tickCounterNxt`
abbrev tick_counter_nxt : ℕ → SimJtag → ℕ
tick_counter_nxt tick_delay s =
    if s.tick_counter_reg == 0 then tick_delay else s.tick_counter_reg - 1

-- A rising edge of the clock: whether `jtag_tick` is called, and the registers behind it. What the
-- call returns is `__exit`, which a reset puts to 0.
unfoldable pub clocked : (tick_delay : ℕ) → Gate → SimJtag → Bool × SimJtag
clocked tick_delay g s =
    let runs = g.enable && s.init_done_sticky in
    if g.reset || s.r_reset
    then (
      false,
      record { r_reset = g.reset; tick_counter_reg = tick_delay; init_done_sticky = false },
    )
    else (
      runs && s.tick_counter_reg == 0,
      record {
        r_reset = g.reset;
        tick_counter_reg = if runs then tick_counter_nxt tick_delay s else s.tick_counter_reg;
        init_done_sticky = g.init_done || s.init_done_sticky;
      },
    )

-- Whether each cycle calls it.
unfoldable pub calls : (tick_delay : ℕ) → List Gate → SimJtag → List Bool
calls tick_delay [] s = []
calls tick_delay (g ∷ gs) s =
    let (called, t) = clocked tick_delay g s in called ∷ calls tick_delay gs t

-- The cycles of the reference: `ready` is whether the design has said that it is ready since the
-- reset, `held` whether the cycle before was a reset, and `n` counts the cycles that were enabled.
unfoldable pub every : (period : ℕ) → (held ready : Bool) → (n : ℕ) → List Gate → List Bool
every period held ready n [] = []
every period held ready n (g ∷ gs) =
    let idle = g.reset || held in
    let counts = g.enable && ready in
    (not idle && counts && suc n % period == 0)
    ∷ every period g.reset (not idle && (g.init_done || ready))
        (if idle then 0 else if counts then suc n else n) gs

-- The counter runs down as the remainder runs up.
next_remainder : (d n : ℕ) → suc n % (d + 1) ≡ (if n % (d + 1) == d then 0 else suc (n % (d + 1)))
next_remainder d n =
    let low : n % (d + 1) < d + 1 = mod-lt n (omega arith) in
    elim (Bool-cases (n % (d + 1) == d)) [
      | inl e ↦
          let last : suc (n % (d + 1)) ≡ d + 1 = ground (arith, e) in
          rw e (suc-mod n (d + 1) ∙ ap (λ (k : ℕ). k % (d + 1)) last ∙ mod_self (d + 1))
      | inr e ↦ rw e (suc-mod n (d + 1) ∙ mod-eq_of_lt (ground (arith, e, low)))
    ]

counted :
    (d n c : ℕ)
    → c ≡ d - n % (d + 1)
    → ((c == 0) ≡ (suc n % (d + 1) == 0)) × ((if c == 0 then d else c - 1) ≡ d - suc n % (d + 1))
counted d n c at =
    let low : n % (d + 1) < d + 1 = mod-lt n (omega arith) in
    let next = next_remainder d n in (ground (arith, at, low, next), ground (arith, at, low, next))

-- The number of enabled cycles behind one, and the registers behind it.
abbrev count_next : Gate → (held ready : Bool) → ℕ → ℕ
count_next g held ready n = if g.reset || held then 0 else if g.enable && ready then suc n else n

cycle_counted :
    (tick_delay : ℕ) (g : Gate) (n : ℕ) (s : SimJtag)
    → s.tick_counter_reg ≡ tick_delay - n % (tick_delay + 1)
    → let (called, t) = clocked tick_delay g s in
      let idle = g.reset || s.r_reset in
      let counts = g.enable && s.init_done_sticky in
      (called ≡ (not idle && counts && suc n % (tick_delay + 1) == 0))
      × (t.r_reset ≡ g.reset)
      × (t.init_done_sticky ≡ (not idle && (g.init_done || s.init_done_sticky)))
      × (t.tick_counter_reg
          ≡ tick_delay - count_next g s.r_reset s.init_done_sticky n % (tick_delay + 1))
unfolding clocked
cycle_counted tick_delay g n s at =
    let (zero_now, next) = counted tick_delay n s.tick_counter_reg at in
    let none : 0 % (tick_delay + 1) ≡ 0 = mod-eq_of_lt (omega arith) in
    (ground (arith, zero_now), ground arith, ground arith, ground (arith, next, at, none))

-- From a counter that agrees with the number of enabled cycles, `jtag_tick` is called in every
-- `tick_delay + 1`-th enabled cycle and in no other: a cycle is enabled if the input is, the design
-- has said before that it is ready and neither this cycle nor the last was a reset. A reset starts
-- the count again and forgets that the design was ready.
pub calls-every :
    (tick_delay : ℕ) (gs : List Gate) (n : ℕ) (s : SimJtag)
    → s.tick_counter_reg ≡ tick_delay - n % (tick_delay + 1)
    → calls tick_delay gs s ≡ every (tick_delay + 1) s.r_reset s.init_done_sticky n gs
unfolding calls every
calls-every tick_delay [] n s at = refl
calls-every tick_delay (g ∷ gs) n s at =
    let (called, held, ready, next) = cycle_counted tick_delay g n s at in
    let t = (clocked tick_delay g s).1 in
    let later = calls-every tick_delay gs (count_next g s.r_reset s.init_done_sticky n) t next in
    let rest =
      later
      ∙ ap
          (λ (b : Bool).
            every (tick_delay + 1) b t.init_done_sticky
              (count_next g s.r_reset s.init_done_sticky n) gs)
          held
      ∙ ap
          (λ (b : Bool).
            every (tick_delay + 1) g.reset b (count_next g s.r_reset s.init_done_sticky n) gs)
          ready in
    ap (λ (b : Bool). b ∷ calls tick_delay gs t) called
    ∙ ap
        (λ (l : List Bool).
          (not (g.reset || s.r_reset)
            && (g.enable && s.init_done_sticky)
            && suc n % (tick_delay + 1) == 0)
          ∷ l)
        rest

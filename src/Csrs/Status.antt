-- ===== src/Csrs/Status.antt =====
-- What a read of the status registers of src/dm_csrs.sv shows.
use riscv_dbg.Common.{
  ℕ, zero, suc, ◌+◌, ◌-◌, ◌*◌, ◌/◌, ◌%◌, ◌^◌, Bool, false, not, ◌&&◌, ◌||◌, ltb, if◌then◌else◌,
  to_bit,
}
use riscv_dbg.Mem.{Config, hart_index, aligned, data_count, prog_buf_size}
use riscv_dbg.Csrs.{Csrs, Dmcontrol, Inputs}

-- `hartsel_o` and `selected_hart`
abbrev pub hartsel_of : Dmcontrol → ℕ
hartsel_of d = d.hartselhi * 2 ^ 10 + d.hartsello

unfoldable pub selected_hart : Config → Csrs → ℕ
unfolding hart_index
selected_hart c s = hart_index c (hartsel_of s.dmcontrol_q)

unfoldable pub dmstatus_word : Config → Inputs → Csrs → ℕ
unfolding selected_hart aligned
dmstatus_word c i s =
    let h = selected_hart c s in
    let reset = to_bit (aligned c s.havereset_q h) in
    let ack = to_bit (aligned c i.resumeack_i h) in
    let beyond = to_bit (ltb (c.nr_harts - 1) (hartsel_of s.dmcontrol_q)) in
    let unavail = aligned c i.unavailable_i h in
    let running = to_bit (not (aligned c i.halted_i h) && not unavail) in
    let halted = to_bit (aligned c i.halted_i h && not unavail) in
    reset * 2 ^ 19
    + reset * 2 ^ 18
    + ack * 2 ^ 17
    + ack * 2 ^ 16
    + beyond * 2 ^ 15
    + beyond * 2 ^ 14
    + to_bit unavail * 2 ^ 13
    + to_bit unavail * 2 ^ 12
    + running * 2 ^ 11
    + running * 2 ^ 10
    + halted * 2 ^ 9
    + halted * 2 ^ 8
    + 2 ^ 7
    + 2

abbrev pub abstractcs_word : Inputs → Csrs → ℕ
abstractcs_word i s =
    prog_buf_size * 2 ^ 24 + to_bit i.cmdbusy_i * 2 ^ 12 + s.cmderr_q * 2 ^ 8 + data_count

-- The word of the bits below `n`, and whether one of the bits below `n` is set.
unfoldable pub pack : ℕ → (ℕ → Bool) → ℕ
pack zero v = 0
pack (suc n) v = to_bit (v n) * 2 ^ n + pack n v

unfoldable pub any_bit : ℕ → (ℕ → Bool) → Bool
any_bit zero v = false
any_bit (suc n) v = v n || any_bit n v

-- The 32 bits of group `k`.
abbrev pub group : (ℕ → Bool) → ℕ → ℕ → Bool
group v k b = v (32 * k + b)

-- A bit for each of `n` groups: whether one of the group is set.
unfoldable pub reduced : ℕ → (ℕ → Bool) → ℕ → Bool
unfolding any_bit
reduced n v k = ltb k n && any_bit 32 (group v k)

-- How many harts there are, and how many words `halted_reshaped0` to `halted_reshaped2` have.
unfoldable pub flat_size : ℕ → Config → ℕ
flat_size zero c = c.nr_harts
flat_size (suc zero) c = (c.nr_harts - 1) / 2 ^ 5 + 1
flat_size (suc (suc zero)) c = (c.nr_harts - 1) / 2 ^ 10 + 1
flat_size _ c = (c.nr_harts - 1) / 2 ^ 15 + 1

-- `halted`, `halted_flat1` and `halted_flat2`: a bit for each of so many words.
unfoldable pub halted_flat : ℕ → Config → Inputs → ℕ → Bool
unfolding reduced flat_size
halted_flat zero c i h = ltb h (flat_size 0 c) && i.halted_i h
halted_flat (suc l) c i k = reduced (flat_size (suc l) c) (halted_flat l c i) k

-- `halted_flat3`. The loop of the code runs to `NrHarts / 2 ** 15`, which is behind the last word if
-- NrHarts is a multiple of 2 ^ 15; the read there has no defined value and is `past_end`.
unfoldable pub halted_flat3 : Config → Inputs → ℕ → Bool
unfolding any_bit halted_flat flat_size
halted_flat3 c i k =
    ltb k (c.nr_harts / 2 ^ 15 + 1)
    && (if ltb k (flat_size 3 c) then any_bit 32 (group (halted_flat 2 c i) k) else c.past_end)

-- `haltsum0` to `haltsum3`
unfoldable pub haltsum : ℕ → Config → Inputs → Csrs → ℕ
unfolding halted_flat halted_flat3 pack
haltsum zero c i s =
    let k = hartsel_of s.dmcontrol_q / 2 ^ 5 % 2 ^ 15 in
    if ltb k (((c.nr_harts - 1) / 2 ^ 5 + 1) % 2 ^ 15)
    then pack 32 (group (halted_flat 0 c i) k)
    else 0
haltsum (suc zero) c i s =
    let k = hartsel_of s.dmcontrol_q / 2 ^ 10 % 2 ^ 10 in
    if ltb k (((c.nr_harts - 1) / 2 ^ 10 + 1) % 2 ^ 10)
    then pack 32 (group (halted_flat 1 c i) k)
    else 0
haltsum (suc (suc zero)) c i s =
    let k = hartsel_of s.dmcontrol_q / 2 ^ 15 % 2 ^ 5 in
    if ltb k (((c.nr_harts - 1) / 2 ^ 15 + 1) % 2 ^ 5)
    then pack 32 (group (halted_flat 2 c i) k)
    else 0
haltsum _ c i s = pack 32 (halted_flat3 c i)

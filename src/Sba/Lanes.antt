-- ===== src/Sba/Lanes.antt =====
-- The data of an access: the lanes of the bus carry the low bytes of the data register.
use Prim.Native.Nat.{bit_and}
use riscv_dbg.Common.{
  ℕ, zero, suc, ◌+◌, ◌-◌, ◌*◌, ◌/◌, ◌%◌, ◌^◌, ◌≤◌, ◌<◌, ◌≡◌, ◌∙◌, ap, arith, Bool-cases, inl, inr,
}
use riscv_dbg.Common.Bytes.{byte_at, byte_at-cut, byte_at-shift_up, byte_at-shift_down}
use riscv_dbg.Common.Masks.{bit_and_ones, digit_by_digit, bit_and_zero}
use riscv_dbg.Sba.{
  Config, Request, Bus, bus_width, be_idx_width, sbaccess_mask, be_idx, be_idx_masked,
  master_wdata_o, sbdata_o,
}
use riscv_dbg.Sba.Control.{IsSupported, aligned_index, index_bound}

mask_6 : (i : ℕ) → i < 8 → i % 2 ≡ 0 → bit_and i 6 ≡ i
mask_6 i bound h = omega (arith, digit_by_digit i 6, bit_and_ones 2 (i / 2))

mask_2 : (i : ℕ) → i < 4 → i % 2 ≡ 0 → bit_and i 2 ≡ i
mask_2 i bound h = omega (arith, digit_by_digit i 2, bit_and_ones 1 (i / 2))

mask_4 : (i : ℕ) → i < 8 → i % 4 ≡ 0 → bit_and i 4 ≡ i
mask_4 i bound h =
    omega (arith, digit_by_digit i 4, digit_by_digit (i / 2) 2, bit_and_ones 1 (i / 2 / 2))

index_masked :
    (c : Config) (n i : ℕ)
    → n ≤ be_idx_width c
    → i < 2 ^ be_idx_width c
    → i % 2 ^ n ≡ 0
    → bit_and i (sbaccess_mask c n % 2 ^ be_idx_width c) ≡ i
unfolding sbaccess_mask bus_width be_idx_width
index_masked c zero i small bound h = elim (Bool-cases c.wide) [
  | inl e ↦ rw e (bit_and_ones 3 i ∙ ground arith)
  | inr e ↦ rw e (bit_and_ones 2 i ∙ ground arith)
]
index_masked c (suc zero) i small bound h = elim (Bool-cases c.wide) [
  | inl e ↦ rw e (mask_6 i (ground arith) h)
  | inr e ↦ rw e (mask_2 i (ground arith) h)
]
index_masked c (suc (suc zero)) i small bound h = elim (Bool-cases c.wide) [
  | inl e ↦ rw e (mask_4 i (ground arith) h)
  | inr e ↦ rw e (bit_and_zero i ∙ ground arith)
]
index_masked c (suc (suc (suc zero))) i small bound h = elim (Bool-cases c.wide) [
  | inl e ↦ rw e (bit_and_zero i ∙ ground arith)
  | inr e ↦ absurd (ground arith)
]
index_masked c (suc (suc (suc (suc n)))) i small bound h = absurd (ground arith)

room :
    (c : Config) (n i : ℕ)
    → n ≤ be_idx_width c
    → i < 2 ^ be_idx_width c
    → i % 2 ^ n ≡ 0
    → 8 * (i + 2 ^ n) ≤ bus_width c
unfolding bus_width be_idx_width
room c zero i small bound h = ground arith
room c (suc zero) i small bound h = ground arith
room c (suc (suc zero)) i small bound h = ground arith
room c (suc (suc (suc zero))) i small bound h = ground arith
room c (suc (suc (suc (suc n)))) i small bound h = absurd (ground arith)

whole_bytes : (c : Config) → bus_width c % 8 ≡ 0
unfolding bus_width
whole_bytes c = ground arith

-- The lane of the lowest byte.
be_idx_masked-IsSupported :
    (c : Config) (r : Request) → IsSupported c r → be_idx_masked c r ≡ be_idx c r
unfolding be_idx_masked IsSupported
be_idx_masked-IsSupported c r ok =
    index_masked c r.sbaccess_i (be_idx c r) ok.0 (index_bound c r) (aligned_index c r ok)

-- In a supported access byte `j` of the data stands in lane `be_idx + j` of the bus, for a write
-- and for a read.
pub lanes-IsSupported :
    (c : Config) (r : Request) (b : Bus) (j : ℕ)
    → IsSupported c r
    → j < 2 ^ r.sbaccess_i
    → (byte_at (be_idx c r + j) (master_wdata_o c r) ≡ byte_at j r.sbdata_i)
      × (byte_at j (sbdata_o c r b) ≡ byte_at (be_idx c r + j) b.master_r_rdata_i)
unfolding master_wdata_o sbdata_o IsSupported
lanes-IsSupported c r b j ok inside =
    let i = be_idx c r in
    let fits = room c r.sbaccess_i i ok.0 (index_bound c r) (aligned_index c r ok) in
    let left = bus_width c / 8 - (i + j + 1) in
    let width : bus_width c ≡ 8 * (i + j + suc left) = omega (arith, whole_bytes c) in
    let written =
      ap (λ (t : ℕ). byte_at (i + j) (r.sbdata_i * 2 ^ (8 * i) % 2 ^ t)) width
      ∙ byte_at-cut (i + j) left (r.sbdata_i * 2 ^ (8 * i))
      ∙ byte_at-shift_up i j r.sbdata_i in
    rw (be_idx_masked-IsSupported c r ok) (written, byte_at-shift_down i j b.master_r_rdata_i)

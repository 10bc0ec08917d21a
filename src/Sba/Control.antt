-- ===== src/Sba/Control.antt =====
-- What the FSM asks of the bus, and which error it reports, in every state.
use riscv_dbg.Common.{
  ℕ, zero, suc, ◌%◌, ◌^◌, ◌≤◌, ◌<◌, ◌≡◌, arith, Bool, true, false, not, ◌&&◌, ltb, ◌==◌,
  if◌then◌else◌, ◌⊎◌,
}
use riscv_dbg.Sba.{
  SbaState, read, write, wait_read, wait_write, Config, Request, Bus, Fsm, be_idx_width, be_mask,
  be_idx, fsm, fsm_case, finish, handle_size, handle_alignment, sbbusy_o,
}
use riscv_dbg.Sba.Bytes.{is_misaligned_lem, accessed, be_mask-accessed}

-- The access can be carried out: its size is supported and its address is a multiple of the size.
unfoldable pub IsSupported : Config → Request → Type 0
IsSupported c r = (r.sbaccess_i ≤ be_idx_width c) × (r.sbaddress_i % 2 ^ r.sbaccess_i ≡ 0)

unfoldable pub is_waiting : SbaState → Bool
is_waiting wait_read = true
is_waiting wait_write = true
is_waiting _ = false

-- The error of a cycle by its priority; 0 is none.
unfoldable pub error_of : Config → SbaState → Request → Bus → ℕ
unfolding sbbusy_o is_waiting
error_of c q r b =
    let answered = b.master_r_valid_i && is_waiting q in
    if not (sbbusy_o q)
    then 0
    else if not (r.sbaddress_i % 2 ^ r.sbaccess_i == 0)
    then 3
    else if ltb (be_idx_width c) r.sbaccess_i
    then 4
    else if answered && b.master_r_other_err_i
    then 7
    else if answered && b.master_r_err_i
    then 2
    else 0

-- A cycle reports the error of the highest priority, and reports one exactly if there is one;
-- `sbaccess_i` has 3 bits.
fsm-error_of :
    (c : Config) (q : SbaState) (r : Request) (b : Bus)
    → r.sbaccess_i < 8
    → ((fsm c q r b).sberror_o ≡ error_of c q r b)
      × ((fsm c q r b).sberror_valid_o ≡ not (error_of c q r b == 0))
unfolding fsm fsm_case finish handle_size handle_alignment error_of sbbusy_o is_waiting
fsm-error_of c q r b small = rw (is_misaligned_lem c r small) ground arith

low_part_aligned :
    (wide : Bool) (n x : ℕ)
    → n ≤ (if wide then 3 else 2)
    → x % 2 ^ n ≡ 0
    → x % 2 ^ (if wide then 3 else 2) % 2 ^ n ≡ 0
low_part_aligned wide zero x small h = omega arith
low_part_aligned true (suc zero) x small h = omega arith
low_part_aligned true (suc (suc zero)) x small h = omega arith
low_part_aligned true (suc (suc (suc zero))) x small h = omega arith
low_part_aligned true (suc (suc (suc (suc n)))) x small h = absurd (omega arith)
low_part_aligned false (suc zero) x small h = omega arith
low_part_aligned false (suc (suc zero)) x small h = omega arith
low_part_aligned false (suc (suc (suc n))) x small h = absurd (omega arith)

pub aligned_index : (c : Config) (r : Request) → IsSupported c r → be_idx c r % 2 ^ r.sbaccess_i ≡ 0
unfolding IsSupported be_idx be_idx_width
aligned_index c r h = low_part_aligned c.wide r.sbaccess_i r.sbaddress_i h.0 h.1

pub index_bound : (c : Config) (r : Request) → be_idx c r < 2 ^ be_idx_width c
unfolding be_idx be_idx_width
index_bound c r = ground arith

-- The mask of a supported access has the lanes of its bytes.
pub be_mask-IsSupported :
    (c : Config) (r : Request)
    → IsSupported c r
    → be_mask c r.sbaccess_i (be_idx c r) ≡ accessed r.sbaccess_i (be_idx c r)
unfolding IsSupported
be_mask-IsSupported c r h =
    be_mask-accessed c r.sbaccess_i (be_idx c r) h.0 (index_bound c r) (aligned_index c r h)

-- A request for a read or a write of these byte lanes.
unfoldable pub Asks : Config → SbaState → Fsm → ℕ → Type 0
Asks c q f lanes =
    ((q ≡ read) × (f.we ≡ false) × (f.be ≡ (if c.read_byte_enable then lanes else 0)))
    ⊎ ((q ≡ write) × (f.we ≡ true) × (f.be ≡ lanes))

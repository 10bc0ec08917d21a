-- ===== src/Sba.antt =====
-- The system bus access module, src/dm_sba.sv, for the two bus widths that it supports. `dmactive_i`
-- is an input that it does not read. `cycles` is the state register; its reset, to Idle, is left out.
pub mod Bytes
pub mod Control
pub mod Transfer
pub mod Lanes
mod Examples
use Prim.Native.Nat.{bit_and}
use riscv_dbg.Common.{
  ℕ, ◌+◌, ◌-◌, ◌*◌, ◌/◌, ◌%◌, ◌^◌, List, [], ◌∷◌, Bool, true, false, not, ◌&&◌, ltb, ◌==◌,
  if◌then◌else◌,
}

-- `sba_state_e`; `parasitic` is any of the encodings that name no state.
pub data SbaState : Type 0 where
  idle read write wait_read wait_write parasitic : SbaState

-- The parameters: BusWidth is 64 or 32.
pub record Config : Type 0 where
  pub wide : Bool
  pub read_byte_enable : Bool

unfoldable pub bus_width : Config → ℕ
bus_width c = if c.wide then 64 else 32

unfoldable pub be_idx_width : Config → ℕ
be_idx_width c = if c.wide then 3 else 2

-- What the registers of the debug module ask for.
pub record Request : Type 0 where
  pub sbaddress_i : ℕ
  pub sbaddress_write_valid_i : Bool
  pub sbreadonaddr_i : Bool
  pub sbautoincrement_i : Bool
  pub sbaccess_i : ℕ
  pub sbreadondata_i : Bool
  pub sbdata_i : ℕ
  pub sbdata_read_valid_i : Bool
  pub sbdata_write_valid_i : Bool

-- What the bus answers.
pub record Bus : Type 0 where
  pub master_gnt_i : Bool
  pub master_r_valid_i : Bool
  pub master_r_err_i : Bool
  pub master_r_other_err_i : Bool
  pub master_r_rdata_i : ℕ

-- `p_be_mask`
unfoldable pub be_mask : Config → (sbaccess be_idx : ℕ) → ℕ
be_mask c sbaccess be_idx =
    let all = 2 ^ (bus_width c / 8) - 1 in
    if sbaccess == 0
    then 2 ^ be_idx
    else if sbaccess == 1
    then 3 * 2 ^ (be_idx / 2 * 2)
    else if sbaccess == 2
    then (if c.wide then 15 * 2 ^ (be_idx / 4 * 4) else all)
    else if sbaccess == 3
    then all
    else 0

unfoldable pub sbaccess_mask : Config → ℕ → ℕ
sbaccess_mask c sbaccess = (2 ^ bus_width c - 1) * 2 ^ sbaccess % 2 ^ bus_width c

unfoldable pub be_idx : Config → Request → ℕ
be_idx c r = r.sbaddress_i % 2 ^ be_idx_width c

-- What `p_fsm` sets. `address` is `sbaddress_i` in every state.
pub record Fsm : Type 0 where
  pub req : Bool
  pub we : Bool
  pub be : ℕ
  pub addr_incr_en : Bool
  pub sberror_valid_o : Bool
  pub sberror_o : ℕ
  pub state_d : SbaState

abbrev pub quiet : SbaState → Fsm
quiet q = record {
  req = false;
  we = false;
  be = 0;
  addr_incr_en = false;
  sberror_valid_o = false;
  sberror_o = 0;
  state_d = q;
}

-- The body of the two waiting states.
unfoldable pub finish : SbaState → Request → Bus → Fsm
finish q r b =
    let back = record (quiet idle) { addr_incr_en = r.sbautoincrement_i } in
    if b.master_r_valid_i
    then (if b.master_r_other_err_i
        then record back { sberror_valid_o = true; sberror_o = 7 }
        else if b.master_r_err_i
        then record back { sberror_valid_o = true; sberror_o = 2 }
        else back)
    else quiet q

-- The `unique case`.
unfoldable pub fsm_case : Config → SbaState → Request → Bus → Fsm
unfolding finish be_idx
fsm_case c idle r b =
    let on_address = if r.sbaddress_write_valid_i && r.sbreadonaddr_i then read else idle in
    let on_write = if r.sbdata_write_valid_i then write else on_address in
    quiet (if r.sbdata_read_valid_i && r.sbreadondata_i then read else on_write)
fsm_case c read r b = record (quiet (if b.master_gnt_i then wait_read else read)) {
  req = true;
  be = if c.read_byte_enable then be_mask c r.sbaccess_i (be_idx c r) else 0;
}
fsm_case c write r b = record (quiet (if b.master_gnt_i then wait_write else write)) {
  req = true;
  we = true;
  be = be_mask c r.sbaccess_i (be_idx c r);
}
fsm_case c wait_read r b = finish wait_read r b
fsm_case c wait_write r b = finish wait_write r b
fsm_case c parasitic r b = quiet idle

-- `sbbusy_o`
unfoldable pub sbbusy_o : SbaState → Bool
sbbusy_o idle = false
sbbusy_o _ = true

abbrev refuse : ℕ → Fsm → Fsm
refuse e f = record f { req = false; state_d = idle; sberror_valid_o = true; sberror_o = e }

unfoldable pub handle_size : Config → SbaState → Request → Fsm → Fsm
handle_size c q r f = if ltb (be_idx_width c) r.sbaccess_i && sbbusy_o q then refuse 4 f else f

-- The bits of the address that an access of this size must leave clear.
unfoldable pub is_misaligned : Config → Request → Bool
unfolding sbaccess_mask
is_misaligned c r =
    not (bit_and r.sbaddress_i (2 ^ bus_width c - 1 - sbaccess_mask c r.sbaccess_i) == 0)

unfoldable pub handle_alignment : Config → SbaState → Request → Fsm → Fsm
handle_alignment c q r f = if is_misaligned c r && sbbusy_o q then refuse 3 f else f

unfoldable pub fsm : Config → SbaState → Request → Bus → Fsm
unfolding fsm_case handle_size handle_alignment
fsm c q r b = handle_alignment c q r (handle_size c q r (fsm_case c q r b))

unfoldable pub be_idx_masked : Config → Request → ℕ
be_idx_masked c r = bit_and (be_idx c r) (sbaccess_mask c r.sbaccess_i % 2 ^ be_idx_width c)

-- `sbaddress_o`
unfoldable pub next_address : Config → Request → Fsm → ℕ
next_address c r f =
    let addr_incr = if f.addr_incr_en then 2 ^ r.sbaccess_i % 2 ^ bus_width c else 0 in
    (r.sbaddress_i + addr_incr) % 2 ^ bus_width c

unfoldable pub master_wdata_o : Config → Request → ℕ
master_wdata_o c r = r.sbdata_i * 2 ^ (8 * be_idx_masked c r) % 2 ^ bus_width c

unfoldable pub sbdata_o : Config → Request → Bus → ℕ
sbdata_o c r b = b.master_r_rdata_i / 2 ^ (8 * be_idx_masked c r)

-- `p_regs` over the cycles in which the bus answers as listed and the debug module holds its
-- request: what the FSM sets in each, and the state behind the last.
unfoldable pub cycles : Config → Request → SbaState → List Bus → List Fsm × SbaState
cycles c r q [] = ([], q)
cycles c r q (b ∷ bs) =
    let f = fsm c q r b in let (later, last) = cycles c r f.state_d bs in (f ∷ later, last)

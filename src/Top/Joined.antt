-- ===== src/Top/Joined.antt =====
-- The whole of src/dm_top.sv: the registers and the memory of the parent, joined with the system bus
-- access, src/dm_sba.sv.
use riscv_dbg.Common.{ℕ, ◌%◌, ◌^◌, Bool, false, List, [], ◌∷◌}
use riscv_dbg.Mem.{Config, Access}
use riscv_dbg.Csrs.{Csrs, Inputs}
use riscv_dbg.Csrs.Step.{csr_read_write}
use riscv_dbg.Sba.{
  SbaState, Request, Bus, Fsm, fsm, bus_width, next_address, master_wdata_o, sbdata_o, sbbusy_o,
}
use riscv_dbg.Sba
use riscv_dbg.Top.{Top, wired}
use riscv_dbg.Top

pub record Joined : Type 0 where
  pub top : Top
  pub sba_q : SbaState

-- The parameters of the system bus access; `e` is ReadByteEnable.
abbrev pub sba_config : Config → Bool → Sba.Config
sba_config c e = record { wide = c.wide; read_byte_enable = e }

-- What the registers drive, with the three strobes of the cycle.
unfoldable pub bus_request :
    Config → (address_written data_read data_written : Bool) → Csrs → Request
unfolding bus_width
bus_request c address_written data_read data_written s =
    let width = bus_width (sba_config c false) in
    record {
      sbaddress_i = s.sbaddr_q % 2 ^ width;
      sbaddress_write_valid_i = address_written;
      sbreadonaddr_i = s.sbcs_q.sbreadonaddr;
      sbautoincrement_i = s.sbcs_q.sbautoincrement;
      sbaccess_i = s.sbcs_q.sbaccess;
      sbreadondata_i = s.sbcs_q.sbreadondata;
      sbdata_i = s.sbdata_q % 2 ^ width;
      sbdata_read_valid_i = data_read;
      sbdata_write_valid_i = data_written;
    }

-- Without a strobe. What the system bus access answers in a cycle does not depend on the strobes.
abbrev pub held_request : Config → Csrs → Request
held_request c s = bus_request c false false false s

-- The inputs of the registers and of the memory, those of the system bus access connected.
unfoldable pub driven : Config → Bool → Inputs → Bus → Joined → Inputs
unfolding fsm next_address sbdata_o sbbusy_o bus_request
driven c e i b s =
    let k = sba_config c e in
    let r = held_request c s.top.csrs in
    let f = fsm k s.sba_q r b in
    record i {
      sbaddress_i = next_address k r f;
      sbdata_i = sbdata_o k r b;
      sbdata_valid_i = b.master_r_valid_i;
      sbbusy_i = sbbusy_o s.sba_q;
      sberror_valid_i = f.sberror_valid_o;
      sberror_i = f.sberror_o;
    }

-- The request with the strobes of the cycle.
unfoldable pub strobed : Config → Bool → Inputs → Access → Bus → Joined → Request
unfolding bus_request driven wired csr_read_write
strobed c e i a b s =
    let o = csr_read_write c (wired c (driven c e i b s) a s.top) s.top.csrs in
    bus_request c o.sbaddress_write_valid_o o.sbdata_read_valid_o o.sbdata_write_valid_o s.top.csrs

-- What the bus sees.
pub record Master : Type 0 where
  pub master_req_o : Bool
  pub master_add_o : ℕ
  pub master_we_o : Bool
  pub master_wdata_o : ℕ
  pub master_be_o : ℕ

unfoldable pub master : Sba.Config → Request → Fsm → Master
unfolding master_wdata_o
master k r f = record {
  master_req_o = f.req;
  master_add_o = r.sbaddress_i;
  master_we_o = f.we;
  master_wdata_o = master_wdata_o k r;
  master_be_o = f.be;
}

-- A clock cycle: what the bus sees in it, and the state behind it.
unfoldable pub step : Config → Bool → Inputs → Access → Bus → Joined → Master × Joined
unfolding driven strobed master fsm Top.step
step c e i a b s =
    let k = sba_config c e in
    let r = strobed c e i a b s in
    let f = fsm k s.sba_q r b in
    (master k r f, record { top = Top.step c (driven c e i b s) a s.top; sba_q = f.state_d })

-- The inputs of a cycle.
abbrev pub Cycle : Type 0
Cycle = Inputs × Access × Bus

-- Cycles in a row.
unfoldable pub steps : Config → Bool → List Cycle → Joined → List Master × Joined
unfolding step
steps c e [] s = ([], s)
steps c e ((i, a, b) ∷ l) s =
    let (seen, t) = step c e i a b s in let (later, last) = steps c e l t in (seen ∷ later, last)

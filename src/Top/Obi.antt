-- ===== src/Top/Obi.antt =====
-- The debug module behind an OBI bus, src/dm_obi_top.sv: the whole of src/dm_top.sv, a response phase for
-- the harts, and two inputs that the wrapper ties.
use riscv_dbg.Common.{
  ℕ, ◌+◌, ◌*◌, ◌/◌, ◌%◌, ◌^◌, ◌≡◌, ◌∙◌, refl, arith, Bool, true, false, ◌&&◌, Option, none, some,
  if◌then◌else◌,
}
use riscv_dbg.Mem.{Config, Access, data_addr, bit}
use riscv_dbg.Mem.Control.{dbg_address}
use riscv_dbg.Mem.Memory.{word_at, rdata_o}
use riscv_dbg.Mem.Window.{rdata_o-data}
use riscv_dbg.Csrs.{Csrs, Inputs}
use riscv_dbg.Csrs.Step.{posedge, csr_read_write, registered}
use riscv_dbg.Sba.{Bus}
use riscv_dbg.Top.{Top, request, wired}
use riscv_dbg.Top
use riscv_dbg.Top.Joined.{Joined, Master, driven}
use riscv_dbg.Top.Joined

pub record Obi : Type 0 where
  pub joined : Joined
  pub slave_rvalid_q : Bool
  pub slave_rid_q : ℕ

-- `next_dm_addr_i` is 0, and `ndmreset_ack_i` is the reset itself.
tied : Inputs → Obi → Inputs
tied i s = record i { next_dm_addr_i = 0; ndmreset_ack_i = s.joined.top.csrs.dmcontrol_q.ndmreset }

abbrev slave_gnt_o : Bool
slave_gnt_o = true

-- A clock cycle; `aid` is the identifier of the access. ReadByteEnable keeps its default.
unfoldable pub step : Config → Inputs → Access → (aid : ℕ) → Bus → Obi → Master × Obi
unfolding tied Joined.step
step c i a aid b s =
    let (seen, t) = Joined.step c true (tied i s) a b s.joined in
    (
      seen,
      record {
        joined = t;
        slave_rvalid_q = a.req_i && slave_gnt_o;
        slave_rid_q = if a.req_i && slave_gnt_o then aid else s.slave_rid_q;
      },
    )

-- The response of a cycle: the identifier, if one is valid.
unfoldable pub response : Obi → Option ℕ
response s = if s.slave_rvalid_q then some s.slave_rid_q else none

response-step :
    (c : Config) (i : Inputs) (a : Access) (aid : ℕ) (b : Bus) (s : Obi)
    → response (step c i a aid b s).1 ≡ (if a.req_i then some aid else none)
unfolding response step
response-step c i a aid b s = ground arith

-- A read at any address of the data registers is answered in the next cycle with its identifier and,
-- on a wide bus, the two data registers as they were, on a narrow one the one of the two that the
-- address lies in, whatever the debugger does in the cycle.
pub step-read :
    (c : Config) (i : Inputs) (a : Access) (aid rom : ℕ) (b : Bus) (s : Obi)
    → a.req_i ≡ true
    → a.we_i ≡ false
    → dbg_address a / 8 ≡ data_addr / 8
    → let t = (step c i a aid b s).1 in
      let words = s.joined.top.csrs.data_q in
      let both = word_at words 1 * 2 ^ 32 + word_at words 0 in
      (response t ≡ some aid)
      × (rdata_o c rom t.joined.top.mem ≡ (
          if c.wide
          then both
          else (if bit 2 a.addr_i then both / 2 ^ 32 % 2 ^ 32 else both % 2 ^ 32)))
unfolding step Joined.step Top.step request
step-read c i a aid rom b s asks reads here = (
  response-step c i a aid b s ∙ rw asks refl,
  rdata_o-data c _ a s.joined.top.mem rom asks reads here,
)

acknowledged :
    (c : Config) (i : Inputs) (s : Csrs) (h : ℕ)
    → i.ndmreset_ack_i ≡ true
    → (posedge c i s).havereset_q h ≡ c.selectable_harts h
unfolding posedge csr_read_write registered
acknowledged c i s h acks = ground arith

-- While the debugger holds the harts in reset, every hart that may be selected is marked as reset.
step-havereset :
    (c : Config) (i : Inputs) (a : Access) (aid h : ℕ) (b : Bus) (s : Obi)
    → s.joined.top.csrs.dmcontrol_q.ndmreset ≡ true
    → (step c i a aid b s).1.joined.top.csrs.havereset_q h ≡ c.selectable_harts h
unfolding step Joined.step Top.step tied driven wired
step-havereset c i a aid h b s resets =
    acknowledged c (wired c (driven c true (tied i s) b s.joined) a s.joined.top) s.joined.top.csrs
      h resets

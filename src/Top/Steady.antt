-- ===== src/Top/Steady.antt =====
-- What a busy system bus access, src/dm_sba.sv, and the registers, src/dm_csrs.sv, hand each other.
use riscv_dbg.Common.{ℕ, ◌%◌, ◌^◌, ◌≡◌, ◌∙◌, refl, ap, arith, Bool, true, false}
use riscv_dbg.Mem.{Config, Access}
use riscv_dbg.Csrs.{Csrs, Inputs}
use riscv_dbg.Csrs.Bus.{IsHanded, posedge-IsHanded, csr_read_write-silent}
use riscv_dbg.Sba.{
  SbaState, idle, read, write, wait_read, wait_write, Request, Bus, Fsm, fsm, fsm_case, finish,
  quiet, bus_width, next_address, master_wdata_o, sbdata_o, sbbusy_o, be_idx, be_mask,
}
use riscv_dbg.Sba
use riscv_dbg.Sba.Transfer.{next_address-kept}
use riscv_dbg.Top.{wired}
use riscv_dbg.Top
use riscv_dbg.Top.Joined.{Joined, sba_config, bus_request, held_request, driven, strobed, step}

-- The registers of the transfer behind a cycle of an active module.
pub handed :
    (c : Config) (e : Bool) (i : Inputs) (a : Access) (b : Bus) (s : Joined)
    → sbbusy_o s.sba_q ≡ true
    → s.top.csrs.dmcontrol_q.dmactive ≡ true
    → IsHanded (driven c e i b s) s.top.csrs (step c e i a b s).1.top.csrs
unfolding step driven Top.step wired
handed c e i a b s busy active =
    let h = posedge-IsHanded c (wired c (driven c e i b s) a s.top) s.top.csrs busy active in
    record {
      size_same = h.size_same;
      increment_same = h.increment_same;
      on_address_same = h.on_address_same;
      on_data_same = h.on_data_same;
      address_handed = h.address_handed;
      word_handed = h.word_handed;
      error_handed = h.error_handed;
    }

-- While a transfer runs the request has no strobes.
pub strobed-held :
    (c : Config) (e : Bool) (i : Inputs) (a : Access) (b : Bus) (s : Joined)
    → sbbusy_o s.sba_q ≡ true
    → strobed c e i a b s ≡ held_request c s.top.csrs
unfolding strobed driven wired
strobed-held c e i a b s busy =
    let (x, y, z) = csr_read_write-silent c (wired c (driven c e i b s) a s.top) s.top.csrs busy in
    rw (x, y, z) refl

width_kept :
    (k : Sba.Config) (v : ℕ)
    → v % 2 ^ bus_width k % 2 ^ bus_width k % 2 ^ bus_width k ≡ v % 2 ^ bus_width k
unfolding bus_width
width_kept k v = ground arith

request_parts :
    (c : Config) (s t : Csrs)
    → t.sbaddr_q % 2 ^ bus_width (sba_config c false)
      ≡ s.sbaddr_q % 2 ^ bus_width (sba_config c false)
    → t.sbdata_q ≡ s.sbdata_q
    → t.sbcs_q.sbaccess ≡ s.sbcs_q.sbaccess
    → t.sbcs_q.sbautoincrement ≡ s.sbcs_q.sbautoincrement
    → t.sbcs_q.sbreadonaddr ≡ s.sbcs_q.sbreadonaddr
    → t.sbcs_q.sbreadondata ≡ s.sbcs_q.sbreadondata
    → held_request c t ≡ held_request c s
unfolding bus_request
request_parts c s t x y u v w z = rw (x, y, u, v, w, z) refl

-- The state behind a cycle that ends nothing.
pub record Goes (c : Config) (s : Joined) (q : SbaState) (t : Joined) : Type 0 where
  pub request_same : held_request c t.top.csrs ≡ held_request c s.top.csrs
  pub state_is : t.sba_q ≡ q
  pub error_same : t.top.csrs.sbcs_q.sberror ≡ s.top.csrs.sbcs_q.sberror

-- A busy cycle without an answer, an error or an end, whatever else happens in it.
pub held_cycle :
    (c : Config) (e : Bool) (i : Inputs) (a : Access) (b : Bus) (s : Joined)
    → sbbusy_o s.sba_q ≡ true
    → s.top.csrs.dmcontrol_q.dmactive ≡ true
    → b.master_r_valid_i ≡ false
    → (fsm (sba_config c e) s.sba_q (held_request c s.top.csrs) b).addr_incr_en ≡ false
    → (fsm (sba_config c e) s.sba_q (held_request c s.top.csrs) b).sberror_valid_o ≡ false
    → Goes c s
        (fsm (sba_config c e) s.sba_q (held_request c s.top.csrs) b).state_d
        (step c e i a b s).1
unfolding step driven bus_request bus_width
held_cycle c e i a b s busy active silent still clean =
    let k = sba_config c e in
    let r = held_request c s.top.csrs in
    let h = handed c e i a b s busy active in
    let w = 2 ^ bus_width k in
    let address : (step c e i a b s).1.top.csrs.sbaddr_q % w ≡ s.top.csrs.sbaddr_q % w =
      ap (λ (v : ℕ). v % w) (h.address_handed ∙ next_address-kept k r (fsm k s.sba_q r b) still)
      ∙ width_kept k s.top.csrs.sbaddr_q in
    record {
      request_same =
          request_parts c s.top.csrs (step c e i a b s).1.top.csrs address
            (h.word_handed ∙ rw silent refl) h.size_same h.increment_same h.on_address_same
            h.on_data_same;
      state_is = ap (λ q. (fsm k s.sba_q q b).state_d) (strobed-held c e i a b s busy);
      error_same = h.error_handed ∙ rw clean refl;
    }

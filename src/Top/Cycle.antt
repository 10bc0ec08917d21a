-- ===== src/Top/Cycle.antt =====
-- A cycle of a transfer on the system bus, src/dm_sba.sv, whatever the debugger and the harts do in it.
use riscv_dbg.Common.{
  ℕ, ◌≡◌, ◌∙◌, refl, ap, arith, Bool, true, false, not, ◌&&◌, ◌==◌, if◌then◌else◌,
}
use riscv_dbg.Mem.{Config, Access}
use riscv_dbg.Csrs.{Inputs}
use riscv_dbg.Sba.{
  SbaState, idle, read, write, wait_read, wait_write, Request, Bus, Fsm, fsm, fsm_case, finish,
  quiet, bus_width, next_address, master_wdata_o, sbdata_o, sbbusy_o, be_idx, be_mask,
}
use riscv_dbg.Sba
use riscv_dbg.Sba.Bytes.{accessed}
use riscv_dbg.Sba.Control.{IsSupported, is_waiting, be_mask-IsSupported}
use riscv_dbg.Sba.Transfer.{is_asking, plain, next_address-advanced, bus_error, advanced}
use riscv_dbg.Top.Joined.{Joined, sba_config, held_request, driven, Master, master, step}
use riscv_dbg.Top.Steady.{handed, strobed-held, Goes, held_cycle}

unfoldable pub is_read : SbaState → Bool
is_read read = true
is_read _ = false

-- What the bus sees of a request: of the bytes from its address on, and the word in their lanes.
unfoldable pub asked : Sba.Config → SbaState → Request → Master
unfolding master_wdata_o accessed be_idx
asked k q r = record {
  master_req_o = true;
  master_add_o = r.sbaddress_i;
  master_we_o = not (is_read q);
  master_wdata_o = master_wdata_o k r;
  master_be_o =
      if is_read q && not k.read_byte_enable then 0 else accessed r.sbaccess_i (be_idx k r);
}

-- And of a cycle without one.
unfoldable pub unasked : Sba.Config → Request → Master
unfolding master_wdata_o
unasked k r = master k r (quiet idle)

-- The state behind the grant.
unfoldable pub granted : SbaState → SbaState
granted read = wait_read
granted _ = wait_write

seen-held :
    (c : Config) (e : Bool) (i : Inputs) (a : Access) (b : Bus) (s : Joined)
    → sbbusy_o s.sba_q ≡ true
    → (step c e i a b s).0
      ≡ master
          (sba_config c e)
          (held_request c s.top.csrs)
          (fsm (sba_config c e) s.sba_q (held_request c s.top.csrs) b)
unfolding step
seen-held c e i a b s busy =
    let k = sba_config c e in
    ap (λ q. master k q (fsm k s.sba_q q b)) (strobed-held c e i a b s busy)

-- What the case of Read and Write sets.
asking_case :
    (k : Sba.Config) (q : SbaState) (r : Request) (b : Bus)
    → is_asking q ≡ true
    → be_mask k r.sbaccess_i (be_idx k r) ≡ accessed r.sbaccess_i (be_idx k r)
    → (master k r (fsm_case k q r b) ≡ asked k q r)
      × ((fsm_case k q r b).addr_incr_en ≡ false)
      × ((fsm_case k q r b).sberror_valid_o ≡ false)
      × ((fsm_case k q r b).state_d ≡ (if b.master_gnt_i then granted q else q))
unfolding fsm_case is_asking asked is_read granted master
asking_case k q r b here lanes = ground (arith, lanes)

asking-busy : (q : SbaState) → is_asking q ≡ true → sbbusy_o q ≡ true
unfolding is_asking sbbusy_o
asking-busy q here = ground arith

waiting-busy : (q : SbaState) → is_waiting q ≡ true → sbbusy_o q ≡ true
unfolding is_waiting sbbusy_o
waiting-busy q here = ground arith

waiting_case :
    (k : Sba.Config) (q : SbaState) (r : Request) (b : Bus)
    → is_waiting q ≡ true
    → (master k r (fsm_case k q r b) ≡ unasked k r)
      × ((fsm_case k q r b).addr_incr_en ≡ b.master_r_valid_i && r.sbautoincrement_i)
      × ((fsm_case k q r b).sberror_valid_o ≡ b.master_r_valid_i && not (bus_error b == 0))
      × ((fsm_case k q r b).sberror_o ≡ (if b.master_r_valid_i then bus_error b else 0))
      × ((fsm_case k q r b).state_d ≡ (if b.master_r_valid_i then idle else q))
unfolding fsm_case is_waiting unasked master finish
waiting_case k q r b here = ground arith

-- A request that is supported goes to the bus.
pub asking_cycle :
    (c : Config) (e : Bool) (i : Inputs) (a : Access) (b : Bus) (s : Joined)
    → IsSupported (sba_config c e) (held_request c s.top.csrs)
    → is_asking s.sba_q ≡ true
    → b.master_r_valid_i ≡ false
    → s.top.csrs.dmcontrol_q.dmactive ≡ true
    → ((step c e i a b s).0 ≡ asked (sba_config c e) s.sba_q (held_request c s.top.csrs))
      × Goes c s (if b.master_gnt_i then granted s.sba_q else s.sba_q) (step c e i a b s).1
asking_cycle c e i a b s ok here silent active =
    let k = sba_config c e in
    let r = held_request c s.top.csrs in
    let busy = asking-busy s.sba_q here in
    let same = plain k s.sba_q r b ok in
    let (seen, still, clean, goes) = asking_case k s.sba_q r b here (be_mask-IsSupported k r ok) in
    let h =
      held_cycle c e i a b s busy active silent (ap (λ (f : Fsm). f.addr_incr_en) same ∙ still)
        (ap (λ (f : Fsm). f.sberror_valid_o) same ∙ clean) in
    (
      seen-held c e i a b s busy ∙ (ap (master k r) same ∙ seen),
      record {
        request_same = h.request_same;
        state_is = h.state_is ∙ (ap (λ (f : Fsm). f.state_d) same ∙ goes);
        error_same = h.error_same;
      },
    )

-- The wait for the answer.
pub waiting_cycle :
    (c : Config) (e : Bool) (i : Inputs) (a : Access) (b : Bus) (s : Joined)
    → IsSupported (sba_config c e) (held_request c s.top.csrs)
    → is_waiting s.sba_q ≡ true
    → b.master_r_valid_i ≡ false
    → s.top.csrs.dmcontrol_q.dmactive ≡ true
    → ((step c e i a b s).0 ≡ unasked (sba_config c e) (held_request c s.top.csrs))
      × Goes c s s.sba_q (step c e i a b s).1
waiting_cycle c e i a b s ok here silent active =
    let k = sba_config c e in
    let r = held_request c s.top.csrs in
    let busy = waiting-busy s.sba_q here in
    let same = plain k s.sba_q r b ok in
    let (seen, still, clean, error, goes) = waiting_case k s.sba_q r b here in
    let h =
      held_cycle c e i a b s busy active silent
        (ap (λ (f : Fsm). f.addr_incr_en) same ∙ (still ∙ rw silent refl))
        (ap (λ (f : Fsm). f.sberror_valid_o) same ∙ (clean ∙ rw silent refl)) in
    (
      seen-held c e i a b s busy ∙ (ap (master k r) same ∙ seen),
      record {
        request_same = h.request_same;
        state_is = h.state_is ∙ (ap (λ (f : Fsm). f.state_d) same ∙ (goes ∙ rw silent refl));
        error_same = h.error_same;
      },
    )

-- The registers behind the answer `b` of the bus to the request `r`, and the error by then.
pub record IsDone (k : Sba.Config) (r : Request) (b : Bus) (old : ℕ) (t : Joined) : Type 0 where
  pub ended : t.sba_q ≡ idle
  pub moved : t.top.csrs.sbaddr_q ≡ advanced k r
  pub received : t.top.csrs.sbdata_q ≡ sbdata_o k r b
  pub told : t.top.csrs.sbcs_q.sberror ≡ (if bus_error b == 0 then old else bus_error b)

chosen :
    (e f old : ℕ) (b : Bool)
    → b ≡ not (e == 0)
    → f ≡ e
    → (if b then f else old) ≡ (if e == 0 then old else e)
chosen e f old b h g = ground arith

pub last_cycle :
    (c : Config) (e : Bool) (i : Inputs) (a : Access) (b : Bus) (s : Joined)
    → IsSupported (sba_config c e) (held_request c s.top.csrs)
    → is_waiting s.sba_q ≡ true
    → b.master_r_valid_i ≡ true
    → s.top.csrs.dmcontrol_q.dmactive ≡ true
    → ((step c e i a b s).0 ≡ unasked (sba_config c e) (held_request c s.top.csrs))
      × IsDone
          (sba_config c e)
          (held_request c s.top.csrs)
          b
          s.top.csrs.sbcs_q.sberror
          (step c e i a b s).1
unfolding driven step
last_cycle c e i a b s ok here answers active =
    let k = sba_config c e in
    let r = held_request c s.top.csrs in
    let busy = waiting-busy s.sba_q here in
    let same = plain k s.sba_q r b ok in
    let (seen, moves, flagged, error, goes) = waiting_case k s.sba_q r b here in
    let h = handed c e i a b s busy active in
    (
      seen-held c e i a b s busy ∙ (ap (master k r) same ∙ seen),
      record {
        ended =
            ap (λ q. (fsm k s.sba_q q b).state_d) (strobed-held c e i a b s busy)
            ∙ (ap (λ (f : Fsm). f.state_d) same ∙ (goes ∙ rw answers refl));
        moved =
            h.address_handed
            ∙ next_address-advanced k r (fsm k s.sba_q r b)
                (ap (λ (f : Fsm). f.addr_incr_en) same ∙ (moves ∙ rw answers refl));
        received = h.word_handed ∙ rw answers refl;
        told =
            h.error_handed
            ∙ chosen (bus_error b) (fsm k s.sba_q r b).sberror_o s.top.csrs.sbcs_q.sberror
                (fsm k s.sba_q r b).sberror_valid_o
                (ap (λ (f : Fsm). f.sberror_valid_o) same ∙ (flagged ∙ rw answers refl))
                (ap (λ (f : Fsm). f.sberror_o) same ∙ (error ∙ rw answers refl));
      },
    )

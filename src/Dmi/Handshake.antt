-- ===== src/Dmi/Handshake.antt =====
-- The request channel to the debug module, and the widths of the registers.
use riscv_dbg.Common.{◌^◌, ◌<◌, ◌≡◌, ◌∙◌, refl, ap, arith, Bool, true, false, List, [], ◌∷◌, to_bit}
use riscv_dbg.Dmi.{
  Dmi, Strobe, Answer, DmiState, read, write, posedge, fsm, fsm_case, idle_case, read_response,
  write_response, overrun, collect, dmi_clear, dr_d, dtmcs_d, dmi_req, error_code, reset,
  dmi_no_error, dmi_busy, DmiError,
}
use riscv_dbg.Dmi.Sticky.{edges}

-- A request is on offer.
unfoldable pub is_offering : DmiState → Bool
is_offering read = true
is_offering write = true
is_offering _ = false

-- In no cycle of the run is the request taken or the interface cleared.
unfoldable pub Stalled : List (Strobe × Answer) → Dmi → Type 0
Stalled [] s = Unit
Stalled (e ∷ es) s =
    (e.1.dmi_req_ready ≡ false) × (dmi_clear e.0 s ≡ false) × Stalled es (posedge e.0 e.1 s)

stall_step :
    (i : Strobe) (a : Answer) (s : Dmi)
    → is_offering s.state_q ≡ true
    → a.dmi_req_ready ≡ false
    → dmi_clear i s ≡ false
    → ((posedge i a s).state_q ≡ s.state_q)
      × ((posedge i a s).address_q ≡ s.address_q)
      × ((posedge i a s).data_q ≡ s.data_q)
      × ((fsm i a s).dmi_req_valid ≡ true)
unfolding is_offering posedge fsm fsm_case overrun collect
stall_step i a s on stalled kept = ground arith

offer_valid :
    (i : Strobe) (a : Answer) (s : Dmi)
    → is_offering s.state_q ≡ true
    → dmi_clear i s ≡ false
    → (fsm i a s).dmi_req_valid ≡ true
unfolding is_offering fsm fsm_case overrun collect
offer_valid i a s on kept = ground arith

-- An offered request stays valid and unchanged until it is taken, whatever the debugger scans
-- meanwhile, unless the interface is cleared.
pub edges-Stalled :
    (es : List (Strobe × Answer)) (i : Strobe) (a : Answer) (s : Dmi)
    → is_offering s.state_q ≡ true
    → Stalled es s
    → dmi_clear i (edges es s) ≡ false
    → (dmi_req (edges es s) ≡ dmi_req s) × ((fsm i a (edges es s)).dmi_req_valid ≡ true)
unfolding edges Stalled dmi_req
edges-Stalled [] i a s on stalled kept = (refl, offer_valid i a s on kept)
edges-Stalled (e ∷ es) i a s on stalled kept =
    let (state, address, word, valid) = stall_step e.0 e.1 s on stalled.0 stalled.1 in
    let (same, still) =
      edges-Stalled es i a (posedge e.0 e.1 s) (ap is_offering state ∙ on) stalled.2 kept in
    (same ∙ rw (state, address, word) refl, still)

-- Each register fits its width.
unfoldable pub Fits : Dmi → Type 0
Fits s = (s.dr_q < 2 ^ 41) × (s.address_q < 2 ^ 7) × (s.data_q < 2 ^ 32) × (s.dtmcs_q < 2 ^ 32)

fsm-Fits :
    (i : Strobe) (a : Answer) (s : Dmi)
    → a.resp_data < 2 ^ 32
    → Fits s
    → ((fsm i a s).address_d < 2 ^ 7) × ((fsm i a s).data_d < 2 ^ 32)
unfolding Fits fsm fsm_case idle_case read_response write_response overrun collect
fsm-Fits i a s fits h = ground arith

error_code-lt : (e : DmiError) → error_code e < 4
unfolding error_code
error_code-lt e = ground arith

to_bit-lt : (b : Bool) → to_bit b < 2
to_bit-lt b = ground arith

dr_d-Fits : (i : Strobe) (a : Answer) (s : Dmi) → Fits s → dr_d i a s < 2 ^ 41
unfolding Fits dr_d
dr_d-Fits i a s h =
    ground (arith, to_bit-lt i.tdi, error_code-lt dmi_no_error, error_code-lt dmi_busy)

dtmcs_d-Fits : (i : Strobe) (s : Dmi) → Fits s → dtmcs_d i s < 2 ^ 32
unfolding Fits dtmcs_d
dtmcs_d-Fits i s h = ground (arith, to_bit-lt i.tdi, error_code-lt s.error_q)

-- The reset and every edge keep the registers within their widths, if the answers fit 32 bits.
widths_kept :
    (i : Strobe) (a : Answer) (s : Dmi)
    → a.resp_data < 2 ^ 32
    → Fits s
    → Fits reset × Fits (posedge i a s)
unfolding Fits reset posedge
widths_kept i a s fits h =
    let (address, word) = fsm-Fits i a s fits h in
    (
      (omega arith, omega arith, omega arith, omega arith),
      (dr_d-Fits i a s h, address, word, dtmcs_d-Fits i s h),
    )

-- ===== src/Dmi/Sticky.antt =====
-- An error stays until it is cleared, and nothing is asked of the debug module meanwhile.
use riscv_dbg.Common.{
  ◌≡◌, ◌∙◌, refl, ap, arith, Bool, false, ◌&&◌, ◌||◌, List, [], ◌∷◌, replicate, length,
}
use riscv_dbg.Dmi.{
  Dmi, Strobe, Answer, idle, posedge, fsm, fsm_case, idle_case, overrun, collect, dmi_clear,
  dmireset, is_clean,
}

-- The edge clears a sticky error.
unfoldable pub clears : Strobe → Dmi → Bool
clears i s = dmi_clear i s || (i.update && dmireset s.dtmcs_q && i.dtmcs_select)

unfoldable pub edges : List (Strobe × Answer) → Dmi → Dmi
edges [] s = s
edges (e ∷ es) s = edges es (posedge e.0 e.1 s)

-- No edge of the run clears.
unfoldable pub NoClear : List (Strobe × Answer) → Dmi → Type 0
NoClear [] s = Unit
NoClear (e ∷ es) s = (clears e.0 s ≡ false) × NoClear es (posedge e.0 e.1 s)

-- `dmi_req_valid` in each cycle.
unfoldable pub requests : List (Strobe × Answer) → Dmi → List Bool
requests [] s = []
requests (e ∷ es) s = (fsm e.0 e.1 s).dmi_req_valid ∷ requests es (posedge e.0 e.1 s)

stuck_step :
    (i : Strobe) (a : Answer) (s : Dmi)
    → s.state_q ≡ idle
    → is_clean s.error_q ≡ false
    → clears i s ≡ false
    → ((fsm i a s).state_d ≡ idle)
      × ((fsm i a s).error_d ≡ s.error_q)
      × ((fsm i a s).dmi_req_valid ≡ false)
unfolding clears fsm fsm_case idle_case overrun collect
stuck_step i a s here bad kept = ground arith

-- From Idle with an error, and over any run in which no edge clears it, the error stays as it is,
-- the FSM stays in Idle and no cycle asks the debug module for anything, whatever the debugger scans.
pub edges-sticky :
    (es : List (Strobe × Answer)) (s : Dmi)
    → s.state_q ≡ idle
    → is_clean s.error_q ≡ false
    → NoClear es s
    → ((edges es s).error_q ≡ s.error_q)
      × ((edges es s).state_q ≡ idle)
      × (requests es s ≡ replicate (length es) false)
unfolding edges NoClear requests posedge
edges-sticky [] s here bad kept = (refl, here, refl)
edges-sticky (e ∷ es) s here bad kept =
    let (stays, same, silent) = stuck_step e.0 e.1 s here bad kept.0 in
    let (error, last, none_asked) =
      edges-sticky es (posedge e.0 e.1 s) stays (ap is_clean same ∙ bad) kept.1 in
    (error ∙ same, last, rw (silent, none_asked) refl)

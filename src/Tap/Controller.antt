-- ===== src/Tap/Controller.antt =====
-- The sixteen states of the controller.
use riscv_dbg.Common.{
  ℕ, ◌≤◌, ◌≡◌, refl, ap, ◌∙◌, arith, Bool, true, false, List, [], ◌∷◌, ◌++◌, length,
}
use riscv_dbg.Tap.{
  TapState, test_logic_reset, run_test_idle, select_dr_scan, capture_dr, shift_dr, exit1_dr,
  pause_dr, exit2_dr, update_dr, select_ir_scan, capture_ir, shift_ir, exit1_ir, pause_ir, exit2_ir,
  update_ir, Tap, next_state, reset, posedge,
}

-- Rising edges with the given levels of TMS and TDI.
unfoldable pub edges : ℕ → List (Bool × Bool) → Tap → Tap
edges idcode_value [] t = t
edges idcode_value ((tms, td) ∷ es) t = edges idcode_value es (posedge idcode_value tms td t)

pub states : List Bool → TapState → TapState
states [] s = s
states (tms ∷ l) s = states l (next_state s tms)

-- Six rising edges with TMS high reset the port from every state, whatever is shifted in: the
-- controller is in Test-Logic-Reset and the registers are as after `trst_ni`.
pub edges-reset :
    (idcode_value : ℕ) (d0 d1 d2 d3 d4 d5 : Bool) (t : Tap)
    → edges idcode_value
        ((true, d0) ∷ (true, d1) ∷ (true, d2) ∷ (true, d3) ∷ (true, d4) ∷ (true, d5) ∷ [])
        t
      ≡ reset idcode_value
unfolding edges posedge reset
edges-reset idcode_value d0 d1 d2 d3 d4 d5 t = ground arith

-- A way from Test-Logic-Reset to each state.
route : TapState → List Bool
route test_logic_reset = []
route run_test_idle = false ∷ []
route select_dr_scan = false ∷ true ∷ []
route capture_dr = false ∷ true ∷ false ∷ []
route shift_dr = false ∷ true ∷ false ∷ false ∷ []
route exit1_dr = false ∷ true ∷ false ∷ true ∷ []
route pause_dr = false ∷ true ∷ false ∷ true ∷ false ∷ []
route exit2_dr = false ∷ true ∷ false ∷ true ∷ false ∷ true ∷ []
route update_dr = false ∷ true ∷ false ∷ true ∷ true ∷ []
route select_ir_scan = false ∷ true ∷ true ∷ []
route capture_ir = false ∷ true ∷ true ∷ false ∷ []
route shift_ir = false ∷ true ∷ true ∷ false ∷ false ∷ []
route exit1_ir = false ∷ true ∷ true ∷ false ∷ true ∷ []
route pause_ir = false ∷ true ∷ true ∷ false ∷ true ∷ false ∷ []
route exit2_ir = false ∷ true ∷ true ∷ false ∷ true ∷ false ∷ true ∷ []
route update_ir = false ∷ true ∷ true ∷ false ∷ true ∷ true ∷ []

states-append : (l k : List Bool) (s : TapState) → states (l ++ k) s ≡ states k (states l s)
unfolding states
states-append [] k s = refl
states-append (tms ∷ l) k s = states-append l k (next_state s tms)

high : List Bool
high = true ∷ true ∷ true ∷ true ∷ true ∷ []

states-high : (s : TapState) → states high s ≡ test_logic_reset
unfolding states next_state high
states-high test_logic_reset = refl
states-high _ = refl

states-route : (s : TapState) → states (route s) test_logic_reset ≡ s
unfolding states next_state route
states-route test_logic_reset = refl
states-route _ = refl

-- From every state of the controller every other is reached, in at most twelve edges.
states_connected : (s u : TapState) → (l : List Bool) × (states l s ≡ u) × (length l ≤ 12)
states_connected s u = (
  high ++ route u,
  states-append high (route u) s ∙ ap (states (route u)) (states-high s) ∙ states-route u,
  short u,
)
  where
    short : (v : TapState) → length (high ++ route v) ≤ 12
    short v = unfold high route in ground arith

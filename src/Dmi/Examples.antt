-- ===== src/Dmi/Examples.antt =====
-- The theorems on the debug module interface at concrete registers.
use riscv_dbg.Common.{
  ℕ, zero, suc, ◌+◌, ◌*◌, ◌/◌, ◌%◌, ◌^◌, ◌≡◌, refl, arith, Bool, true, false, List, [], ◌∷◌,
}
use riscv_dbg.Dmi.{
  Dmi, Strobe, Answer, idle, write, wait_read_valid, dmi_no_error, dmi_busy, posedge, dmi_clear,
  dmireset, dmihardreset, dmi_req, fsm,
}
use riscv_dbg.Dmi.Sticky.{edges, NoClear, clears, requests, edges-sticky}
use riscv_dbg.Dmi.Scan.{shifting, updating, capturing, shift_edges, scan-request, state_of}
use riscv_dbg.Dmi.Handshake.{Stalled, is_offering, edges-Stalled}

abbrev quiet : Answer
quiet = record { dmi_req_ready = false; dmi_resp_valid = false; resp = 0; resp_data = 0 }

abbrev is_odd : ℕ → Bool
is_odd zero = false
is_odd (suc r) = true

-- The bits of a word, the low bit first.
abbrev bits_of : ℕ → ℕ → List Bool
bits_of zero x = []
bits_of (suc n) x = is_odd (x % 2) ∷ bits_of n (x / 2)

-- A write of 1 to dmcontrol.
abbrev activate : List Bool
activate = bits_of 41 (0x10 * 2 ^ 34 + 1 * 4 + 2)

abbrev start : Dmi
start = record {
  dr_q = 0;
  state_q = idle;
  address_q = 0;
  data_q = 0;
  error_q = dmi_no_error;
  dtmcs_q = 0;
}

abbrev too_fast : Dmi
too_fast = record start { error_q = dmi_busy; dr_q = 6 }

abbrev reading : Dmi
reading = record start { state_q = wait_read_valid; address_q = 0x11; dr_q = 0x4400000001 }

abbrev failed : Answer
failed = record quiet { dmi_resp_valid = true; resp = 2 }

abbrev offering : Dmi
offering = record start { state_q = write; address_q = 0x10; data_q = 1 }

edges-sticky_example :
    ((edges ((updating, quiet) ∷ []) too_fast).error_q ≡ dmi_busy)
    × ((edges ((updating, quiet) ∷ []) too_fast).state_q ≡ idle)
    × (requests ((updating, quiet) ∷ []) too_fast ≡ false ∷ [])
unfolding NoClear clears dmi_clear dmireset dmihardreset
edges-sticky_example = edges-sticky ((updating, quiet) ∷ []) too_fast refl refl (refl, tt)

scan-request_example :
    let u = posedge updating quiet (shift_edges quiet activate start) in
    (u.state_q ≡ write) × (u.address_q ≡ 0x10) × (u.data_q ≡ 1)
unfolding state_of
scan-request_example =
    scan-request quiet (bits_of 41 0) activate start 0x10 1 2 refl refl refl refl refl refl
      (omega arith) (omega arith) (omega arith)

-- A capture and a bit scanned in while the request waits.
abbrev meanwhile : List (Strobe × Answer)
meanwhile = (capturing, quiet) ∷ (shifting true, quiet) ∷ []

edges-Stalled_example :
    (dmi_req (edges meanwhile offering) ≡ dmi_req offering)
    × ((fsm updating quiet (edges meanwhile offering)).dmi_req_valid ≡ true)
unfolding Stalled dmi_clear dmihardreset is_offering
edges-Stalled_example =
    edges-Stalled meanwhile updating quiet offering refl (refl, refl, (refl, refl, tt)) refl

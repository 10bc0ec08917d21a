-- ===== src/Dmi/Scan.antt =====
-- What a scan of the data register asks for, and what it gives back.
use riscv_dbg.Common.{
  ℕ, zero, suc, ◌==◌, if◌then◌else◌, ◌+◌, ◌*◌, ◌^◌, ◌<◌, ◌≡◌, ◌∙◌, refl, sym, ap, arith, Bool, true,
  false, ◌||◌, List, [], ◌∷◌, ◌++◌, length, drop, length-append,
}
use mathlib.Core.List.{append_assoc, append-nil}
use riscv_dbg.Common.Register.{value, shift_in}
use riscv_dbg.Dmi.{
  Dmi, Strobe, Answer, idle, read, write, wait_read_valid, dmi_no_error, dmi_op_failed, dmi_busy,
  posedge, fsm, fsm_case, idle_case, overrun, collect, dmi_clear, dr_d, is_clean, is_busy_error,
  dtm_read, dtm_write, DmiError, DmiState, op_field, data_field, address_field, dtm_success,
  dtm_err, dtm_busy, read_response, error_code,
}

-- The strobes of Shift-DR and of Update-DR with the DMI register selected.
abbrev pub shifting : Bool → Strobe
shifting d = record {
  jtag_dmi_clear = false;
  update = false;
  capture = false;
  shift = true;
  tdi = d;
  dtmcs_select = false;
  dmi_select = true;
}

abbrev pub updating : Strobe
updating = record (shifting false) { update = true; shift = false }

abbrev pub capturing : Strobe
capturing = record (shifting false) { capture = true; shift = false }

-- Edges in Shift-DR; the debug module is quiet.
pub shift_edges : Answer → List Bool → Dmi → Dmi
shift_edges a [] s = s
shift_edges a (d ∷ ds) s = shift_edges a ds (posedge (shifting d) a s)

shift_step :
    (a : Answer) (b d : Bool) (bs : List Bool) (s : Dmi)
    → s.state_q ≡ idle
    → s.dr_q ≡ value (b ∷ bs)
    → length bs ≡ 40
    → let u = posedge (shifting d) a s in
      (u.state_q ≡ idle) × (u.error_q ≡ s.error_q) × (u.dr_q ≡ value (bs ++ d ∷ []))
unfolding posedge fsm dr_d dmi_clear fsm_case idle_case overrun collect
shift_step a b d bs s here held full = ground (arith, shift_in 40 b d bs full)

-- The register is a queue of bits.
shift_edges-queue :
    (a : Answer) (ds bits : List Bool) (s : Dmi)
    → s.state_q ≡ idle
    → s.dr_q ≡ value bits
    → length bits ≡ 41
    → let u = shift_edges a ds s in
      (u.state_q ≡ idle)
      × (u.error_q ≡ s.error_q)
      × (u.dr_q ≡ value (drop (length ds) (bits ++ ds)))
unfolding shift_edges
shift_edges-queue a [] bits s here held full = (here, refl, held ∙ ap value (sym (append-nil bits)))
shift_edges-queue a (d ∷ ds) [] s here held full = absurd (omega arith)
shift_edges-queue a (d ∷ ds) (b ∷ bits) s here held full =
    let (stays, same, holds) = shift_step a b d bits s here held (omega arith) in
    let still : length (bits ++ d ∷ []) ≡ 41 = omega (arith, length-append bits (d ∷ [])) in
    let (last, error, result) =
      shift_edges-queue a ds (bits ++ d ∷ []) (posedge (shifting d) a s) stays holds still in
    (
      last,
      error ∙ same,
      result ∙ ap (λ l. value (drop (length ds) l)) (append_assoc bits (d ∷ []) ds),
    )

drop-prefix : {A : Type 0} (n : ℕ) (xs ys : List A) → length xs ≡ n → drop n (xs ++ ys) ≡ ys
drop-prefix zero [] ys h = refl
drop-prefix zero (x ∷ xs) ys h = absurd (omega arith)
drop-prefix (suc n) [] ys h = absurd (omega arith)
drop-prefix (suc n) (x ∷ xs) ys h = drop-prefix n xs ys (omega arith)

-- A whole word replaces what the register held.
scan_word :
    (a : Answer) (bits word : List Bool) (s : Dmi)
    → s.state_q ≡ idle
    → s.dr_q ≡ value bits
    → length bits ≡ 41
    → length word ≡ 41
    → let u = shift_edges a word s in
      (u.state_q ≡ idle) × (u.error_q ≡ s.error_q) × (u.dr_q ≡ value word)
scan_word a bits word s here held full whole =
    let (last, error, result) = shift_edges-queue a word bits s here held full in
    let same : length bits ≡ length word = omega arith in
    (last, error, result ∙ ap value (drop-prefix (length word) bits word same))

-- The fields of a word.
fields :
    (dr address word op : ℕ)
    → dr ≡ address * 2 ^ 34 + word * 4 + op
    → address < 2 ^ 7
    → word < 2 ^ 32
    → op < 4
    → (address_field dr ≡ address) × (data_field dr ≡ word) × (op_field dr ≡ op)
fields dr address word op held short fits code = (omega arith, omega arith, omega arith)

-- Which request the FSM makes: none for a `nop` and for the code that names no operation.
unfoldable pub state_of : ℕ → DmiState
state_of op = if op == dtm_read then read else if op == dtm_write then write else idle

update_step :
    (a : Answer) (s : Dmi)
    → s.state_q ≡ idle
    → is_clean s.error_q ≡ true
    → let u = posedge updating a s in
      (u.state_q ≡ state_of (op_field s.dr_q))
      × (u.address_q ≡ address_field s.dr_q)
      × (u.data_q ≡ data_field s.dr_q)
unfolding state_of posedge fsm dmi_clear fsm_case idle_case overrun collect
update_step a s here clean = ground arith

-- From Idle without an error: scanning the 41 bits of an address, a word and an operation in, from
-- whatever the register held, and updating starts the operation with that address and word.
pub scan-request :
    (a : Answer) (bits scanned : List Bool) (s : Dmi) (address word op : ℕ)
    → s.state_q ≡ idle
    → is_clean s.error_q ≡ true
    → s.dr_q ≡ value bits
    → length bits ≡ 41
    → length scanned ≡ 41
    → value scanned ≡ address * 2 ^ 34 + word * 4 + op
    → address < 2 ^ 7
    → word < 2 ^ 32
    → op < 4
    → let u = posedge updating a (shift_edges a scanned s) in
      (u.state_q ≡ state_of op) × (u.address_q ≡ address) × (u.data_q ≡ word)
scan-request a bits scanned s address word op here clean held full whole means short fits code =
    let (stays, same, holds) = scan_word a bits scanned s here held full whole in
    let (at, where_, what) =
      update_step a (shift_edges a scanned s) stays (ap is_clean same ∙ clean) in
    let (f_address, f_word, f_op) =
      fields (shift_edges a scanned s).dr_q address word op (holds ∙ means) short fits code in
    (at ∙ ap state_of f_op, where_ ∙ f_address, what ∙ f_word)

-- The answer to a read, as the next capture gives it back.
answer_word : Answer → ℕ
answer_word a =
    if a.resp == dtm_success
    then a.resp_data
    else if a.resp == dtm_err
    then 0xdeadbeef
    else if a.resp == dtm_busy
    then 0xb051b051
    else 0xbaadc0de

answer_error : Answer → DmiError
answer_error a =
    if a.resp == dtm_err
    then dmi_op_failed
    else if a.resp == dtm_busy
    then dmi_busy
    else dmi_no_error

abbrev pausing : Strobe
pausing = record (shifting false) { shift = false }

read_step :
    (a : Answer) (s : Dmi)
    → s.state_q ≡ wait_read_valid
    → is_clean s.error_q ≡ true
    → a.dmi_resp_valid ≡ true
    → let t = posedge pausing a s in
      (t.state_q ≡ idle)
      × (t.error_q ≡ answer_error a)
      × (t.data_q ≡ answer_word a)
      × (t.address_q ≡ s.address_q)
      × (t.dr_q ≡ s.dr_q)
unfolding posedge fsm dmi_clear fsm_case read_response overrun collect dr_d answer_word answer_error
read_step a s here clean valid = ground arith

-- What a capture in Idle puts into the register.
captured_word : Dmi → ℕ
captured_word s =
    if is_clean s.error_q || is_busy_error s.error_q
    then s.address_q * 2 ^ 34 + s.data_q * 4 + error_code s.error_q
    else s.dr_q

capture_step :
    (b : Answer) (s : Dmi)
    → s.state_q ≡ idle
    → let u = posedge capturing b s in (u.error_q ≡ s.error_q) × (u.dr_q ≡ captured_word s)
unfolding posedge fsm dmi_clear fsm_case idle_case overrun collect dr_d error_code captured_word
capture_step b s here = ground arith

-- A read whose answer arrives while the port pauses ends in Idle with the word and the error of the
-- answer. The capture that follows gives the address, the word and the status back, but after a
-- failed operation it leaves what was scanned in before, so that its status is never seen there.
read-captured :
    (a b : Answer) (s : Dmi)
    → s.state_q ≡ wait_read_valid
    → is_clean s.error_q ≡ true
    → a.dmi_resp_valid ≡ true
    → let t = posedge pausing a s in
      let u = posedge capturing b t in
      (t.state_q ≡ idle)
      × (t.error_q ≡ answer_error a)
      × (u.error_q ≡ answer_error a)
      × (u.dr_q ≡ (
          if a.resp == dtm_err
          then s.dr_q
          else s.address_q * 2 ^ 34 + answer_word a * 4 + error_code (answer_error a)))
unfolding answer_error captured_word error_code
read-captured a b s here clean valid =
    let t = posedge pausing a s in
    let (back, error, word, address, kept) = read_step a s here clean valid in
    let (same, result) = capture_step b t back in (back, error, same ∙ error, result ∙ ground arith)

-- ===== src/Top/Launch.antt =====
-- The request of the debugger that starts a transfer on the system bus: src/dm_csrs.sv gives the
-- strobes, and src/dm_sba.sv takes them in Idle.
use riscv_dbg.Common.{
  ℕ, ◌%◌, ◌^◌, ◌≡◌, refl, arith, Bool, true, false, not, ◌&&◌, ◌==◌, if◌then◌else◌, ◌⊎◌, inl, inr,
}
use riscv_dbg.Mem.{Config}
use riscv_dbg.Dmi.{dtm_read, dtm_write}
use riscv_dbg.Csrs.{DmCsr, sbaddress0, sbdata0, Csrs, Inputs, Outcome, accepted, dm_csr}
use riscv_dbg.Csrs.Access.{read_csr, write_csr, refuse_busy, refuse_sb, set_low}
use riscv_dbg.Csrs.Step.{defaults, access, posedge, registered, csr_read_write, legal_sbcs}
use riscv_dbg.Sba.{
  SbaState, idle, read, write, Request, Bus, fsm, fsm_case, handle_size, handle_alignment,
  bus_width, sbbusy_o,
}
use riscv_dbg.Sba.Transfer.{is_asking}
use riscv_dbg.Top.Joined.{sba_config, bus_request, held_request}

-- The state that a read or a write of a register starts, if no error is pending.
read_starts : DmCsr → Csrs → SbaState
read_starts sbdata0 s = if s.sbcs_q.sbreadondata then read else idle
read_starts _ s = idle

unfoldable pub write_starts : DmCsr → Csrs → SbaState
write_starts sbdata0 s = write
write_starts sbaddress0 s = if s.sbcs_q.sbreadonaddr then read else idle
write_starts _ s = idle

-- No error is pending.
unfoldable pub is_clear : Csrs → Bool
is_clear s = not s.sbcs_q.sbbusyerror && s.sbcs_q.sberror == 0

-- The state that a request of the debugger starts.
unfoldable pub starts : Inputs → Csrs → SbaState
unfolding is_clear read_starts write_starts dm_csr
starts i s =
    if accepted i && i.dmi_req_op == dtm_read
    then (if is_clear s then read_starts (dm_csr i.dmi_req_addr) s else idle)
    else if accepted i && i.dmi_req_op == dtm_write
    then (if is_clear s then write_starts (dm_csr i.dmi_req_addr) s else idle)
    else idle

-- The request of the transfer, with the word that the debugger writes in its place.
unfoldable pub written : DmCsr → Config → ℕ → Csrs → Request
unfolding bus_request bus_width
written sbdata0 c w s = record (held_request c s) {
  sbdata_i = set_low w s.sbdata_q % 2 ^ bus_width (sba_config c false);
}
written sbaddress0 c w s = record (held_request c s) {
  sbaddress_i = set_low w (held_request c s).sbaddress_i % 2 ^ bus_width (sba_config c false);
}
written _ c w s = held_request c s

-- The state that the strobes of an outcome start.
unfoldable pub launched : Config → Bool → Bus → Csrs → Outcome → SbaState
unfolding fsm bus_request
launched c e b s o =
    (fsm (sba_config c e) idle
      (bus_request c o.sbaddress_write_valid_o o.sbdata_read_valid_o o.sbdata_write_valid_o s)
      b).state_d

read-launched :
    (r : DmCsr) (c : Config) (e : Bool) (i : Inputs) (b : Bus) (s : Csrs)
    → i.sbbusy_i ≡ false
    → launched c e b s (read_csr r c i s (defaults i s))
      ≡ (if is_clear s then read_starts r s else idle)
unfolding launched fsm fsm_case handle_size handle_alignment sbbusy_o read_csr refuse_busy refuse_sb
    defaults is_clear read_starts bus_request
read-launched r c e i b s free = ground arith

write-launched :
    (r : DmCsr) (c : Config) (e : Bool) (i : Inputs) (b : Bus) (s : Csrs)
    → i.sbbusy_i ≡ false
    → launched c e b s (write_csr r c i s (defaults i s))
      ≡ (if is_clear s then write_starts r s else idle)
unfolding launched fsm fsm_case handle_size handle_alignment sbbusy_o write_csr refuse_busy
    refuse_sb defaults is_clear write_starts bus_request
write-launched r c e i b s free = ground arith

defaults-launched :
    (c : Config) (e : Bool) (i : Inputs) (b : Bus) (s : Csrs)
    → launched c e b s (defaults i s) ≡ idle
unfolding launched fsm fsm_case handle_size handle_alignment sbbusy_o defaults bus_request
defaults-launched c e i b s = ground arith

-- A function of an outcome, by the two tests.
by_test {ℓ} :
    {A : Type ℓ} (f : Outcome → A) (p q : Bool) {x y z : Outcome} {u v w : A}
    → f x ≡ u
    → f y ≡ v
    → f z ≡ w
    → f (if p then x else if q then y else z) ≡ (if p then u else if q then v else w)
by_test f true q a b c = a
by_test f false true a b c = b
by_test f false false a b c = c

pub access-launched :
    (c : Config) (e : Bool) (i : Inputs) (b : Bus) (s : Csrs)
    → i.sbbusy_i ≡ false
    → launched c e b s (access c i s) ≡ starts i s
unfolding access starts
access-launched c e i b s free =
    let r = dm_csr i.dmi_req_addr in
    by_test (launched c e b s) (accepted i && i.dmi_req_op == dtm_read)
      (accepted i && i.dmi_req_op == dtm_write) (read-launched r c e i b s free)
      (write-launched r c e i b s free) (defaults-launched c e i b s)

-- The registers of the request, and the errors, behind an outcome.
abbrev after : Config → Outcome → Request × Bool × ℕ
after c o = (held_request c o.next, o.next.sbcs_q.sbbusyerror, o.next.sbcs_q.sberror)

write-written :
    (r : DmCsr) (c : Config) (i : Inputs) (s : Csrs)
    → i.sbbusy_i ≡ false
    → i.sbaddress_i ≡ (held_request c s).sbaddress_i
    → is_clear s ≡ true
    → is_asking (write_starts r s) ≡ true
    → (held_request c (write_csr r c i s (defaults i s)).next ≡ written r c i.dmi_req_data s)
      × ((write_csr r c i s (defaults i s)).next.sbcs_q.sberror ≡ 0)
unfolding write_csr refuse_busy refuse_sb defaults is_clear write_starts written bus_request
    is_asking
write-written r c i s free same clear begins = ground arith

read-written :
    (r : DmCsr) (c : Config) (i : Inputs) (s : Csrs)
    → i.sbbusy_i ≡ false
    → i.sbaddress_i ≡ (held_request c s).sbaddress_i
    → is_clear s ≡ true
    → (held_request c (read_csr r c i s (defaults i s)).next ≡ held_request c s)
      × ((read_csr r c i s (defaults i s)).next.sbcs_q.sberror ≡ 0)
unfolding read_csr refuse_busy refuse_sb defaults is_clear bus_request
read-written r c i s free same clear = ground arith

-- The request of the transfer that a request of the debugger starts.
unfoldable pub asked_request : Config → Inputs → Csrs → Request
unfolding written dm_csr
asked_request c i s =
    if i.dmi_req_op == dtm_write
    then written (dm_csr i.dmi_req_addr) c i.dmi_req_data s
    else held_request c s

by_starts :
    (p q x : Bool) (v w : SbaState)
    → is_asking (if p then (if x then v else idle) else if q then (if x then w else idle) else idle)
      ≡ true
    → (x ≡ true)
      × (((p ≡ true) × (is_asking v ≡ true)) ⊎ ((p ≡ false) × (q ≡ true) × (is_asking w ≡ true)))
unfolding is_asking
by_starts true q true v w h = (refl, inl (refl, h))
by_starts true q false v w h = absurd (ground arith)
by_starts false true true v w h = (refl, inr (refl, refl, h))
by_starts false true false v w h = absurd (ground arith)
by_starts false false x v w h = absurd (ground arith)

pub access-asked :
    (c : Config) (i : Inputs) (s : Csrs)
    → i.sbbusy_i ≡ false
    → i.sbaddress_i ≡ (held_request c s).sbaddress_i
    → is_asking (starts i s) ≡ true
    → (held_request c (access c i s).next ≡ asked_request c i s)
      × ((access c i s).next.sbcs_q.sberror ≡ 0)
unfolding access starts asked_request
access-asked c i s free same begins =
    let r = dm_csr i.dmi_req_addr in
    let (clear, which) =
      by_starts (accepted i && i.dmi_req_op == dtm_read) (accepted i && i.dmi_req_op == dtm_write)
        (is_clear s) (read_starts r s) (write_starts r s) begins in
    elim which [
      | inl (reads, _) ↦
          let other : (i.dmi_req_op == dtm_write) ≡ false = ground (arith, reads) in
          rw (reads, other) (read-written r c i s free same clear)
      | inr (not_read, writes, h) ↦
          let this : (i.dmi_req_op == dtm_write) ≡ true = ground (arith, writes) in
          rw (not_read, writes, this) (write-written r c i s free same clear h)
    ]

-- The rest of the cycle leaves the registers of the request as they are.
pub posedge-request :
    (c : Config) (i : Inputs) (s : Csrs)
    → s.dmcontrol_q.dmactive ≡ true
    → i.sbdata_valid_i ≡ false
    → i.sberror_valid_i ≡ false
    → (held_request c (posedge c i s) ≡ held_request c (access c i s).next)
      × ((posedge c i s).sbcs_q.sberror ≡ (access c i s).next.sbcs_q.sberror)
unfolding posedge registered csr_read_write legal_sbcs bus_request
posedge-request c i s active no_data no_error = ground arith

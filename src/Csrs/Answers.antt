-- ===== src/Csrs/Answers.antt =====
-- How src/dm_csrs.sv answers a request, and what it tells the system bus access.
use riscv_dbg.Common.{ℕ, ◌≡◌, Bool, true, false, not, ◌&&◌, ◌||◌, ◌==◌, if◌then◌else◌}
use riscv_dbg.Dmi.{dtm_read, dtm_write, dtm_success, dtm_busy}
use riscv_dbg.Csrs.{
  DmCsr, sbcs, sbaddress0, sbaddress1, sbdata0, sbdata1, Csrs, Inputs, Outcome, accepted, dm_csr,
}
use riscv_dbg.Csrs.Access.{sb_blocked}
use riscv_dbg.Csrs.Busy.{read_waits, write_waits}

-- The reads and writes that a transfer on the system bus forbids, or its unanswered busy error.
unfoldable pub read_needs_bus : DmCsr → Bool
read_needs_bus sbdata0 = true
read_needs_bus sbdata1 = true
read_needs_bus _ = false

unfoldable pub write_needs_bus : DmCsr → Bool
write_needs_bus sbaddress0 = true
write_needs_bus sbaddress1 = true
write_needs_bus sbdata0 = true
write_needs_bus sbdata1 = true
write_needs_bus _ = false

abbrev is_sbcs : DmCsr → Bool
is_sbcs sbcs = true
is_sbcs _ = false

abbrev pub read_refused : DmCsr → Inputs → Csrs → Bool
read_refused r i s = (i.cmdbusy_i && read_waits r) || (sb_blocked i s && read_needs_bus r)

abbrev pub write_refused : DmCsr → Inputs → Csrs → Bool
write_refused r i s =
    (i.cmdbusy_i && write_waits r)
    || (sb_blocked i s && write_needs_bus r)
    || (i.sbbusy_i && is_sbcs r)

-- The request of the cycle is refused.
unfoldable pub refuses : Inputs → Csrs → Bool
unfolding dm_csr read_waits write_waits read_needs_bus write_needs_bus
refuses i s =
    accepted i
    && ((i.dmi_req_op == dtm_read && read_refused (dm_csr i.dmi_req_addr) i s)
        || (i.dmi_req_op == dtm_write && write_refused (dm_csr i.dmi_req_addr) i s))

abbrev pub answer : Bool → ℕ
answer bad = if bad then dtm_busy else dtm_success

-- No strobe to the system bus access.
abbrev pub is_silent : Outcome → Bool
is_silent o = not (o.sbaddress_write_valid_o || o.sbdata_read_valid_o || o.sbdata_write_valid_o)

-- The answer says whether the request is refused; then, and while an error of the bus is pending, no
-- transfer is asked for.
pub record IsAnswered (s : Csrs) (bad : Bool) (o : Outcome) : Type 0 where
  pub told : o.resp ≡ answer bad
  pub withheld : (is_silent o || (not bad && s.sbcs_q.sberror == 0)) ≡ true

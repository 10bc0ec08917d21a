-- ===== src/Csrs/Bus.antt =====
-- What the debugger can do while a transfer on the system bus runs.
use riscv_dbg.Common.{◌≡◌, arith, true, false, ◌==◌, if◌then◌else◌}
use riscv_dbg.Mem.{Config}
use riscv_dbg.Dmi.{dtm_read, dtm_write}
use riscv_dbg.Csrs.{DmCsr, Csrs, Sbcs, Inputs, Outcome, accepted, dm_csr}
use riscv_dbg.Csrs.Access.{read_csr, write_csr, refuse_busy, refuse_sb}
use riscv_dbg.Csrs.Cases.{by_operation}
use riscv_dbg.Csrs.Step.{defaults, access, csr_read_write, posedge, registered, legal_sbcs}

-- The fields of `sbcs` that steer a transfer, and its error.
pub record IsSteady (s t : Sbcs) : Type 0 where
  pub size_kept : t.sbaccess ≡ s.sbaccess
  pub increment_kept : t.sbautoincrement ≡ s.sbautoincrement
  pub on_address_kept : t.sbreadonaddr ≡ s.sbreadonaddr
  pub on_data_kept : t.sbreadondata ≡ s.sbreadondata
  pub error_kept : t.sberror ≡ s.sberror

-- No transfer is asked for, and those of the registers that the transfer uses are as in `s`.
pub record IsUntouched (i : Inputs) (s : Csrs) (o : Outcome) : Type 0 where
  pub steady : IsSteady s.sbcs_q o.next.sbcs_q
  pub address_stored : o.next.sbaddr_q ≡ i.sbaddress_i
  pub word_kept : o.next.sbdata_q ≡ s.sbdata_q
  pub no_address : o.sbaddress_write_valid_o ≡ false
  pub no_read : o.sbdata_read_valid_o ≡ false
  pub no_write : o.sbdata_write_valid_o ≡ false

read-IsUntouched :
    (r : DmCsr) (c : Config) (i : Inputs) (s : Csrs)
    → i.sbbusy_i ≡ true
    → IsUntouched i s (read_csr r c i s (defaults i s))
unfolding read_csr refuse_busy refuse_sb defaults
read-IsUntouched r c i s busy = ground arith

write-IsUntouched :
    (r : DmCsr) (c : Config) (i : Inputs) (s : Csrs)
    → i.sbbusy_i ≡ true
    → IsUntouched i s (write_csr r c i s (defaults i s))
unfolding write_csr refuse_busy refuse_sb defaults
write-IsUntouched r c i s busy = ground arith

access-IsUntouched :
    (c : Config) (i : Inputs) (s : Csrs) → i.sbbusy_i ≡ true → IsUntouched i s (access c i s)
unfolding access defaults
access-IsUntouched c i s busy =
    let r = dm_csr i.dmi_req_addr in
    by_operation (λ b o. IsUntouched i s o) (accepted i) (i.dmi_req_op == dtm_read)
      (i.dmi_req_op == dtm_write) true true (ground arith) (ground arith)
      (read-IsUntouched r c i s busy) (write-IsUntouched r c i s busy)

-- No strobe of a transfer while one runs.
pub csr_read_write-silent :
    (c : Config) (i : Inputs) (s : Csrs)
    → i.sbbusy_i ≡ true
    → ((csr_read_write c i s).sbaddress_write_valid_o ≡ false)
      × ((csr_read_write c i s).sbdata_read_valid_o ≡ false)
      × ((csr_read_write c i s).sbdata_write_valid_o ≡ false)
unfolding csr_read_write
csr_read_write-silent c i s busy =
    let h = access-IsUntouched c i s busy in (h.no_address, h.no_read, h.no_write)

-- The registers of the transfer behind a cycle of it: what the system bus access hands over.
pub record IsHanded (i : Inputs) (s t : Csrs) : Type 0 where
  pub size_same : t.sbcs_q.sbaccess ≡ s.sbcs_q.sbaccess
  pub increment_same : t.sbcs_q.sbautoincrement ≡ s.sbcs_q.sbautoincrement
  pub on_address_same : t.sbcs_q.sbreadonaddr ≡ s.sbcs_q.sbreadonaddr
  pub on_data_same : t.sbcs_q.sbreadondata ≡ s.sbcs_q.sbreadondata
  pub address_handed : t.sbaddr_q ≡ i.sbaddress_i
  pub word_handed : t.sbdata_q ≡ (if i.sbdata_valid_i then i.sbdata_i else s.sbdata_q)
  pub error_handed :
      t.sbcs_q.sberror ≡ (if i.sberror_valid_i then i.sberror_i else s.sbcs_q.sberror)

pub posedge-IsHanded :
    (c : Config) (i : Inputs) (s : Csrs)
    → i.sbbusy_i ≡ true
    → s.dmcontrol_q.dmactive ≡ true
    → IsHanded i s (posedge c i s)
unfolding posedge registered csr_read_write legal_sbcs
posedge-IsHanded c i s busy active =
    let h = access-IsUntouched c i s busy in
    let k = h.steady in
    ground (
      arith, k.size_kept, k.increment_kept, k.on_address_kept, k.on_data_kept, k.error_kept,
      h.address_stored, h.word_kept,
    )

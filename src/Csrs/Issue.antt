-- ===== src/Csrs/Issue.antt =====
-- When src/dm_csrs.sv starts an abstract command.
use riscv_dbg.Common.{ℕ, ◌≡◌, refl, arith, Bool, true, false, not, ◌&&◌, ◌||◌, ◌==◌, if◌then◌else◌}
use riscv_dbg.Mem.{Config}
use riscv_dbg.Dmi.{dtm_read, dtm_write}
use riscv_dbg.Csrs.{
  DmCsr, data_reg, progbuf_reg, haltsum_reg, dmcontrol, dmstatus, hartinfo, abstractcs, command,
  abstractauto, next_dm, sbcs, sbaddress0, sbaddress1, sbdata0, sbdata1, unmapped, Csrs, Inputs,
  accepted, dm_csr,
}
use riscv_dbg.Csrs.Access.{
  read_csr, write_csr, refuse_busy, refuse_sb, autoexec_data, autoexec_progbuf,
}
use riscv_dbg.Csrs.Cases.{by_operation}
use riscv_dbg.Csrs.Step.{defaults, access, csr_read_write, posedge, registered, reset}

-- The automatic execution for an access to the register.
unfoldable pub automatic : DmCsr → Inputs → Csrs → Bool
automatic (data_reg k) i s = autoexec_data i s
automatic (progbuf_reg k) i s = autoexec_progbuf i s
automatic _ i s = false

abbrev is_command : DmCsr → Bool
is_command command = true
is_command _ = false

abbrev read_issues : DmCsr → Inputs → Csrs → Bool
read_issues r i s = not i.cmdbusy_i && automatic r i s

abbrev write_issues : DmCsr → Inputs → Csrs → Bool
write_issues r i s = not i.cmdbusy_i && (is_command r || automatic r i s)

-- The request starts a command.
unfoldable pub issues : Inputs → Csrs → Bool
unfolding dm_csr automatic
issues i s =
    accepted i
    && ((i.dmi_req_op == dtm_read && read_issues (dm_csr i.dmi_req_addr) i s)
        || (i.dmi_req_op == dtm_write && write_issues (dm_csr i.dmi_req_addr) i s))

-- The word of the command behind the cycle.
abbrev written_command : Inputs → Csrs → ℕ
written_command i s =
    if accepted i
      && i.dmi_req_op == dtm_write
      && is_command (dm_csr i.dmi_req_addr)
      && not i.cmdbusy_i
    then i.dmi_req_data
    else s.command_q

read-issues :
    (r : DmCsr) (c : Config) (i : Inputs) (s : Csrs)
    → (read_csr r c i s (defaults i s)).next.cmd_valid_q ≡ read_issues r i s
unfolding read_csr refuse_busy refuse_sb defaults automatic
read-issues (data_reg k) c i s = ground arith
read-issues (progbuf_reg k) c i s = ground arith
read-issues (haltsum_reg k) c i s = ground arith
read-issues dmcontrol c i s = ground arith
read-issues dmstatus c i s = ground arith
read-issues hartinfo c i s = ground arith
read-issues abstractcs c i s = ground arith
read-issues command c i s = ground arith
read-issues abstractauto c i s = ground arith
read-issues next_dm c i s = ground arith
read-issues sbcs c i s = ground arith
read-issues sbaddress0 c i s = ground arith
read-issues sbaddress1 c i s = ground arith
read-issues sbdata0 c i s = ground arith
read-issues sbdata1 c i s = ground arith
read-issues unmapped c i s = ground arith

write-issues :
    (r : DmCsr) (c : Config) (i : Inputs) (s : Csrs)
    → (write_csr r c i s (defaults i s)).next.cmd_valid_q ≡ write_issues r i s
unfolding write_csr refuse_busy refuse_sb defaults automatic
write-issues (data_reg k) c i s = ground arith
write-issues (progbuf_reg k) c i s = ground arith
write-issues (haltsum_reg k) c i s = ground arith
write-issues dmcontrol c i s = ground arith
write-issues dmstatus c i s = ground arith
write-issues hartinfo c i s = ground arith
write-issues abstractcs c i s = ground arith
write-issues command c i s = ground arith
write-issues abstractauto c i s = ground arith
write-issues next_dm c i s = ground arith
write-issues sbcs c i s = ground arith
write-issues sbaddress0 c i s = ground arith
write-issues sbaddress1 c i s = ground arith
write-issues sbdata0 c i s = ground arith
write-issues sbdata1 c i s = ground arith
write-issues unmapped c i s = ground arith

access-issues : (c : Config) (i : Inputs) (s : Csrs) → (access c i s).next.cmd_valid_q ≡ issues i s
unfolding access issues defaults
access-issues c i s =
    let r = dm_csr i.dmi_req_addr in
    by_operation (λ b o. o.next.cmd_valid_q ≡ b) (accepted i) (i.dmi_req_op == dtm_read)
      (i.dmi_req_op == dtm_write) (read_issues r i s) (write_issues r i s) (ground arith) refl
      (read-issues r c i s) (write-issues r c i s)

-- A command starts exactly behind a request to an active module, while no command runs, that writes
-- the command register or reads or writes a register that is set to execute automatically. The
-- pending error is not asked for: a command starts whatever it is.
pub posedge-issues :
    (c : Config) (i : Inputs) (s : Csrs)
    → (posedge c i s).cmd_valid_q ≡ s.dmcontrol_q.dmactive && issues i s
unfolding posedge registered csr_read_write reset
posedge-issues c i s = let issued = access-issues c i s in ground (arith, issued)

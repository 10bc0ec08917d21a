-- ===== src/Csrs/Busy.antt =====
-- What the debugger can do while an abstract command runs, and what it is told.
use riscv_dbg.Common.{ℕ, ◌≡◌, arith, Bool, true, false, ◌&&◌, ◌||◌, ◌==◌, if◌then◌else◌}
use riscv_dbg.Mem.{Config}
use riscv_dbg.Dmi.{dtm_read, dtm_write}
use riscv_dbg.Csrs.{
  DmCsr, data_reg, progbuf_reg, haltsum_reg, dmcontrol, dmstatus, hartinfo, abstractcs, command,
  abstractauto, next_dm, sbcs, sbaddress0, sbaddress1, sbdata0, sbdata1, unmapped, Csrs, Inputs,
  Outcome, accepted, cmd_err_busy, dm_csr,
}
use riscv_dbg.Csrs.Access.{read_csr, write_csr, refuse_busy, refuse_sb}
use riscv_dbg.Csrs.Cases.{by_operation}
use riscv_dbg.Csrs.Step.{defaults, access, csr_read_write, posedge, registered}

-- The reads and writes that a running command forbids.
unfoldable pub read_waits : DmCsr → Bool
read_waits (data_reg k) = true
read_waits (progbuf_reg k) = true
read_waits _ = false

unfoldable pub write_waits : DmCsr → Bool
write_waits (data_reg k) = true
write_waits (progbuf_reg k) = true
write_waits abstractcs = true
write_waits command = true
write_waits abstractauto = true
write_waits _ = false

-- The request is one of them.
unfoldable pub forbidden : Inputs → Bool
unfolding dm_csr
forbidden i =
    accepted i
    && ((i.dmi_req_op == dtm_read && read_waits (dm_csr i.dmi_req_addr))
        || (i.dmi_req_op == dtm_write && write_waits (dm_csr i.dmi_req_addr)))

-- The registers of the commands are as in `s`, no command is given, and the error is that of a
-- request that is forbidden or not.
pub record IsProtected (bad : Bool) (s : Csrs) (o : Outcome) : Type 0 where
  pub data_kept : o.next.data_q ≡ s.data_q
  pub progbuf_kept : o.next.progbuf_q ≡ s.progbuf_q
  pub command_kept : o.next.command_q ≡ s.command_q
  pub exec_kept : o.next.abstractauto_q ≡ record s.abstractauto_q { zero0 = 0 }
  pub no_command : o.next.cmd_valid_q ≡ false
  pub error_set : o.next.cmderr_q ≡ (if bad && s.cmderr_q == 0 then cmd_err_busy else s.cmderr_q)

defaults-IsProtected : (i : Inputs) (s : Csrs) → IsProtected false s (defaults i s)
unfolding defaults
defaults-IsProtected i s = ground arith

read-IsProtected :
    (r : DmCsr) (c : Config) (i : Inputs) (s : Csrs)
    → i.cmdbusy_i ≡ true
    → IsProtected (read_waits r) s (read_csr r c i s (defaults i s))
unfolding read_csr refuse_busy refuse_sb defaults read_waits
read-IsProtected (data_reg k) c i s busy = ground arith
read-IsProtected (progbuf_reg k) c i s busy = ground arith
read-IsProtected (haltsum_reg k) c i s busy = ground arith
read-IsProtected dmcontrol c i s busy = ground arith
read-IsProtected dmstatus c i s busy = ground arith
read-IsProtected hartinfo c i s busy = ground arith
read-IsProtected abstractcs c i s busy = ground arith
read-IsProtected command c i s busy = ground arith
read-IsProtected abstractauto c i s busy = ground arith
read-IsProtected next_dm c i s busy = ground arith
read-IsProtected sbcs c i s busy = ground arith
read-IsProtected sbaddress0 c i s busy = ground arith
read-IsProtected sbaddress1 c i s busy = ground arith
read-IsProtected sbdata0 c i s busy = ground arith
read-IsProtected sbdata1 c i s busy = ground arith
read-IsProtected unmapped c i s busy = ground arith

write-IsProtected :
    (r : DmCsr) (c : Config) (i : Inputs) (s : Csrs)
    → i.cmdbusy_i ≡ true
    → IsProtected (write_waits r) s (write_csr r c i s (defaults i s))
unfolding write_csr refuse_busy refuse_sb defaults write_waits
write-IsProtected (data_reg k) c i s busy = ground arith
write-IsProtected (progbuf_reg k) c i s busy = ground arith
write-IsProtected (haltsum_reg k) c i s busy = ground arith
write-IsProtected dmcontrol c i s busy = ground arith
write-IsProtected dmstatus c i s busy = ground arith
write-IsProtected hartinfo c i s busy = ground arith
write-IsProtected abstractcs c i s busy = ground arith
write-IsProtected command c i s busy = ground arith
write-IsProtected abstractauto c i s busy = ground arith
write-IsProtected next_dm c i s busy = ground arith
write-IsProtected sbcs c i s busy = ground arith
write-IsProtected sbaddress0 c i s busy = ground arith
write-IsProtected sbaddress1 c i s busy = ground arith
write-IsProtected sbdata0 c i s busy = ground arith
write-IsProtected sbdata1 c i s busy = ground arith
write-IsProtected unmapped c i s busy = ground arith

pub access-IsProtected :
    (c : Config) (i : Inputs) (s : Csrs)
    → i.cmdbusy_i ≡ true
    → IsProtected (forbidden i) s (access c i s)
unfolding access forbidden
access-IsProtected c i s busy =
    let r = dm_csr i.dmi_req_addr in
    by_operation (λ bad o. IsProtected bad s o) (accepted i) (i.dmi_req_op == dtm_read)
      (i.dmi_req_op == dtm_write) (read_waits r) (write_waits r) (ground arith)
      (defaults-IsProtected i s) (read-IsProtected r c i s busy) (write-IsProtected r c i s busy)

-- The error after the cycle.
unfoldable pub error_after : Inputs → Csrs → ℕ
unfolding forbidden
error_after i s =
    if i.cmderror_valid_i
    then i.cmderror_i
    else if forbidden i && s.cmderr_q == 0
    then cmd_err_busy
    else s.cmderr_q

-- While an abstract command runs in an active module and the harts do not write the data registers,
-- no request of the debugger changes the data registers, the program buffer, the command or its
-- automatic execution, and none starts a command. A request that needs one of them leaves the error
-- busy if there was none; an error of the hart comes first.
pub posedge-protected :
    (c : Config) (i : Inputs) (s : Csrs)
    → i.cmdbusy_i ≡ true
    → i.data_valid_i ≡ false
    → s.dmcontrol_q.dmactive ≡ true
    → let t = posedge c i s in
      (t.data_q ≡ s.data_q)
      × (t.progbuf_q ≡ s.progbuf_q)
      × (t.command_q ≡ s.command_q)
      × (t.abstractauto_q ≡ record s.abstractauto_q { zero0 = 0 })
      × (t.cmd_valid_q ≡ false)
      × (t.cmderr_q ≡ error_after i s)
unfolding posedge registered csr_read_write error_after
posedge-protected c i s busy no_data active =
    let p = access-IsProtected c i s busy in
    ground
      (arith, p.data_kept, p.progbuf_kept, p.command_kept, p.exec_kept, p.no_command, p.error_set)

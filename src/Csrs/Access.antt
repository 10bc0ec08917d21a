-- ===== src/Csrs/Access.antt =====
-- The reads and writes of the debugger: the two cases of the block `csr_read_write` of src/dm_csrs.sv.
use Prim.Native.Nat.{bit_and}
use riscv_dbg.Common.{
  ℕ, ◌+◌, ◌-◌, ◌*◌, ◌/◌, ◌%◌, ◌^◌, Bool, true, false, not, ◌&&◌, ◌||◌, ◌==◌, if◌then◌else◌,
}
use riscv_dbg.Opcodes.{slice}
use riscv_dbg.Mem.{Config, hart_valid, bit}
use riscv_dbg.Mem.Control.{set_bit}
use riscv_dbg.Mem.Memory.{word_at, update_word}
use riscv_dbg.Dmi.{dtm_busy}
use riscv_dbg.Csrs.{
  DmCsr, data_reg, progbuf_reg, haltsum_reg, dmcontrol, dmstatus, hartinfo, abstractcs, command,
  abstractauto, next_dm, sbcs, sbaddress0, sbaddress1, sbdata0, sbdata1, unmapped, Csrs, Sbcs,
  Inputs, Outcome, cmd_err_busy,
}
use riscv_dbg.Csrs.Words.{dmcontrol_of, dmcontrol_word, sbcs_of, sbcs_word, abstractauto_word}
use riscv_dbg.Csrs.Status.{selected_hart, dmstatus_word, abstractcs_word, haltsum}

-- An access that the abstract command forbids.
unfoldable pub refuse_busy : Csrs → Outcome → Outcome
refuse_busy s o = record o {
  resp = dtm_busy;
  next = record o.next { cmderr_q = if s.cmderr_q == 0 then cmd_err_busy else o.next.cmderr_q };
}

-- An access that a transfer on the system bus forbids.
unfoldable pub refuse_sb : Outcome → Outcome
refuse_sb o = record o {
  resp = dtm_busy;
  next = record o.next { sbcs_q = record o.next.sbcs_q { sbbusyerror = true } };
}

abbrev pub sb_blocked : Inputs → Csrs → Bool
sb_blocked i s = i.sbbusy_i || s.sbcs_q.sbbusyerror

abbrev pub show : ℕ → Outcome → Outcome
show w o = record o { resp_data = w }

abbrev start_command : Bool → Outcome → Outcome
start_command b o = record o { next = record o.next { cmd_valid_q = b } }

-- `autoexecdata[autoexecdata_idx]` and `autoexecprogbuf[{1'b1, addr[3:0]}]`
unfoldable pub autoexec_data : Inputs → Csrs → Bool
autoexec_data i s = bit ((i.dmi_req_addr - 4) % 16) s.abstractauto_q.autoexecdata

unfoldable pub autoexec_progbuf : Inputs → Csrs → Bool
autoexec_progbuf i s = bit (i.dmi_req_addr % 16) s.abstractauto_q.autoexecprogbuf

unfoldable pub read_csr : DmCsr → Config → Inputs → Csrs → Outcome → Outcome
unfolding refuse_busy refuse_sb autoexec_data autoexec_progbuf dmcontrol_word sbcs_word
    abstractauto_word dmstatus_word selected_hart haltsum
read_csr (data_reg k) c i s o =
    let shown = show (word_at s.data_q (k % 2)) o in
    if not i.cmdbusy_i then start_command (autoexec_data i s) shown else refuse_busy s shown
read_csr (progbuf_reg k) c i s o =
    let shown = show (word_at s.progbuf_q (i.dmi_req_addr % 8)) o in
    if not i.cmdbusy_i then start_command (autoexec_progbuf i s) shown else refuse_busy s shown
read_csr (haltsum_reg k) c i s o = show (haltsum k c i s) o
read_csr dmcontrol c i s o = show (dmcontrol_word s.dmcontrol_q) o
read_csr dmstatus c i s o = show (dmstatus_word c i s) o
read_csr hartinfo c i s o =
    let h = selected_hart c s in show (if hart_valid c h then i.hartinfo_i h else 0) o
read_csr abstractcs c i s o = show (abstractcs_word i s) o
read_csr command c i s o = show 0 o
read_csr abstractauto c i s o = show (abstractauto_word s.abstractauto_q) o
read_csr next_dm c i s o = show i.next_dm_addr_i o
read_csr sbcs c i s o = show (sbcs_word s.sbcs_q) o
read_csr sbaddress0 c i s o = show (s.sbaddr_q % 2 ^ 32) o
read_csr sbaddress1 c i s o = show (s.sbaddr_q / 2 ^ 32) o
read_csr sbdata0 c i s o =
    if sb_blocked i s
    then refuse_sb o
    else show (s.sbdata_q % 2 ^ 32) (record o { sbdata_read_valid_o = s.sbcs_q.sberror == 0 })
read_csr sbdata1 c i s o = if sb_blocked i s then refuse_sb o else show (s.sbdata_q / 2 ^ 32) o
read_csr unmapped c i s o = o

abbrev with_next : (Csrs → Csrs) → Outcome → Outcome
with_next f o = record o { next = f o.next }

-- The lower and the upper half of a double word.
abbrev pub set_low : ℕ → ℕ → ℕ
set_low v w = w / 2 ^ 32 * 2 ^ 32 + v

abbrev set_high : ℕ → ℕ → ℕ
set_high v w = v * 2 ^ 32 + w % 2 ^ 32

-- `sbcs_d` for a write: two fields are cleared by ones.
unfoldable pub write_sbcs : ℕ → Sbcs → Sbcs
unfolding sbcs_of
write_sbcs w q =
    let v = sbcs_of w in
    record v {
      sbbusyerror = q.sbbusyerror && not v.sbbusyerror;
      sberror = if v.sberror == 0 then q.sberror else 0;
    }

unfoldable pub write_csr : DmCsr → Config → Inputs → Csrs → Outcome → Outcome
unfolding refuse_busy refuse_sb autoexec_data autoexec_progbuf dmcontrol_of write_sbcs update_word
    selected_hart hart_valid
write_csr (data_reg k) c i s o =
    let written =
      with_next
        (λ n. record n { data_q = update_word n.data_q (i.dmi_req_addr % 2) (λ w. i.dmi_req_data) })
        o in
    if not i.cmdbusy_i then start_command (autoexec_data i s) written else refuse_busy s o
write_csr (progbuf_reg k) c i s o =
    let written =
      with_next
        (λ n. record n {
          progbuf_q = update_word n.progbuf_q (i.dmi_req_addr % 8) (λ w. i.dmi_req_data);
        })
        o in
    if not i.cmdbusy_i then start_command (autoexec_progbuf i s) written else refuse_busy s o
write_csr dmcontrol c i s o =
    let d = dmcontrol_of i.dmi_req_data in
    let h = selected_hart c s in
    with_next
      (λ n. record n {
        dmcontrol_q = d;
        havereset_q =
            if d.ackhavereset && hart_valid c h
            then set_bit n.havereset_q h false
            else n.havereset_q;
      })
      o
write_csr abstractcs c i s o =
    if not i.cmdbusy_i
    then with_next (λ n. record n { cmderr_q = bit_and (7 - slice 10 8 i.dmi_req_data) s.cmderr_q })
        o
    else refuse_busy s o
write_csr command c i s o =
    if not i.cmdbusy_i
    then with_next (λ n. record n { cmd_valid_q = true; command_q = i.dmi_req_data }) o
    else refuse_busy s o
write_csr abstractauto c i s o =
    if not i.cmdbusy_i
    then with_next
        (λ n. record n {
          abstractauto_q = record {
            autoexecprogbuf = slice 23 16 i.dmi_req_data;
            zero0 = 0;
            autoexecdata = slice 1 0 i.dmi_req_data;
          };
        })
        o
    else refuse_busy s o
write_csr sbcs c i s o =
    if i.sbbusy_i
    then refuse_sb o
    else with_next (λ n. record n { sbcs_q = write_sbcs i.dmi_req_data s.sbcs_q }) o
write_csr sbaddress0 c i s o =
    if sb_blocked i s
    then refuse_sb o
    else record (with_next (λ n. record n { sbaddr_q = set_low i.dmi_req_data n.sbaddr_q }) o) {
      sbaddress_write_valid_o = s.sbcs_q.sberror == 0;
    }
write_csr sbaddress1 c i s o =
    if sb_blocked i s
    then refuse_sb o
    else with_next (λ n. record n { sbaddr_q = set_high i.dmi_req_data n.sbaddr_q }) o
write_csr sbdata0 c i s o =
    if sb_blocked i s
    then refuse_sb o
    else record (with_next (λ n. record n { sbdata_q = set_low i.dmi_req_data n.sbdata_q }) o) {
      sbdata_write_valid_o = s.sbcs_q.sberror == 0;
    }
write_csr sbdata1 c i s o =
    if sb_blocked i s
    then refuse_sb o
    else with_next (λ n. record n { sbdata_q = set_high i.dmi_req_data n.sbdata_q }) o
write_csr _ c i s o = o

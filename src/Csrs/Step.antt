-- ===== src/Csrs/Step.antt =====
-- A clock cycle of src/dm_csrs.sv: the rest of the block `csr_read_write`, and the registers.
use riscv_dbg.Common.{
  ℕ, ◌/◌, ◌%◌, ◌^◌, Bool, true, false, not, ◌&&◌, replicate, leb, ◌==◌, if◌then◌else◌,
}
use riscv_dbg.Mem.{Config, clog2, hart_valid, data_count, prog_buf_size}
use riscv_dbg.Dmi.{dtm_read, dtm_write, dtm_success}
use riscv_dbg.Csrs.{Csrs, Dmcontrol, Sbcs, Inputs, Outcome, accepted, dm_csr}
use riscv_dbg.Csrs.Status.{any_bit, hartsel_of, selected_hart}
use riscv_dbg.Csrs.Access.{read_csr, write_csr}

-- The default assignments.
unfoldable pub defaults : Inputs → Csrs → Outcome
defaults i s = record {
  next = record s {
    abstractauto_q = record s.abstractauto_q { zero0 = 0 };
    sbaddr_q = i.sbaddress_i;
    cmd_valid_q = false;
  };
  resp_data = 0;
  resp = dtm_success;
  sbaddress_write_valid_o = false;
  sbdata_read_valid_o = false;
  sbdata_write_valid_o = false;
  clear_resumeack_o = false;
}

-- The two cases. The address is that of the request with a 0 in front.
unfoldable pub access : Config → Inputs → Csrs → Outcome
unfolding defaults read_csr write_csr dm_csr
access c i s =
    let o = defaults i s in
    if accepted i && i.dmi_req_op == dtm_read
    then read_csr (dm_csr i.dmi_req_addr) c i s o
    else if accepted i && i.dmi_req_op == dtm_write
    then write_csr (dm_csr i.dmi_req_addr) c i s o
    else o

abbrev bus_width : Config → ℕ
bus_width c = if c.wide then 64 else 32

-- `dmcontrol_d` behind the cases: `q` is the register, `d` what a write left.
unfoldable pub legal_dmcontrol : Config → Inputs → Dmcontrol → Dmcontrol → Dmcontrol
unfolding clog2 any_bit
legal_dmcontrol c i q d =
    let sel = hartsel_of d % 2 ^ clog2 c.nr_harts in
    record d {
      hasel = false;
      hartreset = false;
      setresethaltreq = false;
      clrresethaltreq = false;
      zero1 = false;
      zero0 = 0;
      ackhavereset = false;
      resumereq = if q.resumereq && any_bit c.nr_harts i.resumeack_i then false else d.resumereq;
      hartsello = sel % 2 ^ 10;
      hartselhi = sel / 2 ^ 10;
    }

-- `sbcs_d` behind the cases.
unfoldable pub legal_sbcs : Config → Inputs → Sbcs → Sbcs
legal_sbcs c i d = record d {
  sberror = if i.sberror_valid_i then i.sberror_i else d.sberror;
  sbversion = 1;
  sbbusy = i.sbbusy_i;
  sbasize = bus_width c;
  sbaccess128 = leb 128 (bus_width c);
  sbaccess64 = leb 64 (bus_width c);
  sbaccess32 = leb 32 (bus_width c);
  sbaccess16 = leb 16 (bus_width c);
  sbaccess8 = leb 8 (bus_width c);
}

-- `csr_read_write`, and `data_d`.
unfoldable pub csr_read_write : Config → Inputs → Csrs → Outcome
unfolding access legal_dmcontrol legal_sbcs
csr_read_write c i s =
    let o = access c i s in
    let n = o.next in
    record o {
      clear_resumeack_o = not s.dmcontrol_q.resumereq && n.dmcontrol_q.resumereq;
      next = record n {
        cmderr_q = if i.cmderror_valid_i then i.cmderror_i else n.cmderr_q;
        havereset_q = if i.ndmreset_ack_i then (λ h. true) else n.havereset_q;
        sbdata_q = if i.sbdata_valid_i then i.sbdata_i else n.sbdata_q;
        dmcontrol_q = legal_dmcontrol c i s.dmcontrol_q n.dmcontrol_q;
        sbcs_q = legal_sbcs c i n.sbcs_q;
        data_q = if i.data_valid_i then i.data_i else n.data_q;
      };
    }

abbrev no_control : Dmcontrol
no_control = record {
  haltreq = false;
  resumereq = false;
  hartreset = false;
  ackhavereset = false;
  zero1 = false;
  hasel = false;
  hartsello = 0;
  hartselhi = 0;
  zero0 = 0;
  setresethaltreq = false;
  clrresethaltreq = false;
  ndmreset = false;
  dmactive = false;
}

abbrev no_sbcs : Sbcs
no_sbcs = record {
  sbversion = 0;
  zero0 = 0;
  sbbusyerror = false;
  sbbusy = false;
  sbreadonaddr = false;
  sbaccess = 2;
  sbautoincrement = false;
  sbreadondata = false;
  sberror = 0;
  sbasize = 0;
  sbaccess128 = false;
  sbaccess64 = false;
  sbaccess32 = false;
  sbaccess16 = false;
  sbaccess8 = false;
}

-- The asynchronous reset.
unfoldable pub reset : Csrs
reset = record {
  dmcontrol_q = no_control;
  cmderr_q = 0;
  command_q = 0;
  cmd_valid_q = false;
  abstractauto_q = record { autoexecprogbuf = 0; zero0 = 0; autoexecdata = 0 };
  progbuf_q = replicate prog_buf_size 0;
  data_q = replicate data_count 0;
  sbcs_q = no_sbcs;
  sbaddr_q = 0;
  sbdata_q = 0;
  havereset_q = λ h. true;
}

-- What the registers take at an edge, by whether the module is active: all but `dmactive` and
-- `havereset_q` is reset while it is not.
unfoldable pub registered : Config → Bool → Csrs → Csrs
unfolding reset
registered c active n =
    let kept =
      if active
      then n
      else record reset { dmcontrol_q = record no_control { dmactive = n.dmcontrol_q.dmactive } } in
    record kept { havereset_q = λ h. c.selectable_harts h && n.havereset_q h }

-- A rising clock edge.
unfoldable pub posedge : Config → Inputs → Csrs → Csrs
unfolding csr_read_write registered
posedge c i s = registered c s.dmcontrol_q.dmactive (csr_read_write c i s).next

-- `haltreq_o` and `resumereq_o`.
unfoldable pub haltreq_o : Config → Csrs → ℕ → Bool
unfolding selected_hart hart_valid
haltreq_o c s h =
    hart_valid c (selected_hart c s) && h == selected_hart c s && s.dmcontrol_q.haltreq

unfoldable pub resumereq_o : Config → Csrs → ℕ → Bool
unfolding selected_hart hart_valid
resumereq_o c s h =
    hart_valid c (selected_hart c s) && h == selected_hart c s && s.dmcontrol_q.resumereq

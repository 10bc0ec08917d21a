-- ===== src/Csrs/Examples.antt =====
-- The theorems on the registers of the debug module at concrete requests.
use riscv_dbg.Common.{◌==◌, ◌≡◌, refl, arith, true, false, [], ◌∷◌}
use riscv_dbg.Mem.{Config, clog2, bit}
use riscv_dbg.Csrs.{Csrs, Inputs, dm_csr}
use riscv_dbg.Csrs.Access.{autoexec_data}
use riscv_dbg.Csrs.Step.{csr_read_write, posedge, reset}
use riscv_dbg.Csrs.Busy.{forbidden, error_after, posedge-protected, read_waits, write_waits}
use riscv_dbg.Csrs.Answers.{refuses, read_needs_bus, write_needs_bus}
use riscv_dbg.Csrs.Issue.{issues, automatic, posedge-issues}
use riscv_dbg.Csrs.Status.{haltsum, any_bit}
use riscv_dbg.Csrs.Groups.{some_halted}
use riscv_dbg.Csrs.Halted.{haltsum-bit}
use riscv_dbg.Csrs.Sound.{IsSound, posedge-IsSound}
use riscv_dbg.Csrs.RoundTrip.{stores, write-read}

abbrev pub one_hart : Config
one_hart = record {
  nr_harts = 1;
  selectable_harts = λ h. true;
  has_snd_scratch = true;
  wide = false;
  wide_access = false;
  past_end = true;
}

-- A write of the first data register.
abbrev pub writes_data : Inputs
writes_data = record {
  next_dm_addr_i = 0;
  full = false;
  dmi_req_valid_i = true;
  dmi_req_addr = 0x04;
  dmi_req_op = 2;
  dmi_req_data = 0xcafe;
  ndmreset_ack_i = false;
  hartinfo_i = λ h. 0;
  halted_i = λ h. true;
  unavailable_i = λ h. false;
  resumeack_i = λ h. false;
  cmderror_valid_i = false;
  cmderror_i = 0;
  cmdbusy_i = false;
  data_i = 0 ∷ 0 ∷ [];
  data_valid_i = false;
  sbaddress_i = 0;
  sbdata_i = 0;
  sbdata_valid_i = false;
  sbbusy_i = false;
  sberror_valid_i = false;
  sberror_i = 0;
}

abbrev reads_data : Inputs
reads_data = record writes_data { dmi_req_op = 1 }

abbrev too_early : Inputs
too_early = record writes_data { cmdbusy_i = true }

-- The registers of an active module whose first data register starts the command again.
abbrev pub registers : Csrs
registers = record {
  dmcontrol_q = record {
    haltreq = false;
    resumereq = false;
    hartreset = false;
    ackhavereset = false;
    zero1 = false;
    hasel = false;
    hartsello = 0;
    hartselhi = 0;
    zero0 = 0;
    setresethaltreq = false;
    clrresethaltreq = false;
    ndmreset = false;
    dmactive = true;
  };
  cmderr_q = 0;
  command_q = 0x00231009;
  cmd_valid_q = false;
  abstractauto_q = record { autoexecprogbuf = 0; zero0 = 0; autoexecdata = 1 };
  progbuf_q = 0 ∷ 0 ∷ 0 ∷ 0 ∷ 0 ∷ 0 ∷ 0 ∷ 0 ∷ [];
  data_q = 7 ∷ 8 ∷ [];
  sbcs_q = record {
    sbversion = 1;
    zero0 = 0;
    sbbusyerror = false;
    sbbusy = false;
    sbreadonaddr = false;
    sbaccess = 2;
    sbautoincrement = false;
    sbreadondata = false;
    sberror = 0;
    sbasize = 32;
    sbaccess128 = false;
    sbaccess64 = false;
    sbaccess32 = true;
    sbaccess16 = true;
    sbaccess8 = true;
  };
  sbaddr_q = 0;
  sbdata_q = 0;
  havereset_q = λ h. false;
}

pub registers-IsSound : IsSound one_hart registers
unfolding clog2
registers-IsSound = record {
  legal = record {
    low = omega arith;
    selects = omega arith;
    constants = (refl, refl, refl, refl, refl, refl, refl);
  };
  sized = record { data_size = refl; progbuf_size = refl };
}

posedge-protected_example :
    let t = posedge one_hart too_early registers in
    (t.data_q ≡ 7 ∷ 8 ∷ [])
    × (t.progbuf_q ≡ registers.progbuf_q)
    × (t.command_q ≡ 0x00231009)
    × (t.abstractauto_q ≡ registers.abstractauto_q)
    × (t.cmd_valid_q ≡ false)
    × (t.cmderr_q ≡ 1)
unfolding error_after forbidden dm_csr write_waits
posedge-protected_example = posedge-protected one_hart too_early registers refl refl refl

-- An error is pending, and a read of the data starts the command nevertheless.
abbrev failed : Csrs
failed = record registers { cmderr_q = 3 }

posedge-issues_example : (posedge one_hart reads_data failed).cmd_valid_q ≡ true
unfolding issues dm_csr automatic autoexec_data
posedge-issues_example = posedge-issues one_hart reads_data failed

posedge-IsSound_example :
    IsSound one_hart reset × IsSound one_hart (posedge one_hart writes_data registers)
posedge-IsSound_example = posedge-IsSound one_hart writes_data registers refl registers-IsSound

write-read_example :
    (csr_read_write one_hart reads_data (posedge one_hart writes_data registers)).resp_data ≡ 0xcafe
unfolding refuses dm_csr read_waits write_waits stores read_needs_bus write_needs_bus
write-read_example =
    write-read one_hart writes_data reads_data registers registers-IsSound.sized refl
      (record { taken = refl; does = refl }) (record { taken = refl; does = refl }) refl refl
      (omega arith) refl (ground arith) refl refl

-- Forty harts, of which hart 35 is halted and hart 33 is selected.
abbrev many : Config
many = record one_hart { nr_harts = 40 }

abbrev one_halted : Inputs
one_halted = record writes_data { halted_i = λ h. h == 35 }

abbrev selects_33 : Csrs
selects_33 = record registers { dmcontrol_q = record registers.dmcontrol_q { hartsello = 33 } }

haltsum-bit_example : bit 3 (haltsum 0 many one_halted selects_33) ≡ true
unfolding some_halted any_bit
haltsum-bit_example =
    haltsum-bit 0 many one_halted selects_33 3 (omega arith) (omega arith) (omega arith)
      (omega arith) (λ e. absurd (omega (arith, e)))

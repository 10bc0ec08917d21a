-- ===== src/Csrs/Words.antt =====
-- The registers of src/dm_csrs.sv as words: the packed structures of src/dm_pkg.sv.
use riscv_dbg.Common.{ℕ, ◌+◌, ◌*◌, ◌^◌, to_bit}
use riscv_dbg.Opcodes.{slice}
use riscv_dbg.Mem.{bit}
use riscv_dbg.Csrs.{Dmcontrol, Sbcs, Abstractauto}

unfoldable pub dmcontrol_of : ℕ → Dmcontrol
dmcontrol_of w = record {
  haltreq = bit 31 w;
  resumereq = bit 30 w;
  hartreset = bit 29 w;
  ackhavereset = bit 28 w;
  zero1 = bit 27 w;
  hasel = bit 26 w;
  hartsello = slice 25 16 w;
  hartselhi = slice 15 6 w;
  zero0 = slice 5 4 w;
  setresethaltreq = bit 3 w;
  clrresethaltreq = bit 2 w;
  ndmreset = bit 1 w;
  dmactive = bit 0 w;
}

unfoldable pub dmcontrol_word : Dmcontrol → ℕ
dmcontrol_word d =
    to_bit d.haltreq * 2 ^ 31
    + to_bit d.resumereq * 2 ^ 30
    + to_bit d.hartreset * 2 ^ 29
    + to_bit d.ackhavereset * 2 ^ 28
    + to_bit d.zero1 * 2 ^ 27
    + to_bit d.hasel * 2 ^ 26
    + d.hartsello * 2 ^ 16
    + d.hartselhi * 2 ^ 6
    + d.zero0 * 2 ^ 4
    + to_bit d.setresethaltreq * 2 ^ 3
    + to_bit d.clrresethaltreq * 2 ^ 2
    + to_bit d.ndmreset * 2
    + to_bit d.dmactive

unfoldable pub sbcs_of : ℕ → Sbcs
sbcs_of w = record {
  sbversion = slice 31 29 w;
  zero0 = slice 28 23 w;
  sbbusyerror = bit 22 w;
  sbbusy = bit 21 w;
  sbreadonaddr = bit 20 w;
  sbaccess = slice 19 17 w;
  sbautoincrement = bit 16 w;
  sbreadondata = bit 15 w;
  sberror = slice 14 12 w;
  sbasize = slice 11 5 w;
  sbaccess128 = bit 4 w;
  sbaccess64 = bit 3 w;
  sbaccess32 = bit 2 w;
  sbaccess16 = bit 1 w;
  sbaccess8 = bit 0 w;
}

unfoldable pub sbcs_word : Sbcs → ℕ
sbcs_word s =
    s.sbversion * 2 ^ 29
    + s.zero0 * 2 ^ 23
    + to_bit s.sbbusyerror * 2 ^ 22
    + to_bit s.sbbusy * 2 ^ 21
    + to_bit s.sbreadonaddr * 2 ^ 20
    + s.sbaccess * 2 ^ 17
    + to_bit s.sbautoincrement * 2 ^ 16
    + to_bit s.sbreadondata * 2 ^ 15
    + s.sberror * 2 ^ 12
    + s.sbasize * 2 ^ 5
    + to_bit s.sbaccess128 * 2 ^ 4
    + to_bit s.sbaccess64 * 2 ^ 3
    + to_bit s.sbaccess32 * 2 ^ 2
    + to_bit s.sbaccess16 * 2
    + to_bit s.sbaccess8

unfoldable pub abstractauto_word : Abstractauto → ℕ
abstractauto_word a = a.autoexecprogbuf * 2 ^ 16 + a.zero0 * 2 ^ 12 + a.autoexecdata

-- ===== src/Csrs.antt =====
-- The registers of the debug module that the debugger accesses, src/dm_csrs.sv. The response FIFO is a
-- library's: whether it is full is an input, and what is pushed into it is the response.
pub mod Words
pub mod Status
pub mod Access
pub mod Step
pub mod Cases
pub mod Busy
pub mod Bus
pub mod Answers
pub mod Issue
pub mod Pack
pub mod Groups
pub mod Halted
pub mod Sound
pub mod RoundTrip
pub mod Examples
use riscv_dbg.Common.{
  ℕ, ◌+◌, ◌-◌, ◌*◌, ◌/◌, ◌%◌, ◌^◌, Bool, true, false, not, ◌&&◌, ◌||◌, List, leb, ◌==◌,
  if◌then◌else◌,
}

-- The registers of `dm_csr_e` that the code implements.
pub data DmCsr : Type 0 where
  data_reg progbuf_reg haltsum_reg : ℕ → DmCsr
  dmcontrol dmstatus hartinfo abstractcs command abstractauto next_dm sbcs sbaddress0 sbaddress1
        sbdata0 sbdata1 unmapped :
      DmCsr

abbrev one_of : ℕ → DmCsr
one_of a =
    if a == 0x10
    then dmcontrol
    else if a == 0x11
    then dmstatus
    else if a == 0x12
    then hartinfo
    else if a == 0x13
    then haltsum_reg 1
    else if a == 0x16
    then abstractcs
    else if a == 0x17
    then command
    else if a == 0x18
    then abstractauto
    else if a == 0x1d
    then next_dm
    else if a == 0x34
    then haltsum_reg 2
    else if a == 0x35
    then haltsum_reg 3
    else if a == 0x38
    then sbcs
    else if a == 0x39
    then sbaddress0
    else if a == 0x3a
    then sbaddress1
    else if a == 0x3c
    then sbdata0
    else if a == 0x3d
    then sbdata1
    else if a == 0x40
    then haltsum_reg 0
    else unmapped

-- The case of an address: first the ranges [Data0:DataEnd] and [ProgBuf0:ProgBufEnd].
unfoldable pub dm_csr : ℕ → DmCsr
dm_csr a =
    if leb 0x04 a && leb a 0x05
    then data_reg (a - 0x04)
    else if leb 0x20 a && leb a 0x27
    then progbuf_reg (a - 0x20)
    else one_of a

pub record Dmcontrol : Type 0 where
  pub haltreq : Bool
  pub resumereq : Bool
  pub hartreset : Bool
  pub ackhavereset : Bool
  pub zero1 : Bool
  pub hasel : Bool
  pub hartsello : ℕ
  pub hartselhi : ℕ
  pub zero0 : ℕ
  pub setresethaltreq : Bool
  pub clrresethaltreq : Bool
  pub ndmreset : Bool
  pub dmactive : Bool

pub record Sbcs : Type 0 where
  pub sbversion : ℕ
  pub zero0 : ℕ
  pub sbbusyerror : Bool
  pub sbbusy : Bool
  pub sbreadonaddr : Bool
  pub sbaccess : ℕ
  pub sbautoincrement : Bool
  pub sbreadondata : Bool
  pub sberror : ℕ
  pub sbasize : ℕ
  pub sbaccess128 : Bool
  pub sbaccess64 : Bool
  pub sbaccess32 : Bool
  pub sbaccess16 : Bool
  pub sbaccess8 : Bool

pub record Abstractauto : Type 0 where
  pub autoexecprogbuf : ℕ
  pub zero0 : ℕ
  pub autoexecdata : ℕ

-- The registers. An error of a command is its number in `cmderr_e`.
pub record Csrs : Type 0 where
  pub dmcontrol_q : Dmcontrol
  pub cmderr_q : ℕ
  pub command_q : ℕ
  pub cmd_valid_q : Bool
  pub abstractauto_q : Abstractauto
  pub progbuf_q : List ℕ
  pub data_q : List ℕ
  pub sbcs_q : Sbcs
  pub sbaddr_q : ℕ
  pub sbdata_q : ℕ
  pub havereset_q : ℕ → Bool

-- What the other parts of the debug module and the harts drive. `full` is `resp_queue_full`.
pub record Inputs : Type 0 where
  pub next_dm_addr_i : ℕ
  pub full : Bool
  pub dmi_req_valid_i : Bool
  pub dmi_req_addr : ℕ
  pub dmi_req_op : ℕ
  pub dmi_req_data : ℕ
  pub ndmreset_ack_i : Bool
  pub hartinfo_i : ℕ → ℕ
  pub halted_i : ℕ → Bool
  pub unavailable_i : ℕ → Bool
  pub resumeack_i : ℕ → Bool
  pub cmderror_valid_i : Bool
  pub cmderror_i : ℕ
  pub cmdbusy_i : Bool
  pub data_i : List ℕ
  pub data_valid_i : Bool
  pub sbaddress_i : ℕ
  pub sbdata_i : ℕ
  pub sbdata_valid_i : Bool
  pub sbbusy_i : Bool
  pub sberror_valid_i : Bool
  pub sberror_i : ℕ

-- What the block `csr_read_write` computes: the next value of the registers, the response, and
-- the strobes.
pub record Outcome : Type 0 where
  pub next : Csrs
  pub resp_data : ℕ
  pub resp : ℕ
  pub sbaddress_write_valid_o : Bool
  pub sbdata_read_valid_o : Bool
  pub sbdata_write_valid_o : Bool
  pub clear_resumeack_o : Bool

-- `dmi_req_ready_o && dmi_req_valid_i`
abbrev pub accepted : Inputs → Bool
accepted i = not i.full && i.dmi_req_valid_i

abbrev pub cmd_err_busy : ℕ
cmd_err_busy = 1

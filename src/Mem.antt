-- ===== src/Mem.antt =====
-- The debug memory, src/dm_mem.sv: what the harts see of the debug module, and the control of one
-- abstract command or resume request at a time. A vector with a bit for each hart is a function of
-- the hart's index.
pub mod Commands
pub mod Hart
pub mod Programs
pub mod Transfers
pub mod Control
pub mod Memory
pub mod Lifecycle
pub mod Resume
pub mod Lanes
pub mod Window
pub mod Reach
pub mod Fetch
pub mod Guards
mod Examples
use riscv_dbg.Common.{
  ℕ, zero, suc, ◌+◌, ◌-◌, ◌*◌, ◌/◌, ◌%◌, ◌^◌, Bool, true, false, not, ◌&&◌, List, ltb, leb, ◌==◌,
  if◌then◌else◌,
}
use riscv_dbg.Opcodes.{slice}

-- `$clog2`: the least `k` with `n <= 2 ** k`, looked for from `k` on in `fuel` rounds.
clog2_from : (fuel k n : ℕ) → ℕ
clog2_from zero k n = k
clog2_from (suc fuel) k n =
    let more = clog2_from fuel (k + 1) n in if leb n (2 ^ k) then k else more

-- `n` is below `2 ** n`, so `n` rounds are enough.
unfoldable pub clog2 : ℕ → ℕ
unfolding clog2_from
clog2 n = clog2_from n 0 n

-- The parameters. `has_snd_scratch` says that DmBaseAddress is not 0, `wide` that BusWidth is 64
-- and not 32, `wide_access` the same of MaxRegisterAccessWidth. `past_end` is no parameter: it stands
-- for a read behind the end of a vector, which has no defined value.
pub record Config : Type 0 where
  pub nr_harts : ℕ
  pub selectable_harts : ℕ → Bool
  pub has_snd_scratch : Bool
  pub wide : Bool
  pub wide_access : Bool
  pub past_end : Bool

unfoldable pub hart_sel_len : Config → ℕ
hart_sel_len c = if c.nr_harts == 1 then 1 else clog2 c.nr_harts

unfoldable pub max_aar : Config → ℕ
max_aar c = if c.wide_access then 4 else 3

unfoldable pub load_base_addr : Config → ℕ
load_base_addr c = if c.has_snd_scratch then 10 else 0

abbrev pub data_addr : ℕ
data_addr = 0x380

abbrev pub data_count : ℕ
data_count = 2

abbrev pub prog_buf_size : ℕ
prog_buf_size = 8

-- The fields of `command_t` and, of its `control`, those of `ac_ar_cmd_t`.
abbrev pub cmdtype : ℕ → ℕ
cmdtype cmd = slice 31 24 cmd

abbrev pub aarsize : ℕ → ℕ
aarsize cmd = slice 22 20 cmd

abbrev pub bit : ℕ → ℕ → Bool
bit k x = x / 2 ^ k % 2 == 1

abbrev pub aarpostincrement : ℕ → Bool
aarpostincrement cmd = bit 19 cmd

abbrev pub postexec : ℕ → Bool
postexec cmd = bit 18 cmd

abbrev pub transfer : ℕ → Bool
transfer cmd = bit 17 cmd

abbrev pub write : ℕ → Bool
write cmd = bit 16 cmd

abbrev pub regno : ℕ → ℕ
regno cmd = slice 15 0 cmd

-- `cmderr_e`; the code 6 has no name.
pub data CmdErr : Type 0 where
  none busy not_supported exception halt_resume bus reserved other : CmdErr

pub data MemState : Type 0 where
  idle go resume cmd_executing : MemState

-- What the registers of the debug module ask for.
pub record Request : Type 0 where
  pub ndmreset_i : Bool
  pub hartsel_i : ℕ
  pub haltreq_i : ℕ → Bool
  pub resumereq_i : ℕ → Bool
  pub clear_resumeack_i : Bool
  pub progbuf_i : List ℕ
  pub data_i : List ℕ
  pub cmd_valid_i : Bool
  pub cmd_i : ℕ

-- An access of a hart to the memory.
pub record Access : Type 0 where
  pub req_i : Bool
  pub we_i : Bool
  pub addr_i : ℕ
  pub wdata_i : ℕ
  pub be_i : ℕ

pub record Mem : Type 0 where
  pub state_q : MemState
  pub halted_q : ℕ → Bool
  pub resuming_q : ℕ → Bool
  pub fwd_rom_q : Bool
  pub rdata_q : ℕ
  pub word_enable32_q : Bool

-- `hartsel`, `wdata_hartsel`, and whether such an index names a hart.
unfoldable pub hart_index : Config → ℕ → ℕ
hart_index c x = x % 2 ^ hart_sel_len c

unfoldable pub hart_valid : Config → ℕ → Bool
hart_valid c h = leb h ((c.nr_harts - 1) % 2 ^ hart_sel_len c)

-- A vector that is extended by zeros.
unfoldable pub aligned : Config → (ℕ → Bool) → ℕ → Bool
aligned c v h = ltb h c.nr_harts && v h

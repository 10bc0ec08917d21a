-- ===== src/Top.antt =====
-- The debug module as src/dm_top.sv joins its registers, src/dm_csrs.sv, and its memory, src/dm_mem.sv.
-- What the system bus access hands over is an input here, and Top/Joined.antt connects it.
pub mod Joined
pub mod Steady
pub mod Cycle
pub mod Launch
pub mod Transfer
pub mod Debugger
pub mod Held
pub mod Command
pub mod Outcome
pub mod Resume
pub mod Data
pub mod Obi
mod Examples
use riscv_dbg.Common.{ℕ, Bool, true, false, List, [], ◌∷◌}
use riscv_dbg.Mem.{
  Config, Request, Access, Mem, CmdErr, none, busy, not_supported, exception, halt_resume, bus,
  reserved, other,
}
use riscv_dbg.Mem.Control.{Control, control}
use riscv_dbg.Mem.Memory
use riscv_dbg.Mem.Memory.{data_o, data_valid_o}
use riscv_dbg.Csrs.{Csrs, Inputs}
use riscv_dbg.Csrs.Status.{hartsel_of}
use riscv_dbg.Csrs.Step
use riscv_dbg.Csrs.Step.{csr_read_write, haltreq_o, resumereq_o}

-- The number of an error.
unfoldable pub cmderr_code : CmdErr → ℕ
cmderr_code none = 0
cmderr_code busy = 1
cmderr_code not_supported = 2
cmderr_code exception = 3
cmderr_code halt_resume = 4
cmderr_code bus = 5
cmderr_code reserved = 6
cmderr_code other = 7

pub record Top : Type 0 where
  pub csrs : Csrs
  pub mem : Mem

-- What the registers drive; `clear` is `clear_resumeack`.
unfoldable pub request : Config → Bool → Csrs → Request
unfolding haltreq_o resumereq_o
request c clear s = record {
  ndmreset_i = s.dmcontrol_q.ndmreset;
  hartsel_i = hartsel_of s.dmcontrol_q;
  haltreq_i = haltreq_o c s;
  resumereq_i = resumereq_o c s;
  clear_resumeack_i = clear;
  progbuf_i = s.progbuf_q;
  data_i = s.data_q;
  cmd_valid_i = s.cmd_valid_q;
  cmd_i = s.command_q;
}

-- What the memory sets in a cycle. It does not depend on `clear_resumeack`.
unfoldable pub controlled : Config → Access → Top → Control
unfolding request control
controlled c a s = control c (request c false s.csrs) a s.mem

-- The inputs of the registers, those of the memory connected.
unfoldable pub wired : Config → Inputs → Access → Top → Inputs
unfolding controlled cmderr_code data_o data_valid_o
wired c i a s =
    let k = controlled c a s in
    record i {
      halted_i = s.mem.halted_q;
      resumeack_i = s.mem.resuming_q;
      cmderror_valid_i = k.cmderror_valid_o;
      cmderror_i = cmderr_code k.cmderror_o;
      cmdbusy_i = k.cmdbusy_o;
      data_i = data_o c (request c false s.csrs) a;
      data_valid_i = data_valid_o a;
    }

-- A clock cycle, with the other inputs and an access of a hart.
unfoldable pub step : Config → Inputs → Access → Top → Top
unfolding wired csr_read_write request Memory.posedge Step.posedge
step c i a s =
    let driven = wired c i a s in
    let clear = (csr_read_write c driven s.csrs).clear_resumeack_o in
    record {
      csrs = Step.posedge c driven s.csrs;
      mem = Memory.posedge c (request c clear s.csrs) a s.mem;
    }

-- Cycles in a row.
unfoldable pub steps : Config → List (Inputs × Access) → Top → Top
unfolding step
steps c [] s = s
steps c ((i, a) ∷ l) s = steps c l (step c i a s)

-- ===== src/Top/Examples.antt =====
-- The theorems on the debug module at a concrete command.
use riscv_dbg.Common.{some, ◌≡◌, refl, arith, true, false, [], ◌∷◌, ◌==◌}
use riscv_dbg.Csrs.Words.{dmcontrol_of}
use riscv_dbg.Mem.{
  clog2, hart_valid, resume, Access, Mem, idle, go, hart_sel_len, hart_index, aligned, max_aar,
}
use riscv_dbg.Mem.Commands.{abstract_cmd, access_register, write_register}
use riscv_dbg.Csrs.{Inputs, dm_csr}
use riscv_dbg.Csrs.Examples.{one_hart, writes_data, registers, registers-IsSound}
use riscv_dbg.Sba
use riscv_dbg.Sba.{Bus, write}
use riscv_dbg.Top.{Top, step, steps}
use riscv_dbg.Top.Joined.{Joined, Cycle}
use riscv_dbg.Top.Joined
use riscv_dbg.Top.Launch.{starts, is_clear, write_starts}
use riscv_dbg.Top.Debugger.{step-starts}
use riscv_dbg.Top.Command.{IsCalm}
use riscv_dbg.Top.Held.{AllBusy, steps-held}
use riscv_dbg.Top.Obi.{Obi, response, step-read}
use riscv_dbg.Top.Obi
use riscv_dbg.Top.Outcome.{can_run, step-outcome}
use riscv_dbg.Top.Data.{step-stored}
use riscv_dbg.Mem.Memory.{word_at, data_valid_o, rdata_o}
use riscv_dbg.Common.Bytes.{byte_at}
use riscv_dbg.Top.Resume.{selects_hart, can_resume, step-resumes}

abbrev halted : Mem
halted = record {
  state_q = idle;
  halted_q = λ h. h == 0;
  resuming_q = λ h. false;
  fwd_rom_q = false;
  rdata_q = 0;
  word_enable32_q = false;
}

abbrev ready : Top
ready = record { csrs = registers; mem = halted }

abbrev silent : Access
silent = record { req_i = false; we_i = false; addr_i = 0; wdata_i = 0; be_i = 0 }

-- The debugger writes the command, and is silent.
abbrev commands : Inputs
commands = record writes_data { dmi_req_addr = 0x17; dmi_req_data = 0x00231009 }

abbrev waits : Inputs
waits = record writes_data { dmi_req_valid_i = false }

registers-IsCalm : IsCalm one_hart registers
registers-IsCalm = record {
  legal = registers-IsSound.legal;
  active = refl;
  no_reset = refl;
  no_resume = refl;
}

step-outcome_example :
    let t = step one_hart waits silent (step one_hart commands silent ready) in
    (t.csrs.command_q ≡ 0x00231009) × (t.mem.state_q ≡ go) × (t.csrs.cmderr_q ≡ 0)
unfolding abstract_cmd access_register write_register max_aar can_run aligned hart_index
    hart_sel_len dm_csr
step-outcome_example =
    step-outcome one_hart commands waits silent silent ready refl refl registers-IsCalm
      (record { taken = refl; does = refl }) refl refl refl refl

abbrev started : Top
started = record { csrs = registers; mem = record halted { state_q = go } }

steps-held_example :
    ((steps one_hart ((commands, silent) ∷ []) started).csrs.command_q ≡ 0x00231009)
    × ((steps one_hart ((commands, silent) ∷ []) started).csrs.progbuf_q ≡ registers.progbuf_q)
unfolding AllBusy
steps-held_example =
    steps-held one_hart ((commands, silent) ∷ []) started (refl, (λ e. ground arith), tt)

-- Nothing is on the bus, a word is written to SBData0, and the debugger tries to change the address
-- of the running transfer.
abbrev joined : Joined
joined = record { top = ready; sba_q = Sba.idle }

abbrev calm_bus : Bus
calm_bus = record {
  master_gnt_i = false;
  master_r_valid_i = false;
  master_r_err_i = false;
  master_r_other_err_i = false;
  master_r_rdata_i = 0;
}

abbrev asks_bus : Cycle
asks_bus = (record writes_data { dmi_req_addr = 0x3c; dmi_req_data = 0xcafe }, silent, calm_bus)

abbrev meddles : Cycle
meddles = (record writes_data { dmi_req_addr = 0x39; dmi_req_data = 0x1000 }, silent, calm_bus)

abbrev is_granted : Cycle
is_granted = (waits, silent, record calm_bus { master_gnt_i = true })

abbrev fails : Cycle
fails = (waits, silent, record calm_bus { master_r_valid_i = true; master_r_err_i = true })

step-starts_example : (Joined.step one_hart true asks_bus.0 silent calm_bus joined).1.sba_q ≡ write
unfolding starts dm_csr is_clear write_starts
step-starts_example = step-starts one_hart true asks_bus.0 silent calm_bus joined refl

-- The debugger asks hart 0 to resume.
abbrev resumes : Inputs
resumes = record writes_data { dmi_req_addr = 0x10; dmi_req_data = 0x40000001 }

step-resumes_example :
    (step one_hart waits silent (step one_hart resumes silent ready)).mem.state_q ≡ resume
unfolding dm_csr dmcontrol_of selects_hart can_resume hart_index hart_sel_len hart_valid aligned
    clog2
step-resumes_example =
    step-resumes one_hart resumes waits silent silent ready refl refl registers-IsCalm
      (record { taken = refl; does = refl }) refl
      (record { asks = refl; no_halt = refl; no_reset = refl; stays_active = refl }) refl

-- Hart 0 writes the first data register, and the debugger tries the same.
abbrev hart_writes : Access
hart_writes = record { req_i = true; we_i = true; addr_i = 0x380; wdata_i = 0x1234; be_i = 15 }

step-stored_example :
    byte_at 1 (word_at (step one_hart writes_data hart_writes ready).csrs.data_q 0) ≡ 0x12
unfolding byte_at data_valid_o
step-stored_example =
    step-stored one_hart writes_data hart_writes ready 0 1 refl refl refl (omega arith)
      (omega arith)

-- The wrapper, and a read of the data registers by a hart with the identifier 5.
abbrev wrapped : Obi
wrapped = record { joined = joined; slave_rvalid_q = false; slave_rid_q = 0 }

abbrev hart_reads : Access
hart_reads = record { req_i = true; we_i = false; addr_i = 0x1384; wdata_i = 0; be_i = 15 }

step-read_example :
    let t = (Obi.step one_hart waits hart_reads 5 calm_bus wrapped).1 in
    (response t ≡ some 5) × (rdata_o one_hart 0 t.joined.top.mem ≡ 8)
step-read_example = step-read one_hart waits hart_reads 5 0 calm_bus wrapped refl refl (omega arith)

-- ===== src/Tap/Examples.antt =====
-- The test access port at concrete inputs.
use riscv_dbg.Common.{
  ℕ, ◌≡◌, refl, arith, Bool, true, false, List, [], ◌∷◌, ◌++◌, map, take, drop, replicate, to_bit,
}
use riscv_dbg.Common.Register.{value}
use riscv_dbg.Bitbang.{fd, Server, done}
use riscv_dbg.Bitbang.Tick.{pins, Tick}
use riscv_dbg.Bitbang.Session.{Exchange, reads_of, IsServing, NoQuit, ticks}
use riscv_dbg.Tap.{run_test_idle, shift_dr, Tap, dtmcsr, reset, posedge}
use riscv_dbg.Tap.Controller.{edges}
use riscv_dbg.Tap.Shift.{load_ir, scan, scan_idcode}
use riscv_dbg.Tap.Wire.{follow, ticks-reset}
use riscv_dbg.Tap.Ticks.{Gate, calls, every, calls-every}

abbrev idle : Tap
idle = record {
  tap_state_q = run_test_idle;
  jtag_ir_shift_q = 7;
  jtag_ir_q = 0x11;
  idcode_q = 0xdb3;
  bypass_q = 1;
}

abbrev low : ℕ → Bool
low n = false

loads_dtmcsr : (edges 0xdb3 (load_ir false false false false true low) idle).jtag_ir_q ≡ dtmcsr
unfolding edges posedge
loads_dtmcsr = refl

abbrev code_bits : List Bool
code_bits = true ∷ true ∷ replicate 30 false

abbrev shifting : Tap
shifting = record {
  tap_state_q = shift_dr;
  jtag_ir_shift_q = 0;
  jtag_ir_q = 1;
  idcode_q = 3;
  bypass_q = 0;
}

abbrev fed : List Bool
fed = true ∷ false ∷ true ∷ []

scan_idcode_example :
    ((scan 0xdb3 fed shifting).0 ≡ map to_bit (take 3 (code_bits ++ fed)))
    × ((scan 0xdb3 fed shifting).1.idcode_q ≡ value (drop 3 (code_bits ++ fed)))
scan_idcode_example = scan_idcode 0xdb3 fed code_bits shifting refl refl refl refl

abbrev pulse : List Exchange
pulse =
    record { byte = b'2'; tdo = 0; idle = 1; busy = 0 }
    ∷ record { byte = b'6'; tdo = 1; idle = 0; busy = 0 }
    ∷ []

abbrev pulses : List Exchange
pulses = pulse ++ pulse ++ pulse ++ pulse ++ pulse ++ pulse

abbrev server : Server
server = record {
  rbs_err = 0;
  tck = 1;
  tms = 1;
  tdi = 1;
  trstn = 1;
  tdo = 0;
  quit = 0;
  socket_fd = fd 3;
  client_fd = fd 4;
  recv_start = 0;
  recv_end = 0;
  init = 1;
  setup = record {
    socket = fd 3;
    setsockopt_ok = true;
    bind_ok = true;
    listen_ok = true;
    getsockname_ok = true;
  };
  accepts = [];
  reads = reads_of pulses [];
  writes = [];
  calls = [];
  sent = [];
}

server-IsServing : IsServing server
server-IsServing = ground arith

pulses-NoQuit : NoQuit pulses
pulses-NoQuit = omega arith

ticks-reset_example :
    (t : Server) × (ks : List Tick) × (ticks 9999 (map (λ x. x.tdo) pulses) server ≡ done ks t)
    × (follow 0xdb3 (pins server) ks idle ≡ reset 0xdb3)
ticks-reset_example =
    ticks-reset 0xdb3 9999 pulses [] [] server idle server-IsServing refl refl pulses-NoQuit refl
      refl

-- Every second cycle, as the test bench has it: behind a reset, its second cycle, and the cycle that
-- says that the design is ready.
abbrev gate : Bool → Gate
gate reset = record { reset = reset; enable = true; init_done = true }

calls-every_example :
    calls 1
      (gate true ∷ gate false ∷ gate false ∷ gate false ∷ gate false ∷ gate false ∷ [])
      (record { r_reset = false; tick_counter_reg = 1; init_done_sticky = true })
    ≡ false ∷ false ∷ false ∷ false ∷ true ∷ false ∷ []
unfolding every
calls-every_example =
    calls-every 1 (gate true ∷ gate false ∷ gate false ∷ gate false ∷ gate false ∷ gate false ∷ [])
      0 (record { r_reset = false; tick_counter_reg = 1; init_done_sticky = true }) refl

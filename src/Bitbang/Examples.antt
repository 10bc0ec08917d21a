-- ===== src/Bitbang/Examples.antt =====
-- The remote bitbang server at concrete inputs.
use riscv_dbg.Common.{◌++◌, ◌≡◌, refl, arith, true, List, [], ◌∷◌, replicate, map}
use riscv_dbg.Bitbang.{
  eagain, fd, SetupAnswers, accepted, accept_fails, got, end_of_file, read_fails, ReadAnswer, wrote,
  wrote_nothing, write_fails, WriteAnswer, Server, done,
}
use riscv_dbg.Bitbang.Loops.{rbs_execute_command}
use riscv_dbg.Bitbang.Tick.{pins, Tick, jtag_tick}
use riscv_dbg.Bitbang.Dispatch.{drive, response}
use riscv_dbg.Bitbang.Serve.{Served, rbs_execute_command-Served}
use riscv_dbg.Bitbang.End.{reached, ticks-quit}
use riscv_dbg.Bitbang.Session.{
  Exchange, reads_of, writes_of, ticks, driven, replies, IsServing, ticks-driven,
}
use riscv_dbg.Bitbang.Levels.{IsSound, Post, Reports, jtag_tick-IsSound}
use riscv_dbg.Bitbang.Accept.{ready}

abbrev granted : SetupAnswers
granted = record {
  socket = fd 3;
  setsockopt_ok = true;
  bind_ok = true;
  listen_ok = true;
  getsockname_ok = true;
}

-- The process as it starts, before any tick.
abbrev process : SetupAnswers → List ReadAnswer → List WriteAnswer → Server
process setup reads writes = record {
  rbs_err = 0;
  tck = 0;
  tms = 0;
  tdi = 0;
  trstn = 0;
  tdo = 0;
  quit = 0;
  socket_fd = fd 0;
  client_fd = fd 0;
  recv_start = 0;
  recv_end = 0;
  init = 0;
  setup = setup;
  accepts = accept_fails eagain ∷ accepted 4 ∷ [];
  reads = reads;
  writes = writes;
  calls = [];
  sent = [];
}

-- A server with a client on descriptor 4.
abbrev serving : List ReadAnswer → List WriteAnswer → Server
serving reads writes = record (ready 9999 (process granted reads writes)) {
  client_fd = fd 4;
  init = 1;
}

abbrev exchanges : List Exchange
exchanges =
    record { byte = b'2'; tdo = 0; idle = 2; busy = 0 }
    ∷ record { byte = b'6'; tdo = 1; idle = 0; busy = 0 }
    ∷ record { byte = b'R'; tdo = 1; idle = 1; busy = 1 }
    ∷ []

abbrev session : Server
session = serving (reads_of exchanges []) (writes_of exchanges [])

session-IsServing : IsServing session
session-IsServing = ground arith

ticks-driven_example :
    (t : Server) × (ticks 9999 (map (λ x. x.tdo) exchanges) session
      ≡ done (driven (pins session) exchanges) t)
    × (t.sent ≡ replies exchanges [])
    × (t.reads ≡ [])
    × (t.writes ≡ [])
    × IsServing t
    × (t.rbs_err ≡ session.rbs_err)
ticks-driven_example =
    ticks-driven 9999 exchanges [] [] session session-IsServing
      (omega arith, (omega arith, (omega arith, tt))) refl refl

-- The same exchanges, and then `Q`.
abbrev quits : Exchange
quits = record { byte = b'Q'; tdo = 0; idle = 1; busy = 0 }

abbrev last_session : Server
last_session =
    serving (reads_of exchanges (replicate 1 (read_fails eagain) ++ got b'Q' ∷ []))
      (writes_of exchanges [])

ticks-quit_example :
    let last : Tick = record { outputs = reached (pins last_session) exchanges; exit = 1 } in
    (t : Server) × (ticks 9999 (map (λ x. x.tdo) exchanges ++ 0 ∷ []) last_session
      ≡ done (driven (pins last_session) exchanges ++ last ∷ []) t)
    × (t.sent ≡ replies exchanges [])
    × (t.reads ≡ [])
    × (t.writes ≡ [])
    × (t.client_fd ≡ fd 0)
ticks-quit_example =
    ticks-quit 9999 exchanges quits [] [] last_session (ground arith)
      (omega arith, (omega arith, (omega arith, tt))) refl refl refl

replied_one : replies exchanges [] ≡ b'1' ∷ []
unfolding replies response
replied_one = refl

clocked : drive b'6' (pins session) ≡ record { tck = 1; tms = 1; tdi = 0; trstn = 1 }
unfolding drive pins
clocked = refl

rbs_execute_command-Served_example :
    let s = serving (read_fails eagain ∷ got b'R' ∷ []) (wrote_nothing ∷ wrote ∷ []) in
    (t : Server) × (rbs_execute_command s ≡ done tt t) × Served b'R' [] [] s t
rbs_execute_command-Served_example =
    rbs_execute_command-Served b'R' 1 1 [] []
      (serving (read_fails eagain ∷ got b'R' ∷ []) (wrote_nothing ∷ wrote ∷ [])) refl (λ e. refl)

process-IsSound : IsSound (process granted [] [])
process-IsSound = ground arith

jtag_tick-IsSound_example : Post IsSound Reports (jtag_tick 9999 0 (process granted [] []))
jtag_tick-IsSound_example = jtag_tick-IsSound 9999 0 (process granted [] []) process-IsSound

abbrev nobody : Server
nobody = record (ready 9999 (process granted [] [])) { accepts = replicate 3 (accept_fails eagain) }

abbrev left_alone : Server
left_alone = serving (end_of_file ∷ end_of_file ∷ []) []

left_alone-IsServing : IsServing left_alone
left_alone-IsServing = ground arith

abbrev stalled : Server
stalled = serving (got b'R' ∷ []) (write_fails eagain ∷ [])

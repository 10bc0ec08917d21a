-- ===== src/Bitbang/Serve.antt =====
-- One command of the client, from the answer of `read` to the pins and the reply.
use riscv_dbg.Common.{
  ℕ, ◌≡◌, refl, ap, ◌∙◌, List, ◌∷◌, ◌++◌, replicate, is_set, ◌==◌, if◌then◌else◌, arith,
}
use riscv_dbg.Bitbang.{
  eagain, fd, ReadAnswer, got, read_fails, WriteAnswer, wrote, wrote_nothing, Call, Command,
  read_tdo, classify, perform, reply, Server, done,
}
use riscv_dbg.Bitbang.Loops.{
  read_loop, write_loop, send, execute, rbs_execute_command, close_on_quit,
}
use riscv_dbg.Bitbang.Tick.{pins}
use riscv_dbg.Bitbang.Dispatch.{
  drive, response, quit_after, pins-perform, quit-perform, perform-SameRest,
}
use riscv_dbg.Bitbang.Polling.{read_loop_polls, write_loop_polls}

-- `t` is `s` after the client's byte `c`, with the answers `rest` still to be read, and `ws` to
-- come to `write` if the byte was answered.
pub record Served (c : ℕ) (rest : List ReadAnswer) (ws : List WriteAnswer) (s t : Server)
    : Type 0 where
  pub driven : pins t ≡ drive c (pins s)
  pub quits : t.quit ≡ quit_after c s.quit
  pub client : t.client_fd ≡ (if is_set t.quit then fd 0 else s.client_fd)
  pub replied : t.sent ≡ response c s.tdo s.sent
  pub unread : t.reads ≡ rest
  pub unwritten : t.writes ≡ (if c == b'R' then ws else s.writes)
  pub same_tdo : t.tdo ≡ s.tdo
  pub same_err : t.rbs_err ≡ s.rbs_err
  pub same_init : t.init ≡ s.init
  pub same_accepts : t.accepts ≡ s.accepts

answered : Command → Server → List ℕ
answered read_tdo s = (if is_set s.tdo then b'1' else b'0') ∷ s.sent
answered _ s = s.sent

unwritten : Command → List WriteAnswer → Server → List WriteAnswer
unwritten read_tdo ws s = ws
unwritten _ ws s = s.writes

answered-classify : (c : ℕ) (s : Server) → answered (classify c) s ≡ response c s.tdo s.sent
unfolding answered classify response
answered-classify c s = ground arith

unwritten-classify :
    (c : ℕ) (ws : List WriteAnswer) (s : Server)
    → unwritten (classify c) ws s ≡ (if c == b'R' then ws else s.writes)
unfolding unwritten classify
unwritten-classify c ws s = ground arith

read_tdo_byte : (c : ℕ) → classify c ≡ read_tdo → c ≡ b'R'
unfolding classify
read_tdo_byte c h = ground arith

send-reply :
    (k : Command) (s : Server) (m : ℕ) (ws : List WriteAnswer)
    → (k ≡ read_tdo → s.writes ≡ replicate m wrote_nothing ++ wrote ∷ ws)
    → (cs : List Call) × (send (reply k s) (perform k s)
        ≡ done tt
            (record (perform k s) { writes = unwritten k ws s; calls = cs; sent = answered k s }))
unfolding send reply perform answered unwritten
send-reply read_tdo s m ws h =
    let c : ℕ = if is_set s.tdo then b'1' else b'0' in
    let (cs, e) = write_loop_polls m c ws s in (cs, ap (λ l. write_loop c l s) (h refl) ∙ e)
send-reply _ s m ws h = (s.calls, refl)

-- The state in which `execute` ends.
abbrev ended : ℕ → Server → List WriteAnswer → List Call → Server
ended c s ws cs = close_on_quit (record (perform (classify c) s) {
  writes = unwritten (classify c) ws s;
  calls = cs;
  sent = answered (classify c) s;
})

ended-Served :
    (c : ℕ) (s : Server) (ws : List WriteAnswer) (cs : List Call)
    → Served c s.reads ws s (ended c s ws cs)
unfolding close_on_quit pins
ended-Served c s ws cs =
    let same = perform-SameRest (classify c) s in
    record {
      driven = ground (arith, pins-perform c s);
      quits = ground (arith, quit-perform c s);
      client = ground (arith, same);
      replied = ground (arith, answered-classify c s);
      unread = ground (arith, same);
      unwritten = ground (arith, unwritten-classify c ws s);
      same_tdo = ground (arith, same);
      same_err = ground (arith, same);
      same_init = ground (arith, same);
      same_accepts = ground (arith, same);
    }

execute-ended :
    (c : ℕ) (s : Server) (m : ℕ) (ws : List WriteAnswer)
    → (c ≡ b'R' → s.writes ≡ replicate m wrote_nothing ++ wrote ∷ ws)
    → (cs : List Call) × (execute (classify c) s ≡ done tt (ended c s ws cs))
unfolding execute
execute-ended c s m ws h =
    let (cs, e) = send-reply (classify c) s m ws (λ k. h (read_tdo_byte c k)) in (cs, rw e refl)

-- While a client is connected, one call serves exactly one byte, however often `read` and
-- `write` first have nothing to give: the pins, the reply, `quit` and the connection afterwards
-- are those that the protocol gives for the byte. `write` has to take a byte only if `R` came.
pub rbs_execute_command-Served :
    (c n m : ℕ) (rest : List ReadAnswer) (ws : List WriteAnswer) (s : Server)
    → s.reads ≡ replicate n (read_fails eagain) ++ got c ∷ rest
    → (c ≡ b'R' → s.writes ≡ replicate m wrote_nothing ++ wrote ∷ ws)
    → (t : Server) × (rbs_execute_command s ≡ done tt t) × Served c rest ws s t
unfolding rbs_execute_command pins
rbs_execute_command-Served c n m rest ws s hr hw =
    let (cs, read) = read_loop_polls n c rest s in
    let r : Server = record s { reads = rest; calls = cs } in
    let (cs', run) = execute-ended c r m ws hw in
    let reached = ap (λ l. read_loop l s) hr ∙ read in
    let served = ended-Served c r ws cs' in
    (
      ended c r ws cs',
      rw reached run,
      record {
        driven = served.driven;
        quits = served.quits;
        client = served.client;
        replied = served.replied;
        unread = served.unread;
        unwritten = served.unwritten;
        same_tdo = served.same_tdo;
        same_err = served.same_err;
        same_init = served.same_init;
        same_accepts = served.same_accepts;
      },
    )

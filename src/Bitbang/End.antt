-- ===== src/Bitbang/End.antt =====
-- The end of a session: the client sends `Q`.
use riscv_dbg.Common.{ℕ, ◌+◌, ◌*◌, ◌≡◌, refl, ap, ◌∙◌, List, [], ◌∷◌, ◌++◌, replicate, arith, map}
use riscv_dbg.Bitbang.{eagain, ReadAnswer, got, read_fails, WriteAnswer, Server, done, fd}
use riscv_dbg.Bitbang.Tick.{Pins, pins, Tick, exit_value, jtag_tick}
use riscv_dbg.Bitbang.Dispatch.{drive, response, quit_after}
use riscv_dbg.Bitbang.Session.{
  Exchange, reads_of, writes_of, ticks, driven, replies, IsServing, NoQuit, jtag_tick-Served,
  served_tick,
}

-- The pins behind the bytes.
unfoldable pub reached : Pins → List Exchange → Pins
reached p [] = p
reached p (x ∷ xs) = reached (drive x.byte p) xs

quit_tick :
    (port : ℕ) (q : Exchange) (rest : List ReadAnswer) (s : Server)
    → IsServing s
    → q.byte ≡ b'Q'
    → s.reads ≡ replicate q.idle (read_fails eagain) ++ got q.byte ∷ rest
    → (t : Server) × (jtag_tick port q.tdo s
        ≡ done (record { outputs = pins s; exit = s.rbs_err * 2 + 1 }) t)
      × (t.client_fd ≡ fd 0)
      × (t.sent ≡ s.sent)
      × (t.reads ≡ rest)
      × (t.writes ≡ s.writes)
unfolding exit_value quit_after response drive
quit_tick port q rest s h e hr =
    let (t, run, d, v) = jtag_tick-Served port q rest [] s h hr (λ r. ground arith) in
    let still : drive q.byte (pins s) ≡ pins s = rw e refl in
    let quit : t.quit ≡ 1 = v.quits ∙ rw e refl in
    let code : exit_value t ≡ s.rbs_err * 2 + 1 = rw (quit, v.same_err) refl in
    (
      t,
      run
          ∙ ap (λ p. done (record { outputs = p; exit = exit_value t }) t) still
          ∙ ap (λ x. done (record { outputs = pins s; exit = x }) t) code,
      v.client ∙ rw quit refl,
      v.replied ∙ rw e refl,
      v.unread,
      v.unwritten ∙ rw e refl,
    )

-- A session that the client ends with `Q`, in which each read gives its byte behind any number of
-- EAGAIN and each write takes its reply behind any number of tries that take nothing: every tick
-- returns with the pins of the protocol, the last with the pins as they were; each gives 0 but the
-- last, which gives twice the error code and 1; the client has been sent the replies of the protocol
-- and its connection is closed.
pub ticks-quit :
    (port : ℕ) (xs : List Exchange) (q : Exchange) (rest : List ReadAnswer) (ws : List WriteAnswer)
    (s : Server)
    → IsServing s
    → NoQuit xs
    → q.byte ≡ b'Q'
    → s.reads ≡ reads_of xs (replicate q.idle (read_fails eagain) ++ got q.byte ∷ rest)
    → s.writes ≡ writes_of xs ws
    → let last : Tick = record { outputs = reached (pins s) xs; exit = s.rbs_err * 2 + 1 } in
      (t : Server) × (ticks port (map (λ x. x.tdo) xs ++ q.tdo ∷ []) s
        ≡ done (driven (pins s) xs ++ last ∷ []) t)
      × (t.sent ≡ replies xs s.sent)
      × (t.reads ≡ rest)
      × (t.writes ≡ ws)
      × (t.client_fd ≡ fd 0)
unfolding ticks driven replies reached
ticks-quit port [] q rest ws s h none e hr hw =
    let (t, run, closed, sent, reads, writes) = quit_tick port q rest s h e hr in
    (t, rw run refl, sent, reads, writes ∙ hw, closed)
ticks-quit port (x ∷ xs) q rest ws s h none e hr hw =
    let more = replicate q.idle (read_fails eagain) ++ got q.byte ∷ rest in
    let (u, run, d, told, reads, writes, on, kept) =
      served_tick port x xs more ws s h none.0 hr hw in
    let (t, run', sent, r, w, closed) = ticks-quit port xs q rest ws u on none.1 e reads writes in
    (t, rw (run, run', d, kept) refl, sent ∙ ap (replies xs) told, r, w, closed)

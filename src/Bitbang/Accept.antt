-- ===== src/Bitbang/Accept.antt =====
-- Connections: `rbs_init`, `rbs_accept`, the end of a client's input, and the errors of `read` and
-- `write` in tb/remote_bitbang/remote_bitbang.c.
use riscv_dbg.Common.{
  ℕ, zero, suc, ◌≡◌, refl, ap, sym, subst, length, ◌∙◌, ◌↔◌, true, false, List, [], ◌∷◌, ◌++◌,
  replicate, is_set, if◌then◌else◌, arith,
}
use riscv_dbg.Bitbang.{
  eagain, Errno, fd, AcceptAnswer, accepted, accept_fails, ReadAnswer, got, end_of_file, read_fails,
  WriteAnswer, wrote_nothing, write_fails, Call, read_call, inaddr_any, socket_call, set_nonblock,
  set_reuseaddr, bind_call, listen_call, getsockname_call, Server, bind, Outcome, done, aborted,
  waiting, classify, perform, reply,
}
use riscv_dbg.Bitbang.Loops.{
  accept_loop, rbs_accept, read_loop, write_loop, send, execute, execute_read, rbs_execute_command,
}
use riscv_dbg.Bitbang.Tick.{
  pins, is_valid, rbs_init, rbs_tick, start, jtag_tick, exit_value, has_client,
}
use riscv_dbg.Bitbang.Session.{IsServing, ticks}
use riscv_dbg.Bitbang.Polling.{accept_loop_polls, read_loop_polls}

-- The server after a set-up with no failure: it listens on `port` of every interface, no client
-- is connected, the pins are high.
abbrev pub ready : ℕ → Server → Server
ready port s =
    let f = s.setup.socket in
    record s {
      rbs_err = 0;
      tck = 1;
      tms = 1;
      tdi = 1;
      trstn = 1;
      quit = 0;
      socket_fd = f;
      client_fd = fd 0;
      recv_start = 0;
      recv_end = 0;
      calls =
          getsockname_call f
          ∷ listen_call f 1
          ∷ bind_call f inaddr_any port
          ∷ set_reuseaddr f
          ∷ set_nonblock f
          ∷ socket_call
          ∷ s.calls;
    }

-- Every checked call of the set-up succeeded.
pub record AllAnswered (s : Server) : Type 0 where
  pub socket_made : is_valid s.setup.socket ≡ true
  pub option_set : s.setup.setsockopt_ok ≡ true
  pub bound : s.setup.bind_ok ≡ true
  pub listening : s.setup.listen_ok ≡ true
  pub named : s.setup.getsockname_ok ≡ true

-- `rbs_init` returns exactly if every checked call succeeded; then it has made the six calls in
-- order, with the address INADDR_ANY, returns 1 and leaves the server ready.
rbs_init-ready : (port : ℕ) (s : Server) → AllAnswered s ↔ (rbs_init port s ≡ done 1 (ready port s))
unfolding rbs_init
rbs_init-ready port s = (λ h. ground arith, λ e. ground arith)

abbrev pub IsAborted : {A : Type 0} → Outcome A → Type 0
IsAborted (done a s) = ⊥
IsAborted (aborted s) = Unit {0}
IsAborted (waiting s) = ⊥

abbrev pub IsWaiting : {A : Type 0} → Outcome A → Type 0
IsWaiting (done a s) = ⊥
IsWaiting (aborted s) = ⊥
IsWaiting (waiting s) = Unit {0}

-- If one of them failed, `rbs_init` aborts.
rbs_init-IsAborted : (port : ℕ) (s : Server) → (AllAnswered s → ⊥) → IsAborted (rbs_init port s)
unfolding rbs_init
rbs_init-IsAborted port s h = ground arith

-- Without a client, a tick polls `accept` until a client is there, takes it and leaves the pins.
rbs_tick-accepts :
    (n k tdo : ℕ) (rest : List AcceptAnswer) (s : Server)
    → has_client s.client_fd ≡ false
    → s.accepts ≡ replicate n (accept_fails eagain) ++ accepted k ∷ rest
    → (cs : List Call) × (rbs_tick tdo s
        ≡ done (pins s) (record s { client_fd = fd k; accepts = rest; calls = cs }))
unfolding rbs_tick rbs_accept
rbs_tick-accepts n k tdo rest s h ha =
    let (cs, e) = accept_loop_polls n k rest s in (cs, rw h (rw (ap (λ l. accept_loop l s) ha ∙ e)))

accept_loop-IsWaiting :
    (n : ℕ) (s : Server) → IsWaiting (accept_loop (replicate n (accept_fails eagain)) s)
unfolding accept_loop
accept_loop-IsWaiting zero s = tt
accept_loop-IsWaiting (suc n) s = accept_loop-IsWaiting n _

IsWaiting-bind :
    {A B : Type 0} (o : Outcome A) (f : A → Server → Outcome B) → IsWaiting o → IsWaiting (bind o f)
IsWaiting-bind (done a s) f h = absurd h
IsWaiting-bind (aborted s) f h = absurd h
IsWaiting-bind (waiting s) f h = h

IsAborted-bind :
    {A B : Type 0} (o : Outcome A) (f : A → Server → Outcome B) → IsAborted o → IsAborted (bind o f)
IsAborted-bind (done a s) f h = absurd h
IsAborted-bind (aborted s) f h = h
IsAborted-bind (waiting s) f h = absurd h

-- Without a client, a tick does not return to the simulator: however often `accept` answers
-- EAGAIN, it polls again.
rbs_tick-IsWaiting :
    (n tdo : ℕ) (s : Server)
    → has_client s.client_fd ≡ false
    → s.accepts ≡ replicate n (accept_fails eagain)
    → IsWaiting (rbs_tick tdo s)
unfolding rbs_tick rbs_accept
rbs_tick-IsWaiting n tdo s h ha = rw h (
    IsWaiting-bind (accept_loop s.accepts s) _
      (subst (λ l. IsWaiting (accept_loop l s)) (sym ha) (accept_loop-IsWaiting n s)))

tick_at_end :
    (port tdo : ℕ) (rest : List ReadAnswer) (s : Server)
    → IsServing s
    → s.reads ≡ end_of_file ∷ rest
    → jtag_tick port tdo s
      ≡ done
          (record { outputs = pins s; exit = 0 })
          (record s { tdo = tdo; reads = rest; calls = read_call s.client_fd ∷ s.calls })
unfolding jtag_tick start rbs_tick rbs_execute_command read_loop exit_value pins
tick_at_end port tdo rest s h hr = rw (h.started, h.connected) (ground (arith, h.going_on))

-- A client that closed its end without `Q` is never given up: each later tick reads the end of
-- file again, keeps the descriptor, and hands over the same pins and 0. No `accept` is made.
ticks_after_end :
    (port : ℕ) (tdos : List ℕ) (rest : List ReadAnswer) (s : Server)
    → IsServing s
    → s.reads ≡ replicate (length tdos) end_of_file ++ rest
    → (t : Server) × (ticks port tdos s
        ≡ done (replicate (length tdos) (record { outputs = pins s; exit = 0 })) t)
      × (t.client_fd ≡ s.client_fd)
      × (t.accepts ≡ s.accepts)
      × (t.sent ≡ s.sent)
unfolding ticks pins
ticks_after_end port [] rest s h hr = (s, refl, refl, refl, refl)
ticks_after_end port (tdo ∷ tdos) rest s h hr =
    let u : Server = record s {
      tdo = tdo;
      reads = replicate (length tdos) end_of_file ++ rest;
      calls = read_call s.client_fd ∷ s.calls;
    } in
    let (t, run, c, a, w) =
      ticks_after_end port tdos rest u
        (record { started = h.started; connected = h.connected; going_on = h.going_on }) refl in
    (t, rw (tick_at_end port tdo _ s h hr, run) refl, c, a, w)

send_fails :
    (m c : ℕ) (e : Errno) (ws : List WriteAnswer) (s : Server)
    → IsAborted (write_loop c (replicate m wrote_nothing ++ write_fails e ∷ ws) s)
unfolding write_loop
send_fails zero c e ws s = tt
send_fails (suc m) c e ws s = send_fails m c e ws _

-- A reply that `write` refuses with any error, EAGAIN included, ends the simulation, though the
-- client's descriptor is set non-blocking and the other two loops poll again on EAGAIN.
rbs_execute_command-IsAborted :
    (n m : ℕ) (e : Errno) (rest : List ReadAnswer) (ws : List WriteAnswer) (s : Server)
    → s.reads ≡ replicate n (read_fails eagain) ++ got b'R' ∷ rest
    → s.writes ≡ replicate m wrote_nothing ++ write_fails e ∷ ws
    → IsAborted (rbs_execute_command s)
unfolding rbs_execute_command execute_read execute send classify reply perform
rbs_execute_command-IsAborted n m e rest ws s hr hw =
    let (cs, read) = read_loop_polls n b'R' rest s in
    let reached = ap (λ l. read_loop l s) hr ∙ read in
    let r : Server = record s { reads = rest; calls = cs } in
    let c : ℕ = if is_set s.tdo then b'1' else b'0' in
    rw reached (
      IsAborted-bind (write_loop c s.writes r) _
        (subst (λ l. IsAborted (write_loop c l r)) (sym hw) (send_fails m c e ws r)))

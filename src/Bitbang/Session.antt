-- ===== src/Bitbang/Session.antt =====
-- A session: the simulator calls `jtag_tick` over and over while a client sends bytes.
use riscv_dbg.Common.{
  ℕ, ◌≡◌, refl, ap, ◌∙◌, Bool, true, false, List, [], ◌∷◌, ◌++◌, replicate, is_set, ◌==◌,
  if◌then◌else◌, arith, map, ◌≢◌,
}
use riscv_dbg.Bitbang.{
  eagain, ReadAnswer, got, read_fails, WriteAnswer, wrote, wrote_nothing, Server, done, M, ◌>>=◌,
}
use riscv_dbg.Bitbang.Tick.{Pins, pins, Tick, has_client, rbs_tick, start, exit_value, jtag_tick}
use riscv_dbg.Bitbang.Dispatch.{drive, response, quit_after}
use riscv_dbg.Bitbang.Serve.{Served, rbs_execute_command-Served}

-- The byte of one tick and the level of the data output then; `read` has nothing to give `idle`
-- times before the byte, and `write` takes nothing `busy` times before it takes a reply.
pub record Exchange : Type 0 where
  pub byte : ℕ
  pub tdo : ℕ
  pub idle : ℕ
  pub busy : ℕ

-- What the operating system answers for them.
abbrev pub reads_of : List Exchange → List ReadAnswer → List ReadAnswer
reads_of [] rest = rest
reads_of (x ∷ xs) rest = replicate x.idle (read_fails eagain) ++ got x.byte ∷ reads_of xs rest

abbrev pub writes_of : List Exchange → List WriteAnswer → List WriteAnswer
writes_of [] ws = ws
writes_of (x ∷ xs) ws =
    if x.byte == b'R'
    then replicate x.busy wrote_nothing ++ wrote ∷ writes_of xs ws
    else writes_of xs ws

-- `jtag_tick` once for each level of the data output.
unfoldable pub ticks : ℕ → List ℕ → M (List Tick)
ticks port [] = λ s. done [] s
ticks port (tdo ∷ tdos) = jtag_tick port tdo >>= λ t. ticks port tdos >>= λ ts. λ s. done (t ∷ ts) s

-- What the protocol gives: the pins after each byte, and the replies, the latest first.
unfoldable pub driven : Pins → List Exchange → List Tick
driven p [] = []
driven p (x ∷ xs) = record { outputs = drive x.byte p; exit = 0 } ∷ driven (drive x.byte p) xs

unfoldable pub replies : List Exchange → List ℕ → List ℕ
replies [] sent = sent
replies (x ∷ xs) sent = replies xs (response x.byte x.tdo sent)

-- A server that is set up, has a client and was not told to quit.
pub record IsServing (s : Server) : Type 0 where
  pub started : is_set s.init ≡ true
  pub connected : has_client s.client_fd ≡ true
  pub going_on : s.quit ≡ 0

-- One tick of a serving server. The exit value is odd exactly if `quit` is set.
pub jtag_tick-Served :
    (port : ℕ) (x : Exchange) (rest : List ReadAnswer) (ws : List WriteAnswer) (s : Server)
    → IsServing s
    → s.reads ≡ replicate x.idle (read_fails eagain) ++ got x.byte ∷ rest
    → (x.byte ≡ b'R' → s.writes ≡ replicate x.busy wrote_nothing ++ wrote ∷ ws)
    → (t : Server) × (jtag_tick port x.tdo s
        ≡ done (record { outputs = drive x.byte (pins s); exit = exit_value t }) t)
      × (pins t ≡ drive x.byte (pins s))
      × Served x.byte rest ws (record s { tdo = x.tdo }) t
unfolding jtag_tick rbs_tick start
jtag_tick-Served port x rest ws s h hr hw =
    let (t, run, served) =
      rbs_execute_command-Served x.byte x.idle x.busy rest ws (record s { tdo = x.tdo }) hr hw in
    (
      t,
      rw (h.started, h.connected, run)
          (ap (λ p. done (record { outputs = p; exit = exit_value t }) t) served.driven),
      served.driven,
      served,
    )

-- Serving goes on after every byte but `Q`.
pub Served-IsServing :
    (c : ℕ) (rest : List ReadAnswer) (ws : List WriteAnswer) (s t : Server)
    → c ≢ b'Q'
    → IsServing s
    → Served c rest ws s t
    → IsServing t × (exit_value t ≡ 0)
unfolding quit_after exit_value
Served-IsServing c rest ws s t ne h v = ground (arith, v.quits, v.client, v.same_init)

abbrev pub NoQuit : List Exchange → Type 0
NoQuit [] = Unit {0}
NoQuit (x ∷ xs) = (x.byte ≢ b'Q') × NoQuit xs

-- What `write` still has to answer, whether or not the first byte asked for a reply.
left_over :
    (asked : Bool) (taken : List WriteAnswer) {u s w : List WriteAnswer}
    → u ≡ (if asked then w else s)
    → s ≡ (if asked then taken else w)
    → u ≡ w
left_over true taken e f = e
left_over false taken e f = e ∙ f

-- The tick of the next exchange of a session.
pub served_tick :
    (port : ℕ) (x : Exchange) (xs : List Exchange) (rest : List ReadAnswer) (ws : List WriteAnswer)
    (s : Server)
    → IsServing s
    → x.byte ≢ b'Q'
    → s.reads ≡ reads_of (x ∷ xs) rest
    → s.writes ≡ writes_of (x ∷ xs) ws
    → (u : Server) × (jtag_tick port x.tdo s
        ≡ done (record { outputs = drive x.byte (pins s); exit = 0 }) u)
      × (pins u ≡ drive x.byte (pins s))
      × (u.sent ≡ response x.byte x.tdo s.sent)
      × (u.reads ≡ reads_of xs rest)
      × (u.writes ≡ writes_of xs ws)
      × IsServing u
      × (u.rbs_err ≡ s.rbs_err)
served_tick port x xs rest ws s h ne hr hw =
    let (u, run, d, v) =
      jtag_tick-Served port x (reads_of xs rest) (writes_of xs ws) s h hr (λ e. ground arith) in
    let (on, zero_exit) =
      Served-IsServing x.byte (reads_of xs rest) (writes_of xs ws) (record s { tdo = x.tdo }) u ne
        (record { started = h.started; connected = h.connected; going_on = h.going_on }) v in
    (
      u,
      run ∙ ap (λ e. done (record { outputs = drive x.byte (pins s); exit = e }) u) zero_exit,
      d,
      v.replied,
      v.unread,
      left_over (x.byte == b'R') _ v.unwritten hw,
      on,
      v.same_err,
    )

-- A session without `Q`, in which each read gives its byte behind any number of EAGAIN and each write
-- takes its reply behind any number of tries that take nothing: every tick returns, hands the
-- simulator the pins of the protocol and 0; the client has been sent the replies of the protocol; and
-- the server goes on serving from where the bytes end, with its error code as it was.
pub ticks-driven :
    (port : ℕ) (xs : List Exchange) (rest : List ReadAnswer) (ws : List WriteAnswer) (s : Server)
    → IsServing s
    → NoQuit xs
    → s.reads ≡ reads_of xs rest
    → s.writes ≡ writes_of xs ws
    → (t : Server) × (ticks port (map (λ x. x.tdo) xs) s ≡ done (driven (pins s) xs) t)
      × (t.sent ≡ replies xs s.sent)
      × (t.reads ≡ rest)
      × (t.writes ≡ ws)
      × IsServing t
      × (t.rbs_err ≡ s.rbs_err)
unfolding ticks driven replies
ticks-driven port [] rest ws s h q hr hw = (s, refl, refl, hr, hw, h, refl)
ticks-driven port (x ∷ xs) rest ws s h q hr hw =
    let (u, run, d, told, reads, writes, on, kept) = served_tick port x xs rest ws s h q.0 hr hw in
    let (t, run', sent, r, w, on', err) = ticks-driven port xs rest ws u on q.1 reads writes in
    (t, rw (run, run', d) refl, sent ∙ ap (replies xs) told, r, w, on', err ∙ kept)

-- ===== src/Bitbang/Levels.antt =====
-- What holds of the globals of remote_bitbang.c whatever the operating system answers.
use riscv_dbg.Common.{
  ℕ, ◌≤◌, ◌≡◌, refl, arith, List, [], ◌∷◌, inl, inr, is_set, if◌then◌else◌, Bool-cases, none, some,
  Option,
}
use riscv_dbg.Bitbang.{
  eagain, other_errno, AcceptAnswer, accepted, accept_fails, ReadAnswer, got, end_of_file,
  read_fails, WriteAnswer, wrote, wrote_nothing, write_fails, Command, Server, Outcome, done,
  aborted, waiting, M, bind, classify, perform, reply, Reply,
}
use riscv_dbg.Bitbang.Loops.{
  accept_loop, rbs_accept, read_loop, write_loop, send, execute, execute_read, rbs_execute_command,
}
use riscv_dbg.Bitbang.Tick.{
  to_uint16, pins, rbs_init, rbs_tick, Tick, start, exit_value, jtag_tick, has_client,
}

-- The pins are levels, no error was recorded, and a started server is either serving or quit.
pub record IsSound (s : Server) : Type 0 where
  pub tck_level : s.tck ≤ 1
  pub tms_level : s.tms ≤ 1
  pub tdi_level : s.tdi ≤ 1
  pub trstn_level : s.trstn ≤ 1
  pub quit_level : s.quit ≤ 1
  pub no_error : s.rbs_err ≡ 0

-- `P` holds of the state in which a function ends, or which it has while it still polls.
abbrev pub Ends : {A : Type 0} → (Server → Type 0) → Outcome A → Type 0
Ends P (done a s) = P s
Ends P (aborted s) = P s
Ends P (waiting s) = P s

Ends-bind :
    {A B : Type 0} (P : Server → Type 0) (o : Outcome A) (f : A → M B)
    → Ends P o
    → ((a : A) (s : Server) → P s → Ends P (f a s))
    → Ends P (bind o f)
Ends-bind P (done a s) f h k = k a s h
Ends-bind P (aborted s) f h k = h
Ends-bind P (waiting s) f h k = h

-- The same, and `Q` holds of the result and the state of a normal return.
abbrev pub Post : {A : Type 0} → (Server → Type 0) → (A → Server → Type 0) → Outcome A → Type 0
Post P Q (done a s) = P s × Q a s
Post P Q (aborted s) = P s
Post P Q (waiting s) = P s

Post-bind :
    {A B : Type 0} (P : Server → Type 0) (Q : A → Server → Type 0) (R : B → Server → Type 0)
    (o : Outcome A) (f : A → M B)
    → Post P Q o
    → ((a : A) (s : Server) → P s → Q a s → Post P R (f a s))
    → Post P R (bind o f)
Post-bind P Q R (done a s) f h k = k a s h.0 h.1
Post-bind P Q R (aborted s) f h k = h
Post-bind P Q R (waiting s) f h k = h

Ends-bind-Post :
    {A B : Type 0} (P : Server → Type 0) (R : B → Server → Type 0) (o : Outcome A) (f : A → M B)
    → Ends P o
    → ((a : A) (s : Server) → P s → Post P R (f a s))
    → Post P R (bind o f)
Ends-bind-Post P R (done a s) f h k = k a s h
Ends-bind-Post P R (aborted s) f h k = h
Ends-bind-Post P R (waiting s) f h k = h

exit_value_lem : (s : Server) → IsSound s → exit_value s ≡ s.quit
unfolding exit_value
exit_value_lem s h = ground arith

accept_loop-IsSound :
    (l : List AcceptAnswer) (s : Server) → IsSound s → Ends IsSound (accept_loop l s)
unfolding accept_loop
accept_loop-IsSound [] s h = h
accept_loop-IsSound (accepted n ∷ l) s h = ground arith
accept_loop-IsSound (accept_fails eagain ∷ l) s h = accept_loop-IsSound l _ (ground arith)
accept_loop-IsSound (accept_fails (other_errno e) ∷ l) s h = ground arith

read_loop-IsSound : (l : List ReadAnswer) (s : Server) → IsSound s → Ends IsSound (read_loop l s)
unfolding read_loop
read_loop-IsSound [] s h = h
read_loop-IsSound (got c ∷ l) s h = ground arith
read_loop-IsSound (end_of_file ∷ l) s h = ground arith
read_loop-IsSound (read_fails eagain ∷ l) s h = read_loop-IsSound l _ (ground arith)
read_loop-IsSound (read_fails (other_errno e) ∷ l) s h = ground arith

write_loop-IsSound :
    (c : ℕ) (l : List WriteAnswer) (s : Server) → IsSound s → Ends IsSound (write_loop c l s)
unfolding write_loop
write_loop-IsSound c [] s h = h
write_loop-IsSound c (wrote ∷ l) s h = ground arith
write_loop-IsSound c (wrote_nothing ∷ l) s h = write_loop-IsSound c l _ (ground arith)
write_loop-IsSound c (write_fails e ∷ l) s h = ground arith

perform-IsSound : (k : Command) (s : Server) → IsSound s → IsSound (perform k s)
unfolding perform
perform-IsSound k s h = ground arith

send-IsSound : (r : Reply) (s : Server) → IsSound s → Ends IsSound (send r s)
unfolding send
send-IsSound r s h = elim (Bool-cases r.dosend) [
  | inl e ↦ rw e (write_loop-IsSound r.tosend s.writes s h)
  | inr e ↦ rw e h
]

execute-IsSound : (k : Command) (s : Server) → IsSound s → Ends IsSound (execute k s)
unfolding execute
execute-IsSound k s h =
    Ends-bind IsSound (send (reply k s) (perform k s)) _
      (send-IsSound (reply k s) (perform k s) (perform-IsSound k s h)) (λ a t g. ground arith)

rbs_execute_command-IsSound : (s : Server) → IsSound s → Ends IsSound (rbs_execute_command s)
unfolding rbs_execute_command
rbs_execute_command-IsSound s h =
    Ends-bind IsSound (read_loop s.reads s) execute_read (read_loop-IsSound s.reads s h) next
  where
    next : (o : Option ℕ) (t : Server) → IsSound t → Ends IsSound (execute_read o t)
    next none t g = g
    next (some c) t g = execute-IsSound (classify c) t g

rbs_init-IsSound : (port : ℕ) (s : Server) → IsSound s → Ends IsSound (rbs_init port s)
unfolding rbs_init
rbs_init-IsSound port s h = ground arith

start-IsSound : (port : ℕ) (s : Server) → IsSound s → Ends IsSound (start port s)
unfolding start
start-IsSound port s h = elim (Bool-cases (is_set s.init)) [
  | inl e ↦ rw e h
  | inr e ↦ rw e (
      Ends-bind IsSound (rbs_init (to_uint16 port) _) _
        (rbs_init-IsSound (to_uint16 port) _ (ground arith)) (λ a t g. ground arith))
]

-- The pins stored are the globals, and the tick returns `quit`: 1 once `Q` came and 0 before.
abbrev pub Reports : Tick → Server → Type 0
Reports r t = (r.outputs ≡ pins t) × (r.exit ≡ t.quit)

serve-IsSound :
    (s : Server) (tdo : ℕ)
    → IsSound s
    → Ends IsSound (
        if has_client s.client_fd
        then rbs_execute_command (record s { tdo = tdo })
        else rbs_accept s)
unfolding rbs_accept
serve-IsSound s tdo h = elim (Bool-cases (has_client s.client_fd)) [
  | inl e ↦ rw e (rbs_execute_command-IsSound (record s { tdo = tdo }) (ground arith))
  | inr e ↦ rw e (accept_loop-IsSound s.accepts s h)
]

rbs_tick-IsSound :
    (tdo : ℕ) (s : Server) → IsSound s → Post IsSound (λ p t. p ≡ pins t) (rbs_tick tdo s)
unfolding rbs_tick
rbs_tick-IsSound tdo s h = Ends-bind-Post IsSound _ _ _ (serve-IsSound s tdo h) (λ a t g. (g, refl))

-- Whatever `read`, `write`, `accept` and the calls of the set-up answer, one tick keeps the pins
-- and `quit` at 0 or 1 and records no error, also where it aborts or still polls; and where it
-- returns, it hands over the pins, and returns 1 exactly if `quit` is set and 0 if not.
pub jtag_tick-IsSound :
    (port tdo : ℕ) (s : Server) → IsSound s → Post IsSound Reports (jtag_tick port tdo s)
unfolding jtag_tick
jtag_tick-IsSound port tdo s h =
    Ends-bind-Post IsSound Reports (start port s) _ (start-IsSound port s h) λ a t g.
      Post-bind IsSound (λ p u. p ≡ pins u) Reports (rbs_tick tdo t) _ (rbs_tick-IsSound tdo t g)
        (λ p u k e. (k, (e, exit_value_lem u k)))

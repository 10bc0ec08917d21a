-- ===== src/Bitbang.antt =====
-- The JTAG remote bitbang server, tb/remote_bitbang/remote_bitbang.c: its globals, the system
-- calls that it makes and the handling of one command.
--
-- The operating system is not part of the program: what its calls return is an argument, the
-- lists of answers that stand in the state, every call made is recorded in `calls`, and every
-- byte that a `write` took in `sent`, both the latest first. A loop that polls a call until it answers uses up such a list; `waiting` is a
-- loop that still polls when the list ends. Output to stderr is left out.
pub mod Tick
pub mod Loops
pub mod Dispatch
pub mod Polling
pub mod Accept
pub mod Serve
pub mod Session
pub mod End
pub mod Levels
mod Examples
use riscv_dbg.Common.{
  ℕ, zero, suc, ◌-◌, ◌%◌, ◌<◌, Bool, true, false, List, [], ◌∷◌, ltb, ◌==◌, if◌then◌else◌, is_set,
}

pub data Errno : Type 0 where
  eagain : Errno
  other_errno : ℕ → Errno

-- A file descriptor as the program stores it: `failed_fd` is -1.
pub data Fd : Type 0 where
  failed_fd : Fd
  fd : ℕ → Fd

pub data AcceptAnswer : Type 0 where
  accepted : ℕ → AcceptAnswer
  accept_fails : Errno → AcceptAnswer

-- `read` of one byte returns 1, 0 or -1.
pub data ReadAnswer : Type 0 where
  got : ℕ → ReadAnswer
  end_of_file : ReadAnswer
  read_fails : Errno → ReadAnswer

-- `write` of one byte returns 1, 0 or -1.
pub data WriteAnswer : Type 0 where
  wrote : WriteAnswer
  wrote_nothing : WriteAnswer
  write_fails : Errno → WriteAnswer

-- The answers to the calls of `rbs_init`, each of which is made at most once.
pub record SetupAnswers : Type 0 where
  pub socket : Fd
  pub setsockopt_ok : Bool
  pub bind_ok : Bool
  pub listen_ok : Bool
  pub getsockname_ok : Bool

pub data Address : Type 0 where
  inaddr_any : Address
  loopback : Address

pub data Call : Type 0 where
  socket_call : Call
  set_nonblock : Fd → Call
  set_reuseaddr : Fd → Call
  bind_call : Fd → Address → ℕ → Call
  listen_call : Fd → ℕ → Call
  getsockname_call : Fd → Call
  accept_call : Fd → Call
  read_call : Fd → Call
  write_call : Fd → ℕ → Call
  close_call : Fd → Call
  warn_port : ℕ → Call

-- The globals of remote_bitbang.c, `init` of sim_jtag.c, and the operating system's side.
-- `recv_buf` is never used.
pub record Server : Type 0 where
  pub rbs_err : ℕ
  pub tck : ℕ
  pub tms : ℕ
  pub tdi : ℕ
  pub trstn : ℕ
  pub tdo : ℕ
  pub quit : ℕ
  pub socket_fd : Fd
  pub client_fd : Fd
  pub recv_start : ℕ
  pub recv_end : ℕ
  pub init : ℕ
  pub setup : SetupAnswers
  pub accepts : List AcceptAnswer
  pub reads : List ReadAnswer
  pub writes : List WriteAnswer
  pub calls : List Call
  pub sent : List ℕ

-- A function returns, calls `abort()`, or still polls.
pub data Outcome {ℓ} (A : Type ℓ) : Type ℓ where
  done : A → Server → Outcome A
  aborted : Server → Outcome A
  waiting : Server → Outcome A

abbrev pub M : Type 0 → Type 0
M A = Server → Outcome A

abbrev pub bind : {A B : Type 0} → Outcome A → (A → M B) → Outcome B
bind (done a s) f = f a s
bind (aborted s) f = aborted s
bind (waiting s) f = waiting s

infixl 5 ◌>>=◌ ◌>>◌
abbrev pub ◌>>=◌ : {A B : Type 0} → M A → (A → M B) → M B
◌>>=◌ m f s = bind (m s) f

abbrev pub ◌>>◌ : {B : Type 0} → M (Unit {0}) → M B → M B
m >> k = m >>= λ _. k

abbrev pub modify : (Server → Server) → M (Unit {0})
modify f s = done tt (f s)

abbrev pub note : Call → Server → Server
note c s = record s { calls = c ∷ s.calls }

-- The labels of the `switch`; `unsupported` is its default.
pub data Command : Type 0 where
  blink_on blink_off reset_r reset_s reset_t reset_u : Command
  write_0 write_1 write_2 write_3 write_4 write_5 write_6 write_7 : Command
  read_tdo quit_request : Command
  unsupported : ℕ → Command

-- Which label the byte selects.
pub classify : ℕ → Command
classify c =
    if c == b'B'
    then blink_on
    else if c == b'b'
    then blink_off
    else if c == b'r'
    then reset_r
    else if c == b's'
    then reset_s
    else if c == b't'
    then reset_t
    else if c == b'u'
    then reset_u
    else if c == b'0'
    then write_0
    else if c == b'1'
    then write_1
    else if c == b'2'
    then write_2
    else if c == b'3'
    then write_3
    else if c == b'4'
    then write_4
    else if c == b'5'
    then write_5
    else if c == b'6'
    then write_6
    else if c == b'7'
    then write_7
    else if c == b'R'
    then read_tdo
    else if c == b'Q'
    then quit_request
    else unsupported c

rbs_reset : Server → Server
rbs_reset s = record s { trstn = 0 }

rbs_set : Server → Server
rbs_set s = record s { trstn = 1 }

rbs_set_pins : ℕ → ℕ → ℕ → Server → Server
rbs_set_pins _tck _tms _tdi s = record s { tck = _tck; tms = _tms; tdi = _tdi }

-- The locals `dosend` and `tosend`.
pub record Reply : Type 0 where
  pub dosend : Bool
  pub tosend : ℕ

abbrev no_reply : Reply
no_reply = record { dosend = false; tosend = b'?' }

-- The `switch`: the change to the globals.
pub perform : Command → Server → Server
unfolding rbs_reset rbs_set rbs_set_pins
perform reset_r s = rbs_set s
perform reset_s s = rbs_set s
perform reset_t s = rbs_reset s
perform reset_u s = rbs_reset s
perform write_0 s = rbs_set_pins 0 0 0 s
perform write_1 s = rbs_set_pins 0 0 1 s
perform write_2 s = rbs_set_pins 0 1 0 s
perform write_3 s = rbs_set_pins 0 1 1 s
perform write_4 s = rbs_set_pins 1 0 0 s
perform write_5 s = rbs_set_pins 1 0 1 s
perform write_6 s = rbs_set_pins 1 1 0 s
perform write_7 s = rbs_set_pins 1 1 1 s
perform quit_request s = record s { quit = 1 }
perform _ s = s

-- The `switch`: what it asks to be sent.
pub reply : Command → Server → Reply
reply read_tdo s = record { dosend = true; tosend = if is_set s.tdo then b'1' else b'0' }
reply _ s = no_reply

-- ===== src/Bitbang/Tick.antt =====
-- `rbs_init`, `rbs_tick`, `rbs_done` and `rbs_exit_code` of tb/remote_bitbang/remote_bitbang.c, and
-- `jtag_tick` of tb/remote_bitbang/sim_jtag.c, which the simulator calls on each tick.
use riscv_dbg.Common.{
  ℕ, ◌+◌, ◌*◌, ◌%◌, ◌^◌, Bool, ◌||◌, true, false, ltb, leb, if◌then◌else◌, is_set, ◌∷◌,
}
use riscv_dbg.Bitbang.{
  Fd, failed_fd, fd, inaddr_any, socket_call, set_nonblock, set_reuseaddr, bind_call, listen_call,
  getsockname_call, warn_port, Call, Server, done, aborted, M, ◌>>=◌, ◌>>◌, modify, note,
}
use riscv_dbg.Bitbang.Loops.{rbs_accept, rbs_execute_command}

clear_globals : Server → Server
clear_globals s = record s {
  socket_fd = fd 0;
  client_fd = fd 0;
  recv_start = 0;
  recv_end = 0;
  rbs_err = 0;
}

-- The pins idle high, with the reset not asserted.
release_pins : Server → Server
release_pins s = record s { tck = 1; tms = 1; tdi = 1; trstn = 1; quit = 0 }

-- A call whose answer is checked: -1 aborts.
checked : Call → (Server → Bool) → M (Unit {0})
checked c ok s = if ok s then done tt (note c s) else aborted (note c s)

abbrev pub is_valid : Fd → Bool
is_valid failed_fd = false
is_valid (fd n) = true

open_socket : M (Unit {0})
open_socket s =
    let t = record s { socket_fd = s.setup.socket; calls = socket_call ∷ s.calls } in
    if is_valid t.socket_fd then done tt t else aborted t

-- `port` is the `uint16_t` argument. It returns 1.
unfoldable pub rbs_init : ℕ → M ℕ
unfolding clear_globals release_pins checked open_socket
rbs_init port = do
  modify clear_globals
  open_socket
  modify (λ s. note (set_nonblock s.socket_fd) s)
  (λ s. checked (set_reuseaddr s.socket_fd) (λ t. t.setup.setsockopt_ok) s)
  (λ s. checked (bind_call s.socket_fd inaddr_any port) (λ t. t.setup.bind_ok) s)
  (λ s. checked (listen_call s.socket_fd 1) (λ t. t.setup.listen_ok) s)
  (λ s. checked (getsockname_call s.socket_fd) (λ t. t.setup.getsockname_ok) s)
  modify release_pins
  (λ s. done 1 s)

-- What `rbs_tick` stores through its pointers.
pub record Pins : Type 0 where
  pub tck : ℕ
  pub tms : ℕ
  pub tdi : ℕ
  pub trstn : ℕ

unfoldable pub pins : Server → Pins
pins s = record { tck = s.tck; tms = s.tms; tdi = s.tdi; trstn = s.trstn }

-- `client_fd > 0`
abbrev pub has_client : Fd → Bool
has_client failed_fd = false
has_client (fd n) = ltb 0 n

unfoldable pub rbs_tick : ℕ → M Pins
unfolding pins
rbs_tick jtag_tdo = do
  (λ s.
      if has_client s.client_fd
      then rbs_execute_command (record s { tdo = jtag_tdo })
      else rbs_accept s)
  (λ s. done (pins s) s)

rbs_done : Server → ℕ
rbs_done s = s.quit

rbs_exit_code : Server → ℕ
rbs_exit_code s = s.rbs_err

-- An `int` is its 32-bit pattern.
abbrev is_negative : ℕ → Bool
is_negative w = leb (2 ^ 31) w

-- The conversion of an `int` argument to `uint16_t`.
abbrev pub to_uint16 : ℕ → ℕ
to_uint16 w = w % 2 ^ 16

abbrev warn_out_of_range : ℕ → M (Unit {0})
warn_out_of_range port s =
    done tt (if is_negative port || ltb 65535 port then note (warn_port port) s else s)

unfoldable pub start : ℕ → M (Unit {0})
start port s =
    if is_set s.init
    then done tt s
    else (do
      warn_out_of_range port
      result ← rbs_init (to_uint16 port)
      modify (λ t. record t { init = result }))
        s

-- The pins and the return value of one tick.
pub record Tick : Type 0 where
  pub outputs : Pins
  pub exit : ℕ

-- `rbs_exit_code() << 1 | 1`: the shifted value has its lowest bit clear.
unfoldable pub exit_value : Server → ℕ
unfolding rbs_done rbs_exit_code
exit_value s = if is_set (rbs_done s) then rbs_exit_code s * 2 + 1 else 0

unfoldable pub jtag_tick : ℕ → ℕ → M Tick
unfolding start exit_value
jtag_tick port jtag_tdo = do
  start port
  p ← rbs_tick jtag_tdo
  (λ s. done (record { outputs = p; exit = exit_value s }) s)

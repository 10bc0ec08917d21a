-- ===== src/Bitbang/Dispatch.antt =====
-- What the bytes of the remote bitbang protocol mean, by arithmetic on the byte, against the
-- `switch` of `rbs_execute_command`.
use riscv_dbg.Common.{
  ℕ, ◌+◌, ◌-◌, ◌/◌, ◌%◌, ◌≡◌, Bool, List, ◌∷◌, ◌&&◌, leb, ◌==◌, if◌then◌else◌, is_set, arith,
}
use riscv_dbg.Bitbang.{Server, classify, Command, perform}
use riscv_dbg.Bitbang.Tick.{Pins, pins}

abbrev between : ℕ → ℕ → ℕ → Bool
between lo hi c = leb lo c && leb c hi

-- `0` to `7` are three bits: clock, mode select, data in. `r` to `u` are two: the second is the
-- active-high test reset (the other, the system reset, is not wired).
unfoldable pub drive : ℕ → Pins → Pins
drive c p =
    if between b'0' b'7' c
    then record p { tck = (c - b'0') / 4; tms = (c - b'0') / 2 % 2; tdi = (c - b'0') % 2 }
    else if between b'r' b'u' c
    then record p { trstn = 1 - (c - b'r') / 2 }
    else p

-- `R` is answered by the level of the data output.
unfoldable pub response : ℕ → ℕ → List ℕ → List ℕ
response c tdo sent = if c == b'R' then (b'0' + (if is_set tdo then 1 else 0)) ∷ sent else sent

unfoldable pub quit_after : ℕ → ℕ → ℕ
quit_after c quit = if c == b'Q' then 1 else quit

-- For every byte, the labels of the switch drive the pins as the arithmetic says.
pub pins-perform : (c : ℕ) (s : Server) → pins (perform (classify c) s) ≡ drive c (pins s)
unfolding drive pins perform classify
pins-perform c s = ground arith

pub quit-perform : (c : ℕ) (s : Server) → (perform (classify c) s).quit ≡ quit_after c s.quit
unfolding quit_after perform classify
quit-perform c s = ground arith

-- What no command touches: the clock of the connection and the operating system's side.
pub record SameRest (s t : Server) : Type 0 where
  pub tdo : t.tdo ≡ s.tdo
  pub rbs_err : t.rbs_err ≡ s.rbs_err
  pub init : t.init ≡ s.init
  pub client_fd : t.client_fd ≡ s.client_fd
  pub socket_fd : t.socket_fd ≡ s.socket_fd
  pub reads : t.reads ≡ s.reads
  pub accepts : t.accepts ≡ s.accepts

pub perform-SameRest : (c : Command) (s : Server) → SameRest s (perform c s)
unfolding perform
perform-SameRest c s = ground arith

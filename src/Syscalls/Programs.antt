-- ===== src/Syscalls/Programs.antt =====
-- A program's calls in a row: what all of them leave on the console.
use riscv_dbg.Common.{
  ℕ, ◌<◌, ◌≡◌, refl, sym, ap, ◌∙◌, List, [], ◌∷◌, ◌++◌, Option, none, some, ◌==◌, if◌then◌else◌,
  arith,
}
use mathlib.Core.List.{append-nil, append_assoc}
use riscv_dbg.Syscalls.{
  stdout_fileno, Machine, Result, unimplemented_text, unimplemented_syscall, nanosleep, _access,
  _chdir, _chmod, _chown, _close, _execve, _exit, _faccessat, _fork, _fstat, _fstatat, _ftime,
  _getcwd, _getpid, _gettimeofday, _isatty, _kill, _link, _lseek, _lstat, _open, _openat, _read,
  _stat, _sysconf, _times, _unlink, _utime, _wait, address_mod, _write, _brk, _sbrk, fail_with,
}
use riscv_dbg.Syscalls.Console.{console, bytes_at, until_zero, print_loop-console, _write-console}

-- The calls that read no argument.
pub data Plain : Type 0 where
  sleep access chdir chmod chown close execve faccessat fork fstat fstatat ftime : Plain
  getcwd getpid gettimeofday kill link lseek lstat open_file openat read stat sysconf times : Plain
  unlink utime wait : Plain

pub plain : Plain → Machine → Machine
plain sleep m = (nanosleep m).0
plain access m = (_access m).0
plain chdir m = (_chdir m).0
plain chmod m = (_chmod m).0
plain chown m = (_chown m).0
plain close m = (_close m).0
plain execve m = (_execve m).0
plain faccessat m = (_faccessat m).0
plain fork m = (_fork m).0
plain fstat m = (_fstat m).0
plain fstatat m = (_fstatat m).0
plain ftime m = (_ftime m).0
plain getcwd m = (_getcwd m).0
plain getpid m = (_getpid m).0
plain gettimeofday m = (_gettimeofday m).0
plain kill m = (_kill m).0
plain link m = (_link m).0
plain lseek m = (_lseek m).0
plain lstat m = (_lstat m).0
plain open_file m = (_open m).0
plain openat m = (_openat m).0
plain read m = (_read m).0
plain stat m = (_stat m).0
plain sysconf m = (_sysconf m).0
plain times m = (_times m).0
plain unlink m = (_unlink m).0
plain utime m = (_utime m).0
plain wait m = (_wait m).0

pub data SysCall : Type 0 where
  simple : Plain → SysCall
  isatty : ℕ → SysCall
  write : ℕ → ℕ → ℕ → SysCall
  brk : ℕ → SysCall
  sbrk : ℕ → SysCall
  exit : ℕ → SysCall
  unimplemented : SysCall

abbrev state_of : Option Result → Option Machine
state_of none = none
state_of (some (m, r)) = some m

module _ (memory : ℕ → ℕ) (heap_start heap_end : ℕ) where
  pub step : SysCall → Machine → Option Machine
  step (simple c) m = some (plain c m)
  step (isatty file) m = some (_isatty file m).0
  step (write file ptr len) m = state_of (_write memory file ptr len m)
  step (brk addr) m = some (_brk addr m).0
  step (sbrk incr) m = some (_sbrk heap_start heap_end incr m).0
  step (exit status) m = some (_exit status m)
  step unimplemented m = some (unimplemented_syscall m)

  pub run : List SysCall → Machine → Option Machine
  run [] m = some m
  run (c ∷ cs) m = elim (step c m) [ none ↦ none | some t ↦ run cs t ]

-- The text that one call is meant to show, and that of all.
pub text : (ℕ → ℕ) → SysCall → List ℕ
text memory (write file ptr len) = if file == stdout_fileno then bytes_at memory ptr len else []
text memory unimplemented = until_zero unimplemented_text
text memory _ = []

pub texts : (ℕ → ℕ) → List SysCall → List ℕ
texts memory [] = []
texts memory (c ∷ cs) = text memory c ++ texts memory cs

-- The arguments of `_write` are addresses.
abbrev pub Fits : SysCall → Type 0
Fits (write file ptr len) = (ptr < address_mod) × (len < address_mod)
Fits _ = Unit {0}

abbrev pub AllFit : List SysCall → Type 0
AllFit [] = Unit {0}
AllFit (c ∷ cs) = Fits c × AllFit cs

plain-events : (c : Plain) (m : Machine) → (plain c m).events ≡ m.events
unfolding plain nanosleep _access _chdir _chmod _chown _close _execve _faccessat _fork _fstat
    _fstatat _ftime _getcwd _getpid _gettimeofday _kill _link _lseek _lstat _open _openat _read
    _stat _sysconf _times _unlink _utime _wait fail_with
plain-events c m = ground arith

_sbrk-events :
    (heap_start heap_end incr : ℕ) (m : Machine)
    → (_sbrk heap_start heap_end incr m).0.events ≡ m.events
unfolding _sbrk
_sbrk-events hs he incr m = ground arith

step-console :
    (memory : ℕ → ℕ) (heap_start heap_end : ℕ) (c : SysCall) (m : Machine)
    → Fits c
    → (t : Machine) × (step memory heap_start heap_end c m ≡ some t)
      × (console t.events ≡ console m.events ++ text memory c)
unfolding step text
step-console memory hs he (simple c) m h =
    (plain c m, refl, ap console (plain-events c m) ∙ sym (append-nil (console m.events)))
step-console memory hs he (isatty file) m h =
    (m, unfold _isatty in refl, sym (append-nil (console m.events)))
step-console memory hs he (write file ptr len) m h =
    let (t, run, shows, errno, break) = _write-console memory file ptr len m h.0 h.1 in
    (t, ap state_of run, shows)
step-console memory hs he (brk addr) m h =
    ((_brk addr m).0, refl, unfold _brk in sym (append-nil (console m.events)))
step-console memory hs he (sbrk incr) m h = (
  (_sbrk hs he incr m).0,
  refl,
  ap console (_sbrk-events hs he incr m) ∙ sym (append-nil (console m.events)),
)
step-console memory hs he (exit status) m h =
    (_exit status m, refl, unfold _exit console in sym (append-nil (console m.events)))
step-console memory hs he unimplemented m h = (
  unimplemented_syscall m,
  refl,
  unfold unimplemented_syscall in print_loop-console unimplemented_text m,
)

-- A program that makes any calls with bounded arguments, in any order, runs to its end, and the
-- console then shows the texts of the calls, in the order of the calls, and nothing else.
pub run-console :
    (memory : ℕ → ℕ) (heap_start heap_end : ℕ) (cs : List SysCall) (m : Machine)
    → AllFit cs
    → (t : Machine) × (run memory heap_start heap_end cs m ≡ some t)
      × (console t.events ≡ console m.events ++ texts memory cs)
unfolding run texts
run-console memory hs he [] m h = (m, refl, sym (append-nil (console m.events)))
run-console memory hs he (c ∷ cs) m h =
    let (u, first, shows) = step-console memory hs he c m h.0 in
    let (t, rest, show) = run-console memory hs he cs u h.1 in
    (
      t,
      rw (first, run) rest,
      show
          ∙ ap (λ l. l ++ texts memory cs) shows
          ∙ append_assoc (console m.events) (text memory c) (texts memory cs),
    )

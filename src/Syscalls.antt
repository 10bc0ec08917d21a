-- ===== src/Syscalls.antt =====
-- The system calls of the bare-metal test programs, tb/prog/syscalls.c.
--
-- The machine is what the calls change: newlib's `errno`, the program break, and the stores to the
-- device registers with the `wfi` of `_exit`, the latest first. Memory that is only read, and the
-- linker's `__heap_start` and `__heap_end`, are arguments. Addresses are 32 bits wide, and a `char`
-- is unsigned, as in the RISC-V ABI. Arguments that a function does not read are left out.
pub mod Console
pub mod Heap
pub mod Programs
mod Examples
use riscv_dbg.Common.{
  ℕ, zero, suc, ◌+◌, ◌%◌, ◌^◌, ◌<◌, Bool, true, false, List, [], ◌∷◌, Option, none, some, not, ltb,
  ◌==◌, if◌then◌else◌, to_bit,
}
use Prim.Native.String.{String}
use Prim.Native.String
use Prim.Native.Char.{code}

abbrev pub stdout_reg : ℕ
stdout_reg = 0x10000000

abbrev exit_reg : ℕ
exit_reg = 0x20000004

abbrev pub stdout_fileno : ℕ
stdout_fileno = 1

-- The error numbers of newlib that the file names.
pub data Errno : Type 0 where
  enosys enomem eagain einval emlink enoent echild : Errno

-- `errno` as last set: `minus` is the number negated.
pub data ErrnoValue : Type 0 where
  untouched : ErrnoValue
  plus minus : Errno → ErrnoValue

pub data Event : Type 0 where
  store : ℕ → ℕ → Event
  wfi : Event

pub record Machine : Type 0 where
  pub errno : ErrnoValue
  pub events : List Event
  pub brk : ℕ

-- What a call returns: a number, -1, or NULL.
pub data Returned : Type 0 where
  value : ℕ → Returned
  minus_one : Returned
  null : Returned

abbrev pub Result : Type 0
Result = Machine × Returned

pub emit : Event → Machine → Machine
emit e m = record m { events = e ∷ m.events }

-- The pattern of all but a few of the calls: set `errno` and return -1.
pub fail_with : ErrnoValue → Machine → Result
fail_with e m = (record m { errno = e }, minus_one)

-- A text as the bytes of a C string.
abbrev pub bytes : String → List ℕ
bytes String.[] = 0 ∷ []
bytes (String.◌∷◌ c s) = code c ∷ bytes s

-- `while (*p) *STDOUT_REG = *(p++);`
pub print_loop : List ℕ → Machine → Machine
print_loop [] m = m
print_loop (zero ∷ p) m = m
print_loop (suc c ∷ p) m = print_loop p (emit (store stdout_reg (suc c)) m)

abbrev pub unimplemented_text : List ℕ
unimplemented_text = bytes "Unimplemented system call called!\n"

pub unimplemented_syscall : Machine → Machine
unfolding print_loop emit
unimplemented_syscall m = print_loop unimplemented_text m

pub nanosleep : Machine → Result
nanosleep m = fail_with (plus enosys) m

pub _access : Machine → Result
_access m = fail_with (plus enosys) m

pub _chdir : Machine → Result
_chdir m = fail_with (plus enosys) m

pub _chmod : Machine → Result
_chmod m = fail_with (plus enosys) m

pub _chown : Machine → Result
_chown m = fail_with (plus enosys) m

pub _close : Machine → Result
_close m = (m, minus_one)

pub _execve : Machine → Result
_execve m = fail_with (plus enomem) m

-- `exit_status` is the 32-bit pattern of the `int`.
pub _exit : ℕ → Machine → Machine
unfolding emit
_exit exit_status m = emit wfi (emit (store exit_reg exit_status) m)

pub _faccessat : Machine → Result
_faccessat m = fail_with (plus enosys) m

pub _fork : Machine → Result
_fork m = fail_with (plus eagain) m

-- `st->st_mode`, which `_fstat` and `_stat` set.
pub data FileMode : Type 0 where
  s_ifchr other_mode : FileMode

pub _fstat : Machine → Machine × FileMode × Returned
_fstat m = (m, s_ifchr, value 0)

pub _fstatat : Machine → Result
_fstatat m = fail_with (plus enosys) m

pub _ftime : Machine → Result
_ftime m = fail_with (plus enosys) m

pub _getcwd : Machine → Result
_getcwd m = (record m { errno = minus enosys }, null)

pub _getpid : Machine → Result
_getpid m = (m, value 1)

pub _gettimeofday : Machine → Result
_gettimeofday m = fail_with (minus enosys) m

pub _isatty : ℕ → Machine → Result
_isatty file m = (m, value (to_bit (file == stdout_fileno)))

pub _kill : Machine → Result
_kill m = fail_with (plus einval) m

pub _link : Machine → Result
_link m = fail_with (plus emlink) m

pub _lseek : Machine → Result
_lseek m = (m, value 0)

pub _lstat : Machine → Result
_lstat m = fail_with (plus enosys) m

pub _open : Machine → Result
_open m = (m, minus_one)

pub _openat : Machine → Result
_openat m = fail_with (plus enosys) m

pub _read : Machine → Result
_read m = (m, value 0)

pub _stat : Machine → Machine × FileMode × Returned
_stat m = (m, s_ifchr, value 0)

pub _sysconf : Machine → Result
_sysconf m = (m, minus_one)

pub _times : Machine → Result
_times m = (m, minus_one)

pub _unlink : Machine → Result
_unlink m = fail_with (plus enoent) m

pub _utime : Machine → Result
_utime m = fail_with (plus enosys) m

pub _wait : Machine → Result
_wait m = fail_with (plus echild) m

abbrev pub address_mod : ℕ
address_mod = 2 ^ 32

-- `while (ptr != eptr) *STDOUT_REG = *(char *)(ptr++);` on fuel: `none` is out of fuel.
pub write_loop : (ℕ → ℕ) → ℕ → ℕ → ℕ → Machine → Option Machine
write_loop memory zero ptr eptr m = none
write_loop memory (suc fuel) ptr eptr m =
    let rest =
      write_loop memory fuel ((ptr + 1) % address_mod) eptr
        (emit (store stdout_reg (memory ptr)) m) in
    if ptr == eptr then some m else rest

abbrev pub with_result : Returned → Option Machine → Option Result
with_result r none = none
with_result r (some m) = some (m, r)

-- One round for each byte, and one for the last test.
pub _write : (ℕ → ℕ) → ℕ → ℕ → ℕ → Machine → Option Result
unfolding write_loop
_write memory file ptr len m =
    let eptr = (ptr + len) % address_mod in
    let written = write_loop memory (suc len) ptr eptr m in
    if not (file == stdout_fileno)
    then some (fail_with (plus enosys) m)
    else with_result (value len) written

pub _brk : ℕ → Machine → Result
_brk addr m = (record m { brk = addr }, value 0)

-- `incr` is the 32-bit pattern of the `ptrdiff_t`.
pub _sbrk : (heap_start heap_end : ℕ) → ℕ → Machine → Result
_sbrk heap_start heap_end incr m =
    let old_brk = m.brk in
    let m' = record m { brk = (m.brk + incr) % address_mod } in
    if heap_start == heap_end
    then (m, null)
    else if ltb m'.brk heap_end
    then (record m' { brk = (m'.brk + incr) % address_mod }, value old_brk)
    else (record m' { brk = heap_end }, value old_brk)

-- The machine before the first call.
boot : ℕ → Machine
boot heap_start = record { errno = untouched; events = []; brk = heap_start }

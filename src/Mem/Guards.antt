-- ===== src/Mem/Guards.antt =====
-- When the control starts something, which error it reports, and what a polling hart sees of it.
use riscv_dbg.Common.{
  ℕ, suc, ltb, Bool-cases, inl, inr, ◌+◌, ◌-◌, ◌*◌, ◌/◌, ◌%◌, ◌^◌, ◌<◌, ◌≡◌, ◌∙◌, refl, ap, arith,
  Bool, true, false, not, ◌&&◌, ◌==◌, if◌then◌else◌, to_bit,
}
use native.Mathlib.Nat.{zero-div}
use riscv_dbg.Common.Bytes.{byte_at, byte_at-first, byte_at-above, byte_at-below, byte_at-shift_up}
use riscv_dbg.Mem.{
  Config, Request, Access, Mem, MemState, CmdErr, none, not_supported, exception, halt_resume, idle,
  go, resume, cmd_executing, hart_index, aligned,
}
use riscv_dbg.Mem.Commands.{abstract_cmd}
use riscv_dbg.Mem.Control.{Control, control, control_case, accept, raises_exception, dbg_address}
use riscv_dbg.Mem.Memory.{posedge, flags, rdata_d, flags_base_addr}

abbrev is_idle : MemState → Bool
is_idle idle = true
is_idle _ = false

-- The error of a cycle by its priority.
unfoldable pub error_of : Config → Request → Access → Mem → CmdErr
error_of c r a s =
    let halted = aligned c s.halted_q (hart_index c r.hartsel_i) in
    if raises_exception a
    then exception
    else if not r.cmd_valid_i
    then none
    else if (abstract_cmd c r.cmd_i).1
    then not_supported
    else if is_idle s.state_q && not halted
    then halt_resume
    else none

unfoldable pub is_error : CmdErr → Bool
is_error none = false
is_error _ = true

-- In every state the control reports the error of the highest priority: an exception of the hart, a
-- command that is not supported, a command for a hart that is not halted. It flags one exactly if
-- there is one.
pub control-error_of :
    (c : Config) (r : Request) (a : Access) (s : Mem)
    → ((control c r a s).cmderror_o ≡ error_of c r a s)
      × ((control c r a s).cmderror_valid_o ≡ is_error (error_of c r a s))
unfolding control control_case accept error_of is_error
control-error_of c r a s = ground arith

-- What holds when the control goes from Idle to a state.
unfoldable pub Starts : Config → Request → Mem → MemState → Type 0
Starts c r s go =
    (r.cmd_valid_i ≡ true)
    × ((abstract_cmd c r.cmd_i).1 ≡ false)
    × (aligned c s.halted_q (hart_index c r.hartsel_i) ≡ true)
    × (r.ndmreset_i ≡ false)
Starts c r s resume =
    (aligned c r.resumereq_i (hart_index c r.hartsel_i) ≡ true)
    × (aligned c s.resuming_q (hart_index c r.hartsel_i) ≡ false)
    × (aligned c r.haltreq_i (hart_index c r.hartsel_i) ≡ false)
    × (aligned c s.halted_q (hart_index c r.hartsel_i) ≡ true)
    × (r.ndmreset_i ≡ false)
Starts c r s cmd_executing = ⊥
Starts c r s idle = Unit

-- The control leaves Idle for a command only if one is given, it is supported, and the selected
-- hart is halted, and then reports no error unless the hart raises one; it leaves for a resume only
-- if one is requested of a halted hart that has not acknowledged yet and is not to be halted.
pub idle-Starts :
    (c : Config) (r : Request) (a : Access) (s : Mem) (q : MemState)
    → s.state_q ≡ idle
    → (posedge c r a s).state_q ≡ q
    → Starts c r s q
unfolding control control_case accept posedge Starts
idle-Starts c r a s idle here next = tt
idle-Starts c r a s go here next = ground arith
idle-Starts c r a s resume here next = ground arith
idle-Starts c r a s cmd_executing here next = ground arith

-- The byte of the flags at a place in a row.
placed : (f j m : ℕ) → f < 256 → byte_at j (f * 2 ^ (8 * m)) ≡ (if j == m then f else 0)
placed f j m small = elim (Bool-cases (ltb j m)) [
  | inl e ↦
      let away : m ≡ j + suc (m - j - 1) = ground arith in
      ap (λ (t : ℕ). byte_at j (f * 2 ^ (8 * t))) away
      ∙ (byte_at-below j (m - j - 1) f ∙ ground arith)
  | inr e ↦ elim (Bool-cases (j == m)) [
    | inl same ↦
        let at : j ≡ m + 0 = ground arith in
        ap (λ (t : ℕ). byte_at t (f * 2 ^ (8 * m))) at
        ∙ (byte_at-shift_up m 0 f ∙ (byte_at-first f small ∙ rw same refl))
    | inr other ↦
        let away : j ≡ m + suc (j - m - 1) = ground arith in
        ap (λ (t : ℕ). byte_at t (f * 2 ^ (8 * m))) away
        ∙ (byte_at-above m (j - m - 1) f small ∙ rw other refl)
  ]
]

zero_byte : (j : ℕ) → byte_at j 0 ≡ 0
unfolding byte_at
zero_byte j = rw (zero-div (2 ^ (8 * j))) refl

to_flags : (k : Control) → to_bit k.resume * 2 + to_bit k.go < 256
to_flags k = ground arith

flags_byte :
    (c : Config) (r : Request) (a : Access) (k : Control) (h : ℕ)
    → h < 1024
    → hart_index c r.hartsel_i < 1024
    → dbg_address a / 8 ≡ (flags_base_addr + h) / 8
    → byte_at (h % 8) (flags c r a k)
      ≡ (if h == hart_index c r.hartsel_i then to_bit k.resume * 2 + to_bit k.go else 0)
unfolding flags
flags_byte c r a k h small valid at =
    let sel = hart_index c r.hartsel_i in
    let f = to_bit k.resume * 2 + to_bit k.go in
    elim (Bool-cases (dbg_address a / 8 * 8 - flags_base_addr == sel % 2 ^ 12 / 8 * 8)) [
      | inl e ↦ rw e (placed f (h % 8) (sel % 2 ^ 12 % 8) (to_flags k) ∙ ground arith)
      | inr e ↦ rw e (zero_byte (h % 8) ∙ ground arith)
    ]

reads_flags :
    (c : Config) (r : Request) (a : Access) (s : Mem) (k : Control) (h : ℕ)
    → h < 1024
    → a.req_i ≡ true
    → a.we_i ≡ false
    → dbg_address a / 8 ≡ (flags_base_addr + h) / 8
    → rdata_d c r a s k ≡ flags c r a k
unfolding rdata_d
reads_flags c r a s k h small asks reads at = ground arith

-- A hart with a number below 1024 that polls the byte of its flags sees the requests to resume and to
-- go if it is the selected hart, and 0 if it is any other, if the selected one is below 1024 too.
pub flags-selected :
    (c : Config) (r : Request) (a : Access) (s : Mem) (h : ℕ)
    → h < 1024
    → hart_index c r.hartsel_i < 1024
    → a.req_i ≡ true
    → a.we_i ≡ false
    → dbg_address a / 8 ≡ (flags_base_addr + h) / 8
    → let k = control c r a s in
      byte_at (h % 8) (rdata_d c r a s k)
      ≡ (if h == hart_index c r.hartsel_i then to_bit k.resume * 2 + to_bit k.go else 0)
flags-selected c r a s h small valid asks reads at =
    let k = control c r a s in
    ap (byte_at (h % 8)) (reads_flags c r a s k h small asks reads at)
    ∙ flags_byte c r a k h small valid at

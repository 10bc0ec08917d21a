-- ===== src/Mem/Transfers.antt =====
-- What the program of an abstract command does to a hart.
use riscv_dbg.Common.{
  ℕ, ◌+◌, ◌*◌, ◌/◌, ◌^◌, ◌<◌, ◌≡◌, ◌≢◌, ◌∙◌, refl, ap, arith, Bool, true, false, ◌&&◌, List, ◌++◌,
  map, ◌==◌, if◌then◌else◌,
}
use riscv_dbg.Opcodes.Asm.{Asm, encode}
use riscv_dbg.Mem.{Config, data_addr, load_base_addr, aarsize, postexec, write, regno}
use riscv_dbg.Mem.Commands.{csr_dscratch0, csr_dscratch1, list_of, abstract_cmd}
use riscv_dbg.Mem.Hart.{Bus, Hart, reg, update, run}
use riscv_dbg.Mem.Programs.{
  Target, gpr, fpr, csr, base, target, entering, leaving, writing, reading, program, IsAccess,
  abstract_cmd-program,
}

-- The page of the debug module, and the address of `abstract_cmd` in it.
abbrev pub page_of : Bool → ℕ → ℕ
page_of snd page = if snd then page * 2 ^ 12 else 0

abbrev cmd_address : ℕ → ℕ
cmd_address page = page * 2 ^ 12 + 0x338

-- The two scratch registers belong to the debug module.
unfoldable pub IsPlain : Target → Type 0
IsPlain (csr n) = (n ≢ csr_dscratch0) × (n ≢ csr_dscratch1)
IsPlain (gpr r) = r < 32
IsPlain _ = Unit

-- The target is one that the program is made for.
unfoldable pub Suits : Bool → Target → Type 0
Suits snd base = snd ≡ true
Suits snd (gpr r) = (snd && r == 10) ≡ false
Suits snd _ = Unit

-- The value of a target, and a register file after it was set.
unfoldable pub value_of : {b : Bus} → Target → Hart b → ℕ
value_of (gpr r) h = reg h r
value_of (fpr r) h = h.fregs r
value_of (csr n) h = h.csrs n
value_of base h = reg h 10

unfoldable pub reg_after : {b : Bus} → Target → ℕ → Hart b → ℕ → ℕ
reg_after (gpr r) v h k = if k == 0 then 0 else update (reg h) r v k
reg_after base v h k = update (reg h) 10 v k
reg_after _ v h k = reg h k

unfoldable pub freg_after : {b : Bus} → Target → ℕ → Hart b → ℕ → ℕ
freg_after (fpr r) v h k = update h.fregs r v k
freg_after _ v h k = h.fregs k

unfoldable pub csr_after : {b : Bus} → Target → ℕ → Hart b → ℕ → ℕ
csr_after (csr n) v h k = update h.csrs n v k
csr_after _ v h k = h.csrs k

abbrev program_of : Bool → Bool → List Asm → List Asm
program_of snd post middle = entering snd ++ (middle ++ leaving snd post)

abbrev base_reg : Bool → ℕ
base_reg snd = if snd then 10 else 0

abbrev pub loaded : {b : Bus} → (snd : Bool) (size page : ℕ) → Hart b → ℕ
loaded {b} snd size page h = b.load_value size (page_of snd page + data_addr) h.memory

abbrev wrote : {b : Bus} → Bool → Bool → (size page : ℕ) → Target → Hart b → Hart b
wrote snd post size page t h =
    run (program_of snd post (writing (base_reg snd) size t)) (cmd_address page) h

abbrev took : {b : Bus} → Bool → Bool → (size page : ℕ) → Target → Hart b → Hart b
took snd post size page t h =
    run (program_of snd post (reading (base_reg snd) size t)) (cmd_address page) h

page_start : (page : ℕ) → (page * 2 ^ 12 + 0x338 + 4) / 2 ^ 12 * 2 ^ 12 ≡ page * 2 ^ 12
page_start page = omega arith

-- The last word is an `ebreak` or a `nop`: neither changes the hart.
wrote_any :
    {b : Bus} (snd post : Bool) (size page : ℕ) (t : Target) (h : Hart b)
    → wrote snd post size page t h ≡ wrote snd false size page t h
unfolding run entering leaving writing
wrote_any snd false size page t h = refl
wrote_any true true size page (gpr r) h = refl
wrote_any true true size page (fpr r) h = refl
wrote_any true true size page (csr r) h = refl
wrote_any true true size page base h = refl
wrote_any false true size page (gpr r) h = refl
wrote_any false true size page (fpr r) h = refl
wrote_any false true size page (csr r) h = refl
wrote_any false true size page base h = refl

-- The last word is an `ebreak` or a `nop`: neither changes the hart.
took_any :
    {b : Bus} (snd post : Bool) (size page : ℕ) (t : Target) (h : Hart b)
    → took snd post size page t h ≡ took snd false size page t h
unfolding run entering leaving reading
took_any snd false size page t h = refl
took_any true true size page (gpr r) h = refl
took_any true true size page (fpr r) h = refl
took_any true true size page (csr r) h = refl
took_any true true size page base h = refl
took_any false true size page (gpr r) h = refl
took_any false true size page (fpr r) h = refl
took_any false true size page (csr r) h = refl
took_any false true size page base h = refl

-- The hart behind the words of a write, seen at index `k`; the two scratch registers are not seen.
record IsEffect {b : Bus} (t : Target) (v k : ℕ) (h u : Hart b) : Type 0 where
  regs_set : reg u k ≡ reg_after t v h k
  fregs_set : u.fregs k ≡ freg_after t v h k
  csrs_set : k ≢ csr_dscratch0 → k ≢ csr_dscratch1 → u.csrs k ≡ csr_after t v h k
  memory_kept : u.memory ≡ h.memory

wrote-IsEffect :
    {b : Bus} (snd : Bool) (size page k : ℕ) (t : Target) (h : Hart b)
    → IsPlain t
    → Suits snd t
    → IsEffect t (loaded snd size page h) k h (wrote snd false size page t h)
unfolding run entering leaving writing IsPlain Suits reg_after freg_after csr_after value_of
wrote-IsEffect true size page k (gpr r) h plain fits = ground (arith, page_start page)
wrote-IsEffect true size page k (fpr r) h plain fits = ground (arith, page_start page)
wrote-IsEffect true size page k (csr r) h plain fits = ground (arith, page_start page)
wrote-IsEffect true size page k base h plain fits = ground (arith, page_start page)
wrote-IsEffect false size page k (gpr r) h plain fits = ground (arith, page_start page)
wrote-IsEffect false size page k (fpr r) h plain fits = ground (arith, page_start page)
wrote-IsEffect false size page k (csr r) h plain fits = ground (arith, page_start page)
wrote-IsEffect false size page k base h plain fits = ground (arith, page_start page)

-- The hart behind the words of a read, seen at index `k`, with the memory that it leaves.
record IsTaken {b : Bus} (m : b.Memory) (k : ℕ) (h u : Hart b) : Type 0 where
  regs_kept : reg u k ≡ reg h k
  fregs_kept : u.fregs k ≡ h.fregs k
  csrs_kept : k ≢ csr_dscratch0 → k ≢ csr_dscratch1 → u.csrs k ≡ h.csrs k
  memory_set : u.memory ≡ m

took-IsTaken :
    {b : Bus} (snd : Bool) (size page k : ℕ) (t : Target) (h : Hart b)
    → IsPlain t
    → Suits snd t
    → IsTaken
        (b.store_value size (page_of snd page + data_addr) (value_of t h) h.memory)
        k
        h
        (took snd false size page t h)
unfolding run entering leaving reading IsPlain Suits reg_after freg_after csr_after value_of
took-IsTaken true size page k (gpr r) h plain fits = ground (arith, page_start page)
took-IsTaken true size page k (fpr r) h plain fits = ground (arith, page_start page)
took-IsTaken true size page k (csr r) h plain fits = ground (arith, page_start page)
took-IsTaken true size page k base h plain fits = ground (arith, page_start page)
took-IsTaken false size page k (gpr r) h plain fits = ground (arith, page_start page)
took-IsTaken false size page k (fpr r) h plain fits = ground (arith, page_start page)
took-IsTaken false size page k (csr r) h plain fits = ground (arith, page_start page)
took-IsTaken false size page k base h plain fits = ground (arith, page_start page)

target-Suits : (c : Config) (r : ℕ) → Suits c.has_snd_scratch (target c r)
unfolding Suits target
target-Suits c r = ground arith

-- The hart after the words of the command.
abbrev pub after : {b : Bus} → Config → (cmd page : ℕ) → Hart b → Hart b
after c cmd page h = run (program c cmd) (cmd_address page) h

after-wrote :
    {b : Bus} (c : Config) (cmd page : ℕ) (h : Hart b)
    → write cmd ≡ true
    → after c cmd page h ≡ wrote c.has_snd_scratch false (aarsize cmd) page (target c (regno cmd)) h
unfolding program load_base_addr
after-wrote c cmd page h e =
    rw e (wrote_any c.has_snd_scratch (postexec cmd) (aarsize cmd) page (target c (regno cmd)) h)

after-took :
    {b : Bus} (c : Config) (cmd page : ℕ) (h : Hart b)
    → write cmd ≡ false
    → after c cmd page h ≡ took c.has_snd_scratch false (aarsize cmd) page (target c (regno cmd)) h
unfolding program load_base_addr
after-took c cmd page h e =
    rw e (took_any c.has_snd_scratch (postexec cmd) (aarsize cmd) page (target c (regno cmd)) h)

-- A supported write command to a register other than the two scratch registers: the words that the
-- debug module shows are a program that loads the data register into the target and leaves all else
-- of the hart as it was, but for the two scratch registers.
pub write_command :
    {b : Bus} (c : Config) (cmd page k : ℕ) (h : Hart b)
    → IsAccess c cmd
    → write cmd ≡ true
    → IsPlain (target c (regno cmd))
    → k ≢ csr_dscratch0
    → k ≢ csr_dscratch1
    → let u = after c cmd page h in
      let v = loaded c.has_snd_scratch (aarsize cmd) page h in
      let t = target c (regno cmd) in
      (list_of (abstract_cmd c cmd).0 ≡ map encode (program c cmd))
      × (reg u k ≡ reg_after t v h k)
      × (u.fregs k ≡ freg_after t v h k)
      × (u.csrs k ≡ csr_after t v h k)
      × (u.memory ≡ h.memory)
write_command c cmd page k h ok e plain d0 d1 =
    let ran = after-wrote c cmd page h e in
    let effect =
      wrote-IsEffect c.has_snd_scratch (aarsize cmd) page k (target c (regno cmd)) h plain
        (target-Suits c (regno cmd)) in
    (
      (abstract_cmd-program c cmd ok).0,
      ap (λ u. reg u k) ran ∙ effect.regs_set,
      ap (λ u. u.fregs k) ran ∙ effect.fregs_set,
      ap (λ u. u.csrs k) ran ∙ effect.csrs_set d0 d1,
      ap (λ u. u.memory) ran ∙ effect.memory_kept,
    )

-- A supported read command of a register other than the two scratch registers: the words are a
-- program that stores the value of the target into the data register and leaves all else of the
-- hart as it was, but for the two scratch registers.
pub read_command :
    {b : Bus} (c : Config) (cmd page k : ℕ) (h : Hart b)
    → IsAccess c cmd
    → write cmd ≡ false
    → IsPlain (target c (regno cmd))
    → k ≢ csr_dscratch0
    → k ≢ csr_dscratch1
    → let u = after c cmd page h in
      let t = target c (regno cmd) in
      (list_of (abstract_cmd c cmd).0 ≡ map encode (program c cmd))
      × (reg u k ≡ reg h k)
      × (u.fregs k ≡ h.fregs k)
      × (u.csrs k ≡ h.csrs k)
      × (u.memory
          ≡ b.store_value
              (aarsize cmd)
              (page_of c.has_snd_scratch page + data_addr)
              (value_of t h)
              h.memory)
read_command c cmd page k h ok e plain d0 d1 =
    let ran = after-took c cmd page h e in
    let taken =
      took-IsTaken c.has_snd_scratch (aarsize cmd) page k (target c (regno cmd)) h plain
        (target-Suits c (regno cmd)) in
    (
      (abstract_cmd-program c cmd ok).0,
      ap (λ u. reg u k) ran ∙ taken.regs_kept,
      ap (λ u. u.fregs k) ran ∙ taken.fregs_kept,
      ap (λ u. u.csrs k) ran ∙ taken.csrs_kept d0 d1,
      ap (λ u. u.memory) ran ∙ taken.memory_set,
    )

-- ===== src/Mem/Programs.antt =====
-- The words of a supported access to a register, as a program.
use riscv_dbg.Common.{
  ℕ, ◌%◌, ◌^◌, ◌<◌, ◌≡◌, ◌∙◌, refl, ap, arith, Bool-cases, inl, inr, Bool, true, false, ◌&&◌, List,
  [], ◌∷◌, ◌++◌, map, ◌==◌, if◌then◌else◌,
}
use riscv_dbg.Opcodes
use riscv_dbg.Opcodes.{slice}
use riscv_dbg.Opcodes.Asm.{
  Asm, encode, slli, srli, auipc, load, float_load, store, float_store, csrw, csrr, ebreak, nop,
}
use riscv_dbg.Mem.{
  Config, max_aar, load_base_addr, data_addr, cmdtype, aarsize, bit, postexec, transfer, write,
  regno,
}
use riscv_dbg.Mem.Commands.{
  csr_dscratch0, csr_dscratch1, Words, Rom, list_of, default_words, write_register, read_register,
  access_register, abstract_cmd,
}

-- The register that a `regno` below 0x4000 stands for; `base` is `a0` where the program uses it.
pub data Target : Type 0 where
  gpr fpr csr : ℕ → Target
  base : Target

unfoldable pub target : Config → ℕ → Target
target c r =
    if bit 12 r
    then if bit 5 r
      then fpr (r % 32)
      else if c.has_snd_scratch && r % 32 == 10
      then base
      else gpr (r % 32)
    else csr (r % 2 ^ 12)

unfoldable pub entering : Bool → List Asm
entering true = csrw csr_dscratch1 10 ∷ auipc 10 ∷ srli 10 10 12 ∷ slli 10 10 12 ∷ []
entering false = nop ∷ nop ∷ nop ∷ nop ∷ []

unfoldable pub leaving : Bool → Bool → List Asm
leaving snd post =
    (if snd then csrr csr_dscratch1 10 else nop) ∷ (if post then nop else ebreak) ∷ []

-- What stands between: the transfer itself.
unfoldable pub writing : ℕ → ℕ → Target → List Asm
writing b size (gpr r) = load size r b data_addr ∷ nop ∷ nop ∷ nop ∷ []
writing b size (fpr r) = float_load size r b data_addr ∷ nop ∷ nop ∷ nop ∷ []
writing b size (csr n) =
    csrw csr_dscratch0 8 ∷ load size 8 b data_addr ∷ csrw n 8 ∷ csrr csr_dscratch0 8 ∷ []
writing b size base =
    csrw csr_dscratch0 8
    ∷ load size 8 b data_addr
    ∷ csrw csr_dscratch1 8
    ∷ csrr csr_dscratch0 8
    ∷ []

unfoldable pub reading : ℕ → ℕ → Target → List Asm
reading b size (gpr r) = store size r b data_addr ∷ nop ∷ nop ∷ nop ∷ []
reading b size (fpr r) = float_store size r b data_addr ∷ nop ∷ nop ∷ nop ∷ []
reading b size (csr n) =
    csrw csr_dscratch0 8 ∷ csrr n 8 ∷ store size 8 b data_addr ∷ csrr csr_dscratch0 8 ∷ []
reading b size base =
    csrw csr_dscratch0 8
    ∷ csrr csr_dscratch1 8
    ∷ store size 8 b data_addr
    ∷ csrr csr_dscratch0 8
    ∷ []

unfoldable pub program : Config → ℕ → List Asm
unfolding entering leaving writing reading
program c cmd =
    let t = target c (regno cmd) in
    let b = load_base_addr c in
    entering c.has_snd_scratch
    ++ ((if write cmd then writing b (aarsize cmd) t else reading b (aarsize cmd) t)
        ++ leaving c.has_snd_scratch (postexec cmd))

-- The command accesses a register whose number is not reserved, with a size up to the maximum.
pub record IsAccess (c : Config) (cmd : ℕ) : Type 0 where
  pub access : cmdtype cmd ≡ 0
  pub moves : transfer cmd ≡ true
  pub sized : aarsize cmd < max_aar c
  pub numbered : regno cmd < 2 ^ 14

-- The program up to the last two words.
abbrev body : Config → ℕ → List Asm → List Asm
body c cmd middle = entering c.has_snd_scratch ++ (middle ++ leaving c.has_snd_scratch false)

write_register-program :
    (c : Config) (cmd : ℕ)
    → regno cmd < 2 ^ 14
    → (list_of (write_register c cmd).0
        ≡ map encode (body c cmd (writing (load_base_addr c) (aarsize cmd) (target c (regno cmd)))))
      × ((write_register c cmd).1 ≡ false)
unfolding write_register default_words target entering leaving writing encode load_base_addr
write_register-program c cmd small = ground arith

read_register-program :
    (c : Config) (cmd : ℕ)
    → regno cmd < 2 ^ 14
    → (list_of (read_register c cmd).0
        ≡ map encode (body c cmd (reading (load_base_addr c) (aarsize cmd) (target c (regno cmd)))))
      × ((read_register c cmd).1 ≡ false)
unfolding read_register default_words target entering leaving reading encode load_base_addr
read_register-program c cmd small = ground arith

-- The last word, by `postexec`.
last_word :
    (snd post : Bool) (m0 m1 m2 m3 : Asm) (w : Words)
    → list_of w ≡ map encode (entering snd ++ (m0 ∷ m1 ∷ m2 ∷ m3 ∷ leaving snd false))
    → list_of (if post then record w { w9 = encode nop } else w)
      ≡ map encode (entering snd ++ (m0 ∷ m1 ∷ m2 ∷ m3 ∷ leaving snd post))
unfolding entering leaving
last_word true true m0 m1 m2 m3 w h = ground arith
last_word true false m0 m1 m2 m3 w h = h
last_word false true m0 m1 m2 m3 w h = ground arith
last_word false false m0 m1 m2 m3 w h = h

last_writing :
    (snd post : Bool) (b size : ℕ) (t : Target) (w : Words)
    → list_of w ≡ map encode (entering snd ++ (writing b size t ++ leaving snd false))
    → list_of (if post then record w { w9 = encode nop } else w)
      ≡ map encode (entering snd ++ (writing b size t ++ leaving snd post))
unfolding writing
last_writing snd post b size (gpr r) w h = last_word snd post _ _ _ _ w h
last_writing snd post b size (fpr r) w h = last_word snd post _ _ _ _ w h
last_writing snd post b size (csr r) w h = last_word snd post _ _ _ _ w h
last_writing snd post b size base w h = last_word snd post _ _ _ _ w h

last_reading :
    (snd post : Bool) (b size : ℕ) (t : Target) (w : Words)
    → list_of w ≡ map encode (entering snd ++ (reading b size t ++ leaving snd false))
    → list_of (if post then record w { w9 = encode nop } else w)
      ≡ map encode (entering snd ++ (reading b size t ++ leaving snd post))
unfolding reading
last_reading snd post b size (gpr r) w h = last_word snd post _ _ _ _ w h
last_reading snd post b size (fpr r) w h = last_word snd post _ _ _ _ w h
last_reading snd post b size (csr r) w h = last_word snd post _ _ _ _ w h
last_reading snd post b size base w h = last_word snd post _ _ _ _ w h

-- The parts of `abstract_cmd` for such a command.
chosen :
    (c : Config) (cmd : ℕ) (x : Rom)
    → IsAccess c cmd
    → (if write cmd then write_register c cmd else read_register c cmd) ≡ x
    → x.1 ≡ false
    → abstract_cmd c cmd ≡ ((if postexec cmd then record x.0 { w9 = Opcodes.nop } else x.0), false)
unfolding abstract_cmd access_register
chosen c cmd x h e ok = ground arith

-- The words of such a command are the program, and the command is supported.
pub abstract_cmd-program :
    (c : Config) (cmd : ℕ)
    → IsAccess c cmd
    → (list_of (abstract_cmd c cmd).0 ≡ map encode (program c cmd))
      × ((abstract_cmd c cmd).1 ≡ false)
unfolding program encode
abstract_cmd-program c cmd h = elim (Bool-cases (write cmd)) [
  | inl e ↦
      let (words, ok) = write_register-program c cmd h.numbered in
      let all = chosen c cmd (write_register c cmd) h (rw e refl) ok in
      (
        ap (λ x. list_of x.0) all
            ∙ rw e (last_writing c.has_snd_scratch (postexec cmd) _ _ _ _ words),
        ap (λ x. x.1) all,
      )
  | inr e ↦
      let (words, ok) = read_register-program c cmd h.numbered in
      let all = chosen c cmd (read_register c cmd) h (rw e refl) ok in
      (
        ap (λ x. list_of x.0) all
            ∙ rw e (last_reading c.has_snd_scratch (postexec cmd) _ _ _ _ words),
        ap (λ x. x.1) all,
      )
]

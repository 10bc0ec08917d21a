-- ===== src/Mem/Commands.antt =====
-- The words that a hart runs for an abstract command, `p_abstract_cmd_rom` of src/dm_mem.sv.
use riscv_dbg.Common.{
  ℕ, Bool, true, false, not, ◌&&◌, ◌||◌, List, [], ◌∷◌, ltb, leb, ◌==◌, if◌then◌else◌,
}
use riscv_dbg.Opcodes
use riscv_dbg.Opcodes.{slice}
use riscv_dbg.Mem.{
  Config, max_aar, load_base_addr, data_addr, cmdtype, aarsize, bit, aarpostincrement, postexec,
  transfer, write, regno,
}

abbrev pub csr_dscratch0 : ℕ
csr_dscratch0 = 0x7b2

abbrev pub csr_dscratch1 : ℕ
csr_dscratch1 = 0x7b3

-- `abstract_cmd` as its first ten words; the rest is 0.
pub record Words : Type 0 where
  pub w0 : ℕ
  pub w1 : ℕ
  pub w2 : ℕ
  pub w3 : ℕ
  pub w4 : ℕ
  pub w5 : ℕ
  pub w6 : ℕ
  pub w7 : ℕ
  pub w8 : ℕ
  pub w9 : ℕ

abbrev pub list_of : Words → List ℕ
list_of w = w.w0 ∷ w.w1 ∷ w.w2 ∷ w.w3 ∷ w.w4 ∷ w.w5 ∷ w.w6 ∷ w.w7 ∷ w.w8 ∷ w.w9 ∷ []

-- The words and `unsupported_command`.
abbrev pub Rom : Type 0
Rom = Words × Bool

unfoldable pub default_words : Config → Words
default_words c = record {
  w0 = Opcodes.illegal;
  w1 = if c.has_snd_scratch then Opcodes.auipc 10 0 else Opcodes.nop;
  w2 = if c.has_snd_scratch then Opcodes.srli 10 10 12 else Opcodes.nop;
  w3 = if c.has_snd_scratch then Opcodes.slli 10 10 12 else Opcodes.nop;
  w4 = Opcodes.nop;
  w5 = Opcodes.nop;
  w6 = Opcodes.nop;
  w7 = Opcodes.nop;
  w8 = if c.has_snd_scratch then Opcodes.csrr csr_dscratch1 10 else Opcodes.nop;
  w9 = Opcodes.ebreak;
}

-- `HasSndScratch && regno[12] && !regno[5] && regno[4:0] == 10`
abbrev is_base : Config → ℕ → Bool
is_base c r = c.has_snd_scratch && bit 12 r && not (bit 5 r) && slice 4 0 r == 10

unfoldable pub write_register : Config → ℕ → Rom
unfolding default_words
write_register c cmd =
    let r = regno cmd in
    let size = aarsize cmd in
    let base = load_base_addr c in
    let start = record (default_words c) {
      w0 = if c.has_snd_scratch then Opcodes.csrw csr_dscratch1 10 else Opcodes.nop;
    } in
    if not (slice 15 14 r == 0)
    then (record start { w0 = Opcodes.ebreak }, true)
    else if is_base c r
    then (
      record start {
        w4 = Opcodes.csrw csr_dscratch0 8;
        w5 = Opcodes.load size 8 base data_addr;
        w6 = Opcodes.csrw csr_dscratch1 8;
        w7 = Opcodes.csrr csr_dscratch0 8;
      },
      false,
    )
    else if bit 12 r
    then (
      record start {
        w4 =
            if bit 5 r
            then Opcodes.float_load size (slice 4 0 r) base data_addr
            else Opcodes.load size (slice 4 0 r) base data_addr;
      },
      false,
    )
    else (
      record start {
        w4 = Opcodes.csrw csr_dscratch0 8;
        w5 = Opcodes.load size 8 base data_addr;
        w6 = Opcodes.csrw (slice 11 0 r) 8;
        w7 = Opcodes.csrr csr_dscratch0 8;
      },
      false,
    )

unfoldable pub read_register : Config → ℕ → Rom
unfolding default_words
read_register c cmd =
    let r = regno cmd in
    let size = aarsize cmd in
    let base = load_base_addr c in
    let start = record (default_words c) {
      w0 = if c.has_snd_scratch then Opcodes.csrw csr_dscratch1 base else Opcodes.nop;
    } in
    if not (slice 15 14 r == 0)
    then (record start { w0 = Opcodes.ebreak }, true)
    else if is_base c r
    then (
      record start {
        w4 = Opcodes.csrw csr_dscratch0 8;
        w5 = Opcodes.csrr csr_dscratch1 8;
        w6 = Opcodes.store size 8 base data_addr;
        w7 = Opcodes.csrr csr_dscratch0 8;
      },
      false,
    )
    else if bit 12 r
    then (
      record start {
        w4 =
            if bit 5 r
            then Opcodes.float_store size (slice 4 0 r) base data_addr
            else Opcodes.store size (slice 4 0 r) base data_addr;
      },
      false,
    )
    else (
      record start {
        w4 = Opcodes.csrw csr_dscratch0 8;
        w5 = Opcodes.csrr (slice 11 0 r) 8;
        w6 = Opcodes.store size 8 base data_addr;
        w7 = Opcodes.csrr csr_dscratch0 8;
      },
      false,
    )

-- `dm::AccessRegister`, up to the check of `postexec`.
unfoldable pub access_register : Config → ℕ → Rom
unfolding write_register read_register default_words
access_register c cmd =
    let sized = ltb (aarsize cmd) (max_aar c) in
    if sized && transfer cmd && write cmd
    then write_register c cmd
    else if sized && transfer cmd && not (write cmd)
    then read_register c cmd
    else if leb (max_aar c) (aarsize cmd) || aarpostincrement cmd
    then (record (default_words c) { w0 = Opcodes.ebreak }, true)
    else (default_words c, false)

unfoldable pub abstract_cmd : Config → ℕ → Rom
unfolding access_register default_words
abstract_cmd c cmd =
    let (words, unsupported) = access_register c cmd in
    if cmdtype cmd == 0
    then (
      (if postexec cmd && not unsupported then record words { w9 = Opcodes.nop } else words),
      unsupported,
    )
    else (record (default_words c) { w0 = Opcodes.ebreak }, true)

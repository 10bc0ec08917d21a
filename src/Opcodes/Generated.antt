-- ===== src/Opcodes/Generated.antt =====
-- The generated words are the instructions that they are named after, with the operands given.
use Prim.Native.Nat.{bit_and}
use riscv_dbg.Common.{
  ℕ, zero, suc, ◌+◌, ◌*◌, ◌/◌, ◌%◌, ◌^◌, ◌≡◌, ◌∙◌, refl, ap, arith, some, ==_iff, get_elem?,
}
use riscv_dbg.Encoding.{Insn, insn}
use riscv_dbg.Encoding.Decode.{table, decode}
use riscv_dbg.Encoding.Unique.{decode_iff}
use riscv_dbg.Opcodes.Fields.{opcode_mask, funct3_mask, shift_mask}
use riscv_dbg.Opcodes.Asm.{
  Asm, encode, Fits, read, format, operands, jal, jalr, andi, slli, srli, auipc, load, float_load,
  store, float_store, csrw, csrr, branch, ebreak, wfi, nop,
}

-- The entry of the instruction in the tables of debug_rom/encoding.h.
unfoldable pub entry : Asm → Insn
entry (jal rd imm) = insn "jal" 0x6f 0x7f
entry (jalr rd rs1 imm) = insn "jalr" 0x67 0x707f
entry (andi rd rs1 imm) = insn "andi" 0x7013 0x707f
entry (slli rd rs1 imm) = insn "slli" 0x1013 0xfc00707f
entry (srli rd rs1 imm) = insn "srli" 0x5013 0xfc00707f
entry (auipc rd) = insn "auipc" 0x17 0x7f
entry (load zero rd rs1 imm) = insn "lb" 0x3 0x707f
entry (load (suc zero) rd rs1 imm) = insn "lh" 0x1003 0x707f
entry (load (suc (suc zero)) rd rs1 imm) = insn "lw" 0x2003 0x707f
entry (load (suc (suc (suc zero))) rd rs1 imm) = insn "ld" 0x3003 0x707f
entry (load (suc (suc (suc (suc zero)))) rd rs1 imm) = insn "lbu" 0x4003 0x707f
entry (load (suc (suc (suc (suc (suc zero))))) rd rs1 imm) = insn "lhu" 0x5003 0x707f
entry (load _ rd rs1 imm) = insn "lwu" 0x6003 0x707f
entry (float_load (suc (suc zero)) rd rs1 imm) = insn "flw" 0x2007 0x707f
entry (float_load _ rd rs1 imm) = insn "fld" 0x3007 0x707f
entry (store zero rs2 rs1 imm) = insn "sb" 0x23 0x707f
entry (store (suc zero) rs2 rs1 imm) = insn "sh" 0x1023 0x707f
entry (store (suc (suc zero)) rs2 rs1 imm) = insn "sw" 0x2023 0x707f
entry (store _ rs2 rs1 imm) = insn "sd" 0x3023 0x707f
entry (float_store (suc (suc zero)) rs2 rs1 imm) = insn "fsw" 0x2027 0x707f
entry (float_store _ rs2 rs1 imm) = insn "fsd" 0x3027 0x707f
entry (csrw csr rs1) = insn "csrrw" 0x1073 0x707f
entry (csrr csr rd) = insn "csrrs" 0x2073 0x707f
entry (branch zero rs2 rs1 imm) = insn "beq" 0x63 0x707f
entry (branch (suc zero) rs2 rs1 imm) = insn "bne" 0x1063 0x707f
entry (branch (suc (suc (suc (suc zero)))) rs2 rs1 imm) = insn "blt" 0x4063 0x707f
entry (branch (suc (suc (suc (suc (suc zero))))) rs2 rs1 imm) = insn "bge" 0x5063 0x707f
entry (branch (suc (suc (suc (suc (suc (suc zero)))))) rs2 rs1 imm) = insn "bltu" 0x6063 0x707f
entry (branch _ rs2 rs1 imm) = insn "bgeu" 0x7063 0x707f
entry ebreak = insn "ebreak" 0x100073 0xffffffff
entry wfi = insn "wfi" 0x10500073 0xffffffff
entry nop = insn "addi" 0x13 0x707f

-- An entry with a mask of the opcode, of the opcode and funct3, or of a shift.
by_opcode :
    (x : Insn) (i w : ℕ)
    → get_elem? table i ≡ some x
    → x.mask ≡ 0x7f
    → w % 2 ^ 7 ≡ x.match
    → decode table w ≡ some x
by_opcode x i w at mask same =
    (decode_iff w x).1 (i, at, (==_iff _ _).1 (ap (bit_and w) mask ∙ (opcode_mask w ∙ same)))

by_funct3 :
    (x : Insn) (i w : ℕ)
    → get_elem? table i ≡ some x
    → x.mask ≡ 0x707f
    → w / 2 ^ 12 % 2 ^ 3 * 2 ^ 12 + w % 2 ^ 7 ≡ x.match
    → decode table w ≡ some x
by_funct3 x i w at mask same =
    (decode_iff w x).1 (i, at, (==_iff _ _).1 (ap (bit_and w) mask ∙ (funct3_mask w ∙ same)))

by_shift :
    (x : Insn) (i w : ℕ)
    → get_elem? table i ≡ some x
    → x.mask ≡ 0xfc00707f
    → w / 2 ^ 26 % 2 ^ 6 * 2 ^ 26 + w / 2 ^ 12 % 2 ^ 3 * 2 ^ 12 + w % 2 ^ 7 ≡ x.match
    → decode table w ≡ some x
by_shift x i w at mask same =
    (decode_iff w x).1 (i, at, (==_iff _ _).1 (ap (bit_and w) mask ∙ (shift_mask w ∙ same)))

encode-decodes : (a : Asm) → Fits a → decode table (encode a) ≡ some (entry a)
unfolding Fits encode entry table
encode-decodes (jal rd imm) h = by_opcode _ 7 _ refl refl (omega arith)
encode-decodes (jalr rd rs1 imm) h = by_funct3 _ 6 _ refl refl (omega arith)
encode-decodes (andi rd rs1 imm) h = by_funct3 _ 18 _ refl refl (omega arith)
encode-decodes (slli rd rs1 imm) h = by_shift _ 11 _ refl refl (omega arith)
encode-decodes (srli rd rs1 imm) h = by_shift _ 15 _ refl refl (omega arith)
encode-decodes (auipc rd) h = by_opcode _ 9 _ refl refl (omega arith)
encode-decodes (load zero rd rs1 imm) h = by_funct3 _ 38 _ refl refl (omega arith)
encode-decodes (load (suc zero) rd rs1 imm) h = by_funct3 _ 39 _ refl refl (omega arith)
encode-decodes (load (suc (suc zero)) rd rs1 imm) h = by_funct3 _ 40 _ refl refl (omega arith)
encode-decodes (load (suc (suc (suc zero))) rd rs1 imm) h = by_funct3 _ 41 _ refl refl (omega arith)
encode-decodes (load (suc (suc (suc (suc zero)))) rd rs1 imm) h =
    by_funct3 _ 42 _ refl refl (omega arith)
encode-decodes (load (suc (suc (suc (suc (suc zero))))) rd rs1 imm) h =
    by_funct3 _ 43 _ refl refl (omega arith)
encode-decodes (load (suc (suc (suc (suc (suc (suc zero)))))) rd rs1 imm) h =
    by_funct3 _ 44 _ refl refl (omega arith)
encode-decodes (load (suc (suc (suc (suc (suc (suc (suc size))))))) rd rs1 imm) h =
    absurd (omega arith)
encode-decodes (float_load zero rd rs1 imm) h = absurd (omega arith)
encode-decodes (float_load (suc zero) rd rs1 imm) h = absurd (omega arith)
encode-decodes (float_load (suc (suc zero)) rd rs1 imm) h =
    by_funct3 _ 178 _ refl refl (omega arith)
encode-decodes (float_load (suc (suc (suc zero))) rd rs1 imm) h =
    by_funct3 _ 179 _ refl refl (omega arith)
encode-decodes (float_load (suc (suc (suc (suc size)))) rd rs1 imm) h = absurd (omega arith)
encode-decodes (float_store zero rs2 rs1 imm) h = absurd (omega arith)
encode-decodes (float_store (suc zero) rs2 rs1 imm) h = absurd (omega arith)
encode-decodes (float_store (suc (suc zero)) rs2 rs1 imm) h =
    by_funct3 _ 181 _ refl refl (omega arith)
encode-decodes (float_store (suc (suc (suc zero))) rs2 rs1 imm) h =
    by_funct3 _ 182 _ refl refl (omega arith)
encode-decodes (float_store (suc (suc (suc (suc size)))) rs2 rs1 imm) h = absurd (omega arith)
encode-decodes (store zero rs2 rs1 imm) h = by_funct3 _ 45 _ refl refl (omega arith)
encode-decodes (store (suc zero) rs2 rs1 imm) h = by_funct3 _ 46 _ refl refl (omega arith)
encode-decodes (store (suc (suc zero)) rs2 rs1 imm) h = by_funct3 _ 47 _ refl refl (omega arith)
encode-decodes (store (suc (suc (suc zero))) rs2 rs1 imm) h =
    by_funct3 _ 48 _ refl refl (omega arith)
encode-decodes (store (suc (suc (suc (suc size)))) rs2 rs1 imm) h = absurd (omega arith)
encode-decodes (csrw csr rs1) h = by_funct3 _ 94 _ refl refl (omega arith)
encode-decodes (csrr csr rd) h = by_funct3 _ 95 _ refl refl (omega arith)
encode-decodes (branch zero rs2 rs1 imm) h = by_funct3 _ 0 _ refl refl (omega arith)
encode-decodes (branch (suc zero) rs2 rs1 imm) h = by_funct3 _ 1 _ refl refl (omega arith)
encode-decodes (branch (suc (suc zero)) rs2 rs1 imm) h = absurd (h.1 refl)
encode-decodes (branch (suc (suc (suc zero))) rs2 rs1 imm) h = absurd (h.1 refl)
encode-decodes (branch (suc (suc (suc (suc zero)))) rs2 rs1 imm) h =
    by_funct3 _ 2 _ refl refl (omega arith)
encode-decodes (branch (suc (suc (suc (suc (suc zero))))) rs2 rs1 imm) h =
    by_funct3 _ 3 _ refl refl (omega arith)
encode-decodes (branch (suc (suc (suc (suc (suc (suc zero)))))) rs2 rs1 imm) h =
    by_funct3 _ 4 _ refl refl (omega arith)
encode-decodes (branch (suc (suc (suc (suc (suc (suc (suc zero))))))) rs2 rs1 imm) h =
    by_funct3 _ 5 _ refl refl (omega arith)
encode-decodes (branch (suc (suc (suc (suc (suc (suc (suc (suc funct3)))))))) rs2 rs1 imm) h =
    absurd (omega arith)
encode-decodes ebreak h = (decode_iff _ _).1 (87, refl, refl)
encode-decodes wfi h = (decode_iff _ _).1 (93, refl, refl)
encode-decodes nop h = by_funct3 _ 10 _ refl refl refl

read-encode : (a : Asm) → Fits a → read (format a) (encode a) ≡ operands a
unfolding Fits encode read format operands
read-encode a h = ground arith

-- A generated word with operands that fit decodes to its instruction and no other, and the operands
-- are read back from it by the format of the manual; `auipc` only with the immediate 0.
pub generated_words :
    (a : Asm)
    → Fits a
    → (decode table (encode a) ≡ some (entry a)) × (read (format a) (encode a) ≡ operands a)
generated_words a h = (encode-decodes a h, read-encode a h)

-- ===== src/Opcodes/Asm.antt =====
-- The generated words as instructions with their operands.
use riscv_dbg.Common.{ℕ, ◌+◌, ◌*◌, ◌/◌, ◌%◌, ◌^◌, ◌≤◌, ◌<◌, ◌≡◌, ◌≢◌}
use riscv_dbg.Opcodes
use riscv_dbg.Opcodes.{slice}

-- What the functions stand for. The offset of a branch counts half words; `auipc` is used with the
-- immediate 0 only.
pub data Asm : Type 0 where
  jal : (rd imm : ℕ) → Asm
  jalr andi slli srli : (rd rs1 imm : ℕ) → Asm
  auipc : (rd : ℕ) → Asm
  load float_load : (size rd rs1 imm : ℕ) → Asm
  store float_store : (size rs2 rs1 imm : ℕ) → Asm
  csrw : (csr rs1 : ℕ) → Asm
  csrr : (csr rd : ℕ) → Asm
  branch : (funct3 rs2 rs1 imm : ℕ) → Asm
  ebreak wfi nop : Asm

unfoldable pub encode : Asm → ℕ
unfolding Opcodes.jal Opcodes.jalr Opcodes.andi Opcodes.slli Opcodes.srli Opcodes.auipc Opcodes.load
    Opcodes.float_load Opcodes.store Opcodes.float_store Opcodes.csrw Opcodes.csrr Opcodes.branch
encode (jal rd imm) = Opcodes.jal rd imm
encode (jalr rd rs1 imm) = Opcodes.jalr rd rs1 imm
encode (andi rd rs1 imm) = Opcodes.andi rd rs1 imm
encode (slli rd rs1 imm) = Opcodes.slli rd rs1 imm
encode (srli rd rs1 imm) = Opcodes.srli rd rs1 imm
encode (auipc rd) = Opcodes.auipc rd 0
encode (load size rd rs1 imm) = Opcodes.load size rd rs1 imm
encode (float_load size rd rs1 imm) = Opcodes.float_load size rd rs1 imm
encode (store size rs2 rs1 imm) = Opcodes.store size rs2 rs1 imm
encode (float_store size rs2 rs1 imm) = Opcodes.float_store size rs2 rs1 imm
encode (csrw csr rs1) = Opcodes.csrw csr rs1
encode (csrr csr rd) = Opcodes.csrr csr rd
encode (branch funct3 rs2 rs1 imm) = Opcodes.branch rs2 rs1 funct3 imm
encode ebreak = Opcodes.ebreak
encode wfi = Opcodes.wfi
encode nop = Opcodes.nop

-- The operands fit their fields, and there is an instruction of the size.
unfoldable pub Fits : Asm → Type 0
Fits (jal rd imm) = (rd < 32) × (imm < 2 ^ 21) × (imm % 2 ≡ 0)
Fits (jalr rd rs1 imm) = (rd < 32) × (rs1 < 32) × (imm < 2 ^ 12)
Fits (andi rd rs1 imm) = (rd < 32) × (rs1 < 32) × (imm < 2 ^ 12)
Fits (slli rd rs1 imm) = (rd < 32) × (rs1 < 32) × (imm < 2 ^ 6)
Fits (srli rd rs1 imm) = (rd < 32) × (rs1 < 32) × (imm < 2 ^ 6)
Fits (auipc rd) = rd < 32
Fits (load size rd rs1 imm) = (size < 7) × (rd < 32) × (rs1 < 32) × (imm < 2 ^ 12)
Fits (float_load size rd rs1 imm) =
    (2 ≤ size) × (size < 4) × (rd < 32) × (rs1 < 32) × (imm < 2 ^ 12)
Fits (store size rs2 rs1 imm) = (size < 4) × (rs2 < 32) × (rs1 < 32) × (imm < 2 ^ 12)
Fits (float_store size rs2 rs1 imm) =
    (2 ≤ size) × (size < 4) × (rs2 < 32) × (rs1 < 32) × (imm < 2 ^ 12)
Fits (csrw csr rs1) = (csr < 2 ^ 12) × (rs1 < 32)
Fits (csrr csr rd) = (csr < 2 ^ 12) × (rd < 32)
Fits (branch funct3 rs2 rs1 imm) =
    (funct3 < 8) × (funct3 / 2 ≢ 1) × (rs2 < 32) × (rs1 < 32) × (imm < 2 ^ 12)
Fits _ = Unit

-- The operands of a word, by the formats of the manual. An operand that a format has not is 0.
pub record Operands : Type 0 where
  pub rd : ℕ
  pub rs1 : ℕ
  pub rs2 : ℕ
  pub imm : ℕ

pub data Format : Type 0 where
  i_type s_type b_type u_type j_type : Format

unfoldable pub read : Format → ℕ → Operands
read i_type w = record { rd = slice 11 7 w; rs1 = slice 19 15 w; rs2 = 0; imm = slice 31 20 w }
read s_type w = record {
  rd = 0;
  rs1 = slice 19 15 w;
  rs2 = slice 24 20 w;
  imm = slice 31 25 w * 2 ^ 5 + slice 11 7 w;
}
read b_type w = record {
  rd = 0;
  rs1 = slice 19 15 w;
  rs2 = slice 24 20 w;
  imm = slice 31 31 w * 2 ^ 11 + slice 7 7 w * 2 ^ 10 + slice 30 25 w * 2 ^ 4 + slice 11 8 w;
}
read u_type w = record { rd = slice 11 7 w; rs1 = 0; rs2 = 0; imm = slice 31 12 w }
read j_type w = record {
  rd = slice 11 7 w;
  rs1 = 0;
  rs2 = 0;
  imm =
      slice 31 31 w * 2 ^ 20 + slice 19 12 w * 2 ^ 12 + slice 20 20 w * 2 ^ 11 + slice 30 21 w * 2;
}

unfoldable pub format : Asm → Format
format (jal rd imm) = j_type
format (auipc rd) = u_type
format (store size rs2 rs1 imm) = s_type
format (float_store size rs2 rs1 imm) = s_type
format (branch funct3 rs2 rs1 imm) = b_type
format _ = i_type

abbrev operands_of : (rd rs1 rs2 imm : ℕ) → Operands
operands_of rd rs1 rs2 imm = record { rd = rd; rs1 = rs1; rs2 = rs2; imm = imm }

unfoldable pub operands : Asm → Operands
operands (jal rd imm) = operands_of rd 0 0 imm
operands (jalr rd rs1 imm) = operands_of rd rs1 0 imm
operands (andi rd rs1 imm) = operands_of rd rs1 0 imm
operands (slli rd rs1 imm) = operands_of rd rs1 0 imm
operands (srli rd rs1 imm) = operands_of rd rs1 0 imm
operands (auipc rd) = operands_of rd 0 0 0
operands (load size rd rs1 imm) = operands_of rd rs1 0 imm
operands (float_load size rd rs1 imm) = operands_of rd rs1 0 imm
operands (store size rs2 rs1 imm) = operands_of 0 rs1 rs2 imm
operands (float_store size rs2 rs1 imm) = operands_of 0 rs1 rs2 imm
operands (csrw csr rs1) = operands_of 0 rs1 0 csr
operands (csrr csr rd) = operands_of rd 0 0 csr
operands (branch funct3 rs2 rs1 imm) = operands_of 0 rs1 rs2 imm
operands ebreak = operands_of 0 0 0 1
operands wfi = operands_of 0 0 0 0x105
operands nop = operands_of 0 0 0 0

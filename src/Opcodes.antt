-- ===== src/Opcodes.antt =====
-- The instruction words that the debug module generates: the functions of src/dm_pkg.sv.
pub mod Fields
pub mod Asm
pub mod Generated
mod Examples
use riscv_dbg.Common.{ℕ, ◌+◌, ◌-◌, ◌*◌, ◌/◌, ◌%◌, ◌^◌}

-- `x[high:low]`
abbrev pub slice : (high low x : ℕ) → ℕ
slice high low x = x / 2 ^ low % 2 ^ (high - low + 1)

-- A word of the fields of an instruction, the opcode first.
abbrev r_word : (opcode rd funct3 rs1 high : ℕ) → ℕ
r_word opcode rd funct3 rs1 high =
    high * 2 ^ 20 + rs1 * 2 ^ 15 + funct3 * 2 ^ 12 + rd * 2 ^ 7 + opcode

-- `{imm[20], imm[10:1], imm[11], imm[19:12]}`
abbrev j_immediate : ℕ → ℕ
j_immediate imm =
    slice 20 20 imm * 2 ^ 19 + slice 10 1 imm * 2 ^ 9 + slice 11 11 imm * 2 ^ 8 + slice 19 12 imm

-- `{offset[11:5], src, base, size, offset[4:0]}` in front of the opcode.
abbrev s_word : (opcode size src base offset : ℕ) → ℕ
s_word opcode size src base offset =
    r_word opcode (slice 4 0 offset) size base (slice 11 5 offset * 2 ^ 5 + src)

unfoldable pub jal : (rd imm : ℕ) → ℕ
jal rd imm = j_immediate imm * 2 ^ 12 + rd * 2 ^ 7 + 0x6f

unfoldable pub jalr : (rd rs1 offset : ℕ) → ℕ
jalr rd rs1 offset = r_word 0x67 rd 0 rs1 offset

unfoldable pub andi : (rd rs1 imm : ℕ) → ℕ
andi rd rs1 imm = r_word 0x13 rd 7 rs1 imm

unfoldable pub slli : (rd rs1 shamt : ℕ) → ℕ
slli rd rs1 shamt = r_word 0x13 rd 1 rs1 shamt

unfoldable pub srli : (rd rs1 shamt : ℕ) → ℕ
srli rd rs1 shamt = r_word 0x13 rd 5 rs1 shamt

unfoldable pub load : (size dest base offset : ℕ) → ℕ
load size dest base offset = r_word 0x03 dest size base offset

unfoldable pub auipc : (rd imm : ℕ) → ℕ
auipc rd imm = j_immediate imm * 2 ^ 12 + rd * 2 ^ 7 + 0x17

unfoldable pub store : (size src base offset : ℕ) → ℕ
store size src base offset = s_word 0x23 size src base offset

unfoldable pub float_load : (size dest base offset : ℕ) → ℕ
float_load size dest base offset = r_word 0b0000111 dest size base offset

unfoldable pub float_store : (size src base offset : ℕ) → ℕ
float_store size src base offset = s_word 0b0100111 size src base offset

unfoldable pub csrw : (csr rs1 : ℕ) → ℕ
csrw csr rs1 = r_word 0x73 0 1 rs1 csr

unfoldable pub csrr : (csr dest : ℕ) → ℕ
csrr csr dest = r_word 0x73 dest 2 0 csr

unfoldable pub branch : (src2 src1 funct3 offset : ℕ) → ℕ
branch src2 src1 funct3 offset =
    r_word 0b1100011 (slice 3 0 offset * 2 + slice 10 10 offset) funct3 src1
      (slice 11 11 offset * 2 ^ 11 + slice 9 4 offset * 2 ^ 5 + src2)

abbrev pub ebreak : ℕ
ebreak = 0x00100073

abbrev pub wfi : ℕ
wfi = 0x10500073

abbrev pub nop : ℕ
nop = 0x00000013

abbrev pub illegal : ℕ
illegal = 0x00000000

-- ===== src/Opcodes/Fields.antt =====
-- The fields of an instruction word, and the masks that select them.
use Prim.Native.Nat.{bit_and}
use riscv_dbg.Common.{ℕ, ◌+◌, ◌*◌, ◌/◌, ◌%◌, ◌^◌, ◌≡◌, arith}
use riscv_dbg.Common.Masks.{bit_and_ones, bit_and_split}

pub opcode_mask : (w : ℕ) → bit_and w 0x7f ≡ w % 2 ^ 7
opcode_mask = bit_and_ones 7

pub funct3_mask : (w : ℕ) → bit_and w 0x707f ≡ w / 2 ^ 12 % 2 ^ 3 * 2 ^ 12 + w % 2 ^ 7
funct3_mask w = omega (
  arith,
  bit_and_split 12 w 7 0x7f (omega arith),
  bit_and_ones 3 (w / 2 ^ 12),
  opcode_mask (w % 2 ^ 12),
)

pub shift_mask :
    (w : ℕ)
    → bit_and w 0xfc00707f ≡ w / 2 ^ 26 % 2 ^ 6 * 2 ^ 26 + w / 2 ^ 12 % 2 ^ 3 * 2 ^ 12 + w % 2 ^ 7
shift_mask w = omega (
  arith,
  bit_and_split 26 w 0x3f 0x707f (omega arith),
  bit_and_ones 6 (w / 2 ^ 26),
  funct3_mask (w % 2 ^ 26),
)

-- ===== src/Opcodes/Examples.antt =====
-- The theorem on the generated words at a concrete instruction.
use riscv_dbg.Common.{◌≡◌, arith, some}
use riscv_dbg.Encoding.{insn}
use riscv_dbg.Encoding.Decode.{table, decode}
use riscv_dbg.Opcodes.{store}
use riscv_dbg.Opcodes.Asm.{Asm, encode, Fits, read, format, operands, s_type}
use riscv_dbg.Opcodes.Generated.{entry, generated_words}

-- `sw s1, 0x380(a0)`
abbrev store_word : Asm
store_word = Asm.store 2 9 10 0x380

store_word-Fits : Fits store_word
unfolding Fits
store_word-Fits = (omega arith, omega arith, omega arith, omega arith)

generated_words_example :
    (decode table 0x38952023 ≡ some (insn "sw" 0x2023 0x707f))
    × (read s_type 0x38952023 ≡ operands store_word)
unfolding encode format entry store
generated_words_example = generated_words store_word store_word-Fits

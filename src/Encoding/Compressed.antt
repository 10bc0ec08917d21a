-- ===== src/Encoding/Compressed.antt =====
-- The MATCH and MASK constants of debug_rom/encoding.h: the compressed instructions, of 16 bits.
use riscv_dbg.Common.{List, [], ◌∷◌}
use riscv_dbg.Encoding.{Insn, insn}

unfoldable pub compressed_table : List Insn
compressed_table =
    insn "c_nop" 0x1 0xffff
    ∷ insn "c_addi16sp" 0x6101 0xef83
    ∷ insn "c_jr" 0x8002 0xf07f
    ∷ insn "c_jalr" 0x9002 0xf07f
    ∷ insn "c_ebreak" 0x9002 0xffff
    ∷ insn "c_ld" 0x6000 0xe003
    ∷ insn "c_sd" 0xe000 0xe003
    ∷ insn "c_addiw" 0x2001 0xe003
    ∷ insn "c_ldsp" 0x6002 0xe003
    ∷ insn "c_sdsp" 0xe002 0xe003
    ∷ insn "c_addi4spn" 0x0 0xe003
    ∷ insn "c_fld" 0x2000 0xe003
    ∷ insn "c_lw" 0x4000 0xe003
    ∷ insn "c_flw" 0x6000 0xe003
    ∷ insn "c_fsd" 0xa000 0xe003
    ∷ insn "c_sw" 0xc000 0xe003
    ∷ insn "c_fsw" 0xe000 0xe003
    ∷ insn "c_addi" 0x1 0xe003
    ∷ insn "c_jal" 0x2001 0xe003
    ∷ insn "c_li" 0x4001 0xe003
    ∷ insn "c_lui" 0x6001 0xe003
    ∷ insn "c_srli" 0x8001 0xec03
    ∷ insn "c_srai" 0x8401 0xec03
    ∷ insn "c_andi" 0x8801 0xec03
    ∷ insn "c_sub" 0x8c01 0xfc63
    ∷ insn "c_xor" 0x8c21 0xfc63
    ∷ insn "c_or" 0x8c41 0xfc63
    ∷ insn "c_and" 0x8c61 0xfc63
    ∷ insn "c_subw" 0x9c01 0xfc63
    ∷ insn "c_addw" 0x9c21 0xfc63
    ∷ insn "c_j" 0xa001 0xe003
    ∷ insn "c_beqz" 0xc001 0xe003
    ∷ insn "c_bnez" 0xe001 0xe003
    ∷ insn "c_slli" 0x2 0xe003
    ∷ insn "c_fldsp" 0x2002 0xe003
    ∷ insn "c_lwsp" 0x4002 0xe003
    ∷ insn "c_flwsp" 0x6002 0xe003
    ∷ insn "c_mv" 0x8002 0xf003
    ∷ insn "c_add" 0x9002 0xf003
    ∷ insn "c_fsdsp" 0xa002 0xe003
    ∷ insn "c_swsp" 0xc002 0xe003
    ∷ insn "c_fswsp" 0xe002 0xe003
    ∷ []

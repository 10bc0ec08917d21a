-- ===== src/Encoding/Float.antt =====
-- The MATCH and MASK constants of debug_rom/encoding.h: the other floating-point instructions.
use riscv_dbg.Common.{List, [], ◌∷◌}
use riscv_dbg.Encoding.{Insn, insn}

unfoldable pub float_table : List Insn
float_table =
    insn "flt_d" 0xa2001053 0xfe00707f
    ∷ insn "feq_d" 0xa2002053 0xfe00707f
    ∷ insn "fle_q" 0xa6000053 0xfe00707f
    ∷ insn "flt_q" 0xa6001053 0xfe00707f
    ∷ insn "feq_q" 0xa6002053 0xfe00707f
    ∷ insn "fcvt_w_s" 0xc0000053 0xfff0007f
    ∷ insn "fcvt_wu_s" 0xc0100053 0xfff0007f
    ∷ insn "fcvt_l_s" 0xc0200053 0xfff0007f
    ∷ insn "fcvt_lu_s" 0xc0300053 0xfff0007f
    ∷ insn "fmv_x_w" 0xe0000053 0xfff0707f
    ∷ insn "fclass_s" 0xe0001053 0xfff0707f
    ∷ insn "fcvt_w_d" 0xc2000053 0xfff0007f
    ∷ insn "fcvt_wu_d" 0xc2100053 0xfff0007f
    ∷ insn "fcvt_l_d" 0xc2200053 0xfff0007f
    ∷ insn "fcvt_lu_d" 0xc2300053 0xfff0007f
    ∷ insn "fmv_x_d" 0xe2000053 0xfff0707f
    ∷ insn "fclass_d" 0xe2001053 0xfff0707f
    ∷ insn "fcvt_w_q" 0xc6000053 0xfff0007f
    ∷ insn "fcvt_wu_q" 0xc6100053 0xfff0007f
    ∷ insn "fcvt_l_q" 0xc6200053 0xfff0007f
    ∷ insn "fcvt_lu_q" 0xc6300053 0xfff0007f
    ∷ insn "fmv_x_q" 0xe6000053 0xfff0707f
    ∷ insn "fclass_q" 0xe6001053 0xfff0707f
    ∷ insn "fcvt_s_w" 0xd0000053 0xfff0007f
    ∷ insn "fcvt_s_wu" 0xd0100053 0xfff0007f
    ∷ insn "fcvt_s_l" 0xd0200053 0xfff0007f
    ∷ insn "fcvt_s_lu" 0xd0300053 0xfff0007f
    ∷ insn "fmv_w_x" 0xf0000053 0xfff0707f
    ∷ insn "fcvt_d_w" 0xd2000053 0xfff0007f
    ∷ insn "fcvt_d_wu" 0xd2100053 0xfff0007f
    ∷ insn "fcvt_d_l" 0xd2200053 0xfff0007f
    ∷ insn "fcvt_d_lu" 0xd2300053 0xfff0007f
    ∷ insn "fmv_d_x" 0xf2000053 0xfff0707f
    ∷ insn "fcvt_q_w" 0xd6000053 0xfff0007f
    ∷ insn "fcvt_q_wu" 0xd6100053 0xfff0007f
    ∷ insn "fcvt_q_l" 0xd6200053 0xfff0007f
    ∷ insn "fcvt_q_lu" 0xd6300053 0xfff0007f
    ∷ insn "fmv_q_x" 0xf6000053 0xfff0707f
    ∷ insn "flw" 0x2007 0x707f
    ∷ insn "fld" 0x3007 0x707f
    ∷ insn "flq" 0x4007 0x707f
    ∷ insn "fsw" 0x2027 0x707f
    ∷ insn "fsd" 0x3027 0x707f
    ∷ insn "fsq" 0x4027 0x707f
    ∷ insn "fmadd_s" 0x43 0x600007f
    ∷ insn "fmsub_s" 0x47 0x600007f
    ∷ insn "fnmsub_s" 0x4b 0x600007f
    ∷ insn "fnmadd_s" 0x4f 0x600007f
    ∷ insn "fmadd_d" 0x2000043 0x600007f
    ∷ insn "fmsub_d" 0x2000047 0x600007f
    ∷ insn "fnmsub_d" 0x200004b 0x600007f
    ∷ insn "fnmadd_d" 0x200004f 0x600007f
    ∷ insn "fmadd_q" 0x6000043 0x600007f
    ∷ insn "fmsub_q" 0x6000047 0x600007f
    ∷ insn "fnmsub_q" 0x600004b 0x600007f
    ∷ insn "fnmadd_q" 0x600004f 0x600007f
    ∷ []

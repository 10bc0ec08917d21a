-- ===== src/Encoding/PkgCsrs.antt =====
-- The register addresses of the hardware, `csr_reg_t` in src/dm_pkg.sv.
use riscv_dbg.Common.{List, [], ◌∷◌}
use riscv_dbg.Encoding.{Csr, csr}

unfoldable pub csr_reg_t : List Csr
csr_reg_t =
    csr "fflags" 0x001
    ∷ csr "frm" 0x002
    ∷ csr "fcsr" 0x003
    ∷ csr "ftran" 0x800
    ∷ csr "sstatus" 0x100
    ∷ csr "sie" 0x104
    ∷ csr "stvec" 0x105
    ∷ csr "scounteren" 0x106
    ∷ csr "sscratch" 0x140
    ∷ csr "sepc" 0x141
    ∷ csr "scause" 0x142
    ∷ csr "stval" 0x143
    ∷ csr "sip" 0x144
    ∷ csr "satp" 0x180
    ∷ csr "mstatus" 0x300
    ∷ csr "misa" 0x301
    ∷ csr "medeleg" 0x302
    ∷ csr "mideleg" 0x303
    ∷ csr "mie" 0x304
    ∷ csr "mtvec" 0x305
    ∷ csr "mcounteren" 0x306
    ∷ csr "mscratch" 0x340
    ∷ csr "mepc" 0x341
    ∷ csr "mcause" 0x342
    ∷ csr "mtval" 0x343
    ∷ csr "mip" 0x344
    ∷ csr "pmpcfg0" 0x3a0
    ∷ csr "pmpaddr0" 0x3b0
    ∷ csr "mvendorid" 0xf11
    ∷ csr "marchid" 0xf12
    ∷ csr "mimpid" 0xf13
    ∷ csr "mhartid" 0xf14
    ∷ csr "mcycle" 0xb00
    ∷ csr "minstret" 0xb02
    ∷ csr "dcache" 0x701
    ∷ csr "icache" 0x700
    ∷ csr "tselect" 0x7a0
    ∷ csr "tdata1" 0x7a1
    ∷ csr "tdata2" 0x7a2
    ∷ csr "tdata3" 0x7a3
    ∷ csr "tinfo" 0x7a4
    ∷ csr "dcsr" 0x7b0
    ∷ csr "dpc" 0x7b1
    ∷ csr "dscratch0" 0x7b2
    ∷ csr "dscratch1" 0x7b3
    ∷ csr "cycle" 0xc00
    ∷ csr "time" 0xc01
    ∷ csr "instret" 0xc02
    ∷ []

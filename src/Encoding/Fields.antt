-- ===== src/Encoding/Fields.antt =====
-- The fields of the status registers and of the page tables by their masks, in debug_rom/encoding.h.
use Prim.Native.String.{String}
use riscv_dbg.Common.{ℕ, ◌-◌, ◌*◌, ◌^◌, List, [], ◌∷◌}

pub record Field : Type 0 where
  pub name : String
  pub mask : ℕ

abbrev pub field : String → ℕ → Field
field name mask = record { name = name; mask = mask }

abbrev irq_s_soft : ℕ
irq_s_soft = 1

abbrev irq_h_soft : ℕ
irq_h_soft = 2

abbrev irq_m_soft : ℕ
irq_m_soft = 3

abbrev irq_s_timer : ℕ
irq_s_timer = 5

abbrev irq_h_timer : ℕ
irq_h_timer = 6

abbrev irq_m_timer : ℕ
irq_m_timer = 7

abbrev irq_s_ext : ℕ
irq_s_ext = 9

abbrev irq_h_ext : ℕ
irq_h_ext = 10

abbrev irq_m_ext : ℕ
irq_m_ext = 11

mstatus_fields : List Field
mstatus_fields =
    field "uie" 0x00000001
    ∷ field "sie" 0x00000002
    ∷ field "hie" 0x00000004
    ∷ field "mie" 0x00000008
    ∷ field "upie" 0x00000010
    ∷ field "spie" 0x00000020
    ∷ field "hpie" 0x00000040
    ∷ field "mpie" 0x00000080
    ∷ field "spp" 0x00000100
    ∷ field "hpp" 0x00000600
    ∷ field "mpp" 0x00001800
    ∷ field "fs" 0x00006000
    ∷ field "xs" 0x00018000
    ∷ field "mprv" 0x00020000
    ∷ field "sum" 0x00040000
    ∷ field "mxr" 0x00080000
    ∷ field "tvm" 0x00100000
    ∷ field "tw" 0x00200000
    ∷ field "tsr" 0x00400000
    ∷ field "sd32" 0x80000000
    ∷ field "uxl" 0x0000000300000000
    ∷ field "sxl" 0x0000000c00000000
    ∷ field "sd64" 0x8000000000000000
    ∷ []

sstatus_fields : List Field
sstatus_fields =
    field "uie" 0x00000001
    ∷ field "sie" 0x00000002
    ∷ field "upie" 0x00000010
    ∷ field "spie" 0x00000020
    ∷ field "spp" 0x00000100
    ∷ field "fs" 0x00006000
    ∷ field "xs" 0x00018000
    ∷ field "sum" 0x00040000
    ∷ field "mxr" 0x00080000
    ∷ field "sd32" 0x80000000
    ∷ field "uxl" 0x0000000300000000
    ∷ field "sd64" 0x8000000000000000
    ∷ []

dcsr_fields : List Field
dcsr_fields =
    field "xdebugver" (3 * 2 ^ 30)
    ∷ field "ndreset" (2 ^ 29)
    ∷ field "fullreset" (2 ^ 28)
    ∷ field "ebreakm" (2 ^ 15)
    ∷ field "ebreakh" (2 ^ 14)
    ∷ field "ebreaks" (2 ^ 13)
    ∷ field "ebreaku" (2 ^ 12)
    ∷ field "stopcycle" (2 ^ 10)
    ∷ field "stoptime" (2 ^ 9)
    ∷ field "cause" (7 * 2 ^ 6)
    ∷ field "debugint" (2 ^ 5)
    ∷ field "halt" (2 ^ 3)
    ∷ field "step" (2 ^ 2)
    ∷ field "prv" (3 * 2 ^ 0)
    ∷ []

mcontrol_fields : ℕ → List Field
mcontrol_fields xlen =
    field "type" (0xf * 2 ^ (xlen - 4))
    ∷ field "dmode" (1 * 2 ^ (xlen - 5))
    ∷ field "maskmax" (0x3f * 2 ^ (xlen - 11))
    ∷ field "select" (2 ^ 19)
    ∷ field "timing" (2 ^ 18)
    ∷ field "action" (0x3f * 2 ^ 12)
    ∷ field "chain" (2 ^ 11)
    ∷ field "match" (0xf * 2 ^ 7)
    ∷ field "m" (2 ^ 6)
    ∷ field "h" (2 ^ 5)
    ∷ field "s" (2 ^ 4)
    ∷ field "u" (2 ^ 3)
    ∷ field "execute" (2 ^ 2)
    ∷ field "store" (2 ^ 1)
    ∷ field "load" (2 ^ 0)
    ∷ []

mip_fields : List Field
mip_fields =
    field "ssip" (2 ^ irq_s_soft)
    ∷ field "hsip" (2 ^ irq_h_soft)
    ∷ field "msip" (2 ^ irq_m_soft)
    ∷ field "stip" (2 ^ irq_s_timer)
    ∷ field "htip" (2 ^ irq_h_timer)
    ∷ field "mtip" (2 ^ irq_m_timer)
    ∷ field "seip" (2 ^ irq_s_ext)
    ∷ field "heip" (2 ^ irq_h_ext)
    ∷ field "meip" (2 ^ irq_m_ext)
    ∷ []

satp32_fields : List Field
satp32_fields = field "mode" 0x80000000 ∷ field "asid" 0x7fc00000 ∷ field "ppn" 0x003fffff ∷ []

satp64_fields : List Field
satp64_fields =
    field "mode" 0xf000000000000000
    ∷ field "asid" 0x0ffff00000000000
    ∷ field "ppn" 0x00000fffffffffff
    ∷ []

pmp_fields : List Field
pmp_fields = field "r" 0x01 ∷ field "w" 0x02 ∷ field "x" 0x04 ∷ field "a" 0x18 ∷ field "l" 0x80 ∷ []

pte_fields : List Field
pte_fields =
    field "v" 0x001
    ∷ field "r" 0x002
    ∷ field "w" 0x004
    ∷ field "x" 0x008
    ∷ field "u" 0x010
    ∷ field "g" 0x020
    ∷ field "a" 0x040
    ∷ field "d" 0x080
    ∷ field "soft" 0x300
    ∷ []

-- The registers with their fields.
unfoldable pub register_fields : List (List Field)
unfolding mstatus_fields sstatus_fields dcsr_fields mcontrol_fields mip_fields satp32_fields
    satp64_fields pmp_fields pte_fields
register_fields =
    mstatus_fields
    ∷ sstatus_fields
    ∷ dcsr_fields
    ∷ mcontrol_fields 32
    ∷ mcontrol_fields 64
    ∷ mip_fields
    ∷ satp32_fields
    ∷ satp64_fields
    ∷ pmp_fields
    ∷ pte_fields
    ∷ []

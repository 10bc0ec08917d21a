-- ===== src/Encoding/Examples.antt =====
-- The encodings at concrete words.
use riscv_dbg.Common.{ℕ, ◌≡◌, ◌↔◌, refl, true, some, get_elem?}
use riscv_dbg.Encoding.{Insn, insn, Csr, csr, matches}
use riscv_dbg.Encoding.Compressed.{compressed_table}
use riscv_dbg.Encoding.PkgCsrs.{csr_reg_t}
use riscv_dbg.Encoding.Decode.{table, decode}
use riscv_dbg.Encoding.Unique.{decode_iff}
use riscv_dbg.Encoding.Fields.{Field, field}
use riscv_dbg.Encoding.Csrs.{csrs}

abbrev jal : Insn
jal = insn "jal" 0x6f 0x7f

decode_iff_example :
    (decode table 0x0180006f ≡ some jal)
    ↔ ((i : ℕ) × (get_elem? table i ≡ some jal) × (matches jal 0x0180006f ≡ true))
decode_iff_example = decode_iff 0x0180006f jal

decodes_jal : decode table 0x0180006f ≡ some jal
unfolding decode table
decodes_jal = refl

jal_at : get_elem? table 7 ≡ some jal
unfolding table
jal_at = refl

abbrev c_nop : Insn
c_nop = insn "c_nop" 0x1 0xffff

c_nop_at : get_elem? compressed_table 0 ≡ some c_nop
unfolding compressed_table
c_nop_at = refl

abbrev frm : Csr
frm = csr "frm" 0x2

frm_at : get_elem? csrs 1 ≡ some frm
unfolding csrs
frm_at = refl

frm_in_package : get_elem? csr_reg_t 1 ≡ some frm
unfolding csr_reg_t
frm_in_package = refl

-- The fields `fs` and `xs` of mstatus.
abbrev fs : Field
fs = field "fs" 0x6000

abbrev xs : Field
xs = field "xs" 0x18000

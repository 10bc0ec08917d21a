-- ===== src/Csrs/Cases.antt =====
-- The case of the operation in the block `csr_read_write` of src/dm_csrs.sv.
use riscv_dbg.Common.{◌≡◌, arith, Bool, true, false, ◌&&◌, ◌||◌, if◌then◌else◌}
use riscv_dbg.Csrs.{Outcome}

-- What holds of an accepted read with `on_read`, of an accepted write with `on_write` and else with
-- false, holds of the outcome of the request.
pub by_operation {ℓ} :
    (P : Bool → Outcome → Type ℓ) (accepts reads writes on_read on_write : Bool)
    {idle read written : Outcome}
    → (reads && writes) ≡ false
    → P false idle
    → P on_read read
    → P on_write written
    → P
        (accepts && ((reads && on_read) || (writes && on_write)))
        (if accepts && reads then read else if accepts && writes then written else idle)
by_operation P false reads writes on_read on_write one p r w = p
by_operation P true true true on_read on_write one p r w = absurd (ground arith)
by_operation P true true false true on_write one p r w = r
by_operation P true true false false on_write one p r w = r
by_operation P true false true on_read on_write one p r w = w
by_operation P true false false on_read on_write one p r w = p

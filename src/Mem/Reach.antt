-- ===== src/Mem/Reach.antt =====
-- What the program of an abstract command moves between a hart and the data registers of src/dm_mem.sv.
use riscv_dbg.Mem.{Mem}
use riscv_dbg.Mem.Hart.{Hart}

-- ===== src/Mem/Hart.antt =====
-- A hart that runs an abstract command: the meaning that the RISC-V manual gives to the generated
-- instructions. The memory is not part of the repository: its type and what loads and stores of it
-- do are parameters.
use riscv_dbg.Common.{ℕ, ◌+◌, ◌*◌, ◌/◌, ◌^◌, List, [], ◌∷◌, ◌==◌, if◌then◌else◌}
use riscv_dbg.Opcodes.Asm.{
  Asm, slli, srli, auipc, load, float_load, store, float_store, csrw, csrr, ebreak,
}

pub record Bus : Type 1 where
  pub Memory : Type 0
  pub load_value : (size address : ℕ) → Memory → ℕ
  pub store_value : (size address value : ℕ) → Memory → Memory

pub record Hart (b : Bus) : Type 0 where
  pub regs : ℕ → ℕ
  pub fregs : ℕ → ℕ
  pub csrs : ℕ → ℕ
  pub memory : b.Memory

-- A register file in which the value stands at index `i`.
abbrev pub update : (ℕ → ℕ) → ℕ → ℕ → ℕ → ℕ
update f i v k = if k == i then v else f k

-- `x0` reads as 0, and a write to it is lost.
abbrev pub reg : {b : Bus} → Hart b → ℕ → ℕ
reg h k = if k == 0 then 0 else h.regs k

abbrev set_reg : {b : Bus} → ℕ → ℕ → Hart b → Hart b
set_reg i v h = record h { regs = update h.regs i v }

-- One instruction at the address `pc`. Jumps and branches are not used here.
exec : {b : Bus} → Asm → ℕ → Hart b → Hart b
exec (auipc rd) pc h = set_reg rd pc h
exec (srli rd rs1 imm) pc h = set_reg rd (reg h rs1 / 2 ^ imm) h
exec (slli rd rs1 imm) pc h = set_reg rd (reg h rs1 * 2 ^ imm) h
exec {b} (load size rd rs1 imm) pc h = set_reg rd (b.load_value size (reg h rs1 + imm) h.memory) h
exec {b} (store size rs2 rs1 imm) pc h = record h {
  memory = b.store_value size (reg h rs1 + imm) (reg h rs2) h.memory;
}
exec {b} (float_load size rd rs1 imm) pc h = record h {
  fregs = update h.fregs rd (b.load_value size (reg h rs1 + imm) h.memory);
}
exec {b} (float_store size rs2 rs1 imm) pc h = record h {
  memory = b.store_value size (reg h rs1 + imm) (h.fregs rs2) h.memory;
}
exec (csrw csr rs1) pc h = record h { csrs = update h.csrs csr (reg h rs1) }
exec (csrr csr rd) pc h = set_reg rd (h.csrs csr) h
exec _ pc h = h

-- Instructions in a row, up to an `ebreak`.
unfoldable pub run : {b : Bus} → List Asm → ℕ → Hart b → Hart b
unfolding exec
run [] pc h = h
run (ebreak ∷ rest) pc h = h
run (a ∷ rest) pc h = run rest (pc + 4) (exec a pc h)

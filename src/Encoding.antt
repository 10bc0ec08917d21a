-- ===== src/Encoding.antt =====
-- The instruction and register encodings of debug_rom/encoding.h: an entry of a table is a
-- `DECLARE_INSN` or `DECLARE_CSR` line with the constants that it names.
pub mod Integer
pub mod System
pub mod Float
pub mod Compressed
pub mod Custom
pub mod UserCsrs
pub mod MachineCsrs
pub mod PkgCsrs
pub mod Decode
pub mod Unique
pub mod Csrs
pub mod Fields
pub mod Apart
mod Examples
use Prim.Native.Nat.{bit_and}
use Prim.Native.String.{String}
use riscv_dbg.Common.{ℕ, Bool, ◌==◌}

pub record Insn : Type 0 where
  pub name : String
  pub match : ℕ
  pub mask : ℕ

abbrev pub insn : String → ℕ → ℕ → Insn
insn name match mask = record { name = name; match = match; mask = mask }

pub record Csr : Type 0 where
  pub name : String
  pub address : ℕ

abbrev pub csr : String → ℕ → Csr
csr name address = record { name = name; address = address }

-- The bits under the mask are those of the match constant.
abbrev pub matches : Insn → ℕ → Bool
matches x word = bit_and word x.mask == x.match

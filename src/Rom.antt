-- ===== src/Rom.antt =====
-- The debug ROM: debug_rom/debug_rom.sv and debug_rom/debug_rom_one_scratch.sv, as the hardware
-- reads it, and debug_rom/debug_rom.h and debug_rom/debug_rom_one_scratch.h, as the simulator does.
pub mod Fetch
pub mod Generator
mod Examples
use Prim.Native.String.{String}
use riscv_dbg.Common.{
  ℕ, zero, suc, ◌/◌, ◌%◌, ◌^◌, Bool, true, false, List, [], ◌∷◌, ◌++◌, Option, none, some,
  get_elem?, ltb, if◌then◌else◌,
}

-- `reset_vec` of debug_rom/debug_rom.h.
two_scratch_words : List ℕ
two_scratch_words =
    0x0180006f ∷ 0x00000013 ∷ 0x0840006f ∷ 0x00000013 ∷ 0x0500006f ∷ 0x00000013 ∷ 0x0ff0000f
    ∷ 0x7b241073 ∷ 0x7b351073 ∷ 0x00000517 ∷ 0x00c55513 ∷ 0x00c51513 ∷ 0xf1402473 ∷ 0x10852023
    ∷ 0x00a40433 ∷ 0x40044403 ∷ 0x00147413 ∷ 0x02041c63 ∷ 0xf1402473 ∷ 0x00a40433 ∷ 0x40044403
    ∷ 0x00247413 ∷ 0xfa0418e3 ∷ 0xfd5ff06f ∷ 0x00000517 ∷ 0x00c55513 ∷ 0x00c51513 ∷ 0x10052c23
    ∷ 0x7b302573 ∷ 0x7b202473 ∷ 0x00100073 ∷ 0x10052423 ∷ 0x7b302573 ∷ 0x7b202473 ∷ 0xa79ff06f
    ∷ 0xf1402473 ∷ 0x10852823 ∷ 0x7b302573 ∷ 0x7b202473 ∷ 0x7b200073 ∷ []

-- `mem` of debug_rom/debug_rom.sv, `mem[0]` first.
two_scratch_mem : List ℕ
two_scratch_mem =
    0x000000130180006f ∷ 0x000000130840006f ∷ 0x000000130500006f ∷ 0x7b2410730ff0000f
    ∷ 0x000005177b351073 ∷ 0x00c5151300c55513 ∷ 0x10852023f1402473 ∷ 0x4004440300a40433
    ∷ 0x02041c6300147413 ∷ 0x00a40433f1402473 ∷ 0x0024741340044403 ∷ 0xfd5ff06ffa0418e3
    ∷ 0x00c5551300000517 ∷ 0x10052c2300c51513 ∷ 0x7b2024737b302573 ∷ 0x1005242300100073
    ∷ 0x7b2024737b302573 ∷ 0xf1402473a79ff06f ∷ 0x7b30257310852823 ∷ 0x7b2000737b202473 ∷ []

-- `reset_vec` of debug_rom/debug_rom_one_scratch.h.
one_scratch_words : List ℕ
one_scratch_words =
    0x0180006f ∷ 0x00000013 ∷ 0x0580006f ∷ 0x00000013 ∷ 0x0380006f ∷ 0x00000013 ∷ 0x0ff0000f
    ∷ 0x7b241073 ∷ 0xf1402473 ∷ 0x10802023 ∷ 0x40044403 ∷ 0x00147413 ∷ 0x02041263 ∷ 0xf1402473
    ∷ 0x40044403 ∷ 0x00247413 ∷ 0xfc0414e3 ∷ 0xfddff06f ∷ 0x10002c23 ∷ 0x7b202473 ∷ 0x00100073
    ∷ 0x10002423 ∷ 0x7b202473 ∷ 0xaa5ff06f ∷ 0xf1402473 ∷ 0x10802823 ∷ 0x7b202473 ∷ 0x7b200073 ∷ []

-- `mem` of debug_rom/debug_rom_one_scratch.sv, `mem[0]` first.
one_scratch_mem : List ℕ
one_scratch_mem =
    0x000000130180006f ∷ 0x000000130580006f ∷ 0x000000130380006f ∷ 0x7b2410730ff0000f
    ∷ 0x10802023f1402473 ∷ 0x0014741340044403 ∷ 0xf140247302041263 ∷ 0x0024741340044403
    ∷ 0xfddff06ffc0414e3 ∷ 0x7b20247310002c23 ∷ 0x1000242300100073 ∷ 0xaa5ff06f7b202473
    ∷ 0x10802823f1402473 ∷ 0x7b2000737b202473 ∷ []

-- The ROM for a debug module that is not at address 0, and the one for a module that is.
unfoldable pub words : Bool → List ℕ
unfolding two_scratch_words one_scratch_words
words snd_scratch = if snd_scratch then two_scratch_words else one_scratch_words

pub mem : Bool → List ℕ
unfolding two_scratch_mem one_scratch_mem
mem snd_scratch = if snd_scratch then two_scratch_mem else one_scratch_mem

rom_size : Bool → ℕ
rom_size snd_scratch = if snd_scratch then 20 else 14

-- `$clog2(RomSize)`
unfoldable pub addr_width : Bool → ℕ
addr_width snd_scratch = if snd_scratch then 5 else 4

-- `addr_d`, which a rising clock edge stores in `addr_q`.
unfoldable pub clock : Bool → Bool → ℕ → ℕ → ℕ
unfolding addr_width
clock snd_scratch req_i addr_i addr_q =
    if req_i then addr_i / 8 % 2 ^ addr_width snd_scratch else addr_q

abbrev or_zero : Option ℕ → ℕ
or_zero none = 0
or_zero (some w) = w

-- `p_outmux`
unfoldable pub rdata_o : Bool → ℕ → ℕ
unfolding rom_size mem
rdata_o snd_scratch addr_q =
    if ltb addr_q (rom_size snd_scratch) then or_zero (get_elem? (mem snd_scratch) addr_q) else 0

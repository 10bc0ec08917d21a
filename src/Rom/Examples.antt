-- ===== src/Rom/Examples.antt =====
-- The debug ROM at concrete addresses.
use riscv_dbg.Common.{ℕ, arith, List, [], ◌∷◌, ◌+◌, ◌*◌, ◌/◌, ◌%◌, ◌^◌, ◌≡◌, refl, true, length}
use riscv_dbg.Common.Bytes.{byte_at}
use riscv_dbg.Rom.{words}
use riscv_dbg.Rom.Generator.{read_bin, header_words, rom_rows, entry, AreBytes, read_bin-files}
use riscv_dbg.Rom.Fetch.{word_at}

first_fence : word_at true (0x818 / 4 % 64) ≡ 0x0ff0000f
unfolding word_at words
first_fence = refl

-- Five bytes.
abbrev five_bytes : List ℕ
five_bytes = 0x6f ∷ 0x00 ∷ 0x80 ∷ 0x01 ∷ 0x13 ∷ []

read_bin-files_example :
    let p = read_bin five_bytes in
    (byte_at 2 (entry (header_words p) 0) ≡ 0x80)
    × (entry (rom_rows p) 0 ≡ 0x13 * 2 ^ 32 + 0x0180006f)
    × (length (header_words p) ≡ 2)
    × (8 * length (rom_rows p) ≡ 8)
unfolding byte_at read_bin header_words rom_rows AreBytes
read_bin-files_example = read_bin-files five_bytes 2 0 (ground arith)

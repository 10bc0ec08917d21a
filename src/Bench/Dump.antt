-- ===== src/Bench/Dump.antt =====
-- The dump of the memory.
use riscv_dbg.Common.{
  ℕ, zero, suc, ◌+◌, ◌/◌, ◌%◌, ◌^◌, ◌<◌, ◌≡◌, ◌∙◌, refl, ap, arith, true, List, [], ◌∷◌,
  if◌then◌else◌,
}
use riscv_dbg.Bench.{hex, line, File, finished, exception, dump_from, dump_memory, memory_size}

-- The line of a byte has its two digits.
line-byte : (v : ℕ) → v < 256 → line v ≡ v / 16 ∷ v % 16 ∷ []
unfolding line hex
line-byte v small = ground arith

-- No file operation fails.
pub record IsWorking (f : File) : Type 0 where
  pub opened : f.opens ≡ true
  pub written : (i : ℕ) → f.writes i ≡ true
  pub closed : f.closes ≡ true

-- The two digits of every byte.
digits_from : (ℕ → ℕ) → (size i : ℕ) → List (List ℕ)
digits_from read_byte zero i = []
digits_from read_byte (suc size) i =
    (read_byte i / 16 ∷ read_byte i % 16 ∷ []) ∷ digits_from read_byte size (i + 1)

line-read : (v : ℕ) → v < 256 → line (v % 2 ^ 32) ≡ v / 16 ∷ v % 16 ∷ []
line-read v small =
    let whole : v % 2 ^ 32 ≡ v = omega (arith, small) in ap line whole ∙ line-byte v small

dump_from-digits :
    (read_byte : ℕ → ℕ) (f : File) (size i : ℕ)
    → IsWorking f
    → ((k : ℕ) → read_byte k < 256)
    → dump_from read_byte f size i ≡ (digits_from read_byte size i, finished)
unfolding dump_from digits_from
dump_from-digits read_byte f zero i h byte = rw h.closed refl
dump_from-digits read_byte f (suc size) i h byte =
    rw
      (
        h.written i,
        dump_from-digits read_byte f size (i + 1) h byte,
        line-read (read_byte i) (byte i),
      )
      refl

opened-digits :
    (read_byte : ℕ → ℕ) (f : File) (size : ℕ)
    → IsWorking f
    → ((k : ℕ) → read_byte k < 256)
    → (if f.opens then dump_from read_byte f size 0 else ([], exception))
      ≡ (digits_from read_byte size 0, finished)
unfolding dump_from
opened-digits read_byte f size h byte = rw h.opened (dump_from-digits read_byte f size 0 h byte)

-- If no operation on the file fails and the memory holds bytes, the dump has one line for each byte
-- of the memory, in the order of the addresses, with the two hexadecimal digits of the byte, and the
-- program says that it has finished.
dump_memory-digits :
    (read_byte : ℕ → ℕ) (f : File)
    → IsWorking f
    → ((k : ℕ) → read_byte k < 256)
    → dump_memory read_byte f ≡ (digits_from read_byte memory_size 0, finished)
unfolding dump_memory
dump_memory-digits read_byte f h byte = opened-digits read_byte f memory_size h byte

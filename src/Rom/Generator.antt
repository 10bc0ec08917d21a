-- ===== src/Rom/Generator.antt =====
-- The generator of the ROM files, debug_rom/gen_rom.py: what it writes for the bytes of an image. The
-- command line, the files and the text around the numbers are left out.
use riscv_dbg.Common.{
  ℕ, zero, suc, ◌+◌, ◌-◌, ◌*◌, ◌/◌, ◌%◌, ◌^◌, ◌<◌, ◌≡◌, ◌∙◌, refl, sym, arith, Bool, true, false,
  List, [], ◌∷◌, ◌++◌, length, replicate, get_elem?,
}
use native.Mathlib.Nat.{zero-div}
use riscv_dbg.Common.Bytes.{byte_at}
use riscv_dbg.Rom.{or_zero, words, mem}

-- `read_bin`: the image with zeros up to a multiple of 8 bytes.
unfoldable pub read_bin : List ℕ → List ℕ
read_bin rom = let align = (length rom + 7) / 8 * 8 in rom ++ replicate (align - length rom) 0

-- The digits of 4 bytes, the last first.
abbrev joined : (a b c d : ℕ) → ℕ
joined a b c d = d * 2 ^ 24 + c * 2 ^ 16 + b * 2 ^ 8 + a

-- The numbers of the C array.
unfoldable pub header_words : List ℕ → List ℕ
header_words (a ∷ b ∷ c ∷ d ∷ rom) = joined a b c d ∷ header_words rom
header_words _ = []

-- The numbers of the hardware ROM from `mem[0]` on; the text has them in the opposite order, as the
-- concatenation of an array has its last entry first.
unfoldable pub rom_rows : List ℕ → List ℕ
rom_rows (a ∷ b ∷ c ∷ d ∷ e ∷ f ∷ g ∷ h ∷ rom) =
    (joined e f g h * 2 ^ 32 + joined a b c d) ∷ rom_rows rom
rom_rows _ = []

-- An entry, and 0 behind the end.
abbrev pub entry : List ℕ → ℕ → ℕ
entry l n = or_zero (get_elem? l n)

-- Bytes.
unfoldable pub AreBytes : List ℕ → Type 0
AreBytes [] = Unit
AreBytes (b ∷ l) = (b < 256) × AreBytes l

word_byte :
    (a b c d n : ℕ)
    → a < 256
    → b < 256
    → c < 256
    → d < 256
    → n < 4
    → byte_at n (joined a b c d) ≡ entry (a ∷ b ∷ c ∷ d ∷ []) n
unfolding byte_at
word_byte a b c d zero ha hb hc hd h = omega (arith, ha, hb, hc, hd)
word_byte a b c d (suc zero) ha hb hc hd h = omega (arith, ha, hb, hc, hd)
word_byte a b c d (suc (suc zero)) ha hb hc hd h = omega (arith, ha, hb, hc, hd)
word_byte a b c d (suc (suc (suc zero))) ha hb hc hd h = omega (arith, ha, hb, hc, hd)
word_byte a b c d (suc (suc (suc (suc n)))) ha hb hc hd h = absurd (omega (arith, h))

zero_byte : (k : ℕ) → byte_at k 0 ≡ 0
unfolding byte_at
zero_byte k = rw (zero-div (2 ^ (8 * k))) refl

-- Byte `n` of the words, if there are whole words.
header_bytes :
    (l : List ℕ) (n : ℕ)
    → AreBytes l
    → length l % 4 ≡ 0
    → byte_at (n % 4) (entry (header_words l) (n / 4)) ≡ entry l n
unfolding header_words AreBytes
header_bytes [] n h whole = zero_byte (n % 4)
header_bytes (a ∷ []) n h whole = absurd (omega (arith, whole))
header_bytes (a ∷ b ∷ []) n h whole = absurd (omega (arith, whole))
header_bytes (a ∷ b ∷ c ∷ []) n h whole = absurd (omega (arith, whole))
header_bytes (a ∷ b ∷ c ∷ d ∷ l) zero h whole =
    word_byte a b c d 0 h.0 h.1.0 h.1.1.0 h.1.1.1.0 (omega arith)
header_bytes (a ∷ b ∷ c ∷ d ∷ l) (suc zero) h whole =
    word_byte a b c d 1 h.0 h.1.0 h.1.1.0 h.1.1.1.0 (omega arith)
header_bytes (a ∷ b ∷ c ∷ d ∷ l) (suc (suc zero)) h whole =
    word_byte a b c d 2 h.0 h.1.0 h.1.1.0 h.1.1.1.0 (omega arith)
header_bytes (a ∷ b ∷ c ∷ d ∷ l) (suc (suc (suc zero))) h whole =
    word_byte a b c d 3 h.0 h.1.0 h.1.1.0 h.1.1.1.0 (omega arith)
header_bytes (a ∷ b ∷ c ∷ d ∷ l) (suc (suc (suc (suc n)))) h whole =
    let row : suc (suc (suc (suc n))) / 4 ≡ suc (n / 4) = omega arith in
    let column : suc (suc (suc (suc n))) % 4 ≡ n % 4 = omega arith in
    rw (row, column) (header_bytes l n h.1.1.1.1 (omega (arith, whole)))

-- A row is two words, the second in the upper half.
rows_of_words :
    (l : List ℕ) (q : ℕ)
    → length l % 8 ≡ 0
    → entry (rom_rows l) q
      ≡ entry (header_words l) (2 * q + 1) * 2 ^ 32 + entry (header_words l) (2 * q)
unfolding rom_rows header_words
rows_of_words [] q whole = refl
rows_of_words (a ∷ []) q whole = absurd (omega (arith, whole))
rows_of_words (a ∷ b ∷ []) q whole = absurd (omega (arith, whole))
rows_of_words (a ∷ b ∷ c ∷ []) q whole = absurd (omega (arith, whole))
rows_of_words (a ∷ b ∷ c ∷ d ∷ []) q whole = absurd (omega (arith, whole))
rows_of_words (a ∷ b ∷ c ∷ d ∷ e ∷ []) q whole = absurd (omega (arith, whole))
rows_of_words (a ∷ b ∷ c ∷ d ∷ e ∷ f ∷ []) q whole = absurd (omega (arith, whole))
rows_of_words (a ∷ b ∷ c ∷ d ∷ e ∷ f ∷ g ∷ []) q whole = absurd (omega (arith, whole))
rows_of_words (a ∷ b ∷ c ∷ d ∷ e ∷ f ∷ g ∷ h ∷ l) zero whole = refl
rows_of_words (a ∷ b ∷ c ∷ d ∷ e ∷ f ∷ g ∷ h ∷ l) (suc q) whole =
    let low : 2 * suc q ≡ suc (suc (2 * q)) = omega arith in
    let high : 2 * suc q + 1 ≡ suc (suc (2 * q + 1)) = omega arith in
    rw (high, low) (rows_of_words l q (omega (arith, whole)))

sizes :
    (l : List ℕ)
    → length l % 8 ≡ 0
    → (length (header_words l) ≡ 2 * length (rom_rows l)) × (length l ≡ 8 * length (rom_rows l))
unfolding rom_rows header_words
sizes [] whole = (refl, refl)
sizes (a ∷ []) whole = absurd (omega (arith, whole))
sizes (a ∷ b ∷ []) whole = absurd (omega (arith, whole))
sizes (a ∷ b ∷ c ∷ []) whole = absurd (omega (arith, whole))
sizes (a ∷ b ∷ c ∷ d ∷ []) whole = absurd (omega (arith, whole))
sizes (a ∷ b ∷ c ∷ d ∷ e ∷ []) whole = absurd (omega (arith, whole))
sizes (a ∷ b ∷ c ∷ d ∷ e ∷ f ∷ []) whole = absurd (omega (arith, whole))
sizes (a ∷ b ∷ c ∷ d ∷ e ∷ f ∷ g ∷ []) whole = absurd (omega (arith, whole))
sizes (a ∷ b ∷ c ∷ d ∷ e ∷ f ∷ g ∷ h ∷ l) whole =
    let (x, y) = sizes l (omega (arith, whole)) in (omega (arith, x), omega (arith, y))

-- The zeros at the end.
padded_length : (l : List ℕ) (k : ℕ) → length (l ++ replicate k 0) ≡ length l + k
padded_length [] zero = refl
padded_length [] (suc k) = let rest = padded_length [] k in omega (arith, rest)
padded_length (a ∷ l) k = let rest = padded_length l k in omega (arith, rest)

padded_entry : (l : List ℕ) (k n : ℕ) → entry (l ++ replicate k 0) n ≡ entry l n
padded_entry [] zero n = refl
padded_entry [] (suc k) zero = refl
padded_entry [] (suc k) (suc n) = padded_entry [] k n
padded_entry (a ∷ l) k zero = refl
padded_entry (a ∷ l) k (suc n) = padded_entry l k n

padded-AreBytes : (l : List ℕ) (k : ℕ) → AreBytes l → AreBytes (l ++ replicate k 0)
unfolding AreBytes
padded-AreBytes [] zero h = tt
padded-AreBytes [] (suc k) h = (omega arith, padded-AreBytes [] k h)
padded-AreBytes (a ∷ l) k h = (h.0, padded-AreBytes l k h.1)

-- For every image both files hold its bytes and nothing but zeros behind them: byte `n` is byte
-- `n % 4` of word `n / 4` of the C array, entry `q` of the hardware ROM is two words of the array, the
-- second in the upper half, the array has twice as many entries as the ROM, and less than a row is
-- filled up.
pub read_bin-files :
    (rom : List ℕ) (n q : ℕ)
    → AreBytes rom
    → let p = read_bin rom in
      (byte_at (n % 4) (entry (header_words p) (n / 4)) ≡ entry rom n)
      × (entry (rom_rows p) q
          ≡ entry (header_words p) (2 * q + 1) * 2 ^ 32 + entry (header_words p) (2 * q))
      × (length (header_words p) ≡ 2 * length (rom_rows p))
      × (8 * length (rom_rows p) ≡ (length rom + 7) / 8 * 8)
unfolding read_bin
read_bin-files rom n q h =
    let size = (length rom + 7) / 8 * 8 in
    let k = size - length rom in
    let p = rom ++ replicate k 0 in
    let long : length p ≡ size = padded_length rom k ∙ omega arith in
    let whole : length p % 8 ≡ 0 = omega (arith, long) in
    let (double, rows) = sizes p whole in
    (
      header_bytes p n (padded-AreBytes rom k h) (omega (arith, whole)) ∙ padded_entry rom k n,
      rows_of_words p q whole,
      double,
      sym rows ∙ long,
    )

-- The bytes of words.
unfoldable pub image : List ℕ → List ℕ
image [] = []
image (w ∷ l) = w % 256 ∷ w / 2 ^ 8 % 256 ∷ w / 2 ^ 16 % 256 ∷ w / 2 ^ 24 ∷ image l

-- The four generated files of the repository are what the generator writes for an image for each of
-- the two ROMs: that of the words of the C array.
checked_in :
    (snd_scratch : Bool)
    → (header_words (read_bin (image (words snd_scratch))) ≡ words snd_scratch)
      × (rom_rows (read_bin (image (words snd_scratch))) ≡ mem snd_scratch)
unfolding read_bin header_words rom_rows image words mem
checked_in true = (refl, refl)
checked_in false = (refl, refl)

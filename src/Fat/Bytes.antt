-- ===== src/Fat/Bytes.antt =====
-- Machine words, and the words that lib/fat/fat.c reads and writes in a block through casts of
-- `cache_block`. The target stores words with the low byte first.
use ccpu_libsys.Prelude.{ℕ, ◌+◌, ◌*◌, ◌/◌, ◌%◌, ◌<◌, ◌≡◌, ◌≢◌, arith, ◌==◌, if◌then◌else◌}
use ccpu_libsys.Fat.Card.{Block}

abbrev pub u8 : ℕ → ℕ
u8 x = x % 256

abbrev pub u16 : ℕ → ℕ
u16 x = x % 65536

abbrev pub u32 : ℕ → ℕ
u32 x = x % 0x1_0000_0000

-- `b[i] = v`
abbrev pub put_byte : Block → ℕ → ℕ → Block
put_byte b i v j = if j == i then v else b j

unfoldable pub get_u16 : Block → ℕ → ℕ
get_u16 b o = b o + 256 * b (o + 1)

unfoldable pub put_u16 : Block → ℕ → ℕ → Block
put_u16 b o v = put_byte (put_byte b o (v % 256)) (o + 1) (v / 256 % 256)

unfoldable pub get_u32 : Block → ℕ → ℕ
get_u32 b o = b o + 256 * b (o + 1) + 65536 * b (o + 2) + 0x100_0000 * b (o + 3)

-- `((uint16_t *)cache_block)[i]`
abbrev pub get_word : Block → ℕ → ℕ
get_word b i = get_u16 b (2 * i)

abbrev pub put_word : Block → ℕ → ℕ → Block
put_word b i v = put_u16 b (2 * i) v

pub get_word-put_word_self : (b : Block) (i v : ℕ) → v < 65536 → get_word (put_word b i v) i ≡ v
unfolding get_u16 put_u16
get_word-put_word_self b i v h = ground arith

pub get_word-put_word_ne :
    (b : Block) (i j v : ℕ) → i ≢ j → get_word (put_word b i v) j ≡ get_word b j
unfolding get_u16 put_u16
get_word-put_word_ne b i j v h = ground arith

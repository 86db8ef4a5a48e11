-- ===== src/Fat/Entry.antt =====
-- `struct FatDirEntry` in memory: the 32 bytes that lib/fat/fat.c copies with `memcpy` between
-- `cache_block` and its records (include/libsys/fat/fat.h).
pub mod RoundTrip
use ccpu_libsys.Prelude.{ℕ, zero, suc, ◌+◌, ◌*◌, ◌/◌, ◌%◌, List, [], ◌∷◌, ◌++◌, ◌==◌, if◌then◌else◌}
use ccpu_libsys.Fat.Card.{Block}
use ccpu_libsys.Fat.Bytes.{put_byte, get_u16, get_u32}
use ccpu_libsys.Fat.State.{FatDirEntry}

unfoldable pub get_bytes : ℕ → Block → ℕ → List ℕ
get_bytes zero b o = []
get_bytes (suc n) b o = b o ∷ get_bytes n b (o + 1)

unfoldable pub put_bytes : List ℕ → Block → ℕ → Block
put_bytes [] b o = b
put_bytes (x ∷ xs) b o = put_bytes xs (put_byte b o x) (o + 1)

-- `memcpy(dst, cache_block + o, sizeof(struct FatDirEntry))`
unfoldable pub get_entry : Block → ℕ → FatDirEntry
get_entry b o = record {
  filename = get_bytes 11 b o;
  attrs = b (o + 11);
  reserved = b (o + 12);
  create_dsec = b (o + 13);
  create_time = get_u16 b (o + 14);
  create_date = get_u16 b (o + 16);
  access_date = get_u16 b (o + 18);
  cluster_hi = get_u16 b (o + 20);
  modify_time = get_u16 b (o + 22);
  modify_date = get_u16 b (o + 24);
  cluster_lo = get_u16 b (o + 26);
  size = get_u32 b (o + 28);
}

-- A word and a double word, low byte first, before `rest`.
abbrev pub word : ℕ → List ℕ → List ℕ
word v rest = v % 256 ∷ v / 256 % 256 ∷ rest

abbrev pub double_word : ℕ → List ℕ → List ℕ
double_word v rest = v % 256 ∷ v / 256 % 256 ∷ v / 65536 % 256 ∷ v / 0x100_0000 % 256 ∷ rest

unfoldable pub entry_bytes : FatDirEntry → List ℕ
entry_bytes e =
    e.filename
    ++ (e.attrs
        ∷ e.reserved
        ∷ e.create_dsec
        ∷ word e.create_time (
            word e.create_date (
              word e.access_date (
                word e.cluster_hi (
                  word e.modify_time
                    (word e.modify_date (word e.cluster_lo (double_word e.size []))))))))

-- `memcpy(cache_block + o, src, sizeof(struct FatDirEntry))`
unfoldable pub put_entry : Block → ℕ → FatDirEntry → Block
put_entry b o e = put_bytes (entry_bytes e) b o

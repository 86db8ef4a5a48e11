-- ===== src/Fat/Table/Entries.antt =====
-- `read_fat_entry` and `write_fat_entry` of lib/fat/fat.c against the table on the card.
use ccpu_libsys.Prelude.{ℕ, ◌+◌, ◌/◌, ◌<◌, ◌≤◌, ◌≡◌, ◌≢◌, ap, ◌⊎◌, arith}
use ccpu_libsys.Fat.Card.{Disk, update, CardOps, CardLaws}
use ccpu_libsys.Fat.Bytes.{get_word, put_word}
use mathlib.Core.Path.{subst, subst₂}
use ccpu_libsys.Fat.Error
use ccpu_libsys.Fat.State.{Sys, FatInfo, invalid_block_addr}
use ccpu_libsys.Fat.Cache.Laws.{
  disk, IsCoherent, SameTables, cache-Loaded, Wrote, cache-flush_cache-Wrote, &&>-Wrote,
  Wrote-SameTables,
}
use ccpu_libsys.Fat.Table.{
  entry_offset, store_entry, fat0_block, fat1_block, read_fat_entry, write_entry_at,
  write_fat_entry,
}

-- The tables lie behind one another below 2 ^ 32 - 1.
pub record IsLaidOut (f : FatInfo) : Type 0 where
  pub apart : f.fat0_offset + f.sectors_per_fat ≤ f.fat1_offset
  pub below : f.fat1_offset + f.sectors_per_fat ≤ invalid_block_addr

-- A number of a cluster that has an entry in the tables.
pub record HasEntry (f : FatInfo) (k : ℕ) : Type 0 where
  pub word : k < 65536
  pub sector : k / 256 < f.sectors_per_fat

-- Where an entry stands in the table that begins at `base`, its value, and a write of it.
abbrev pub entry_block : ℕ → ℕ → ℕ
entry_block base k = base + k / 256

unfoldable pub fat_entry : ℕ → Disk → ℕ → ℕ
fat_entry base d k = get_word (d (entry_block base k)) (entry_offset k)

unfoldable pub set_entry : ℕ → ℕ → ℕ → Disk → Disk
set_entry base k v d =
    update d (entry_block base k) (put_word (d (entry_block base k)) (entry_offset k) v)

-- Both tables.
unfoldable pub set_both : FatInfo → ℕ → ℕ → Disk → Disk
set_both f k v d = set_entry f.fat1_offset k v (set_entry f.fat0_offset k v d)

module _ {Card : Type 0} {ops : CardOps Card} (laws : CardLaws ops) where
  -- A read entry is the card's, or 0 with an error set and the cache empty.
  pub record ReadEntry (k : ℕ) (s : Sys Card) (r : ℕ × Sys Card) : Type 0 where
    pub same_disk : disk laws r.1 ≡ disk laws s
    pub same : SameTables laws s r.1
    pub coherent : IsCoherent laws r.1
    pub value :
        (r.0 ≡ fat_entry s.fat_info.fat0_offset (disk laws s) k)
        ⊎ ((r.0 ≡ 0) × (r.1.cache_block_addr ≡ invalid_block_addr) × (r.1.last_error ≢ Error.ok))

  -- With the tables laid out and a coherent cache, `read_fat_entry` of a cluster in the table changes nothing on the card; it returns the entry of
  -- the first table, or 0 with an error set and the cache empty.
  pub read_fat_entry-ReadEntry :
      (k : ℕ) (s : Sys Card)
      → IsLaidOut s.fat_info
      → HasEntry s.fat_info k
      → IsCoherent laws s
      → ReadEntry k s (read_fat_entry ops k s)
  unfolding read_fat_entry fat_entry
  read_fat_entry-ReadEntry k s g e v =
      let a : fat0_block k s ≡ entry_block s.fat_info.fat0_offset k = omega arith in
      ground (arith, a, cache-Loaded laws (fat0_block k s) s (omega arith) v)

  -- One table's entry.
  write_entry_at-Wrote :
      (base k v : ℕ) (s : Sys Card)
      → entry_block base k < invalid_block_addr
      → IsCoherent laws s
      → Wrote laws
          (set_entry base k v (disk laws s))
          s
          (write_entry_at ops (entry_block base k) k v s)
  unfolding write_entry_at set_entry store_entry
  write_entry_at-Wrote base k v s lt c =
      cache-flush_cache-Wrote laws (entry_block base k) (λ b. put_word b (entry_offset k) v) s
        (omega arith) c

  -- With the tables laid out and a coherent cache, for a cluster in the tables: where
  -- `write_fat_entry` returns true, it stored the value in both tables and changed nothing else on
  -- the card; where it returns false, an error is set. The geometry and the descriptors are kept, and
  -- coherence where it returns true.
  pub write_fat_entry-Wrote :
      (k v : ℕ) (s : Sys Card)
      → IsLaidOut s.fat_info
      → HasEntry s.fat_info k
      → IsCoherent laws s
      → Wrote laws (set_both s.fat_info k v (disk laws s)) s (write_fat_entry ops k v s)
  unfolding write_fat_entry set_both
  write_fat_entry-Wrote k v s g e c =
      let f = s.fat_info in
      let d0 = set_entry f.fat0_offset k v (disk laws s) in
      let a0 : entry_block f.fat0_offset k ≡ fat0_block k s = omega arith in
      let first : Wrote laws d0 s (write_entry_at ops (fat0_block k s) k v s) =
        subst (λ a. Wrote laws d0 s (write_entry_at ops a k v s)) a0
          (write_entry_at-Wrote f.fat0_offset k v s (omega arith) c) in
      &&>-Wrote laws (set_entry f.fat1_offset k v d0) s (write_entry_at ops (fat0_block k s) k v s)
        (λ t. write_entry_at ops (fat1_block k t) k v t) first.same first.failed
        λ ok.
          second d0 (write_entry_at ops (fat0_block k s) k v s).1 first.same (first.coherent ok)
            (first.done ok)
    where
      second :
          (d : Disk) (t : Sys Card)
          → SameTables laws s t
          → IsCoherent laws t
          → disk laws t ≡ d
          → Wrote laws
              (set_entry s.fat_info.fat1_offset k v d)
              s
              (write_entry_at ops (fat1_block k t) k v t)
      second d t same ct ed =
          let a1 : entry_block s.fat_info.fat1_offset k ≡ fat1_block k t =
            omega (arith, ap (λ (f : FatInfo). f.fat1_offset) same.info) in
          Wrote-SameTables laws same (
            subst₂
              (λ a d.
                Wrote laws (set_entry s.fat_info.fat1_offset k v d) t (write_entry_at ops a k v t))
              a1 ed (write_entry_at-Wrote s.fat_info.fat1_offset k v t (omega arith) ct))

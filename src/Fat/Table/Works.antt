-- ===== src/Fat/Table/Works.antt =====
-- The table operations of lib/fat/fat.c over a card on which no transfer fails: they succeed.
use ccpu_libsys.Prelude.{ℕ, ◌≡◌, true, arith}
use ccpu_libsys.Fat.Card.{CardOps, CardLaws, CardWorks}
use ccpu_libsys.Fat.State.{Sys}
use ccpu_libsys.Fat.Cache.{cache}
use ccpu_libsys.Fat.Cache.Laws.{disk, IsCoherent}
use ccpu_libsys.Fat.Cache.Works.{cache_works, flush_cache_works}
use ccpu_libsys.Fat.Cache.Laws.{cache-Loaded}
use ccpu_libsys.Fat.Table.{
  entry_offset, fat0_block, fat1_block, store_entry, read_fat_entry, write_entry_at,
  write_fat_entry,
}
use ccpu_libsys.Fat.Table.Entries.{IsLaidOut, HasEntry, entry_block, fat_entry}

module _ {Card : Type 0} {ops : CardOps Card} (laws : CardLaws ops) (works : CardWorks ops) where
  pub read_fat_entry_works :
      (k : ℕ) (s : Sys Card)
      → IsLaidOut s.fat_info
      → HasEntry s.fat_info k
      → IsCoherent laws s
      → (read_fat_entry ops k s).0 ≡ fat_entry s.fat_info.fat0_offset (disk laws s) k
  unfolding read_fat_entry fat_entry
  read_fat_entry_works k s g e c =
      let a : fat0_block k s ≡ entry_block s.fat_info.fat0_offset k = omega arith in
      ground (
        arith,
        a,
        cache-Loaded laws (fat0_block k s) s (omega arith) c,
        cache_works works (fat0_block k s) s,
      )

  write_entry_at_works : (a k v : ℕ) (s : Sys Card) → (write_entry_at ops a k v s).0 ≡ true
  unfolding write_entry_at
  write_entry_at_works a k v s =
      rw (cache_works works a s)
        (flush_cache_works works (store_entry (entry_offset k) v (cache ops a s).1))

  pub write_fat_entry_works : (k v : ℕ) (s : Sys Card) → (write_fat_entry ops k v s).0 ≡ true
  unfolding write_fat_entry
  write_fat_entry_works k v s =
      let t = (write_entry_at ops (fat0_block k s) k v s).1 in
      rw (write_entry_at_works (fat0_block k s) k v s) (write_entry_at_works (fat1_block k t) k v t)

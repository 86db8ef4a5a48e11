-- ===== src/Fat/Table.antt =====
-- The file allocation table in lib/fat/fat.c: `read_fat_entry`, `write_fat_entry`,
-- `alloc_cluster`, `find_parent_cluster` and `free_cluster_chain`. Cluster numbers and table
-- entries are below 2 ^ 16.
pub mod Entries
pub mod Sets
pub mod Works
pub mod Chains
pub mod Free
pub mod Freed
pub mod Mirror
pub mod FindFree
pub mod Steps
pub mod Alloc
use ccpu_libsys.Prelude.{
  ℕ, zero, suc, ◌+◌, ◌-◌, ◌*◌, ◌/◌, ◌%◌, ◌^◌, Bool, true, false, not, Option, none, some, ◌==◌, ltb,
  if◌then◌else◌,
}
use ccpu_libsys.Fat.Card.{Block, CardOps}
use ccpu_libsys.Fat.Bytes.{u8, u16, u32, get_word, put_word}
use ccpu_libsys.Fat.Error
use ccpu_libsys.Fat.State.{Sys, FatInfo, invalid_block_addr, fat_min_last_cluster}
use ccpu_libsys.Fat.Cache.{cache, flush_cache, ◌&&>◌}

-- `uint8_t entry_offset = index`, `uint8_t sector_index = index >> 8`
abbrev pub entry_offset : ℕ → ℕ
entry_offset index = u8 index

abbrev pub sector_index : ℕ → ℕ
sector_index index = u8 (index / 256)

module _ {Card : Type 0} where
  -- `((uint16_t *)cache_block)[i] = v`
  unfoldable pub store_entry : ℕ → ℕ → Sys Card → Sys Card
  store_entry i v s = record s { cache_block = put_word s.cache_block i v }

  abbrev pub fat0_block : ℕ → Sys Card → ℕ
  fat0_block index s = u32 (s.fat_info.fat0_offset + sector_index index)

  abbrev pub fat1_block : ℕ → Sys Card → ℕ
  fat1_block index s = u32 (s.fat_info.fat1_offset + sector_index index)

module _ {Card : Type 0} (ops : CardOps Card) where
  unfoldable pub read_fat_entry : ℕ → Sys Card → ℕ × Sys Card
  read_fat_entry index s =
      let (ok, s') = cache ops (fat0_block index s) s in
      if ok then (get_word s'.cache_block (entry_offset index), s') else (0, s')

  -- One of the two halves of `write_fat_entry`.
  unfoldable pub write_entry_at : ℕ → ℕ → ℕ → Sys Card → Bool × Sys Card
  write_entry_at block index value s =
      cache ops block s &&> λ s'. flush_cache ops (store_entry (entry_offset index) value s')

  unfoldable pub write_fat_entry : ℕ → ℕ → Sys Card → Bool × Sys Card
  write_fat_entry index value s = write_entry_at (fat0_block index s) index value s &&> λ s'.
      write_entry_at (fat1_block index s') index value s'

  -- The loops return `none` if their fuel runs out.
  unfoldable pub find_parent_cluster : ℕ → ℕ → ℕ → Sys Card → Option (ℕ × Sys Card)
  find_parent_cluster zero head cur s = none
  find_parent_cluster (suc fuel) head cur s =
      let (next, s') = read_fat_entry head s in
      let rest = find_parent_cluster fuel next cur s' in
      if not (ltb head fat_min_last_cluster)
      then some (0, record s { last_error = Error.fs_broken })
      else if next == 0
      then some (0, s')
      else if next == cur
      then some (head, s')
      else rest

  unfoldable pub free_cluster_chain : ℕ → ℕ → Sys Card → Option (Bool × Sys Card)
  free_cluster_chain zero from s = none
  free_cluster_chain (suc fuel) from s =
      let (next, s1) = read_fat_entry from s in
      let (ok, s2) = write_fat_entry from 0 s1 in
      let rest = free_cluster_chain fuel next s2 in
      if not (ltb from fat_min_last_cluster)
      then some (true, s)
      else if next == 0
      then some (false, s1)
      else if ok
      then rest
      else some (false, s2)

-- The inner loop of `alloc_cluster`: the first of `n` entries from index `i` that is 0.
unfoldable pub find_free_entry : ℕ → ℕ → Block → Option ℕ
find_free_entry zero i b = none
find_free_entry (suc n) i b =
    let rest = find_free_entry n (i + 1) b in if get_word b i == 0 then some i else rest

module _ {Card : Type 0} (ops : CardOps Card) where
  -- `cache_block_addr = …; flush_cache()`: the same bytes go to another block.
  unfoldable pub flush_as : ℕ → Sys Card → Bool × Sys Card
  flush_as a s = flush_cache ops (record s { cache_block_addr = a })

  -- "now write its parent, start with fat1"
  unfoldable pub link_parent : ℕ → ℕ → Sys Card → Bool × Sys Card
  link_parent last result s =
      let f = s.fat_info in
      let block_addr = u32 (f.fat1_offset + last / 256) in
      cache ops block_addr s
      &&> (λ s1. flush_cache ops (store_entry (u8 last) result s1))
      &&> flush_as (u32 (block_addr + f.fat0_offset + 0x1_0000_0000 - f.fat1_offset))

  -- The body of the inner loop at a free entry `i` of the cached block.
  unfoldable pub take_entry : ℕ → ℕ → ℕ → ℕ → Sys Card → Bool × Sys Card
  take_entry last block_addr i result s =
      let f = s.fat_info in
      flush_cache ops (store_entry i 0xffff s)
      &&> flush_as (u32 (block_addr + f.fat1_offset + 0x1_0000_0000 - f.fat0_offset))
      &&> (λ s2. if last == 0 then (true, s2) else link_parent last result s2)

  -- The rest of a round: `rest` is what the next rounds give.
  unfoldable pub alloc_entry : ℕ → ℕ → ℕ → ℕ × Sys Card → Option ℕ → Sys Card → ℕ × Sys Card
  alloc_entry last block_addr result rest none s = rest
  alloc_entry last block_addr result rest (some i) s =
      let cluster = u16 (result + i) in
      let (done, s') = take_entry last block_addr i cluster s in
      (if done then cluster else 0xffff, s')

  -- The outer loop, over the `n` sectors that are left.
  unfoldable pub alloc_from : ℕ → ℕ → ℕ → ℕ → Sys Card → ℕ × Sys Card
  alloc_from last zero block_addr result s = (0xffff, s)
  alloc_from last (suc n) block_addr result s =
      let (ok, s') = cache ops block_addr s in
      let rest = alloc_from last n (u32 (block_addr + 1)) (u16 (result + 256)) s' in
      let found =
        alloc_entry last block_addr result rest (find_free_entry 256 0 s'.cache_block) s' in
      if ok then found else (0xffff, s')

  unfoldable pub alloc_cluster : ℕ → Sys Card → ℕ × Sys Card
  alloc_cluster last s = alloc_from last s.fat_info.sectors_per_fat s.fat_info.fat0_offset 0 s

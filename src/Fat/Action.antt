-- ===== src/Fat/Action.antt =====
-- `fat_read` and `fat_write` of lib/fat/fat.c, which are `fat_action`. The caller's buffer is a
-- function from indices: `data` points to its byte `result`, since both grow by `chunk_len`. It does
-- not overlap the variables of fat.c. A `memcpy` that would leave the 512 bytes of `cache_block` is
-- undefined behaviour: the loop has no result then.
pub mod Total
pub mod Content
pub mod Step
pub mod Places
pub mod Apart
pub mod Writes
pub mod WriteRound
pub mod Write
pub mod Round
pub mod Reads
pub mod Loop
pub mod Read
pub mod Again
pub mod WriteRead
use ccpu_libsys.Prelude.{
  ℕ, zero, suc, ◌+◌, ◌-◌, ◌*◌, Bool, true, false, not, ◌&&◌, Option, none, some, ◌==◌, ltb, leb,
  if◌then◌else◌,
}
use ccpu_libsys.Fat.Bytes.{u16, u32}
use ccpu_libsys.Fat.Card.{Block, CardOps, card_block_size}
use ccpu_libsys.Fat.Error
use ccpu_libsys.Fat.State.{Sys, FatInfo, FileDescriptor, fat_min_last_cluster, cluster_block}
use ccpu_libsys.Fat.Cache.{cache, flush_cache, ◌&&>◌}
use ccpu_libsys.Fat.Desc.{get_desc, set_desc, set_error}
use ccpu_libsys.Fat.Table.{alloc_cluster}
use ccpu_libsys.Fat.Seek.{seek_advance}

-- `memcpy`: `n` bytes of `src` from index `j` on go to `dst` from index `i` on.
unfoldable pub copy : ℕ → Block → ℕ → Block → ℕ → Block
copy n dst i src j x = if leb i x && ltb x (i + n) then src (j + (x - i)) else dst x

-- `uint16_t remainder`: the bytes of the last cluster from the current block on
unfoldable pub remainder : FileDescriptor → ℕ
remainder p = u16 (p.last_cluster_len + 65536 - u16 (p.block_in_cluster * 512))

-- `chunk_len` up to the end of the block
unfoldable pub block_rest : FileDescriptor → ℕ
block_rest p = u16 (card_block_size + 65536 - p.index_in_block)

-- "expanding the file past the current size"
unfoldable pub expand : ℕ → FileDescriptor → ℕ × FileDescriptor
expand len p =
    let chunk_len =
      if ltb card_block_size (u16 (len + p.index_in_block)) then block_rest p else len in
    let delta_size = u16 (p.index_in_block + chunk_len + 65536 - remainder p) in
    (
      chunk_len,
      record p {
        last_cluster_len = u16 (p.last_cluster_len + delta_size);
        dir_entry = record (p.dir_entry) { size = u32 (p.dir_entry.size + delta_size) };
        dir_entry_modified = true;
      },
    )

-- "last block"
unfoldable pub last_chunk : Bool → ℕ → FileDescriptor → ℕ × FileDescriptor
last_chunk is_write len p =
    let chunk_len = u16 (remainder p + 65536 - p.index_in_block) in
    if is_write && ltb chunk_len len then expand len p else (chunk_len, p)

-- The length of the next chunk, and the descriptor with the file grown to hold it.
unfoldable pub next_chunk : Bool → ℕ → FileDescriptor → ℕ × FileDescriptor
next_chunk is_write len p =
    let (chunk_len, q) =
      if leb fat_min_last_cluster p.next_cluster && leb (remainder p) card_block_size
      then last_chunk is_write len p
      else (block_rest p, p) in
    (if ltb len chunk_len then len else chunk_len, q)

-- The chunk leaves `cache_block`.
unfoldable pub overruns : ℕ → FileDescriptor → Bool
overruns chunk_len p = ltb card_block_size (p.index_in_block + chunk_len)

-- A new cluster becomes the current one.
unfoldable pub at_cluster : FatInfo → ℕ → FileDescriptor → FileDescriptor
at_cluster f cluster p = record p {
  cur_cluster = cluster;
  next_cluster = 0xffff;
  block_addr = cluster_block f cluster;
}

module _ {Card : Type 0} where
  unfoldable pub at_end : ℕ → Sys Card → Sys Card
  at_end fd s =
      let p = s.file_desc fd in
      if p.abs_offset == p.dir_entry.size then set_error Error.eof s else s

  -- "virgin empty file", with what `alloc_cluster` gave
  unfoldable pub first_cluster : ℕ → ℕ × Sys Card → Bool × Sys Card
  first_cluster fd (cluster, s) =
      let p = s.file_desc fd in
      let q = at_cluster s.fat_info cluster p in
      let started : FileDescriptor = record q {
        dir_entry_modified = true;
        dir_entry = record (p.dir_entry) { cluster_lo = cluster };
      } in
      if cluster == 0xffff then (false, s) else (true, set_desc fd started s)

  -- "last cluster is full, need a new one", with what `alloc_cluster` gave
  unfoldable pub another_cluster : ℕ → ℕ × Sys Card → Bool × Sys Card
  another_cluster fd (cluster, s) =
      let q = at_cluster s.fat_info cluster (s.file_desc fd) in
      let extended : FileDescriptor = record q { last_cluster_len = 0; block_in_cluster = 0 } in
      if cluster == 0xffff then (false, s) else (true, set_desc fd extended s)

module _ {Card : Type 0} (ops : CardOps Card) where
  unfoldable pub start_file : ℕ → Sys Card → Bool × Sys Card
  start_file fd s =
      if (s.file_desc fd).cur_cluster == 0
      then first_cluster fd (alloc_cluster ops 0 s)
      else (true, s)

  unfoldable pub extend_file : ℕ → Sys Card → Bool × Sys Card
  extend_file fd s =
      let p = s.file_desc fd in
      if leb fat_min_last_cluster p.next_cluster
        && p.block_in_cluster == s.fat_info.sectors_per_cluster
      then another_cluster fd (alloc_cluster ops p.cur_cluster s)
      else (true, s)

  -- The clusters that a write needs before its next chunk.
  unfoldable pub make_room : Bool → ℕ → Sys Card → Bool × Sys Card
  make_room false fd s = (true, s)
  make_room true fd s = start_file fd s &&> extend_file fd

  -- From `cache` to `memcpy` and `flush_cache`: the chunk between the block and the buffer.
  unfoldable pub transfer : Bool → ℕ → ℕ → ℕ → Block → Sys Card → Bool × Block × Sys Card
  transfer is_write fd chunk_len result buf s =
      let p = s.file_desc fd in
      let (cached, s1) = cache ops p.block_addr s in
      let (flushed, s2) =
        flush_cache ops
          (record s1 { cache_block = copy chunk_len s1.cache_block p.index_in_block buf result }) in
      if not cached
      then (false, buf, s1)
      else if is_write
      then (flushed, buf, s2)
      else (true, copy chunk_len buf result s1.cache_block p.index_in_block, s1)

  -- `while (len)`; `none` if the fuel runs out, or a block that is cached would be left.
  unfoldable pub action_loop :
      Bool → ℕ → ℕ → ℕ → ℕ → Block → Sys Card → Option (ℕ × Block × Sys Card)
  action_loop is_write fd zero len result buf s = none
  action_loop is_write fd (suc fuel) len result buf s =
      let (ready, s1) = make_room is_write fd s in
      let (chunk_len, q) = next_chunk is_write len (s1.file_desc fd) in
      let s2 = set_desc fd q s1 in
      let (cached, _) = cache ops (s2.file_desc fd).block_addr s2 in
      let (moved, buf', s3) = transfer is_write fd chunk_len result buf s2 in
      let (advanced, s4) = seek_advance ops fd chunk_len s3 in
      let rest =
        action_loop is_write fd fuel (len - chunk_len) (u16 (result + chunk_len)) buf' s4 in
      if len == 0
      then some (result, buf, s)
      else if not ready
      then some (result, buf, s1)
      else if chunk_len == 0
      then some (result, buf, at_end fd s2)
      else if cached && overruns chunk_len q
      then none
      else if not moved
      then some (result, buf', s3)
      else if not advanced
      then some (result, buf', s4)
      else rest

  -- Each round takes at least one byte, so `len` rounds and the last test are enough.
  unfoldable pub fat_action : Bool → ℕ → ℕ → Block → Sys Card → Option (ℕ × Block × Sys Card)
  fat_action is_write fd len buf s =
      let (ok, s') = get_desc fd s in
      let run = action_loop is_write fd (len + 1) len 0 buf s' in
      if ok then run else some (0, buf, s')

  unfoldable pub fat_read : ℕ → ℕ → Block → Sys Card → Option (ℕ × Block × Sys Card)
  fat_read fd len dst s = fat_action false fd len dst s

  unfoldable pub fat_write : ℕ → ℕ → Block → Sys Card → Option (ℕ × Block × Sys Card)
  fat_write fd len src s = fat_action true fd len src s

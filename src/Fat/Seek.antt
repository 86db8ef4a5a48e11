-- ===== src/Fat/Seek.antt =====
-- The position of a descriptor in lib/fat/fat.c: `fat_private_init_fd`,
-- `fat_private_init_root_dir`, `seek_begin`, `seek_advance`, `fat_seek_end` and `fat_seek`. The code
-- changes the descriptor in the table as it goes; the reads of the allocation table in between do
-- not look at it, so it is stored once, at each return, with all that was changed until then.
pub mod Chain
pub mod Position
pub mod Moves
pub mod Advance
use ccpu_libsys.Prelude.{
  ℕ, zero, suc, ◌+◌, ◌-◌, ◌*◌, ◌/◌, ◌%◌, ◌^◌, Bool, true, false, not, ◌&&◌, Option, none, some,
  ◌==◌, ltb, if◌then◌else◌, bit_and,
}
use ccpu_libsys.Fat.Card.{CardOps, card_block_size}
use ccpu_libsys.Fat.Bytes.{u8, u16, u32}
use ccpu_libsys.Fat.State.{Sys, FatInfo, FileDescriptor, fat_min_last_cluster, cluster_block}
use ccpu_libsys.Fat.Desc.{get_desc, set_desc}
use ccpu_libsys.Fat.Table.{read_fat_entry}

-- `~(0xffff << (log_sectors_per_cluster + 9))`, in 16 bits
abbrev pub cluster_mask : FatInfo → ℕ
cluster_mask f = 65535 - u16 (65535 * 2 ^ (f.log_sectors_per_cluster + 9))

-- `uint16_t bytes_per_cluster = sectors_per_cluster * CARD_BLOCK_SIZE`
abbrev pub bytes_per_cluster : FatInfo → ℕ
bytes_per_cluster f = u16 (f.sectors_per_cluster * card_block_size)

unfoldable pub last_cluster_len_of : FatInfo → ℕ → ℕ
last_cluster_len_of f size =
    let len = bit_and (u16 size) (cluster_mask f) in
    if size == 0 then 0 else if len == 0 then u16 (cluster_mask f + 1) else len

-- What the loops over a chain change: `cur_cluster`, `next_cluster`, and `offset` in `fat_seek`.
pub record Walk : Type 0 where
  pub cur_cluster : ℕ
  pub next_cluster : ℕ
  pub offset : ℕ

-- `offset` becomes the place in the current cluster, with `abs_offset` as the position in the file.
unfoldable pub place_in_cluster : FatInfo → Walk → ℕ → FileDescriptor → FileDescriptor
place_in_cluster f w abs_offset p = record p {
  cur_cluster = w.cur_cluster;
  next_cluster = w.next_cluster;
  abs_offset = abs_offset;
  block_in_cluster = u8 (w.offset / 512);
  index_in_block = w.offset % card_block_size;
  block_addr = u32 (cluster_block f w.cur_cluster + u8 (w.offset / 512));
}

-- The descriptor where a loop gave up.
unfoldable pub leave_at : Walk → ℕ → FileDescriptor → FileDescriptor
leave_at w abs_offset p = record p {
  cur_cluster = w.cur_cluster;
  next_cluster = w.next_cluster;
  abs_offset = abs_offset;
}

module _ {Card : Type 0} where
  unfoldable pub fat_private_init_root_dir : ℕ → Sys Card → Sys Card
  fat_private_init_root_dir fd s =
      set_desc fd
        (record (s.file_desc fd) {
          is_root = true;
          block_addr = s.fat_info.root_dir_block;
          block_in_cluster = 0;
          index_in_block = 0;
          abs_offset = 0;
          dir_entry_modified = false;
        })
        s

  -- The end of `fat_seek` and of `fat_seek_end`: `given_up` is `abs_offset` where the loop failed.
  unfoldable pub finish_seek :
      ℕ → ℕ → ℕ → Option (Bool × Walk × Sys Card) → Option (Bool × Sys Card)
  finish_seek fd given_up reached none = none
  finish_seek fd given_up reached (some (false, w, s)) =
      some (false, set_desc fd (leave_at w given_up (s.file_desc fd)) s)
  finish_seek fd given_up reached (some (true, w, s)) =
      some (true, set_desc fd (place_in_cluster s.fat_info w reached (s.file_desc fd)) s)

module _ {Card : Type 0} (ops : CardOps Card) where
  -- `seek_begin` reads the entry only of a file that has a cluster.
  unfoldable pub read_next : ℕ → Sys Card → ℕ × Sys Card
  read_next cluster s = if cluster == 0 then (0xffff, s) else read_fat_entry ops cluster s

  unfoldable pub seek_begin : ℕ → Sys Card → Bool × Sys Card
  seek_begin fd s =
      let p = s.file_desc fd in
      let cluster = p.dir_entry.cluster_lo in
      let (next, s') = read_next cluster s in
      (
        not (next == 0),
        set_desc fd
            (record p {
              block_addr = cluster_block s.fat_info cluster;
              block_in_cluster = 0;
              index_in_block = 0;
              cur_cluster = cluster;
              next_cluster = next;
              abs_offset = 0;
            })
            s',
      )

  unfoldable pub fat_private_init_fd : ℕ → Sys Card → Bool × Sys Card
  fat_private_init_fd fd s =
      let p = s.file_desc fd in
      let last_cluster_len = last_cluster_len_of s.fat_info p.dir_entry.size in
      seek_begin fd (
        set_desc fd
          (record p {
            is_root = false;
            last_cluster_len = last_cluster_len;
            dir_entry_modified = false;
          })
          s)

  -- "next cluster", for the descriptor `p` at the end of its cluster
  unfoldable pub enter_next_cluster : ℕ → FileDescriptor → Sys Card → Bool × Sys Card
  enter_next_cluster fd p s =
      let (next, s') = read_fat_entry ops p.next_cluster s in
      let entered : FileDescriptor = record p {
        block_addr = cluster_block s.fat_info p.next_cluster;
        cur_cluster = p.next_cluster;
        next_cluster = next;
      } in
      if p.is_root
      then (true, set_desc fd (record p { block_addr = u32 (p.block_addr + 1) }) s)
      else if not (ltb p.next_cluster fat_min_last_cluster)
      then (true, set_desc fd p s)
      else if next == 0
      then (false, set_desc fd entered s')
      else (true, set_desc fd (record entered { block_in_cluster = 0 }) s')

  unfoldable pub seek_advance : ℕ → ℕ → Sys Card → Bool × Sys Card
  seek_advance fd advance s =
      let p = s.file_desc fd in
      let moved : FileDescriptor = record p {
        index_in_block = u16 (p.index_in_block + advance);
        abs_offset = u32 (p.abs_offset + advance);
      } in
      let stepped : FileDescriptor = record moved {
        block_in_cluster = u8 (p.block_in_cluster + 1);
        index_in_block = 0;
      } in
      let entered = enter_next_cluster fd stepped s in
      if not (moved.index_in_block == card_block_size)
      then (true, set_desc fd moved s)
      else if stepped.block_in_cluster == s.fat_info.sectors_per_cluster
      then entered
      else (true, set_desc fd (record stepped { block_addr = u32 (p.block_addr + 1) }) s)

  -- The loops of `fat_seek_end` and `fat_seek` return `none` if their fuel runs out.
  unfoldable pub walk_to_end : ℕ → Walk → Sys Card → Option (Bool × Walk × Sys Card)
  walk_to_end zero w s = none
  walk_to_end (suc fuel) w s =
      let (next, s') = read_fat_entry ops w.next_cluster s in
      let w' : Walk = record w { cur_cluster = w.next_cluster; next_cluster = next } in
      let rest = walk_to_end fuel w' s' in
      if not (ltb w.next_cluster fat_min_last_cluster)
      then some (true, w, s)
      else if next == 0
      then some (false, w', s')
      else rest

  unfoldable pub walk_to_offset : ℕ → ℕ → Walk → Sys Card → Option (Bool × Walk × Sys Card)
  walk_to_offset bytes zero w s = none
  walk_to_offset bytes (suc fuel) w s =
      let (next, s') = read_fat_entry ops w.next_cluster s in
      let w' : Walk = record w { cur_cluster = w.next_cluster; next_cluster = next } in
      let rest = walk_to_offset bytes fuel (record w' { offset = w.offset - bytes }) s' in
      if not (ltb bytes w.offset)
      then some (true, w, s)
      else if next == 0
      then some (false, w', s')
      else rest

  unfoldable pub fat_seek_end : ℕ → ℕ → Sys Card → Option (Bool × Sys Card)
  fat_seek_end fuel fd s =
      let (ok, s') = get_desc fd s in
      let p = s'.file_desc fd in
      let start : Walk = record {
        cur_cluster = p.cur_cluster;
        next_cluster = p.next_cluster;
        offset = p.last_cluster_len;
      } in
      let end = finish_seek fd p.abs_offset p.dir_entry.size (walk_to_end fuel start s') in
      if ok then end else some (false, s')

  unfoldable pub fat_seek : ℕ → ℕ → ℕ → Sys Card → Option (Bool × Sys Card)
  fat_seek fuel fd offset s =
      let (ok, s0) = get_desc fd s in
      let at_end = fat_seek_end fuel fd s0 in
      let (begun, s1) = seek_begin fd s0 in
      let p = s1.file_desc fd in
      let start : Walk = record {
        cur_cluster = p.cur_cluster;
        next_cluster = p.next_cluster;
        offset = offset;
      } in
      let bytes = bytes_per_cluster s1.fat_info in
      let place = finish_seek fd offset offset (walk_to_offset bytes fuel start s1) in
      if not ok
      then some (false, s0)
      else if ltb (s0.file_desc fd).dir_entry.size offset
      then at_end
      else if begun
      then place
      else some (false, s1)

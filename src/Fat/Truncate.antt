-- ===== src/Fat/Truncate.antt =====
-- `fat_truncate` of lib/fat/fat.c. The code changes the descriptor in the table as it goes; the
-- functions on the allocation table do not look at it, so it is stored once, at each return, with
-- all that was changed until then. The calls that loop return `none` if their fuel runs out.
pub mod Laws
use ccpu_libsys.Prelude.{
  ℕ, ◌+◌, Bool, true, false, not, ◌&&◌, Option, none, some, ◌==◌, ltb, if◌then◌else◌, bit_and,
}
use ccpu_libsys.Fat.Card.{CardOps}
use ccpu_libsys.Fat.Bytes.{u16}
use ccpu_libsys.Fat.State.{Sys, FatInfo, FatDirEntry, FileDescriptor, fat_min_last_cluster}
use ccpu_libsys.Fat.Desc.{get_desc, set_desc}
use ccpu_libsys.Fat.Table.{write_fat_entry, find_parent_cluster, free_cluster_chain}
use ccpu_libsys.Fat.Seek.{cluster_mask}

-- The end of the function: `last_cluster_len`.
unfoldable pub set_last_cluster_len : FatInfo → FileDescriptor → FileDescriptor
set_last_cluster_len f p =
    let len = bit_and (u16 p.abs_offset) (cluster_mask f) in
    let full = if p.block_in_cluster == 0 then len else u16 (cluster_mask f + 1) in
    record p { last_cluster_len = if len == 0 then full else len }

-- `dir_entry.size = abs_offset; dir_entry_modified = true`
unfoldable pub cut_size : FileDescriptor → FileDescriptor
cut_size p = record p {
  dir_entry = record (p.dir_entry) { size = p.abs_offset };
  dir_entry_modified = true;
}

module _ {Card : Type 0} where
  unfoldable pub finish_cut :
      ℕ → FileDescriptor → Option (Bool × Sys Card) → Option (Bool × Sys Card)
  finish_cut fd p none = none
  finish_cut fd p (some (false, s)) = some (false, set_desc fd p s)
  finish_cut fd p (some (true, s)) =
      some
        (true, set_desc fd (set_last_cluster_len s.fat_info (record p { next_cluster = 0xffff })) s)

  unfoldable pub finish_empty :
      ℕ → FileDescriptor → Option (Bool × Sys Card) → Option (Bool × Sys Card)
  finish_empty fd p none = none
  finish_empty fd p (some (r, s)) = some (r, set_desc fd p s)

module _ {Card : Type 0} (ops : CardOps Card) where
  -- "there is a chain of clusters to free", and what follows
  unfoldable pub cut_chain : ℕ → ℕ → FileDescriptor → Sys Card → Option (Bool × Sys Card)
  cut_chain fuel fd p s =
      let (ok, s1) = write_fat_entry ops p.cur_cluster 0xffff s in
      let freed = finish_cut fd p (free_cluster_chain ops fuel p.next_cluster s1) in
      if not (ltb p.next_cluster fat_min_last_cluster)
      then some (true, set_desc fd (set_last_cluster_len s.fat_info p) s)
      else if ok
      then freed
      else some (false, set_desc fd p s1)

  -- "totally empty file"
  unfoldable pub cut_all : ℕ → ℕ → FileDescriptor → Sys Card → Option (Bool × Sys Card)
  cut_all fuel fd p s =
      finish_empty fd
        (record p {
          dir_entry = record (p.dir_entry) { cluster_lo = 0 };
          cur_cluster = 0;
          next_cluster = 0xffff;
        })
        (free_cluster_chain ops fuel p.cur_cluster s)

  unfoldable pub cut_behind :
      ℕ → ℕ → FileDescriptor → Option (ℕ × Sys Card) → Option (Bool × Sys Card)
  cut_behind fuel fd p none = none
  cut_behind fuel fd p (some (parent, s)) =
      let rest =
        cut_chain fuel fd
          (record p {
            next_cluster = p.cur_cluster;
            cur_cluster = parent;
            block_in_cluster = s.fat_info.sectors_per_cluster;
          })
          s in
      if parent == 0 then some (false, set_desc fd p s) else rest

  unfoldable pub fat_truncate : ℕ → ℕ → Sys Card → Option (Bool × Sys Card)
  fat_truncate fuel fd s =
      let (ok, s0) = get_desc fd s in
      let p = s0.file_desc fd in
      let q = cut_size p in
      let found = find_parent_cluster ops fuel p.dir_entry.cluster_lo p.cur_cluster s0 in
      if not ok
      then some (false, s0)
      else if p.abs_offset == p.dir_entry.size
      then some (true, s0)
      else if not (p.block_in_cluster == 0 && p.index_in_block == 0)
      then cut_chain fuel fd q s0
      else if p.cur_cluster == p.dir_entry.cluster_lo
      then cut_all fuel fd q s0
      else cut_behind fuel fd q found

-- ===== src/Fat/Desc.antt =====
-- The table of file descriptors in lib/fat/fat.c: `fat_init`, `fat_private_get_free_fd`,
-- `get_desc`, `fat_close`, `fat_get_size`, `fat_tell` and `fat_get_dir_entry`. A pointer into the
-- table is its index.
pub mod Laws
pub mod Close
pub mod Put
use ccpu_libsys.Prelude.{
  ℕ, zero, suc, ◌+◌, Bool, true, false, ◌&&◌, Option, none, some, ◌==◌, ltb, if◌then◌else◌,
}
use ccpu_libsys.Fat.Card.{CardOps}
use ccpu_libsys.Fat.Error
use ccpu_libsys.Fat.Entry.{put_entry}
use ccpu_libsys.Fat.State.{
  Sys, FatDirEntry, FileDescriptor, invalid_block_addr, max_file_desc, fat_bad_desc, put_desc,
}
use ccpu_libsys.Fat.Cache.{cache, flush_cache, ◌&&>◌}

-- `for (i = 0; i != MAX_FILE_DESC; ++i)` over the table.
abbrev pub each_desc : (FileDescriptor → FileDescriptor) → (ℕ → FileDescriptor) → ℕ → FileDescriptor
each_desc f t i = if ltb i max_file_desc then f (t i) else t i

-- The loop of `fat_private_get_free_fd`, with `n` descriptors left from `fd` on.
unfoldable pub find_free_fd : ℕ → ℕ → (ℕ → FileDescriptor) → ℕ
find_free_fd zero fd t = fd
find_free_fd (suc n) fd t =
    let rest = find_free_fd n (fd + 1) t in if (t fd).is_free then fd else rest

abbrev pub close_desc : FileDescriptor → FileDescriptor
close_desc d = record d { is_free = true; is_stale = false }

module _ {Card : Type 0} where
  unfoldable pub fat_init : Sys Card → Sys Card
  fat_init s = record s {
    file_desc = each_desc (λ d. record d { is_free = true; is_stale = false }) s.file_desc;
    cache_block_addr = invalid_block_addr;
  }

  unfoldable pub set_error : ℕ → Sys Card → Sys Card
  set_error e s = record s { last_error = e }

  unfoldable pub set_desc : ℕ → FileDescriptor → Sys Card → Sys Card
  set_desc fd d s = record s { file_desc = put_desc s.file_desc fd d }

  unfoldable pub fat_private_get_free_fd : Sys Card → ℕ × Sys Card
  fat_private_get_free_fd s =
      let fd = find_free_fd max_file_desc 0 s.file_desc in
      if fd == max_file_desc
      then (fat_bad_desc, set_error Error.too_many_open_files s)
      else (fd, set_desc fd (record (s.file_desc fd) { is_free = false }) s)

  -- `get_desc`: whether the descriptor serves; it is then `s.file_desc fd`.
  unfoldable pub get_desc : ℕ → Sys Card → Bool × Sys Card
  get_desc fd s =
      if (s.file_desc fd).is_free
      then (false, set_error Error.bad_descriptor s)
      else if (s.file_desc fd).is_stale
      then (false, set_error Error.stale_descriptor s)
      else (true, s)

  unfoldable pub fat_get_size : ℕ → Sys Card → ℕ × Sys Card
  fat_get_size fd s =
      let (ok, s') = get_desc fd s in
      (if ok then (s.file_desc fd).dir_entry.size else 0xffff_ffff, s')

  unfoldable pub fat_tell : ℕ → Sys Card → ℕ × Sys Card
  fat_tell fd s =
      let (ok, s') = get_desc fd s in (if ok then (s.file_desc fd).abs_offset else 0xffff_ffff, s')

  unfoldable pub fat_get_dir_entry : ℕ → Sys Card → Option FatDirEntry × Sys Card
  fat_get_dir_entry fd s =
      let (ok, s') = get_desc fd s in (if ok then some (s.file_desc fd).dir_entry else none, s')

  -- `memcpy(cache_block + pfd->dir_entry_index_in_block, &pfd->dir_entry, …)`
  unfoldable pub store_dir_entry : FileDescriptor → Sys Card → Sys Card
  store_dir_entry d s = record s {
    cache_block = put_entry s.cache_block d.dir_entry_index_in_block d.dir_entry;
  }

module _ {Card : Type 0} (ops : CardOps Card) where
  -- The results of `cache` and `flush_cache` are dropped.
  unfoldable pub write_back : FileDescriptor → Sys Card → Sys Card
  write_back d s = (flush_cache ops (store_dir_entry d (cache ops d.dir_entry_block_addr s).1)).1

  unfoldable pub fat_close : ℕ → Sys Card → Bool × Sys Card
  fat_close fd s =
      let d = s.file_desc fd in
      let s1 =
        if d.dir_entry_modified
        then (if d.is_stale then set_error Error.stale_descriptor s else write_back d s)
        else s in
      (
        if d.dir_entry_modified && d.is_stale then false else true,
        set_desc fd (close_desc (s1.file_desc fd)) s1,
      )

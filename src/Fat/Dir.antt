-- ===== src/Fat/Dir.antt =====
-- Directories in lib/fat/fat.c: `fat_private_find_file`, `fat_get_next_dir_entry`,
-- `fat_change_dir`, `fat_open_dir` and `fat_open_file`. A pointer that may be null is an Option. A
-- pointer to an entry in `cache_block` is the entry's index in the block.
pub mod Lookup
pub mod Settle
pub mod Blocks
pub mod Find
pub mod Create
pub mod Listing
pub mod OnChain
pub mod OnRoot
pub mod Next
use ccpu_libsys.Prelude.{
  ℕ, zero, suc, ◌+◌, ◌*◌, Bool, true, false, not, ◌&&◌, ◌||◌, Option, none, some, List, [], ◌∷◌,
  ◌==◌, ltb, if◌then◌else◌, bit_and,
}
use ccpu_libsys.Fat.Bytes.{u32}
use ccpu_libsys.Fat.Card.{Block, CardOps}
use ccpu_libsys.Fat.Error
use ccpu_libsys.Fat.State.{
  Sys, FatDirEntry, FileDescriptor, fat_min_last_cluster, fat_bad_desc, cluster_block,
}
use ccpu_libsys.Fat.Entry.{get_bytes, get_entry, put_entry}
use ccpu_libsys.Fat.Cache.{cache, flush_cache}
use ccpu_libsys.Fat.Desc.{fat_private_get_free_fd, get_desc, set_desc, set_error}
use ccpu_libsys.Fat.Table.{read_fat_entry}
use ccpu_libsys.Fat.Seek.{fat_private_init_fd, fat_private_init_root_dir, seek_advance}
use ccpu_libsys.Name.{to_fat_name}

-- O_CREAT and O_EXCL are the bits 0 and 1 of `mode`.
abbrev pub o_creat : ℕ
o_creat = 1

abbrev pub o_excl : ℕ
o_excl = 2

abbrev pub attr_directory : ℕ
attr_directory = 16

abbrev pub attr_long_filename : ℕ
attr_long_filename = 0x0f

-- `CARD_BLOCK_SIZE / sizeof(struct FatDirEntry)`
abbrev pub entries_per_block : ℕ
entries_per_block = 16

-- `memcmp(a, b, n) == 0` for arrays of the same length
unfoldable pub same_bytes : List ℕ → List ℕ → Bool
same_bytes [] [] = true
same_bytes [] (y ∷ ys) = false
same_bytes (x ∷ xs) [] = false
same_bytes (x ∷ xs) (y ∷ ys) = let rest = same_bytes xs ys in (x == y) && rest

-- `bzero(slot, sizeof(*slot))` and the copy of the name
unfoldable pub blank_entry : List ℕ → FatDirEntry
blank_entry fat_name = record {
  filename = fat_name;
  attrs = 0;
  reserved = 0;
  create_dsec = 0;
  create_time = 0;
  create_date = 0;
  access_date = 0;
  cluster_hi = 0;
  modify_time = 0;
  modify_date = 0;
  cluster_lo = 0;
  size = 0;
}

-- A place in a directory: a block's address and an index in the block.
pub record Place : Type 0 where
  pub block_addr : ℕ
  pub entry_index : ℕ

-- What `fat_private_find_file` writes to its `pfd`.
pub record Found : Type 0 where
  pub dir_entry : FatDirEntry
  pub dir_entry_index_in_block : ℕ
  pub dir_entry_block_addr : ℕ

-- What the loop over a block's entries meets, with `slot` then.
pub data Scan : Type 0 where
  last_entry : ℕ → Option Place → Scan
  same_name : ℕ → Scan
  no_match : Option Place → Scan

-- `if (!slot) { slot = pentry; … }`
unfoldable pub keep_slot : Option Place → ℕ → ℕ → Option Place
keep_slot none a i = some (record { block_addr = a; entry_index = i })
keep_slot (some p) a i = some p

-- The loop over `n` entries from `i` on of the block `b` with the address `a`.
unfoldable pub scan_block : ℕ → ℕ → List ℕ → ℕ → Option Place → Block → Scan
scan_block zero i fat_name a slot b = no_match slot
scan_block (suc n) i fat_name a slot b =
    let kept = scan_block n (i + 1) fat_name a slot b in
    let freed = scan_block n (i + 1) fat_name a (keep_slot slot a i) b in
    if b (32 * i) == 0
    then last_entry i slot
    else if b (32 * i) == 0xe5
    then freed
    else if same_bytes (get_bytes 11 b (32 * i)) fat_name
    then same_name i
    else kept

-- What the search does behind the loop over a block's entries.
pub data Search : Type 0 where
  ended : Option Found → Search
  going : Option Place → Search

unfoldable pub keep_found : Found → FileDescriptor → FileDescriptor
keep_found x p = record p {
  dir_entry = x.dir_entry;
  dir_entry_index_in_block = x.dir_entry_index_in_block;
  dir_entry_block_addr = x.dir_entry_block_addr;
}

unfoldable pub root_dir_entry : FatDirEntry → FatDirEntry
root_dir_entry e = record e { cluster_lo = 0; attrs = attr_directory }

unfoldable pub is_root_dir : Option FatDirEntry → Bool
is_root_dir none = true
is_root_dir (some d) = d.cluster_lo == 0

-- `memcpy(&pfd->dir_entry, dir, …)`
unfoldable pub entry_or : FatDirEntry → Option FatDirEntry → FatDirEntry
entry_or e none = e
entry_or e (some d) = d

unfoldable pub first_cluster_of : Option FatDirEntry → ℕ
first_cluster_of none = 0
first_cluster_of (some d) = d.cluster_lo

module _ {Card : Type 0} where
  -- `if (found)`
  unfoldable pub found_at : ℕ → ℕ → Sys Card → Found
  found_at a i s = record {
    dir_entry = get_entry s.cache_block (32 * i);
    dir_entry_index_in_block = 32 * i;
    dir_entry_block_addr = a;
  }

  -- An entry with the name, "if ((mode & (O_EXCL | O_CREAT)) == (O_EXCL | O_CREAT))" first
  unfoldable pub accept_entry : ℕ → ℕ → ℕ → Sys Card → Option Found × Sys Card
  accept_entry mode a i s =
      if bit_and mode 3 == 3
      then (none, set_error Error.file_exists s)
      else (some (found_at a i s), s)

  -- The end of the directory without an entry that is 0
  unfoldable pub not_in_dir : ℕ → Sys Card → Option Found × Sys Card
  not_in_dir mode s =
      (none, set_error (if bit_and mode o_creat == 0 then Error.not_found else Error.dir_full) s)

  unfoldable pub store_blank : List ℕ → ℕ → Sys Card → Sys Card
  store_blank fat_name i s = record s {
    cache_block = put_entry s.cache_block (32 * i) (blank_entry fat_name);
  }

  -- The loops go on behind a block without the name.
  unfoldable pub go_on :
      (Option Place → Sys Card → Search × Sys Card) → Search × Sys Card → Search × Sys Card
  go_on rest (ended r, s) = (ended r, s)
  go_on rest (going slot, s) = rest slot s

  unfoldable pub go_on_dir :
      (Option Place → Sys Card → Option (Option Found × Sys Card))
      → Search × Sys Card
      → Option (Option Found × Sys Card)
  go_on_dir rest (ended r, s) = some (r, s)
  go_on_dir rest (going slot, s) = rest slot s

  -- What follows the search in `fat_change_dir`, whose descriptor is a local variable.
  unfoldable pub enter_dir :
      FatDirEntry → Option (Option Found × Sys Card) → Option (Bool × FatDirEntry × Sys Card)
  enter_dir dst none = none
  enter_dir dst (some (none, s)) = some (false, dst, s)
  enter_dir dst (some (some x, s)) =
      if bit_and x.dir_entry.attrs attr_directory == 0
      then some (false, dst, set_error Error.not_a_dir s)
      else some (true, x.dir_entry, s)

  -- `pfd->is_free = true`
  unfoldable pub free_again : ℕ → Sys Card → Sys Card
  free_again fd s = set_desc fd (record (s.file_desc fd) { is_free = true }) s

module _ {Card : Type 0} (ops : CardOps Card) where
  -- The new entry in the cached block.
  unfoldable pub write_blank : List ℕ → ℕ → ℕ → Sys Card → Option Found × Sys Card
  write_blank fat_name a i s =
      let (ok, s') = flush_cache ops (store_blank fat_name i s) in
      (if ok then some (found_at a i s') else none, s')

  -- The slot's block is cached again if it is another one.
  unfoldable pub create_entry : List ℕ → ℕ → ℕ → Option Place → Sys Card → Option Found × Sys Card
  create_entry fat_name a i none s = write_blank fat_name a i s
  create_entry fat_name a i (some slot) s =
      let (ok, s') = if a == slot.block_addr then (true, s) else cache ops slot.block_addr s in
      if ok then write_blank fat_name slot.block_addr slot.entry_index s' else (none, s')

  -- "last entry"
  unfoldable pub at_last_entry :
      List ℕ → ℕ → ℕ → ℕ → Option Place → Sys Card → Option Found × Sys Card
  at_last_entry fat_name mode a i slot s =
      if bit_and mode o_creat == 0
      then (none, set_error Error.not_found s)
      else create_entry fat_name a i slot s

  unfoldable pub after_scan : List ℕ → ℕ → ℕ → Scan → Sys Card → Search × Sys Card
  after_scan fat_name mode a (last_entry i slot) s =
      let r = at_last_entry fat_name mode a i slot s in (ended r.0, r.1)
  after_scan fat_name mode a (same_name i) s = let r = accept_entry mode a i s in (ended r.0, r.1)
  after_scan fat_name mode a (no_match slot) s = (going slot, s)

  unfoldable pub search_block : List ℕ → ℕ → ℕ → Option Place → Sys Card → Search × Sys Card
  search_block fat_name mode a slot s =
      let (ok, s') = cache ops a s in
      if ok
      then after_scan fat_name mode a
          (scan_block entries_per_block 0 fat_name a slot s'.cache_block) s'
      else (ended none, s')

  -- The loop over `n` blocks from the address `a` on.
  unfoldable pub search_blocks : ℕ → List ℕ → ℕ → ℕ → Option Place → Sys Card → Search × Sys Card
  search_blocks zero fat_name mode a slot s = (going slot, s)
  search_blocks (suc n) fat_name mode a slot s =
      go_on (search_blocks n fat_name mode (u32 (a + 1))) (search_block fat_name mode a slot s)

  -- `while (is_root || cluster < FAT_MIN_LAST_CLUSTER)`: in the root directory `a` is its next
  -- block, elsewhere the cluster counts. `none` if the fuel runs out.
  unfoldable pub search_dir :
      ℕ → Bool → List ℕ → ℕ → ℕ → ℕ → Option Place → Sys Card → Option (Option Found × Sys Card)
  search_dir zero is_root fat_name mode a cluster slot s = none
  search_dir (suc fuel) is_root fat_name mode a cluster slot s =
      let (next, s1) = if is_root then (cluster, s) else read_fat_entry ops cluster s in
      let first = if is_root then a else cluster_block s.fat_info cluster in
      let per_cluster = s.fat_info.sectors_per_cluster in
      let rest =
        go_on_dir (search_dir fuel is_root fat_name mode (u32 (first + per_cluster)) next)
          (search_blocks per_cluster fat_name mode first slot s1) in
      if not (is_root || ltb cluster fat_min_last_cluster)
      then some (not_in_dir mode s)
      else if not is_root && next == 0
      then some (none, s1)
      else rest

  unfoldable pub fat_private_find_file :
      ℕ → Option FatDirEntry → List ℕ → ℕ → Sys Card → Option (Option Found × Sys Card)
  fat_private_find_file fuel dir name mode s =
      search_dir fuel (is_root_dir dir) (to_fat_name name) mode s.fat_info.root_dir_block
        (first_cluster_of dir) none s

  -- The loop of `fat_get_next_dir_entry`: the result, what `dst` holds, and the state.
  unfoldable pub next_entry :
      ℕ → ℕ → ℕ → FatDirEntry → Sys Card → Option (Bool × FatDirEntry × Sys Card)
  next_entry zero fd attr_skip_mask dst s = none
  next_entry (suc fuel) fd attr_skip_mask dst s =
      let p = s.file_desc fd in
      let (ok, s1) = cache ops p.block_addr s in
      let entry = get_entry s1.cache_block p.index_in_block in
      let first = s1.cache_block p.index_in_block in
      let (moved, s2) = seek_advance ops fd 32 s1 in
      let rest = next_entry fuel fd attr_skip_mask entry s2 in
      if not ok
      then some (false, dst, s1)
      else if not moved
      then some (false, entry, s2)
      else if first == 0
      then some (false, entry, s2)
      else if first == 0xe5
          || entry.attrs == attr_long_filename
          || not (bit_and entry.attrs attr_skip_mask == 0)
      then rest
      else some (true, entry, s2)

  unfoldable pub fat_get_next_dir_entry :
      ℕ → ℕ → FatDirEntry → ℕ → Sys Card → Option (Bool × FatDirEntry × Sys Card)
  fat_get_next_dir_entry fuel dir_desc dst attr_skip_mask s =
      let (ok, s') = get_desc dir_desc s in
      let run = next_entry fuel dir_desc attr_skip_mask dst (set_error Error.ok s') in
      if ok then run else some (false, dst, s')

  -- The result, what `dst` holds, and the state.
  unfoldable pub fat_change_dir :
      ℕ
      → Option FatDirEntry
      → Option (List ℕ)
      → FatDirEntry
      → Sys Card
      → Option (Bool × FatDirEntry × Sys Card)
  fat_change_dir fuel parent none dst s = some (true, root_dir_entry dst, s)
  fat_change_dir fuel parent (some name) dst s =
      enter_dir dst (fat_private_find_file fuel parent name 0 s)

  -- "fat_private_init_fd" of a descriptor that is free again if it fails
  unfoldable pub open_or_free : ℕ → Sys Card → ℕ × Sys Card
  open_or_free fd s =
      let (ok, s') = fat_private_init_fd ops fd s in
      if ok then (fd, s') else (fat_bad_desc, free_again fd s')

  unfoldable pub fat_open_dir : Option FatDirEntry → Sys Card → ℕ × Sys Card
  fat_open_dir dir s =
      let (fd, s1) = fat_private_get_free_fd s in
      let opened = open_or_free fd (
        set_desc fd
          (record (s1.file_desc fd) { dir_entry = entry_or (s1.file_desc fd).dir_entry dir }) s1) in
      if fd == fat_bad_desc
      then (fat_bad_desc, s1)
      else if is_root_dir dir
      then (fd, fat_private_init_root_dir fd s1)
      else opened

  -- What follows the search in `fat_open_file`.
  unfoldable pub open_found : ℕ → Option (Option Found × Sys Card) → Option (ℕ × Sys Card)
  open_found fd none = none
  open_found fd (some (none, s)) = some (fat_bad_desc, free_again fd s)
  open_found fd (some (some x, s)) =
      some (open_or_free fd (set_desc fd (keep_found x (s.file_desc fd)) s))

  unfoldable pub fat_open_file :
      ℕ → Option FatDirEntry → List ℕ → ℕ → Sys Card → Option (ℕ × Sys Card)
  fat_open_file fuel dir name mode s =
      let (fd, s1) = fat_private_get_free_fd s in
      let opened = open_found fd (fat_private_find_file fuel dir name mode s1) in
      if fd == fat_bad_desc then some (fat_bad_desc, s1) else opened

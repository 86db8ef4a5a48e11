-- ===== src/Fat/Path.antt =====
-- lib/fat/path.c: `fat_find_path` and `fat_open_path`. A path is the list of its bytes before the
-- terminating NUL. The name between two slashes goes to an array of 13 bytes in the source, with no
-- check of its length; here it is a list of any length.
use ccpu_libsys.Prelude.{
  ℕ, zero, suc, ◌+◌, Bool, false, not, ◌&&◌, Option, none, some, List, [], ◌∷◌, ◌==◌, if◌then◌else◌,
  bit_and, length,
}
use ccpu_libsys.Fat.Card.{CardOps}
use ccpu_libsys.Fat.Error
use ccpu_libsys.Fat.State.{Sys, fat_bad_desc}
use ccpu_libsys.Fat.Desc.{fat_private_get_free_fd, set_desc, set_error}
use ccpu_libsys.Fat.Seek.{fat_private_init_root_dir}
use ccpu_libsys.Fat.Dir.{
  Found, attr_directory, root_dir_entry, keep_found, free_again, fat_private_find_file,
  open_or_free,
}

-- The name up to a slash or the end, and the path from there on.
unfoldable pub copy_first_entry : List ℕ → List ℕ × List ℕ
copy_first_entry [] = ([], [])
copy_first_entry (c ∷ path) =
    let (dst, rest) = copy_first_entry path in if c == b'/' then ([], c ∷ path) else (c ∷ dst, rest)

-- Only the last name is looked up with the caller's mode.
unfoldable pub cur_mode : ℕ → List ℕ → ℕ
cur_mode mode [] = mode
cur_mode mode (c ∷ path) = 0

unfoldable pub is_absolute : List ℕ → Bool
is_absolute [] = false
is_absolute (c ∷ path) = c == b'/'

module _ {Card : Type 0} where
  -- What follows the search for a name: `rest` goes on with the path.
  unfoldable pub enter_found :
      ℕ
      → (Sys Card → Option (ℕ × Sys Card))
      → Option (Option Found × Sys Card)
      → Option (ℕ × Sys Card)
  enter_found fd rest none = none
  enter_found fd rest (some (none, s)) = some (fat_bad_desc, free_again fd s)
  enter_found fd rest (some (some x, s)) = rest (set_desc fd (keep_found x (s.file_desc fd)) s)

module _ {Card : Type 0} (ops : CardOps Card) where
  -- `while (*path != 0)`, for `n` rounds at most; `none` if `n` or the fuel of a search runs out.
  unfoldable pub walk_path : ℕ → ℕ → List ℕ → ℕ → ℕ → Sys Card → Option (ℕ × Sys Card)
  walk_path zero fuel path mode fd s = none
  walk_path (suc n) fuel [] mode fd s = some (fd, s)
  walk_path (suc n) fuel (c ∷ path) mode fd s =
      let (filename, rest) = copy_first_entry (c ∷ path) in
      let dir = some ((s.file_desc fd).dir_entry) in
      let slash = walk_path n fuel path mode fd s in
      let name =
        enter_found fd (walk_path n fuel rest mode fd)
          (fat_private_find_file ops fuel dir filename (cur_mode mode rest) s) in
      if c == b'/' then slash else name

  -- Each round takes at least one byte of the path.
  unfoldable pub fat_find_path : ℕ → List ℕ → ℕ → Sys Card → Option (ℕ × Sys Card)
  fat_find_path fuel path mode s =
      let (fd, s1) = fat_private_get_free_fd s in
      let p = s1.file_desc fd in
      let s2 = set_desc fd (record p { dir_entry = root_dir_entry p.dir_entry }) s1 in
      let walk = walk_path (length path + 1) fuel path mode fd s2 in
      if not (is_absolute path)
      then some (fat_bad_desc, set_error Error.relative_path s)
      else if fd == fat_bad_desc
      then some (fat_bad_desc, s1)
      else walk

  -- What follows `fat_find_path` in `fat_open_path`.
  unfoldable pub open_entry : Option (ℕ × Sys Card) → Option (ℕ × Sys Card)
  open_entry none = none
  open_entry (some (fd, s)) =
      let e = (s.file_desc fd).dir_entry in
      let opened = open_or_free ops fd s in
      if fd == fat_bad_desc
      then some (fat_bad_desc, s)
      else if not (bit_and e.attrs attr_directory == 0) && e.cluster_lo == 0
      then some (fd, fat_private_init_root_dir fd s)
      else some opened

  unfoldable pub fat_open_path : ℕ → List ℕ → ℕ → Sys Card → Option (ℕ × Sys Card)
  fat_open_path fuel path mode s = open_entry (fat_find_path fuel path mode s)

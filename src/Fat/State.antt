-- ===== src/Fat/State.antt =====
-- The types and constants of lib/fat/private.h and include/libsys/fat/fat.h, and the variables of
-- lib/fat/fat.c and lib/fat/last_error.c.
use ccpu_libsys.Prelude.{ℕ, ◌+◌, ◌-◌, ◌*◌, ◌^◌, Bool, List, ◌==◌, if◌then◌else◌}
use ccpu_libsys.Fat.Card.{Block}
use ccpu_libsys.Fat.Bytes.{u16, u32}

abbrev pub invalid_block_addr : ℕ
invalid_block_addr = 0xffff_ffff

abbrev pub fat_min_last_cluster : ℕ
fat_min_last_cluster = 0xfff8

abbrev pub max_file_desc : ℕ
max_file_desc = 16

abbrev pub fat_bad_desc : ℕ
fat_bad_desc = 0xff

-- `struct FatDirEntry`
pub record FatDirEntry : Type 0 where
  pub filename : List ℕ
  pub attrs : ℕ
  pub reserved : ℕ
  pub create_dsec : ℕ
  pub create_time : ℕ
  pub create_date : ℕ
  pub access_date : ℕ
  pub cluster_hi : ℕ
  pub modify_time : ℕ
  pub modify_date : ℕ
  pub cluster_lo : ℕ
  pub size : ℕ

-- `struct FatInfo`
pub record FatInfo : Type 0 where
  pub fat0_offset : ℕ
  pub fat1_offset : ℕ
  pub root_dir_block : ℕ
  pub data_offset : ℕ
  pub n_dir_entries : ℕ
  pub n_clusters : ℕ
  pub sectors_per_fat : ℕ
  pub log_sectors_per_cluster : ℕ
  pub sectors_per_cluster : ℕ

-- `struct FileDescriptor`
pub record FileDescriptor : Type 0 where
  pub is_free : Bool
  pub is_stale : Bool
  pub last_cluster_len : ℕ
  pub block_addr : ℕ
  pub block_in_cluster : ℕ
  pub index_in_block : ℕ
  pub next_cluster : ℕ
  pub cur_cluster : ℕ
  pub dir_entry : FatDirEntry
  pub dir_entry_block_addr : ℕ
  pub dir_entry_index_in_block : ℕ
  pub is_root : Bool
  pub dir_entry_modified : Bool
  pub abs_offset : ℕ

-- The variables: `cache_block`, `cache_block_addr`, `fat_info`, `fat_private_file_desc` and
-- `last_error`, with the card. The array of descriptors is a function; the code gives it indices
-- below MAX_FILE_DESC, unless a caller passes a bad descriptor, which is undefined behaviour.
pub record Sys (Card : Type 0) : Type 0 where
  pub card : Card
  pub cache_block : Block
  pub cache_block_addr : ℕ
  pub fat_info : FatInfo
  pub file_desc : ℕ → FileDescriptor
  pub last_error : ℕ

-- The first block of a cluster: `data_offset + ((uint32_t)(cluster - 2) << log_sectors_per_cluster)`.
-- An `int` has 16 bits on the target, so `cluster - 2` wraps at 2 ^ 16.
unfoldable pub cluster_block : FatInfo → ℕ → ℕ
cluster_block f cluster =
    u32 (f.data_offset + u32 (u16 (cluster + 65536 - 2) * 2 ^ f.log_sectors_per_cluster))

abbrev pub put_desc : (ℕ → FileDescriptor) → ℕ → FileDescriptor → ℕ → FileDescriptor
put_desc t fd d x = if x == fd then d else t x

-- ===== src/Fat/Tests.antt =====
-- Runs over a card in memory, on which every transfer succeeds.
pub mod Table
pub mod Files
pub mod Seek
pub mod Truncate
pub mod Action
pub mod Dir
pub mod Listing
use ccpu_libsys.Prelude.{
  ℕ, ◌<◌, ◌≡◌, refl, false, List, [], ◌∷◌, arith, ◌==◌, ◌||◌, if◌then◌else◌, get_or, replicate,
  true, fun_ext,
}
use ccpu_libsys.Fat.Card.{Disk, update, update_ne, CardOps, CardLaws, CardWorks}
use ccpu_libsys.Fat.Error
use ccpu_libsys.Fat.State.{Sys, FatInfo, FatDirEntry, FileDescriptor, invalid_block_addr}
use ccpu_libsys.Fat.Cache.Laws.{Stands}
use ccpu_libsys.Fat.Table.Entries.{IsLaidOut, HasEntry}

abbrev pub ram : CardOps Disk
ram = record {
  init = λ c. (0, c);
  read_block = λ a b c. (0, c a, c);
  write_block = λ a b c. (0, update c a b);
  power_off = λ c. c;
}

abbrev pub ram_laws : CardLaws ram
ram_laws = record {
  view = λ c. c;
  init_keeps = λ c. refl;
  read_keeps = λ a b c. refl;
  read_ok = λ a b c e. refl;
  write_ok = λ a b c e. refl;
  write_other = λ a b c x ne. update_ne c a x b ne;
  power_off_keeps = λ c. refl;
}

abbrev pub ram_works : CardWorks ram
ram_works = record { reads = λ a b c. refl; writes = λ a b c. refl }

abbrev pub geometry : FatInfo
geometry = record {
  fat0_offset = 10;
  fat1_offset = 20;
  root_dir_block = 30;
  data_offset = 62;
  n_dir_entries = 512;
  n_clusters = 5000;
  sectors_per_fat = 2;
  log_sectors_per_cluster = 0;
  sectors_per_cluster = 1;
}

pub geometry-IsLaidOut : IsLaidOut geometry
geometry-IsLaidOut = record { apart = omega arith; below = omega arith }

-- The first entries of both tables: two reserved ones, and a chain of the clusters 2 and 3.
abbrev table_bytes : List ℕ
table_bytes = 0xf8 ∷ 0xff ∷ 0xff ∷ 0xff ∷ 3 ∷ 0 ∷ 0xff ∷ 0xff ∷ []

abbrev pub formatted : Disk
formatted a i = if a == 10 || a == 20 then get_or table_bytes i 0 else 0

abbrev pub entry_a : FatDirEntry
entry_a = record {
  filename = b'A' ∷ replicate 10 b' ';
  attrs = 0x20;
  reserved = 0;
  create_dsec = 0;
  create_time = 0;
  create_date = 0x4a21;
  access_date = 0x4a21;
  cluster_hi = 0;
  modify_time = 0x8123;
  modify_date = 0x4a21;
  cluster_lo = 2;
  size = 700;
}

abbrev pub free_desc : FileDescriptor
free_desc = record {
  is_free = true;
  is_stale = false;
  last_cluster_len = 188;
  block_addr = 62;
  block_in_cluster = 0;
  index_in_block = 0;
  next_cluster = 3;
  cur_cluster = 2;
  dir_entry = entry_a;
  dir_entry_block_addr = 30;
  dir_entry_index_in_block = 64;
  is_root = false;
  dir_entry_modified = false;
  abs_offset = 0;
}

-- Descriptor 0 is open, descriptor 1 is open with a modified entry, 2 is that and stale, and 3
-- is open at byte 100.
abbrev pub descs : ℕ → FileDescriptor
descs fd =
    if fd == 0
    then record free_desc { is_free = false }
    else if fd == 1
    then record free_desc { is_free = false; dir_entry_modified = true }
    else if fd == 2
    then record free_desc { is_free = false; dir_entry_modified = true; is_stale = true }
    else if fd == 3
    then record free_desc { is_free = false; index_in_block = 100; abs_offset = 100 }
    else free_desc

abbrev pub system : Sys Disk
system = record {
  card = formatted;
  cache_block = λ i. 0;
  cache_block_addr = invalid_block_addr;
  fat_info = geometry;
  file_desc = descs;
  last_error = Error.ok;
}

pub system-Stands : Stands ram_laws geometry formatted system
system-Stands = record { info = refl; coherent = λ ne. absurd (ne refl); on_disk = refl }

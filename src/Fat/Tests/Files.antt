-- ===== src/Fat/Tests/Files.antt =====
-- Runs of the functions of lib/fat/fat.c on descriptors and on the volume's geometry.
use ccpu_libsys.Prelude.{
  ℕ, ◌+◌, ◌^◌, ◌≤◌, ◌<◌, ◌≡◌, ◌≢◌, ◌⊎◌, refl, true, false, arith, if◌then◌else◌,
}
use ccpu_libsys.Fat.Card.{update}
use ccpu_libsys.Fat.Error
use ccpu_libsys.Fat.State.{put_desc}
use ccpu_libsys.Fat.Cache.Laws.{disk, Stands}
use ccpu_libsys.Fat.Entry.{get_entry, put_entry}
use ccpu_libsys.Fat.Entry.RoundTrip.{IsFatDirEntry}
use ccpu_libsys.Fat.Desc.{close_desc, get_desc, fat_close}
use ccpu_libsys.Fat.Desc.Laws.{get_desc_lem}
use ccpu_libsys.Fat.Desc.Close.{fat_close_modified}
use ccpu_libsys.Fat.Mount.{log_sectors, fat_mount}
use ccpu_libsys.Fat.Mount.Laws.{log_sectors_lem}
use ccpu_libsys.Fat.Mount.Stale.{fat_mount_stale, fat_close-fat_mount}
use ccpu_libsys.Fat.Tests.{
  ram, ram_laws, ram_works, geometry, formatted, entry_a, descs, system, system-Stands,
}

entry_a-IsFatDirEntry : IsFatDirEntry entry_a
entry_a-IsFatDirEntry = record {
  filename = refl;
  create_time = omega arith;
  create_date = omega arith;
  access_date = omega arith;
  cluster_hi = omega arith;
  modify_time = omega arith;
  modify_date = omega arith;
  cluster_lo = omega arith;
  size = omega arith;
}

fat_close_modified_example :
    let r = fat_close ram 1 system in
    (r.0 ≡ true)
    × Stands ram_laws geometry (update formatted 30 (put_entry (formatted 30) 64 entry_a)) r.1
    × (get_entry (disk ram_laws r.1 30) 64 ≡ entry_a)
    × (r.1.file_desc ≡ put_desc descs 1 (close_desc (descs 1)))
fat_close_modified_example =
    fat_close_modified ram_laws ram_works formatted 1 system system-Stands refl refl (omega arith)
      entry_a-IsFatDirEntry

get_desc_example :
    (((system.file_desc 2).is_free ≡ false)
      × ((system.file_desc 2).is_stale ≡ false)
      × (get_desc 2 system ≡ (true, system)))
    ⊎ (((system.file_desc 2).is_free ≡ true)
        × (get_desc 2 system ≡ (false, record system { last_error = Error.bad_descriptor })))
    ⊎ (((system.file_desc 2).is_free ≡ false)
        × ((system.file_desc 2).is_stale ≡ true)
        × (get_desc 2 system ≡ (false, record system { last_error = Error.stale_descriptor })))
get_desc_example = get_desc_lem 2 system

fat_mount_stale_example :
    let r = get_desc 1 (fat_mount ram system).1 in
    (r.0 ≡ false)
    × (r.1.last_error
        ≡ (if (descs 1).is_free then Error.bad_descriptor else Error.stale_descriptor))
fat_mount_stale_example = fat_mount_stale ram 1 system (omega arith)

-- Descriptor 1 has a modified entry, which is lost.
fat_close-fat_mount_example :
    let t = (fat_mount ram system).1 in
    let r = fat_close ram 1 t in
    (r.1.card ≡ t.card)
    × (r.1.cache_block ≡ t.cache_block)
    × (r.1.cache_block_addr ≡ t.cache_block_addr)
    × ((r.1.file_desc 1).is_free ≡ true)
    × ((r.1.file_desc 1).is_stale ≡ false)
    × ((i : ℕ) → i ≢ 1 → r.1.file_desc i ≡ t.file_desc i)
    × ((descs 1).dir_entry_modified ≡ true
        → (r.0 ≡ false) × (r.1.last_error ≡ Error.stale_descriptor))
fat_close-fat_mount_example = fat_close-fat_mount ram 1 system (omega arith) refl

log_sectors_example : (2 ^ log_sectors 12 ≤ 12) × (12 < 2 ^ (log_sectors 12 + 1))
log_sectors_example = log_sectors_lem 12 (omega arith) (omega arith)

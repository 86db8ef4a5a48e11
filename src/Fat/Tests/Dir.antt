-- ===== src/Fat/Tests/Dir.antt =====
-- Runs of the search in directories of lib/fat/fat.c.
use ccpu_libsys.Prelude.{
  ℕ, ◌≡◌, refl, none, some, List, [], ◌∷◌, ◌++◌, arith, ◌==◌, ◌||◌, if◌then◌else◌, get_or,
  replicate,
}
use ccpu_libsys.Fat.Bytes.{get_u16}
use ccpu_libsys.Fat.Card.{Disk}
use ccpu_libsys.Fat.State.{Sys}
use ccpu_libsys.Fat.Cache.Laws.{Stands}
use ccpu_libsys.Fat.Table.Entries.{fat_entry}
use ccpu_libsys.Fat.Table.Chains.{IsChain}
use ccpu_libsys.Fat.Entry.{get_bytes}
use ccpu_libsys.Fat.Dir.{Found, fat_private_find_file, same_bytes, keep_slot, blank_entry}
use ccpu_libsys.Fat.Dir.Lookup.{ends_at, lookup, block_places, run_places}
use ccpu_libsys.Fat.Dir.Find.{
  chain_places, root_places, IsDecided, Finds, fat_private_find_file_lem,
  fat_private_find_file_root,
}
use ccpu_libsys.Fat.Dir.Create.{IsEntryName, fat_private_find_file_create}
use ccpu_libsys.Fat.Tests.{
  ram, ram_laws, ram_works, geometry, geometry-IsLaidOut, formatted, entry_a, system,
}
use ccpu_libsys.Fat.Tests.Table.{HasEntry-3}
use ccpu_libsys.Fat.Tests.Action.{geometry-DataFits}
use ccpu_libsys.Name.{to_fat_name}
use ccpu_libsys.Name.Tests.{to_fat_name_b}

-- A deleted entry, and one with the name "A".
abbrev dir_bytes : List ℕ
dir_bytes = 0xe5 ∷ (replicate 31 0 ++ (b'A' ∷ replicate 10 b' '))

-- Both are in the first block of the root directory, and of the directory in the clusters 2 and 3.
abbrev pub listed : Disk
listed a i = if a == 30 || a == 62 then get_or dir_bytes i 0 else formatted a i

abbrev listed_system : Sys Disk
listed_system = record system { card = listed }

listed_system-Stands : Stands ram_laws geometry listed listed_system
listed_system-Stands = record { info = refl; coherent = λ ne. absurd (ne refl); on_disk = refl }

pub listed_2 : fat_entry 10 listed 2 ≡ 3
unfolding fat_entry get_u16
listed_2 = refl

listed_3 : fat_entry 10 listed 3 ≡ 0xffff
unfolding fat_entry get_u16
listed_3 = refl

pub listed-IsChain : IsChain geometry (fat_entry 10 listed) 2 (2 ∷ 3 ∷ [])
listed-IsChain =
    rw (listed_2, listed_3)
      (
        refl,
        omega arith,
        record { word = omega arith; sector = omega arith },
        λ e. omega (arith, listed_2),
        refl,
        (refl, omega arith, HasEntry-3, λ e. omega (arith, listed_3), refl, omega arith),
      )

fat_private_find_file_example :
    let name : List ℕ = b'A' ∷ [] in
    Finds ram_laws ram_works geometry listed
      (to_fat_name name)
      0
      listed_system
      (lookup listed (to_fat_name name) none (chain_places geometry (2 ∷ 3 ∷ [])))
      (fat_private_find_file ram 3 (some entry_a) name 0 listed_system)
fat_private_find_file_example =
    fat_private_find_file_lem ram_laws ram_works geometry listed entry_a (b'A' ∷ []) 0 3
      (2 ∷ 3 ∷ []) listed_system geometry-IsLaidOut geometry-DataFits listed_system-Stands
      (omega arith) listed-IsChain (omega arith)

-- The name "B" is not there.
root_ends :
    lookup listed (to_fat_name (b'B' ∷ [])) none (root_places geometry 1 30)
    ≡ ends_at
        (record { block_addr = 30; entry_index = 2 })
        (some (record { block_addr = 30; entry_index = 0 }))
unfolding lookup root_places run_places block_places keep_slot same_bytes get_bytes
root_ends = rw to_fat_name_b refl

fat_private_find_file_root_example :
    let name : List ℕ = b'B' ∷ [] in
    Finds ram_laws ram_works geometry listed
      (to_fat_name name)
      0
      listed_system
      (lookup listed (to_fat_name name) none (root_places geometry 1 30))
      (fat_private_find_file ram 1 none name 0 listed_system)
unfolding IsDecided
fat_private_find_file_root_example =
    fat_private_find_file_root ram_laws ram_works geometry listed (b'B' ∷ []) 0 1 1 listed_system
      listed_system-Stands (omega arith, tt) (rw root_ends tt) (omega arith)

b-IsEntryName : IsEntryName (to_fat_name (b'B' ∷ []))
b-IsEntryName = rw to_fat_name_b (record { eleven = refl; lasts = refl; stays = refl })

-- The new entry takes the place of the deleted one.
fat_private_find_file_create_example :
    let find = fat_private_find_file ram 1 none (b'B' ∷ []) in
    (x : Found) × (s1 : Sys Disk) × (s2 : Sys Disk) × (find 1 listed_system ≡ some (some x, s1))
    × (find 0 s1 ≡ some (some x, s2))
    × (x.dir_entry ≡ blank_entry (to_fat_name (b'B' ∷ [])))
fat_private_find_file_create_example =
    fat_private_find_file_create ram_laws ram_works geometry listed (b'B' ∷ []) 1 0 1 1
      (record { block_addr = 30; entry_index = 2 })
      (some (record { block_addr = 30; entry_index = 0 })) listed_system listed_system-Stands
      (omega arith, tt) (omega arith) b-IsEntryName root_ends (omega arith) (omega arith)

-- ===== src/Fat/Tests/Truncate.antt =====
-- Runs of `fat_truncate` of lib/fat/fat.c.
use ccpu_libsys.Prelude.{
  ℕ, ◌+◌, ◌<◌, ◌≤◌, ◌≡◌, ◌⊎◌, refl, true, some, [], ◌∷◌, arith, ◌==◌, if◌then◌else◌,
}
use ccpu_libsys.Fat.Card.{Disk}
use ccpu_libsys.Fat.State.{Sys}
use ccpu_libsys.Fat.Cache.Laws.{disk}
use ccpu_libsys.Fat.Table.Entries.{HasEntry, fat_entry}
use ccpu_libsys.Fat.Table.Chains.{has}
use ccpu_libsys.Fat.Truncate.{fat_truncate}
use ccpu_libsys.Fat.Truncate.Laws.{fat_truncate_lem, fat_truncate_start}
use ccpu_libsys.Fat.Tests.{
  ram, ram_laws, ram_works, geometry, geometry-IsLaidOut, formatted, entry_a, system, system-Stands,
}
use ccpu_libsys.Fat.Tests.Table.{entry_2, formatted-IsChain}

fat_truncate_example :
    let cut : (ℕ → ℕ) → ℕ → ℕ =
      λ t j. if has j (3 ∷ []) then 0 else if j == 2 then 0xffff else t j in
    (s' : Sys Disk) × (fat_truncate ram 2 3 system ≡ some (true, s'))
    × ((j : ℕ)
        → HasEntry geometry j
        → (fat_entry 10 (disk ram_laws s') j ≡ cut (fat_entry 10 formatted) j)
          × (fat_entry 20 (disk ram_laws s') j ≡ cut (fat_entry 20 formatted) j))
    × ((x : ℕ) → (x < 10) ⊎ (20 + 2 ≤ x) → disk ram_laws s' x ≡ formatted x)
    × ((s'.file_desc 3).dir_entry ≡ record entry_a { size = 100 })
    × ((s'.file_desc 3).dir_entry_modified ≡ true)
    × ((s'.file_desc 3).cur_cluster ≡ 2)
    × ((s'.file_desc 3).next_cluster ≡ 0xffff)
fat_truncate_example =
    fat_truncate_lem ram_laws ram_works geometry (3 ∷ []) 2 3 formatted system geometry-IsLaidOut
      system-Stands refl refl (omega arith) refl formatted-IsChain (omega (arith, entry_2))
      (omega arith) (omega arith)

fat_truncate_start_example :
    let cut : (ℕ → ℕ) → ℕ → ℕ = λ t j. if has j (2 ∷ 3 ∷ []) then 0 else t j in
    (s' : Sys Disk) × (fat_truncate ram 3 0 system ≡ some (true, s'))
    × ((j : ℕ)
        → HasEntry geometry j
        → (fat_entry 10 (disk ram_laws s') j ≡ cut (fat_entry 10 formatted) j)
          × (fat_entry 20 (disk ram_laws s') j ≡ cut (fat_entry 20 formatted) j))
    × ((x : ℕ) → (x < 10) ⊎ (20 + 2 ≤ x) → disk ram_laws s' x ≡ formatted x)
    × ((s'.file_desc 0).dir_entry ≡ record entry_a { size = 0; cluster_lo = 0 })
    × ((s'.file_desc 0).dir_entry_modified ≡ true)
    × ((s'.file_desc 0).cur_cluster ≡ 0)
fat_truncate_start_example =
    fat_truncate_start ram_laws ram_works geometry (2 ∷ 3 ∷ []) 3 0 formatted system
      geometry-IsLaidOut system-Stands refl refl refl (omega arith) refl refl refl formatted-IsChain
      (omega arith)

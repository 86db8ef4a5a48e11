-- ===== src/Fat/Tests/Table.antt =====
-- Runs of the functions of the cache and of the file allocation table in lib/fat/fat.c.
use ccpu_libsys.Prelude.{
  ℕ, ◌+◌, ◌≤◌, ◌<◌, ◌≡◌, ◌⊎◌, refl, true, some, [], ◌∷◌, arith, if◌then◌else◌, fun_ext,
}
use ccpu_libsys.Fat.Bytes.{get_u16}
use ccpu_libsys.Fat.Card.{Disk}
use ccpu_libsys.Fat.State.{Sys}
use ccpu_libsys.Fat.Cache.{cache, flush_cache}
use ccpu_libsys.Fat.Cache.Laws.{disk, Loaded, cache-Loaded, Flushed, flush_cache-Flushed, Wrote}
use ccpu_libsys.Fat.Table.{write_fat_entry, find_parent_cluster, free_cluster_chain, alloc_cluster}
use ccpu_libsys.Fat.Table.Entries.{HasEntry, fat_entry, set_both, write_fat_entry-Wrote}
use ccpu_libsys.Fat.Table.Chains.{has, IsChain}
use ccpu_libsys.Fat.Table.Free.{Found, find_parent_cluster_lem}
use ccpu_libsys.Fat.Table.Freed.{free_cluster_chain_entries}
use ccpu_libsys.Fat.Table.Mirror.{IsMirrored}
use ccpu_libsys.Fat.Table.Alloc.{Allocated, alloc_cluster_lem}
use ccpu_libsys.Fat.Tests.{
  ram, ram_laws, ram_works, geometry, geometry-IsLaidOut, formatted, system, system-Stands,
}

pub HasEntry-3 : HasEntry geometry 3
HasEntry-3 = record { word = omega arith; sector = omega arith }

formatted-IsMirrored : IsMirrored geometry formatted
formatted-IsMirrored i lt = fun_ext λ x. ground arith

pub entry_2 : fat_entry 10 formatted 2 ≡ 3
unfolding fat_entry get_u16
entry_2 = refl

pub entry_3 : fat_entry 10 formatted 3 ≡ 0xffff
unfolding fat_entry get_u16
entry_3 = refl

pub formatted-IsChain : IsChain geometry (fat_entry 10 formatted) 2 (2 ∷ 3 ∷ [])
formatted-IsChain =
    rw (entry_2, entry_3)
      (
        refl,
        omega arith,
        record { word = omega arith; sector = omega arith },
        λ e. omega (arith, entry_2),
        refl,
        (refl, omega arith, HasEntry-3, λ e. omega (arith, entry_3), refl, omega arith),
      )

abbrev loaded : Sys Disk
loaded = record system { cache_block_addr = 30; cache_block = λ i. 7 }

cache-Loaded_example : Loaded ram_laws 10 system (cache ram 10 system)
cache-Loaded_example = cache-Loaded ram_laws 10 system (omega arith) (system-Stands.coherent)

flush_cache-Flushed_example : Flushed ram_laws loaded (flush_cache ram loaded)
flush_cache-Flushed_example = flush_cache-Flushed ram_laws loaded (omega arith)

write_fat_entry_example :
    Wrote ram_laws (set_both geometry 3 9 formatted) system (write_fat_entry ram 3 9 system)
write_fat_entry_example =
    write_fat_entry-Wrote ram_laws 3 9 system geometry-IsLaidOut HasEntry-3 (system-Stands.coherent)

find_parent_cluster_example :
    Found ram_laws ram_works geometry formatted system 2 (find_parent_cluster ram 1 2 3 system)
find_parent_cluster_example =
    find_parent_cluster_lem ram_laws ram_works geometry [] 2 3 [] 1 2 formatted system
      geometry-IsLaidOut system-Stands formatted-IsChain (omega arith)

free_cluster_chain_example :
    (s' : Sys Disk) × (free_cluster_chain ram 3 2 system ≡ some (true, s'))
    × ((j : ℕ)
        → HasEntry geometry j
        → (fat_entry 10 (disk ram_laws s') j
            ≡ (if has j (2 ∷ 3 ∷ []) then 0 else fat_entry 10 formatted j))
          × (fat_entry 20 (disk ram_laws s') j
              ≡ (if has j (2 ∷ 3 ∷ []) then 0 else fat_entry 20 formatted j)))
    × ((x : ℕ) → (x < 10) ⊎ (20 + 2 ≤ x) → disk ram_laws s' x ≡ formatted x)
free_cluster_chain_example =
    free_cluster_chain_entries ram_laws ram_works geometry (2 ∷ 3 ∷ []) 3 2 formatted system
      geometry-IsLaidOut system-Stands formatted-IsChain (omega arith)

alloc_cluster_example :
    Allocated ram_laws ram_works geometry formatted 3 system (alloc_cluster ram 3 system)
alloc_cluster_example =
    alloc_cluster_lem ram_laws ram_works formatted 3 system geometry-IsLaidOut formatted-IsMirrored
      (λ ne. HasEntry-3) (omega arith) system-Stands

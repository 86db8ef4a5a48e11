-- ===== src/Fat/Tests/Listing.antt =====
-- Runs of `fat_get_next_dir_entry` of lib/fat/fat.c.
use ccpu_libsys.Prelude.{ℕ, ◌*◌, ◌<◌, ◌≡◌, refl, true, [], ◌∷◌, arith}
use mathlib.Core.Path.{subst}
use ccpu_libsys.Fat.Bytes.{get_u16, get_u32}
use ccpu_libsys.Fat.Card.{Disk}
use ccpu_libsys.Fat.State.{Sys, cluster_block, put_desc}
use ccpu_libsys.Fat.Cache.Laws.{Stands}
use ccpu_libsys.Fat.Entry.{get_bytes, get_entry}
use ccpu_libsys.Fat.Table.Entries.{fat_entry}
use ccpu_libsys.Fat.Action.Content.{chain_place}
use ccpu_libsys.Fat.Dir.{fat_get_next_dir_entry}
use ccpu_libsys.Fat.Dir.Listing.{IsNext, Lists}
use ccpu_libsys.Fat.Dir.OnChain.{IsOnEntry}
use ccpu_libsys.Fat.Dir.OnRoot.{IsOnRootEntry, root_place}
use ccpu_libsys.Fat.Dir.Next.{fat_get_next_dir_entry_lem, fat_get_next_dir_entry_root}
use ccpu_libsys.Fat.Tests.{
  ram, ram_laws, ram_works, geometry, geometry-IsLaidOut, entry_a, descs, system,
}
use ccpu_libsys.Fat.Tests.Action.{geometry-DataFits}
use ccpu_libsys.Fat.Tests.Dir.{listed, listed_2, listed-IsChain}

-- Descriptor 0 is a directory in the clusters 2 and 3, descriptor 1 the root directory.
abbrev dir_system : Sys Disk
dir_system = record system {
  card = listed;
  file_desc = put_desc descs 1 (record (descs 0) { is_root = true; block_addr = 30 });
}

dir_system-Stands : Stands ram_laws geometry listed dir_system
dir_system-Stands = record { info = refl; coherent = λ ne. absurd (ne refl); on_disk = refl }

on_first : IsOnEntry geometry (fat_entry 10 listed) (2 ∷ 3 ∷ []) 0 (descs 0)
unfolding cluster_block
on_first = record {
  current = 2;
  behind = 3 ∷ [];
  on_chain = record {
    not_root = refl;
    cluster = refl;
    next = omega (arith, listed_2);
    chain = listed-IsChain;
    aligned = refl;
    index = omega arith;
    inside = omega arith;
    address = refl;
  };
  position = refl;
  same = λ j. refl;
  offset = refl;
}

first_only : (P : ℕ → Type 0) → P 0 → (j : ℕ) → j < 1 → P j
first_only P h j lt = let e : 0 ≡ j = omega (arith, lt) in subst P e h

-- The first entry is deleted, and the second is an ordinary one.
chain-IsNext : IsNext listed 8 (λ i. chain_place geometry (2 ∷ 3 ∷ []) (32 * i)) 0 1
unfolding chain_place cluster_block get_entry get_bytes get_u16 get_u32
chain-IsNext = record { before = first_only _ refl; skipped = first_only _ refl; found = refl }

fat_get_next_dir_entry_example :
    Lists ram_laws ram_works geometry listed 0 32
      (λ i. chain_place geometry (2 ∷ 3 ∷ []) (32 * i))
      (IsOnEntry geometry (fat_entry 10 listed) (2 ∷ 3 ∷ []))
      dir_system
      1
      (fat_get_next_dir_entry ram 2 0 entry_a 8 dir_system)
fat_get_next_dir_entry_example =
    fat_get_next_dir_entry_lem ram_laws ram_works geometry listed 0 0 1 2 8 (2 ∷ 3 ∷ []) entry_a
      dir_system geometry-IsLaidOut geometry-DataFits dir_system-Stands refl refl on_first
      chain-IsNext (omega arith) (omega arith) (omega arith)

root-IsNext : IsNext listed 8 (root_place geometry) 0 1
unfolding get_entry get_bytes get_u16 get_u32
root-IsNext = record { before = first_only _ refl; skipped = first_only _ refl; found = refl }

fat_get_next_dir_entry_root_example :
    Lists ram_laws ram_works geometry listed 1 512
      (root_place geometry)
      (IsOnRootEntry geometry)
      dir_system
      1
      (fat_get_next_dir_entry ram 2 1 entry_a 8 dir_system)
fat_get_next_dir_entry_root_example =
    fat_get_next_dir_entry_root ram_laws ram_works geometry listed 1 0 1 512 2 8 entry_a dir_system
      dir_system-Stands refl refl (record { is_root = refl; address = refl; index = refl })
      root-IsNext (omega arith) (omega arith) (omega arith)

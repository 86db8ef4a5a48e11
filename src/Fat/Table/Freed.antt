-- ===== src/Fat/Table/Freed.antt =====
-- What `free_cluster_chain` of lib/fat/fat.c leaves on the card, entry by entry.
use ccpu_libsys.Prelude.{
  ℕ, ◌+◌, ◌<◌, ◌≤◌, ◌≡◌, ap, ◌∙◌, ◌⊎◌, true, some, List, if◌then◌else◌, length,
}
use ccpu_libsys.Fat.Card.{Disk, CardOps, CardLaws, CardWorks}
use ccpu_libsys.Fat.State.{Sys, FatInfo}
use ccpu_libsys.Fat.Cache.Laws.{disk, Stands}
use ccpu_libsys.Fat.Table.{free_cluster_chain}
use ccpu_libsys.Fat.Table.Entries.{IsLaidOut, HasEntry, fat_entry}
use ccpu_libsys.Fat.Table.Chains.{
  has, IsChain, IsChain-AllEntries, fat0-free_all, fat1-free_all, other-free_all,
}
use ccpu_libsys.Fat.Table.Free.{free_cluster_chain_lem}

module _ {Card : Type 0} {ops : CardOps Card} (laws : CardLaws ops) (works : CardWorks ops) where
  -- On a card where no transfer fails, with a coherent cache and the tables laid out, on a chain
  -- `ks` of the first table and with more fuel than it has clusters, `free_cluster_chain` returns
  -- true. Then in both tables the entries of the chain are 0 and all others are as before, and so
  -- is every block outside of the tables.
  pub free_cluster_chain_entries :
      (f : FatInfo) (ks : List ℕ) (fuel from : ℕ) (d : Disk) (s : Sys Card)
      → IsLaidOut f
      → Stands laws f d s
      → IsChain f (fat_entry f.fat0_offset d) from ks
      → length ks < fuel
      → (s' : Sys Card) × (free_cluster_chain ops fuel from s ≡ some (true, s'))
        × ((j : ℕ)
            → HasEntry f j
            → (fat_entry f.fat0_offset (disk laws s') j
                ≡ (if has j ks then 0 else fat_entry f.fat0_offset d j))
              × (fat_entry f.fat1_offset (disk laws s') j
                  ≡ (if has j ks then 0 else fat_entry f.fat1_offset d j)))
        × ((x : ℕ)
            → (x < f.fat0_offset) ⊎ (f.fat1_offset + f.sectors_per_fat ≤ x)
            → disk laws s' x ≡ d x)
  free_cluster_chain_entries f ks fuel from d s g st h lt =
      let (s', run, st', same) = free_cluster_chain_lem laws works f ks fuel from d s g st h lt in
      let all = IsChain-AllEntries f (fat_entry f.fat0_offset d) from ks h in
      (
        s',
        run,
        λ j e. (
          ap (λ d. fat_entry f.fat0_offset d j) st'.on_disk ∙ fat0-free_all g ks d j all e,
          ap (λ d. fat_entry f.fat1_offset d j) st'.on_disk ∙ fat1-free_all g ks d j all e,
        ),
        λ x out. ap (λ (d : Disk). d x) st'.on_disk ∙ other-free_all g ks d x all out,
      )

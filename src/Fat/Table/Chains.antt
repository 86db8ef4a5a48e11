-- ===== src/Fat/Table/Chains.antt =====
-- Chains of clusters in the tables of lib/fat/fat.c, and the disk after each of them is freed.
use ccpu_libsys.Prelude.{
  ℕ, ◌+◌, ◌<◌, ◌≤◌, ◌≡◌, ◌≢◌, refl, ◌∙◌, Bool, true, false, ◌||◌, List, [], ◌∷◌, arith, ◌==◌,
  if◌then◌else◌, ◌⊎◌,
}
use ccpu_libsys.Fat.Card.{Disk}
use ccpu_libsys.Fat.State.{FatInfo, fat_min_last_cluster}
use ccpu_libsys.Fat.Table.Entries.{IsLaidOut, HasEntry, fat_entry, set_both}
use ccpu_libsys.Fat.Table.Sets.{fat0-set_both, fat1-set_both, other-set_both}

abbrev pub has : ℕ → List ℕ → Bool
has j [] = false
has j (k ∷ ks) = (j == k) || has j ks

-- From cluster `c` the entries `t` lead through the distinct clusters `ks` to an end mark.
abbrev pub IsChain : FatInfo → (ℕ → ℕ) → ℕ → List ℕ → Type 0
IsChain f t c [] = fat_min_last_cluster ≤ c
IsChain f t c (k ∷ ks) =
    (k ≡ c)
    × (c < fat_min_last_cluster)
    × HasEntry f c
    × (t c ≢ 0)
    × (has c ks ≡ false)
    × IsChain f t (t c) ks

-- A chain depends on the entries of its own clusters alone.
pub IsChain-frame :
    (f : FatInfo) (t u : ℕ → ℕ) (c : ℕ) (ks : List ℕ)
    → IsChain f t c ks
    → ((j : ℕ) → has j ks ≡ true → HasEntry f j → u j ≡ t j)
    → IsChain f u c ks
IsChain-frame f t u c [] h same = h
IsChain-frame f t u c (k ∷ ks) h same =
    let e : u c ≡ t c = same c (ground arith) h.2 in
    (
      h.0,
      h.1,
      h.2,
      rw e (h.3),
      h.4,
      rw e (IsChain-frame f t u (t c) ks h.5 (λ j i en. same j (ground arith) en)),
    )

-- The disk after `write_fat_entry(k, 0)` for each cluster.
unfoldable pub free_all : FatInfo → List ℕ → Disk → Disk
free_all f [] d = d
free_all f (k ∷ ks) d = free_all f ks (set_both f k 0 d)

-- Every cluster of a list has an entry.
abbrev pub AllEntries : FatInfo → List ℕ → Type 0
AllEntries f [] = Unit {0}
AllEntries f (k ∷ ks) = HasEntry f k × AllEntries f ks

pub IsChain-AllEntries :
    (f : FatInfo) (t : ℕ → ℕ) (c : ℕ) (ks : List ℕ) → IsChain f t c ks → AllEntries f ks
IsChain-AllEntries f t c [] h = tt
IsChain-AllEntries f t c (k ∷ ks) h = (rw (h.0) (h.2), IsChain-AllEntries f t (t c) ks h.5)

module _ {f : FatInfo} (g : IsLaidOut f) where
  -- The first table after that: 0 at the clusters of the list, and no other entry changed.
  pub fat0-free_all :
      (ks : List ℕ) (d : Disk) (j : ℕ)
      → AllEntries f ks
      → HasEntry f j
      → fat_entry f.fat0_offset (free_all f ks d) j
        ≡ (if has j ks then 0 else fat_entry f.fat0_offset d j)
  unfolding free_all
  fat0-free_all [] d j h e = refl
  fat0-free_all (k ∷ ks) d j h e = ground (
    arith,
    fat0-free_all ks (set_both f k 0 d) j h.1 e,
    fat0-set_both g k 0 d j (omega arith) h.0 e,
  )

  pub fat1-free_all :
      (ks : List ℕ) (d : Disk) (j : ℕ)
      → AllEntries f ks
      → HasEntry f j
      → fat_entry f.fat1_offset (free_all f ks d) j
        ≡ (if has j ks then 0 else fat_entry f.fat1_offset d j)
  unfolding free_all
  fat1-free_all [] d j h e = refl
  fat1-free_all (k ∷ ks) d j h e = ground (
    arith,
    fat1-free_all ks (set_both f k 0 d) j h.1 e,
    fat1-set_both g k 0 d j (omega arith) h.0 e,
  )

  -- A block in neither table stays as it is.
  pub other-free_all :
      (ks : List ℕ) (d : Disk) (x : ℕ)
      → AllEntries f ks
      → (x < f.fat0_offset) ⊎ (f.fat1_offset + f.sectors_per_fat ≤ x)
      → free_all f ks d x ≡ d x
  unfolding free_all
  other-free_all [] d x h out = refl
  other-free_all (k ∷ ks) d x h out =
      other-free_all ks (set_both f k 0 d) x h.1 out
      ∙ other-set_both g k 0 d x (omega arith) (omega arith)

  -- Freeing the first cluster of a chain leaves the rest a chain.
  pub IsChain-set_both :
      (d : Disk) (c k : ℕ) (ks : List ℕ)
      → HasEntry f k
      → has k ks ≡ false
      → IsChain f (fat_entry f.fat0_offset d) c ks
      → IsChain f (fat_entry f.fat0_offset (set_both f k 0 d)) c ks
  IsChain-set_both d c k ks e out h =
      IsChain-frame f (fat_entry f.fat0_offset d) (fat_entry f.fat0_offset (set_both f k 0 d)) c ks
        h λ j i ej. fat0-set_both g k 0 d j (omega arith) e ej ∙ ground arith

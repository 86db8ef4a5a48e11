-- ===== src/Fat/Seek/Chain.antt =====
-- The loops of `fat_seek_end` and `fat_seek` of lib/fat/fat.c on a chain of the table.
use ccpu_libsys.Prelude.{
  ℕ, zero, suc, ◌+◌, ◌-◌, ◌*◌, ◌<◌, ◌≤◌, ◌≡◌, ◌≢◌, refl, true, Option, some, List, [], ◌∷◌, ◌++◌,
  arith, length, Bool, ltb,
}
use ccpu_libsys.Fat.Card.{Disk, CardOps, CardLaws, CardWorks}
use ccpu_libsys.Fat.State.{Sys, FatInfo, fat_min_last_cluster}
use ccpu_libsys.Fat.Cache.Laws.{SameTables, SameTables-trans, Stands}
use ccpu_libsys.Fat.Table.{read_fat_entry}
use ccpu_libsys.Fat.Table.Entries.{IsLaidOut, HasEntry, fat_entry}
use ccpu_libsys.Fat.Table.Chains.{IsChain}
use ccpu_libsys.Fat.Table.Free.{read_fat_entry_lem}
use ccpu_libsys.Fat.Seek.{Walk, walk_to_end, walk_to_offset}

-- The first cluster of a chain that has one.
pub chain_head :
    (f : FatInfo) (t : ℕ → ℕ) (c : ℕ) (pre : List ℕ) (k : ℕ) (post : List ℕ)
    → IsChain f t c (pre ++ (k ∷ post))
    → (c < fat_min_last_cluster) × HasEntry f c × (t c ≢ 0)
chain_head f t c [] k post h = (h.1, h.2, h.3)
chain_head f t c (x ∷ pre) k post h = (h.1, h.2, h.3)

module _ {Card : Type 0} {ops : CardOps Card} (laws : CardLaws ops) (works : CardWorks ops) where
  -- A loop that ends at `w` with the same card, where only the cache changed.
  abbrev pub Walked : FatInfo → Disk → Sys Card → Walk → Option (Bool × Walk × Sys Card) → Type 0
  Walked f d s w r =
      (s' : Sys Card) × (r ≡ some (true, w, s')) × Stands laws f d s' × SameTables laws s s'

  -- The loop of `fat_seek`: `offset` is so many whole clusters and a part of the cluster `k`.
  pub walk_to_offset_lem :
      (f : FatInfo) (pre : List ℕ) (k : ℕ) (post : List ℕ) (bytes fuel cur offset : ℕ) (d : Disk)
      (s : Sys Card)
      → let t = fat_entry f.fat0_offset d in
        IsLaidOut f
        → Stands laws f d s
        → IsChain f t cur (pre ++ (k ∷ post))
        → (0 < length pre → 0 < offset)
        → offset ≤ bytes
        → length pre < fuel
        → Walked f d s
            (record { cur_cluster = k; next_cluster = t k; offset = offset })
            (walk_to_offset ops bytes fuel
              (record {
                cur_cluster = cur;
                next_cluster = t cur;
                offset = bytes * length pre + offset;
              })
              s)
  unfolding walk_to_offset
  walk_to_offset_lem f pre k post bytes zero cur offset d s g st h pos le lt = absurd (omega arith)
  walk_to_offset_lem f [] k post bytes (suc fuel) cur offset d s g st h pos le lt =
      let e : k ≡ cur = h.0 in (s, ground (arith, e), st, record { info = refl; desc = refl })
  walk_to_offset_lem f (x ∷ pre) k post bytes (suc fuel) cur offset d s g st h pos le lt =
      let next = fat_entry f.fat0_offset d cur in
      let (lo, en, ne) = chain_head f (fat_entry f.fat0_offset d) next pre k post h.5 in
      let (e1, st1, same1) = read_fat_entry_lem laws works f d next s g en st in
      let (s', run, st', same') =
        walk_to_offset_lem f pre k post bytes fuel next offset d (read_fat_entry ops next s).1 g st1
          h.5 (λ _. pos (omega arith)) le (omega arith) in
      let o' = bytes * length (x ∷ pre) + offset in
      let lt_o : ltb bytes o' ≡ true = ground (arith, pos) in
      let eo : o' - bytes ≡ bytes * length pre + offset = omega arith in
      (s', ground (arith, e1, eo, lt_o, ne, run), st', SameTables-trans laws same1 same')

  -- The loop of `fat_seek_end`, which ends at the last cluster.
  pub walk_to_end_lem :
      (f : FatInfo) (pre : List ℕ) (k fuel cur offset : ℕ) (d : Disk) (s : Sys Card)
      → let t = fat_entry f.fat0_offset d in
        IsLaidOut f
        → Stands laws f d s
        → IsChain f t cur (pre ++ (k ∷ []))
        → length pre < fuel
        → Walked f d s
            (record { cur_cluster = k; next_cluster = t k; offset = offset })
            (walk_to_end ops fuel
              (record { cur_cluster = cur; next_cluster = t cur; offset = offset })
              s)
  unfolding walk_to_end
  walk_to_end_lem f pre k zero cur offset d s g st h lt = absurd (omega arith)
  walk_to_end_lem f [] k (suc fuel) cur offset d s g st h lt =
      let e : k ≡ cur = h.0 in
      let last : fat_min_last_cluster ≤ fat_entry f.fat0_offset d cur = h.5 in
      (s, ground (arith, e, last), st, record { info = refl; desc = refl })
  walk_to_end_lem f (x ∷ pre) k (suc fuel) cur offset d s g st h lt =
      let next = fat_entry f.fat0_offset d cur in
      let (lo, en, ne) = chain_head f (fat_entry f.fat0_offset d) next pre k [] h.5 in
      let (e1, st1, same1) = read_fat_entry_lem laws works f d next s g en st in
      let (s', run, st', same') =
        walk_to_end_lem f pre k fuel next offset d (read_fat_entry ops next s).1 g st1 h.5
          (omega arith) in
      (s', ground (arith, e1, lo, ne, run), st', SameTables-trans laws same1 same')

-- ===== src/Fat/Table/Free.antt =====
-- `free_cluster_chain` and `find_parent_cluster` of lib/fat/fat.c on a chain of the table.
use ccpu_libsys.Prelude.{
  ℕ, zero, suc, ◌<◌, ◌≡◌, ◌≢◌, refl, sym, ap, ◌∙◌, true, Option, some, List, [], ◌∷◌, ◌++◌, arith,
  length,
}
use mathlib.Core.Path.{subst}
use ccpu_libsys.Fat.Card.{Disk, CardOps, CardLaws, CardWorks}
use ccpu_libsys.Fat.State.{Sys, FatInfo}
use ccpu_libsys.Fat.Cache.Laws.{disk, SameTables, SameTables-trans, Stands, Wrote}
use ccpu_libsys.Fat.Table.{read_fat_entry, write_fat_entry, find_parent_cluster, free_cluster_chain}
use ccpu_libsys.Fat.Table.Entries.{
  IsLaidOut, HasEntry, fat_entry, set_both, ReadEntry, read_fat_entry-ReadEntry,
  write_fat_entry-Wrote,
}
use ccpu_libsys.Fat.Table.Works.{read_fat_entry_works, write_fat_entry_works}
use ccpu_libsys.Fat.Table.Chains.{has, IsChain, free_all, IsChain-set_both}

has_middle : (pre : List ℕ) (p cur : ℕ) (post : List ℕ) → has cur (pre ++ (p ∷ cur ∷ post)) ≡ true
has_middle [] p cur post = ground arith
has_middle (x ∷ pre) p cur post = ground (arith, has_middle pre p cur post)

-- The first cluster of a chain is none of those behind it.
next-ne-cur :
    (f : FatInfo) (t : ℕ → ℕ) (c : ℕ) (pre : List ℕ) (p cur : ℕ) (post : List ℕ)
    → IsChain f t c (pre ++ (p ∷ cur ∷ post))
    → c ≢ cur
next-ne-cur f t c [] p cur post h = ground arith
next-ne-cur f t c (x ∷ pre) p cur post h = ground (arith, has_middle pre p cur post)

module _ {Card : Type 0} {ops : CardOps Card} (laws : CardLaws ops) (works : CardWorks ops) where
  -- `read_fat_entry` returns the entry and changes the cache alone.
  pub read_fat_entry_lem :
      (f : FatInfo) (d : Disk) (k : ℕ) (s : Sys Card)
      → IsLaidOut f
      → HasEntry f k
      → Stands laws f d s
      → ((read_fat_entry ops k s).0 ≡ fat_entry f.fat0_offset d k)
        × Stands laws f d (read_fat_entry ops k s).1
        × SameTables laws s (read_fat_entry ops k s).1
  read_fat_entry_lem f d k s g e st =
      let g' : IsLaidOut s.fat_info = subst IsLaidOut (sym st.info) g in
      let e' : HasEntry s.fat_info k = subst (λ f. HasEntry f k) (sym st.info) e in
      let r : ReadEntry laws k s (read_fat_entry ops k s) =
        read_fat_entry-ReadEntry laws k s g' e' st.coherent in
      (
        read_fat_entry_works laws works k s g' e' st.coherent
            ∙ ap (λ (f : FatInfo). fat_entry f.fat0_offset (disk laws s) k) st.info
            ∙ ap (λ d. fat_entry f.fat0_offset d k) st.on_disk,
        record {
          info = r.same.info ∙ st.info;
          coherent = r.coherent;
          on_disk = r.same_disk ∙ st.on_disk;
        },
        r.same,
      )

  -- `write_fat_entry` succeeds and stores the value in both tables.
  pub write_fat_entry_lem :
      (f : FatInfo) (d : Disk) (k v : ℕ) (s : Sys Card)
      → IsLaidOut f
      → HasEntry f k
      → Stands laws f d s
      → ((write_fat_entry ops k v s).0 ≡ true)
        × Stands laws f (set_both f k v d) (write_fat_entry ops k v s).1
        × SameTables laws s (write_fat_entry ops k v s).1
  write_fat_entry_lem f d k v s g e st =
      let g' : IsLaidOut s.fat_info = subst IsLaidOut (sym st.info) g in
      let e' : HasEntry s.fat_info k = subst (λ f. HasEntry f k) (sym st.info) e in
      let w : Wrote laws (set_both s.fat_info k v (disk laws s)) s (write_fat_entry ops k v s) =
        write_fat_entry-Wrote laws k v s g' e' st.coherent in
      let ok : (write_fat_entry ops k v s).0 ≡ true = write_fat_entry_works laws works k v s in
      (
        ok,
        record {
          info = w.same.info ∙ st.info;
          coherent = w.coherent ok;
          on_disk =
              w.done ok
              ∙ ap (λ f. set_both f k v (disk laws s)) st.info
              ∙ ap (set_both f k v) st.on_disk;
        },
        w.same,
      )

  -- On a card where no transfer fails, with a coherent cache, on a chain of the table, with more
  -- fuel than it has clusters, `free_cluster_chain` returns true with both entries of every cluster
  -- of the chain set to 0 and nothing else on the card changed.
  pub free_cluster_chain_lem :
      (f : FatInfo) (ks : List ℕ) (fuel from : ℕ) (d : Disk) (s : Sys Card)
      → IsLaidOut f
      → Stands laws f d s
      → IsChain f (fat_entry f.fat0_offset d) from ks
      → length ks < fuel
      → (s' : Sys Card) × (free_cluster_chain ops fuel from s ≡ some (true, s'))
        × Stands laws f (free_all f ks d) s'
        × SameTables laws s s'
  unfolding free_cluster_chain free_all
  free_cluster_chain_lem f ks zero from d s g st h lt = absurd (omega arith)
  free_cluster_chain_lem f [] (suc fuel) from d s g st h lt =
      (s, ground arith, st, record { info = refl; desc = refl })
  free_cluster_chain_lem f (k ∷ ks) (suc fuel) from d s g st h lt =
      let (e1, st1, same1) = read_fat_entry_lem f d from s g h.2 st in
      let s1 = (read_fat_entry ops from s).1 in
      let (e2, st2, same2) = write_fat_entry_lem f d from 0 s1 g h.2 st1 in
      let s2 = (write_fat_entry ops from 0 s1).1 in
      let t = fat_entry f.fat0_offset in
      let (s', run, st', same') =
        free_cluster_chain_lem f ks fuel (t d from) (set_both f from 0 d) s2 g st2
          (IsChain-set_both g d (t d from) from ks h.2 h.4 h.5) (omega arith) in
      (
        s',
        ground (arith, e1, e2, run),
        rw (h.0) st',
        SameTables-trans laws same1 (SameTables-trans laws same2 same'),
      )

  -- What `find_parent_cluster` returns: the result, with the same card and only the cache changed.
  abbrev pub Found : FatInfo → Disk → Sys Card → ℕ → Option (ℕ × Sys Card) → Type 0
  Found f d s p r = (s' : Sys Card) × (r ≡ some (p, s')) × Stands laws f d s' × SameTables laws s s'

  -- On a card where no transfer fails, with a coherent cache and the tables laid out: on a chain of
  -- the first table that holds `p` and right behind it `cur`, with more fuel than clusters before
  -- `p`, `find_parent_cluster` returns `p` and changes nothing on the card.
  pub find_parent_cluster_lem :
      (f : FatInfo) (pre : List ℕ) (p cur : ℕ) (post : List ℕ) (fuel head : ℕ) (d : Disk)
      (s : Sys Card)
      → IsLaidOut f
      → Stands laws f d s
      → IsChain f (fat_entry f.fat0_offset d) head (pre ++ (p ∷ cur ∷ post))
      → length pre < fuel
      → Found f d s p (find_parent_cluster ops fuel head cur s)
  unfolding find_parent_cluster
  find_parent_cluster_lem f pre p cur post zero head d s g st h lt = absurd (omega arith)
  find_parent_cluster_lem f [] p cur post (suc fuel) head d s g st h lt =
      let (e1, st1, same1) = read_fat_entry_lem f d head s g h.2 st in
      let e3 : cur ≡ fat_entry f.fat0_offset d head = h.5.0 in
      ((read_fat_entry ops head s).1, ground (arith, e1, e3), st1, same1)
  find_parent_cluster_lem f (x ∷ pre) p cur post (suc fuel) head d s g st h lt =
      let (e1, st1, same1) = read_fat_entry_lem f d head s g h.2 st in
      let next = fat_entry f.fat0_offset d head in
      let ne : next ≢ cur = next-ne-cur f (fat_entry f.fat0_offset d) next pre p cur post h.5 in
      let (s', run, st', same') =
        find_parent_cluster_lem f pre p cur post fuel next d (read_fat_entry ops head s).1 g st1 h.5
          (omega arith) in
      (s', ground (arith, e1, run, ne), st', SameTables-trans laws same1 same')

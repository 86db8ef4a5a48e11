-- ===== src/Fat/Truncate/Laws.antt =====
-- What `fat_truncate` of lib/fat/fat.c leaves of a chain.
use ccpu_libsys.Prelude.{
  ℕ, ◌+◌, ◌<◌, ◌≤◌, ◌≡◌, ◌≢◌, sym, ap, ◌∙◌, ◌⊎◌, true, false, some, List, ◌∷◌, arith, ◌==◌, ◌&&◌,
  if◌then◌else◌, length,
}
use mathlib.Core.Path.{subst}
use ccpu_libsys.Fat.Card.{Disk, CardOps, CardLaws, CardWorks}
use ccpu_libsys.Fat.State.{Sys, FileDescriptor, FatInfo, fat_min_last_cluster}
use ccpu_libsys.Fat.Cache.Laws.{disk, Stands}
use ccpu_libsys.Fat.Desc.{get_desc, set_desc}
use ccpu_libsys.Fat.Table.{write_fat_entry}
use ccpu_libsys.Fat.Table.Entries.{IsLaidOut, HasEntry, fat_entry, set_both}
use ccpu_libsys.Fat.Table.Sets.{fat0-set_both, fat1-set_both, other-set_both}
use ccpu_libsys.Fat.Table.Chains.{has, IsChain, IsChain-frame}
use ccpu_libsys.Fat.Table.Free.{write_fat_entry_lem}
use ccpu_libsys.Fat.Table.Freed.{free_cluster_chain_entries}
use ccpu_libsys.Fat.Truncate.{
  cut_size, cut_chain, finish_cut, cut_all, finish_empty, set_last_cluster_len, fat_truncate,
}

module _ {Card : Type 0} {ops : CardOps Card} (laws : CardLaws ops) (works : CardWorks ops) where
  -- On a card where no transfer fails, with a coherent cache and the tables laid out, for an open
  -- descriptor that is inside its cluster and not at the end of its file, with the chain of the
  -- clusters `ks` behind that cluster, and with more fuel than these: `fat_truncate` returns true.
  -- Then in both tables the cluster ends the chain, the entries of `ks` are 0 and all others are as
  -- before, and so is every block outside of the tables. The size is the position, the entry is
  -- marked as modified and the descriptor is in the last cluster of the file.
  pub fat_truncate_lem :
      (f : FatInfo) (ks : List ℕ) (fuel fd : ℕ) (d : Disk) (s : Sys Card)
      → let p = s.file_desc fd in
        let t0 = fat_entry f.fat0_offset in
        let t1 = fat_entry f.fat1_offset in
        let cut : (ℕ → ℕ) → ℕ → ℕ =
          λ t j. if has j ks then 0 else if j == p.cur_cluster then 0xffff else t j in
        IsLaidOut f
        → Stands laws f d s
        → p.is_free ≡ false
        → p.is_stale ≡ false
        → p.abs_offset ≢ p.dir_entry.size
        → (p.block_in_cluster == 0 && p.index_in_block == 0) ≡ false
        → IsChain f (t0 d) p.cur_cluster (p.cur_cluster ∷ ks)
        → p.next_cluster ≡ t0 d p.cur_cluster
        → p.next_cluster < fat_min_last_cluster
        → length ks < fuel
        → (s' : Sys Card) × (fat_truncate ops fuel fd s ≡ some (true, s'))
          × ((j : ℕ)
              → HasEntry f j
              → (t0 (disk laws s') j ≡ cut (t0 d) j) × (t1 (disk laws s') j ≡ cut (t1 d) j))
          × ((x : ℕ)
              → (x < f.fat0_offset) ⊎ (f.fat1_offset + f.sectors_per_fat ≤ x)
              → disk laws s' x ≡ d x)
          × ((s'.file_desc fd).dir_entry ≡ record (p.dir_entry) { size = p.abs_offset })
          × ((s'.file_desc fd).dir_entry_modified ≡ true)
          × ((s'.file_desc fd).cur_cluster ≡ p.cur_cluster)
          × ((s'.file_desc fd).next_cluster ≡ 0xffff)
  unfolding fat_truncate cut_chain finish_cut get_desc set_desc cut_size set_last_cluster_len
  fat_truncate_lem f ks fuel fd d s g st taken fresh short inside h next more lt =
      let p = s.file_desc fd in
      let k = p.cur_cluster in
      let d1 = set_both f k 0xffff d in
      let (e1, st1, same1) = write_fat_entry_lem laws works f d k 0xffff s g h.2 st in
      let s1 = (write_fat_entry ops k 0xffff s).1 in
      let en : HasEntry f k = h.2 in
      let out : has k ks ≡ false = h.4 in
      let h1 : IsChain f (fat_entry f.fat0_offset d1) p.next_cluster ks =
        subst (λ c. IsChain f (fat_entry f.fat0_offset d1) c ks) (sym next)
          (IsChain-frame f (fat_entry f.fat0_offset d) (fat_entry f.fat0_offset d1)
            (fat_entry f.fat0_offset d k) ks h.5
            (λ j i ej. fat0-set_both g k 0xffff d j (omega arith) en ej ∙ ground arith)) in
      let got : get_desc fd s ≡ (true, s) = ground (arith, taken, fresh) in
      let (s2, run, entries, others) =
        free_cluster_chain_entries laws works f ks fuel p.next_cluster d1 s1 g st1 h1 lt in
      (
        set_desc fd
            (set_last_cluster_len s2.fat_info (record (cut_size p) { next_cluster = 0xffff })) s2,
        ground (arith, got, e1, run, inside, short, more),
        λ j e. (
          (entries j e).0
              ∙ ap (λ v. if has j ks then 0 else v)
                  (fat0-set_both g k 0xffff d j (omega arith) en e),
          (entries j e).1
              ∙ ap (λ v. if has j ks then 0 else v)
                  (fat1-set_both g k 0xffff d j (omega arith) en e),
        ),
        λ x out.
            others x out
            ∙ other-set_both g k 0xffff d x (omega (arith, en.sector)) (omega (arith, en.sector)),
        ground arith,
        ground arith,
        ground arith,
        ground arith,
      )

  -- On a card where no transfer fails, with a coherent cache and the tables laid out, for an open
  -- descriptor at the start of a file that is not empty, on the chain `ks` of its clusters, and with
  -- more fuel than these: `fat_truncate` returns true. Then in both tables the entries of `ks` are
  -- 0 and all others are as before, and so is every block outside of the tables. The directory entry
  -- has size 0 and no cluster and is marked as modified, and the descriptor is on no cluster.
  pub fat_truncate_start :
      (f : FatInfo) (ks : List ℕ) (fuel fd : ℕ) (d : Disk) (s : Sys Card)
      → let p = s.file_desc fd in
        let t0 = fat_entry f.fat0_offset in
        let t1 = fat_entry f.fat1_offset in
        let cut : (ℕ → ℕ) → ℕ → ℕ = λ t j. if has j ks then 0 else t j in
        IsLaidOut f
        → Stands laws f d s
        → p.is_free ≡ false
        → p.is_stale ≡ false
        → p.abs_offset ≡ 0
        → p.dir_entry.size ≢ 0
        → p.block_in_cluster ≡ 0
        → p.index_in_block ≡ 0
        → p.cur_cluster ≡ p.dir_entry.cluster_lo
        → IsChain f (t0 d) p.cur_cluster ks
        → length ks < fuel
        → (s' : Sys Card) × (fat_truncate ops fuel fd s ≡ some (true, s'))
          × ((j : ℕ)
              → HasEntry f j
              → (t0 (disk laws s') j ≡ cut (t0 d) j) × (t1 (disk laws s') j ≡ cut (t1 d) j))
          × ((x : ℕ)
              → (x < f.fat0_offset) ⊎ (f.fat1_offset + f.sectors_per_fat ≤ x)
              → disk laws s' x ≡ d x)
          × ((s'.file_desc fd).dir_entry ≡ record (p.dir_entry) { size = 0; cluster_lo = 0 })
          × ((s'.file_desc fd).dir_entry_modified ≡ true)
          × ((s'.file_desc fd).cur_cluster ≡ 0)
  unfolding fat_truncate cut_all finish_empty get_desc set_desc cut_size
  fat_truncate_start f ks fuel fd d s g st taken fresh abs size block index first h lt =
      let p = s.file_desc fd in
      let (s2, run, entries, others) =
        free_cluster_chain_entries laws works f ks fuel p.cur_cluster d s g st h lt in
      let q : FileDescriptor = cut_size p in
      let got : get_desc fd s ≡ (true, s) = ground (arith, taken, fresh) in
      (
        set_desc fd
            (record q {
              dir_entry = record (q.dir_entry) { cluster_lo = 0 };
              cur_cluster = 0;
              next_cluster = 0xffff;
            })
            s2,
        ground (arith, got, run, abs, size, block, index, first),
        entries,
        others,
        ground (arith, abs),
        ground arith,
        ground arith,
      )

-- ===== src/Fat/Dir/Find.antt =====
-- `fat_private_find_file` of lib/fat/fat.c: a search through a whole directory.
use ccpu_libsys.Prelude.{
  ℕ, zero, suc, ◌+◌, ◌<◌, ◌≤◌, ◌≡◌, ◌≢◌, refl, sym, ap, ◌∙◌, true, false, Option, none, some, List,
  [], ◌∷◌, ◌++◌, arith, ◌==◌, ltb, length,
}
use mathlib.Core.Path.{subst}
use ccpu_libsys.Fat.Bytes.{u32}
use ccpu_libsys.Fat.Card.{Disk, CardOps, CardLaws, CardWorks}
use ccpu_libsys.Fat.State.{Sys, FatInfo, FatDirEntry, fat_min_last_cluster, cluster_block}
use ccpu_libsys.Fat.Cache.Laws.{Stands, SameTables}
use ccpu_libsys.Fat.Table.{read_fat_entry}
use ccpu_libsys.Fat.Table.Entries.{IsLaidOut, fat_entry}
use ccpu_libsys.Fat.Table.Chains.{IsChain}
use ccpu_libsys.Fat.Table.Free.{read_fat_entry_lem}
use ccpu_libsys.Fat.Action.Content.{DataFits, address-valid}
use ccpu_libsys.Fat.Dir.{
  Place, Found, Search, ended, going, search_blocks, search_dir, go_on_dir, fat_private_find_file,
  is_root_dir, first_cluster_of, not_in_dir,
}
use ccpu_libsys.Fat.Dir.Lookup.{Outcome, is_at, ends_at, runs_out, lookup, run_places, SlotFits}
use ccpu_libsys.Fat.Dir.Settle.{Settled, not_in_dir_lem}
use ccpu_libsys.Fat.Dir.Blocks.{RunFits, Follows, Settled-SameTables, search_blocks_lem}
use ccpu_libsys.Name.{to_fat_name}

-- The places of a chain of clusters.
unfoldable pub chain_places : FatInfo → List ℕ → List Place
chain_places f [] = []
chain_places f (k ∷ ks) = run_places f.sectors_per_cluster (cluster_block f k) ++ chain_places f ks

-- The places of `n` runs of `sectors_per_cluster` blocks from the address `a` on.
unfoldable pub root_places : FatInfo → ℕ → ℕ → List Place
root_places f zero a = []
root_places f (suc n) a =
    run_places f.sectors_per_cluster a ++ root_places f n (u32 (a + f.sectors_per_cluster))

abbrev pub RootFits : FatInfo → ℕ → ℕ → Type 0
RootFits f zero a = Unit {0}
RootFits f (suc n) a =
    RunFits f.sectors_per_cluster a × RootFits f n (u32 (a + f.sectors_per_cluster))

-- The name or the end is among the places.
unfoldable pub IsDecided : Outcome → Type 0
IsDecided (is_at p) = Unit
IsDecided (ends_at p slot) = Unit
IsDecided (runs_out slot) = ⊥

block_start : (f : FatInfo) (k : ℕ) → u32 (cluster_block f k + 0) ≡ cluster_block f k
unfolding cluster_block
block_start f k = omega arith

cluster-RunFits :
    (f : FatInfo) (k n j : ℕ)
    → DataFits f
    → n + j ≡ f.sectors_per_cluster
    → RunFits n (u32 (cluster_block f k + j))
cluster-RunFits f k zero j h e = tt
cluster-RunFits f k (suc n) j h e =
    let valid = address-valid f k j h (omega (arith, e)) in
    (
      omega (arith, valid),
      subst (RunFits n) (omega arith) (cluster-RunFits f k n (j + 1) h (omega (arith, e))),
    )

module _ {Card : Type 0} {ops : CardOps Card} (laws : CardLaws ops) (works : CardWorks ops) where
  -- A search that ends, as its outcome says.
  abbrev pub Finds :
      FatInfo → Disk → List ℕ → ℕ → Sys Card → Outcome → Option (Option Found × Sys Card) → Type 0
  Finds f d fat_name mode s o run =
      (r : Option Found × Sys Card) × (run ≡ some r) × Settled laws works f d fat_name mode s o r

  go_on_dir_lem :
      (f : FatInfo) (d : Disk) (fat_name : List ℕ) (mode : ℕ) (s : Sys Card) (slot : Option Place)
      (ps qs : List Place) (r : Search × Sys Card)
      (k : Option Place → Sys Card → Option (Option Found × Sys Card))
      → Follows laws works f d fat_name mode s slot ps r
      → ((slot' : Option Place) (t : Sys Card)
          → Stands laws f d t
          → SlotFits slot'
          → lookup d fat_name slot (ps ++ qs) ≡ lookup d fat_name slot' qs
          → Finds f d fat_name mode t (lookup d fat_name slot' qs) (k slot' t))
      → Finds f d fat_name mode s (lookup d fat_name slot (ps ++ qs)) (go_on_dir k r)
  unfolding go_on_dir
  go_on_dir_lem f d fat_name mode s slot ps qs (ended x, s') k (o, e, h) next =
      ((x, s'), refl, subst (λ o. Settled laws works f d fat_name mode s o (x, s')) (sym (e qs)) h)
  go_on_dir_lem f d fat_name mode s slot ps qs (going slot', s') k (st, same, fits, e) next =
      let (r, run, h) = next slot' s' st fits (e qs) in
      (
        r,
        run,
        subst (λ o. Settled laws works f d fat_name mode s o r) (sym (e qs))
            (Settled-SameTables laws works f d fat_name mode s s' (lookup d fat_name slot' qs) r
              same h),
      )

  Finds-eq :
      (f : FatInfo) (d : Disk) (fat_name : List ℕ) (mode : ℕ) (s t : Sys Card) (o : Outcome)
      (run run' : Option (Option Found × Sys Card))
      → SameTables laws s t
      → run' ≡ run
      → Finds f d fat_name mode t o run
      → Finds f d fat_name mode s o run'
  Finds-eq f d fat_name mode s t o run run' same e (r, e', h) =
      (r, e ∙ e', Settled-SameTables laws works f d fat_name mode s t o r same h)

  search_dir-cluster :
      (f : FatInfo) (fat_name : List ℕ) (mode fuel a c v : ℕ) (slot : Option Place) (s : Sys Card)
      → s.fat_info ≡ f
      → ltb c fat_min_last_cluster ≡ true
      → (read_fat_entry ops c s).0 ≡ v
      → (v == 0) ≡ false
      → search_dir ops (suc fuel) false fat_name mode a c slot s
        ≡ go_on_dir
            (search_dir ops fuel false fat_name mode
              (u32 (cluster_block f c + f.sectors_per_cluster))
              v)
            (search_blocks ops f.sectors_per_cluster fat_name mode
              (cluster_block f c)
              slot
              (read_fat_entry ops c s).1)
  unfolding search_dir
  search_dir-cluster f fat_name mode fuel a c v slot s info more e linked =
      rw (more, e, linked, info) refl

  search_dir-root :
      (f : FatInfo) (fat_name : List ℕ) (mode fuel a c : ℕ) (slot : Option Place) (s : Sys Card)
      → s.fat_info ≡ f
      → search_dir ops (suc fuel) true fat_name mode a c slot s
        ≡ go_on_dir
            (search_dir ops fuel true fat_name mode (u32 (a + f.sectors_per_cluster)) c)
            (search_blocks ops f.sectors_per_cluster fat_name mode a slot s)
  unfolding search_dir
  search_dir-root f fat_name mode fuel a c slot s info = rw info refl

  search_chain_lem :
      (f : FatInfo) (d : Disk) (fat_name : List ℕ) (mode : ℕ) (ks : List ℕ) (fuel a c : ℕ)
      (slot : Option Place) (s : Sys Card)
      → IsLaidOut f
      → DataFits f
      → Stands laws f d s
      → IsChain f (fat_entry f.fat0_offset d) c ks
      → SlotFits slot
      → length ks < fuel
      → Finds f d fat_name mode s
          (lookup d fat_name slot (chain_places f ks))
          (search_dir ops fuel false fat_name mode a c slot s)
  unfolding search_dir chain_places lookup
  search_chain_lem f d fat_name mode ks zero a c slot s g fit st h fits lt = absurd (omega arith)
  search_chain_lem f d fat_name mode [] (suc fuel) a c slot s g fit st h fits lt =
      let over : ltb c fat_min_last_cluster ≡ false = ground (arith, h) in
      (not_in_dir mode s, rw over refl, not_in_dir_lem laws works f d fat_name mode slot s st)
  search_chain_lem f d fat_name mode (k ∷ ks) (suc fuel) a c slot s g fit st h fits lt =
      let t = fat_entry f.fat0_offset d in
      let (e, st1, same) = read_fat_entry_lem laws works f d c s g h.2 st in
      let s1 = (read_fat_entry ops c s).1 in
      let more : ltb c fat_min_last_cluster ≡ true = ground (arith, h.1) in
      let linked : (t c == 0) ≡ false = ground (arith, h.3) in
      let n = f.sectors_per_cluster in
      let start = cluster_block f c in
      let rest = search_dir ops fuel false fat_name mode (u32 (start + n)) (t c) in
      let run = subst (RunFits n) (block_start f c) (cluster-RunFits f c n 0 fit (omega arith)) in
      let found =
        go_on_dir_lem f d fat_name mode s1 slot (run_places n start) (chain_places f ks)
          (search_blocks ops n fat_name mode start slot s1) rest
          (search_blocks_lem laws works n f d fat_name mode start slot s1 st1 run fits)
          λ slot' t' st' fits' _.
            search_chain_lem f d fat_name mode ks fuel (u32 (start + n)) (t c) slot' t' g fit st'
              h.5 fits' (omega arith) in
      Finds-eq f d fat_name mode s s1 (lookup d fat_name slot (chain_places f (k ∷ ks)))
        (go_on_dir rest (search_blocks ops n fat_name mode start slot s1))
        (search_dir ops (suc fuel) false fat_name mode a c slot s) same
        (search_dir-cluster f fat_name mode fuel a c (t c) slot s st.info more e linked)
        (subst
          (λ k.
            Finds f d fat_name mode s1
              (lookup d fat_name slot (run_places n (cluster_block f k) ++ chain_places f ks))
              (go_on_dir rest (search_blocks ops n fat_name mode start slot s1)))
          (sym h.0) found)

  search_root_lem :
      (n : ℕ) (f : FatInfo) (d : Disk) (fat_name : List ℕ) (mode fuel a c : ℕ) (slot : Option Place)
      (s : Sys Card)
      → Stands laws f d s
      → RootFits f n a
      → SlotFits slot
      → IsDecided (lookup d fat_name slot (root_places f n a))
      → n ≤ fuel
      → Finds f d fat_name mode s
          (lookup d fat_name slot (root_places f n a))
          (search_dir ops fuel true fat_name mode a c slot s)
  unfolding search_dir root_places lookup IsDecided
  search_root_lem zero f d fat_name mode fuel a c slot s st run fits dec le = absurd dec
  search_root_lem (suc n) f d fat_name mode zero a c slot s st run fits dec le =
      absurd (omega arith)
  search_root_lem (suc n) f d fat_name mode (suc fuel) a c slot s st run fits dec le =
      let size = f.sectors_per_cluster in
      let rest = search_dir ops fuel true fat_name mode (u32 (a + size)) c in
      let qs = root_places f n (u32 (a + size)) in
      let blocks = search_blocks ops size fat_name mode a slot s in
      Finds-eq f d fat_name mode s s (lookup d fat_name slot (root_places f (suc n) a))
        (go_on_dir rest blocks) (search_dir ops (suc fuel) true fat_name mode a c slot s)
        (record { info = refl; desc = refl })
        (search_dir-root f fat_name mode fuel a c slot s st.info)
        (go_on_dir_lem f d fat_name mode s slot (run_places size a) qs blocks rest
          (search_blocks_lem laws works size f d fat_name mode a slot s st run.0 fits)
          λ slot' t st' fits' e.
            search_root_lem n f d fat_name mode fuel (u32 (a + size)) c slot' t st' run.1 fits'
              (subst IsDecided e dec) (omega (arith, le)))

  -- On a card where no transfer fails, with a coherent cache, the tables laid out and the data area
  -- below the address 0xffffffff, for a directory whose entry has the first cluster of a chain: with
  -- more fuel than the chain has clusters, `fat_private_find_file` ends and does what `Settled` says
  -- for the outcome of `lookup` through the places of the chain: an entry with the name is returned
  -- (with O_CREAT and O_EXCL the error is FAT_ERROR_FILE_EXISTS); without one the error is
  -- FAT_ERROR_NOT_FOUND, or with O_CREAT a blank entry with the name is written to the first free
  -- place before the end and returned. With O_CREAT in a chain without an end mark the error is
  -- FAT_ERROR_DIR_FULL. But for the new entry the card stays as it is, and so do the descriptors.
  pub fat_private_find_file_lem :
      (f : FatInfo) (d : Disk) (dir : FatDirEntry) (name : List ℕ) (mode fuel : ℕ) (ks : List ℕ)
      (s : Sys Card)
      → IsLaidOut f
      → DataFits f
      → Stands laws f d s
      → dir.cluster_lo ≢ 0
      → IsChain f (fat_entry f.fat0_offset d) dir.cluster_lo ks
      → length ks < fuel
      → Finds f d
          (to_fat_name name)
          mode
          s
          (lookup d (to_fat_name name) none (chain_places f ks))
          (fat_private_find_file ops fuel (some dir) name mode s)
  unfolding fat_private_find_file is_root_dir first_cluster_of SlotFits
  fat_private_find_file_lem f d dir name mode fuel ks s g fit st ne h lt =
      let e : (dir.cluster_lo == 0) ≡ false = ground (arith, ne) in
      rw e (
        search_chain_lem f d (to_fat_name name) mode ks fuel s.fat_info.root_dir_block
          dir.cluster_lo none s g fit st h tt lt)

  -- On a card where no transfer fails and with a coherent cache, for the root directory and a number
  -- `n` of runs of blocks from its start on, with addresses below 0xffffffff and the name or an entry
  -- that is 0 among their places: with fuel `n`, `fat_private_find_file` ends and does what `Settled`
  -- says for the outcome of `lookup` through these places.
  pub fat_private_find_file_root :
      (f : FatInfo) (d : Disk) (name : List ℕ) (mode fuel n : ℕ) (s : Sys Card)
      → Stands laws f d s
      → RootFits f n f.root_dir_block
      → IsDecided (lookup d (to_fat_name name) none (root_places f n f.root_dir_block))
      → n ≤ fuel
      → Finds f d
          (to_fat_name name)
          mode
          s
          (lookup d (to_fat_name name) none (root_places f n f.root_dir_block))
          (fat_private_find_file ops fuel none name mode s)
  unfolding fat_private_find_file is_root_dir first_cluster_of SlotFits
  fat_private_find_file_root f d name mode fuel n s st run dec le =
      let start = ap (λ (f : FatInfo). f.root_dir_block) st.info in
      subst
        (λ a.
          Finds f d (to_fat_name name) mode s
            (lookup d (to_fat_name name) none (root_places f n f.root_dir_block))
            (search_dir ops fuel true (to_fat_name name) mode a 0 none s))
        (sym start)
        (search_root_lem n f d (to_fat_name name) mode fuel f.root_dir_block 0 none s st run tt dec
          le)

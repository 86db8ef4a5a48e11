-- ===== src/Fat/Dir/Settle.antt =====
-- What `fat_private_find_file` of lib/fat/fat.c does where its loops end, on a card on which no
-- transfer fails.
use ccpu_libsys.Prelude.{
  ℕ, ◌*◌, ◌<◌, ◌≡◌, ◌≢◌, refl, sym, ap, ◌∙◌, inl, inr, false, Option, none, some, List, arith, ◌==◌,
  Bool-cases, bit_and,
}
use ccpu_libsys.Fat.Card.{Disk, update_self, CardOps, CardLaws, CardWorks}
use ccpu_libsys.Fat.Error
use ccpu_libsys.Fat.State.{Sys, FatInfo, invalid_block_addr}
use ccpu_libsys.Fat.Entry.{put_entry}
use ccpu_libsys.Fat.Cache.{cache, flush_cache}
use ccpu_libsys.Fat.Cache.Laws.{Stands, SameTables, SameTables-trans}
use ccpu_libsys.Fat.Desc.{set_error}
use ccpu_libsys.Fat.Table.Steps.{cache_lem, flush_cache_lem}
use ccpu_libsys.Fat.Dir.{
  Place, Found, blank_entry, o_creat, found_at, accept_entry, not_in_dir, store_blank, write_blank,
  create_entry, at_last_entry,
}
use ccpu_libsys.Fat.Dir.Lookup.{
  Outcome, is_at, ends_at, runs_out, found_in, add_entry, new_place, SlotFits,
}

module _ {Card : Type 0} {ops : CardOps Card} (laws : CardLaws ops) (works : CardWorks ops) where
  found_at-found_in :
      (a i : ℕ) (d : Disk) (s : Sys Card)
      → s.cache_block ≡ d a
      → found_at a i s ≡ found_in d (record { block_addr = a; entry_index = i })
  unfolding found_at
  found_at-found_in a i d s e = rw e refl

  -- The place `p` on the disk `d` is returned.
  abbrev pub FoundAt : FatInfo → Disk → Place → Sys Card → Option Found × Sys Card → Type 0
  FoundAt f d p s r = (r.0 ≡ some (found_in d p)) × Stands laws f d r.1 × SameTables laws s r.1

  abbrev pub Fails : FatInfo → Disk → ℕ → Sys Card → Option Found × Sys Card → Type 0
  Fails f d e s r =
      (r.0 ≡ none) × (r.1.last_error ≡ e) × Stands laws f d r.1 × SameTables laws s r.1

  -- What the search returns for an outcome: an entry with the name is returned, unless the mode has
  -- O_CREAT and O_EXCL; with O_CREAT an entry that is missing is made, in the first free place.
  unfoldable pub Settled :
      FatInfo → Disk → List ℕ → ℕ → Sys Card → Outcome → Option Found × Sys Card → Type 0
  Settled f d fat_name mode s (is_at p) r =
      (bit_and mode 3 ≡ 3 → Fails f d Error.file_exists s r)
      × (bit_and mode 3 ≢ 3 → FoundAt f d p s r)
  Settled f d fat_name mode s (ends_at p slot) r =
      let q = new_place slot p in
      (bit_and mode o_creat ≡ 0 → Fails f d Error.not_found s r)
      × (bit_and mode o_creat ≢ 0 → FoundAt f (add_entry fat_name q d) q s r)
  Settled f d fat_name mode s (runs_out slot) r =
      (bit_and mode o_creat ≡ 0 → Fails f d Error.not_found s r)
      × (bit_and mode o_creat ≢ 0 → Fails f d Error.dir_full s r)

  -- The cache holds the block `a`.
  abbrev pub Holds : FatInfo → Disk → ℕ → Sys Card → Type 0
  Holds f d a s = Stands laws f d s × (s.cache_block ≡ d a) × (s.cache_block_addr ≡ a)

  write_blank_lem :
      (f : FatInfo) (d : Disk) (fat_name : List ℕ) (a i : ℕ) (s : Sys Card)
      → Holds f d a s
      → a < invalid_block_addr
      → let p : Place = record { block_addr = a; entry_index = i } in
        FoundAt f (add_entry fat_name p d) p s (write_blank ops fat_name a i s)
  unfolding write_blank store_blank
  write_blank_lem f d fat_name a i s (st, block, addr) lt =
      let b = put_entry (d a) (32 * i) (blank_entry fat_name) in
      let t = store_blank fat_name i s in
      let (ok, st', block', same) =
        flush_cache_lem laws works f d a b t st.info addr lt
          (ap (λ b. put_entry b (32 * i) (blank_entry fat_name)) block) st.on_disk in
      let p : Place = record { block_addr = a; entry_index = i } in
      (
        rw ok (
            ap some (
              found_at-found_in a i (add_entry fat_name p d) (flush_cache ops t).1
                (block' ∙ sym (update_self d a b)))),
        st',
        record { info = same.info; desc = same.desc },
      )

  create_entry_lem :
      (f : FatInfo) (d : Disk) (fat_name : List ℕ) (a i : ℕ) (slot : Option Place) (s : Sys Card)
      → Holds f d a s
      → a < invalid_block_addr
      → SlotFits slot
      → let q = new_place slot (record { block_addr = a; entry_index = i }) in
        FoundAt f (add_entry fat_name q d) q s (create_entry ops fat_name a i slot s)
  unfolding create_entry new_place SlotFits
  create_entry_lem f d fat_name a i none s h lt fits = write_blank_lem f d fat_name a i s h lt
  create_entry_lem f d fat_name a i (some q) s h lt fits = elim (Bool-cases (a == q.block_addr)) [
    | inl e ↦
        let same : a ≡ q.block_addr = ground (arith, e) in
        rw e (
          write_blank_lem f d fat_name q.block_addr q.entry_index s
            (h.0, h.1 ∙ ap d same, h.2 ∙ same) fits)
    | inr e ↦
        let c = cache ops q.block_addr s in
        let (ok, st, block, addr, same) = cache_lem laws works f d q.block_addr s h.0 fits in
        let (r, st', same') =
          write_blank_lem f d fat_name q.block_addr q.entry_index c.1 (st, block, addr) fits in
        rw (e, ok) (r, st', SameTables-trans laws same same')
  ]

  set_error-Fails :
      (f : FatInfo) (d : Disk) (e : ℕ) (s : Sys Card)
      → Stands laws f d s
      → Fails f d e s (none, set_error e s)
  unfolding set_error
  set_error-Fails f d e s st = (
    refl,
    refl,
    record { info = st.info; coherent = st.coherent; on_disk = st.on_disk },
    record { info = refl; desc = refl },
  )

  pub at_last_entry_lem :
      (f : FatInfo) (d : Disk) (fat_name : List ℕ) (mode a i : ℕ) (slot : Option Place)
      (s : Sys Card)
      → Holds f d a s
      → a < invalid_block_addr
      → SlotFits slot
      → Settled f d fat_name mode s
          (ends_at (record { block_addr = a; entry_index = i }) slot)
          (at_last_entry ops fat_name mode a i slot s)
  unfolding at_last_entry Settled
  at_last_entry_lem f d fat_name mode a i slot s h lt fits = (
    λ e. rw e (set_error-Fails f d Error.not_found s h.0),
    λ ne.
        let e : (bit_and mode o_creat == 0) ≡ false = ground (arith, ne) in
        rw e (create_entry_lem f d fat_name a i slot s h lt fits),
  )

  pub accept_entry_lem :
      (f : FatInfo) (d : Disk) (fat_name : List ℕ) (mode a i : ℕ) (s : Sys Card)
      → Holds f d a s
      → Settled f d fat_name mode s
          (is_at (record { block_addr = a; entry_index = i }))
          (accept_entry mode a i s)
  unfolding accept_entry Settled
  accept_entry_lem f d fat_name mode a i s h = (
    λ e. rw e (set_error-Fails f d Error.file_exists s h.0),
    λ ne.
        let e : (bit_and mode 3 == 3) ≡ false = ground (arith, ne) in
        rw e (ap some (found_at-found_in a i d s h.1), h.0, record { info = refl; desc = refl }),
  )

  pub not_in_dir_lem :
      (f : FatInfo) (d : Disk) (fat_name : List ℕ) (mode : ℕ) (slot : Option Place) (s : Sys Card)
      → Stands laws f d s
      → Settled f d fat_name mode s (runs_out slot) (not_in_dir mode s)
  unfolding not_in_dir Settled
  not_in_dir_lem f d fat_name mode slot s st = (
    λ e. rw e (set_error-Fails f d Error.not_found s st),
    λ ne.
        let e : (bit_and mode o_creat == 0) ≡ false = ground (arith, ne) in
        rw e (set_error-Fails f d Error.dir_full s st),
  )

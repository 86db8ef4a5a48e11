-- ===== src/Fat/Dir/Blocks.antt =====
-- The loops of `fat_private_find_file` of lib/fat/fat.c against the places of a directory.
use ccpu_libsys.Prelude.{
  ℕ, zero, suc, ◌+◌, ◌*◌, ◌<◌, ◌≡◌, refl, sym, ap, ◌∙◌, inl, inr, Option, none, some, List, ◌++◌,
  append_assoc, ◌==◌, Bool-cases,
}
use ccpu_libsys.Fat.Bytes.{u32}
use ccpu_libsys.Fat.Card.{Block, Disk, CardOps, CardLaws, CardWorks}
use ccpu_libsys.Fat.State.{Sys, FatInfo, invalid_block_addr}
use ccpu_libsys.Fat.Entry.{get_bytes}
use ccpu_libsys.Fat.Cache.{cache}
use ccpu_libsys.Fat.Cache.Laws.{Stands, SameTables, SameTables-trans}
use ccpu_libsys.Fat.Table.Steps.{cache_lem}
use ccpu_libsys.Fat.Dir.{
  Place, Found, Scan, last_entry, same_name, no_match, Search, ended, going, keep_slot, scan_block,
  same_bytes, entries_per_block, after_scan, search_block, search_blocks, go_on,
}
use ccpu_libsys.Fat.Dir.Lookup.{
  Outcome, is_at, ends_at, runs_out, lookup, block_places, run_places, scanned, lookup-scan_block,
  SlotFits,
}
use ccpu_libsys.Fat.Dir.Settle.{Settled, Holds, at_last_entry_lem, accept_entry_lem}

-- The slot that a scan leaves has an address.
ScanFits : Scan → Type 0
ScanFits (last_entry i slot) = SlotFits slot
ScanFits (same_name i) = Unit
ScanFits (no_match slot) = SlotFits slot

keep_slot-SlotFits :
    (slot : Option Place) (a i : ℕ)
    → a < invalid_block_addr
    → SlotFits slot
    → SlotFits (keep_slot slot a i)
unfolding keep_slot SlotFits
keep_slot-SlotFits none a i lt fits = lt
keep_slot-SlotFits (some p) a i lt fits = fits

scan_block-ScanFits :
    (n i a : ℕ) (fat_name : List ℕ) (slot : Option Place) (b : Block)
    → a < invalid_block_addr
    → SlotFits slot
    → ScanFits (scan_block n i fat_name a slot b)
unfolding scan_block ScanFits
scan_block-ScanFits zero i a fat_name slot b lt fits = fits
scan_block-ScanFits (suc n) i a fat_name slot b lt fits =
    let kept = scan_block-ScanFits n (i + 1) a fat_name slot b lt fits in
    let freed =
      scan_block-ScanFits n (i + 1) a fat_name (keep_slot slot a i) b lt
        (keep_slot-SlotFits slot a i lt fits) in
    elim (Bool-cases (b (32 * i) == 0)) [
      | inl e ↦ rw e fits
      | inr e ↦ elim (Bool-cases (b (32 * i) == 0xe5)) [
        | inl e2 ↦ rw (e, e2) freed
        | inr e2 ↦ elim (Bool-cases (same_bytes (get_bytes 11 b (32 * i)) fat_name)) [
          | inl e3 ↦ rw (e, e2, e3) tt
          | inr e3 ↦ rw (e, e2, e3) kept
        ]
      ]
    ]

-- `n` blocks from the address `a` on that a card can have.
abbrev pub RunFits : ℕ → ℕ → Type 0
RunFits zero a = Unit {0}
RunFits (suc n) a = (a < invalid_block_addr) × RunFits n (u32 (a + 1))

module _ {Card : Type 0} {ops : CardOps Card} (laws : CardLaws ops) (works : CardWorks ops) where
  -- A part of the search that covers the places `ps`: it ends the whole search, or the places behind
  -- `ps` decide.
  abbrev pub Follows :
      FatInfo
      → Disk
      → List ℕ
      → ℕ
      → Sys Card
      → Option Place
      → List Place
      → Search × Sys Card
      → Type 0
  Follows f d fat_name mode s slot ps (ended x, s') =
      (o : Outcome) × ((rest : List Place) → lookup d fat_name slot (ps ++ rest) ≡ o)
      × Settled laws works f d fat_name mode s o (x, s')
  Follows f d fat_name mode s slot ps (going slot', s') =
      Stands laws f d s'
      × SameTables laws s s'
      × SlotFits slot'
      × ((rest : List Place) → lookup d fat_name slot (ps ++ rest) ≡ lookup d fat_name slot' rest)

  pub Settled-SameTables :
      (f : FatInfo) (d : Disk) (fat_name : List ℕ) (mode : ℕ) (s t : Sys Card) (o : Outcome)
      (r : Option Found × Sys Card)
      → SameTables laws s t
      → Settled laws works f d fat_name mode t o r
      → Settled laws works f d fat_name mode s o r
  unfolding Settled
  Settled-SameTables f d fat_name mode s t (is_at p) r same h = (
    λ e. let (x, y, z, w) = h.0 e in (x, y, z, SameTables-trans laws same w),
    λ e. let (x, y, z) = h.1 e in (x, y, SameTables-trans laws same z),
  )
  Settled-SameTables f d fat_name mode s t (ends_at p slot) r same h = (
    λ e. let (x, y, z, w) = h.0 e in (x, y, z, SameTables-trans laws same w),
    λ e. let (x, y, z) = h.1 e in (x, y, SameTables-trans laws same z),
  )
  Settled-SameTables f d fat_name mode s t (runs_out slot) r same h = (
    λ e. let (x, y, z, w) = h.0 e in (x, y, z, SameTables-trans laws same w),
    λ e. let (x, y, z, w) = h.1 e in (x, y, z, SameTables-trans laws same w),
  )

  after_scan_lem :
      (f : FatInfo) (d : Disk) (fat_name : List ℕ) (mode a : ℕ) (s : Sys Card) (slot : Option Place)
      (ps : List Place) (scan : Scan)
      → Holds laws works f d a s
      → a < invalid_block_addr
      → ScanFits scan
      → ((rest : List Place) → lookup d fat_name slot (ps ++ rest) ≡ scanned d fat_name a rest scan)
      → Follows f d fat_name mode s slot ps (after_scan ops fat_name mode a scan s)
  unfolding after_scan scanned ScanFits
  after_scan_lem f d fat_name mode a s slot ps (last_entry i slot') h lt fits e = (
    ends_at (record { block_addr = a; entry_index = i }) slot',
    e,
    at_last_entry_lem laws works f d fat_name mode a i slot' s h lt fits,
  )
  after_scan_lem f d fat_name mode a s slot ps (same_name i) h lt fits e = (
    is_at (record { block_addr = a; entry_index = i }),
    e,
    accept_entry_lem laws works f d fat_name mode a i s h,
  )
  after_scan_lem f d fat_name mode a s slot ps (no_match slot') h lt fits e =
      (h.0, record { info = refl; desc = refl }, fits, e)

  Follows-SameTables :
      (f : FatInfo) (d : Disk) (fat_name : List ℕ) (mode : ℕ) (s t : Sys Card) (slot : Option Place)
      (ps : List Place) (r : Search × Sys Card)
      → SameTables laws s t
      → Follows f d fat_name mode t slot ps r
      → Follows f d fat_name mode s slot ps r
  Follows-SameTables f d fat_name mode s t slot ps (ended x, s') same (o, e, h) =
      (o, e, Settled-SameTables f d fat_name mode s t o (x, s') same h)
  Follows-SameTables f d fat_name mode s t slot ps (going slot', s') same (st, same', fits, e) =
      (st, SameTables-trans laws same same', fits, e)

  search_block_lem :
      (f : FatInfo) (d : Disk) (fat_name : List ℕ) (mode a : ℕ) (slot : Option Place) (s : Sys Card)
      → Stands laws f d s
      → a < invalid_block_addr
      → SlotFits slot
      → Follows f d fat_name mode s slot
          (block_places entries_per_block 0 a)
          (search_block ops fat_name mode a slot s)
  unfolding search_block
  search_block_lem f d fat_name mode a slot s st lt fits =
      let t = (cache ops a s).1 in
      let (ok, st', block, addr, same) = cache_lem laws works f d a s st lt in
      let ps = block_places entries_per_block 0 a in
      let scan = scan_block entries_per_block 0 fat_name a slot t.cache_block in
      rw ok (
        Follows-SameTables f d fat_name mode s t slot ps (after_scan ops fat_name mode a scan t)
          same
          (after_scan_lem f d fat_name mode a t slot ps scan (st', block, addr) lt
            (scan_block-ScanFits entries_per_block 0 a fat_name slot t.cache_block lt fits)
            λ rest.
              lookup-scan_block entries_per_block 0 a fat_name slot d rest
              ∙ ap
                  (λ b.
                    scanned d fat_name a rest (scan_block entries_per_block 0 fat_name a slot b))
                  (sym block)))

  -- The places `ps` leave the slot `slot'`, and `qs` follow.
  Follows-then :
      (f : FatInfo) (d : Disk) (fat_name : List ℕ) (mode : ℕ) (s t : Sys Card)
      (slot slot' : Option Place) (ps qs : List Place) (r : Search × Sys Card)
      → SameTables laws s t
      → ((rest : List Place) → lookup d fat_name slot (ps ++ rest) ≡ lookup d fat_name slot' rest)
      → Follows f d fat_name mode t slot' qs r
      → Follows f d fat_name mode s slot (ps ++ qs) r
  Follows-then f d fat_name mode s t slot slot' ps qs (ended x, s') same e (o, e', h) = (
    o,
    λ rest. ap (lookup d fat_name slot) (append_assoc ps qs rest) ∙ e (qs ++ rest) ∙ e' rest,
    Settled-SameTables f d fat_name mode s t o (x, s') same h,
  )
  Follows-then f d fat_name mode s t slot slot' ps qs (going q, s') same e (st, same', fits, e') = (
    st,
    SameTables-trans laws same same',
    fits,
    λ rest. ap (lookup d fat_name slot) (append_assoc ps qs rest) ∙ e (qs ++ rest) ∙ e' rest,
  )

  -- A loop goes on with the places `qs`.
  go_on_lem :
      (f : FatInfo) (d : Disk) (fat_name : List ℕ) (mode : ℕ) (s : Sys Card) (slot : Option Place)
      (ps qs : List Place) (r : Search × Sys Card) (k : Option Place → Sys Card → Search × Sys Card)
      → Follows f d fat_name mode s slot ps r
      → ((slot : Option Place) (t : Sys Card)
          → Stands laws f d t
          → SlotFits slot
          → Follows f d fat_name mode t slot qs (k slot t))
      → Follows f d fat_name mode s slot (ps ++ qs) (go_on k r)
  unfolding go_on
  go_on_lem f d fat_name mode s slot ps qs (ended x, s') k (o, e, h) next =
      (o, λ rest. ap (lookup d fat_name slot) (append_assoc ps qs rest) ∙ e (qs ++ rest), h)
  go_on_lem f d fat_name mode s slot ps qs (going slot', s') k (st, same, fits, e) next =
      Follows-then f d fat_name mode s s' slot slot' ps qs (k slot' s') same e
        (next slot' s' st fits)

  pub search_blocks_lem :
      (n : ℕ) (f : FatInfo) (d : Disk) (fat_name : List ℕ) (mode a : ℕ) (slot : Option Place)
      (s : Sys Card)
      → Stands laws f d s
      → RunFits n a
      → SlotFits slot
      → Follows f d fat_name mode s slot
          (run_places n a)
          (search_blocks ops n fat_name mode a slot s)
  unfolding search_blocks run_places
  search_blocks_lem zero f d fat_name mode a slot s st run fits =
      (st, record { info = refl; desc = refl }, fits, λ rest. refl)
  search_blocks_lem (suc n) f d fat_name mode a slot s st run fits =
      go_on_lem f d fat_name mode s slot (block_places entries_per_block 0 a)
        (run_places n (u32 (a + 1))) (search_block ops fat_name mode a slot s)
        (search_blocks ops n fat_name mode (u32 (a + 1)))
        (search_block_lem f d fat_name mode a slot s st run.0 fits)
        λ slot' t st' fits'.
          search_blocks_lem n f d fat_name mode (u32 (a + 1)) slot' t st' run.1 fits'

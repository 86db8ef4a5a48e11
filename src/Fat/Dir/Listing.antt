-- ===== src/Fat/Dir/Listing.antt =====
-- The loop of `fat_get_next_dir_entry` of lib/fat/fat.c over any sequence of places that
-- `seek_advance` goes through.
use ccpu_libsys.Prelude.{
  ℕ, zero, suc, ◌+◌, ◌<◌, ◌≡◌, ◌≢◌, sym, ap, ◌∙◌, Bool, true, false, not, ◌||◌, Option, some, arith,
  ◌==◌, bit_and,
}
use mathlib.Core.Path.{subst}
use ccpu_libsys.Fat.Card.{Disk, CardOps, CardLaws, CardWorks}
use ccpu_libsys.Fat.State.{Sys, FatInfo, FatDirEntry, FileDescriptor, invalid_block_addr}
use ccpu_libsys.Fat.Entry.{get_entry}
use ccpu_libsys.Fat.Cache.{cache}
use ccpu_libsys.Fat.Cache.Laws.{Stands}
use ccpu_libsys.Fat.Table.Steps.{cache_lem}
use ccpu_libsys.Fat.Seek.{seek_advance}
use ccpu_libsys.Fat.Action.Content.{byte_at}
use ccpu_libsys.Fat.Dir.{attr_long_filename, next_entry}

-- The entry at a place: a block's address and an index in the block.
abbrev pub entry_at : Disk → ℕ × ℕ → FatDirEntry
entry_at d (a, x) = get_entry (d a) x

-- The entry that ends a directory.
abbrev pub is_end : Disk → ℕ × ℕ → Bool
is_end d a = byte_at d a == 0

-- Deleted, a part of a long name, or with an attribute of the mask.
abbrev pub is_skipped : Disk → ℕ → ℕ × ℕ → Bool
is_skipped d mask a =
    byte_at d a == 0xe5
    || (entry_at d a).attrs == attr_long_filename
    || not (bit_and (entry_at d a).attrs mask == 0)

-- At the places from `i` on, `n` entries are skipped, and the one behind them is not.
pub record IsNext (d : Disk) (mask : ℕ) (place : ℕ → ℕ × ℕ) (i n : ℕ) : Type 0 where
  pub before : (j : ℕ) → j < n → is_end d (place (i + j)) ≡ false
  pub skipped : (j : ℕ) → j < n → is_skipped d mask (place (i + j)) ≡ true
  pub found : (is_end d (place (i + n)) || not (is_skipped d mask (place (i + n)))) ≡ true

IsNext-suc :
    (d : Disk) (mask : ℕ) (place : ℕ → ℕ × ℕ) (i n : ℕ)
    → IsNext d mask place i (suc n)
    → IsNext d mask place (suc i) n
IsNext-suc d mask place i n h =
    let same : (j : ℕ) → i + suc j ≡ suc i + j = λ j. omega arith in
    record {
      before = λ j lt.
          subst (λ x. is_end d (place x) ≡ false) (same j) (h.before (suc j) (omega (arith, lt)));
      skipped = λ j lt.
          subst (λ x. is_skipped d mask (place x) ≡ true) (same j)
            (h.skipped (suc j) (omega (arith, lt)));
      found =
          subst (λ x. (is_end d (place x) || not (is_skipped d mask (place x))) ≡ true) (same n)
            h.found;
    }

module _ {Card : Type 0} {ops : CardOps Card} (laws : CardLaws ops) (works : CardWorks ops) where
  -- How `seek_advance` goes through the first `total` places of a directory: `is_at` says that a
  -- descriptor is at a place.
  pub record Walks (f : FatInfo) (d : Disk) (fd total : ℕ) (place : ℕ → ℕ × ℕ)
      (is_at : ℕ → FileDescriptor → Type 0) : Type 0 where
    pub at_place :
        (i : ℕ) (p : FileDescriptor)
        → i < total
        → is_at i p
        → (p.block_addr, p.index_in_block) ≡ place i
    pub below : (i : ℕ) → i < total → (place i).0 < invalid_block_addr
    pub advance :
        (i : ℕ) (s : Sys Card)
        → Stands laws f d s
        → i < total
        → is_at i (s.file_desc fd)
        → let r = seek_advance ops fd 32 s in
          (r.0 ≡ true)
          × Stands laws f d r.1
          × ((j : ℕ) → j ≢ fd → r.1.file_desc j ≡ s.file_desc j)
          × (suc i < total → is_at (suc i) (r.1.file_desc fd))

  -- The call returns what is at the place `x`, with true unless the directory ends there, and the
  -- descriptor is at the place behind, if there is one.
  abbrev pub Lists :
      FatInfo
      → Disk
      → ℕ
      → ℕ
      → (ℕ → ℕ × ℕ)
      → (ℕ → FileDescriptor → Type 0)
      → Sys Card
      → ℕ
      → Option (Bool × FatDirEntry × Sys Card)
      → Type 0
  Lists f d fd total place is_at s x run =
      (s' : Sys Card) × (run ≡ some (not (is_end d (place x)), entry_at d (place x), s'))
      × Stands laws f d s'
      × ((j : ℕ) → j ≢ fd → s'.file_desc j ≡ s.file_desc j)
      × (suc x < total → is_at (suc x) (s'.file_desc fd))

  -- The state after a round.
  abbrev after_round : ℕ → Sys Card → Sys Card
  after_round fd s = (seek_advance ops fd 32 (cache ops (s.file_desc fd).block_addr s).1).1

  abbrev Rounds :
      FatInfo → Disk → ℕ → ℕ → (ℕ → ℕ × ℕ) → (ℕ → FileDescriptor → Type 0) → Sys Card → ℕ → Type 0
  Rounds f d fd total place is_at s i =
      let p = s.file_desc fd in
      let c = cache ops p.block_addr s in
      (c.0 ≡ true)
      × ((seek_advance ops fd 32 c.1).0 ≡ true)
      × (get_entry c.1.cache_block p.index_in_block ≡ entry_at d (place i))
      × (c.1.cache_block p.index_in_block ≡ byte_at d (place i))
      × Stands laws f d (after_round fd s)
      × ((j : ℕ) → j ≢ fd → (after_round fd s).file_desc j ≡ s.file_desc j)
      × (suc i < total → is_at (suc i) ((after_round fd s).file_desc fd))

  round_lem :
      (f : FatInfo) (d : Disk) (fd total i : ℕ) (place : ℕ → ℕ × ℕ)
      (is_at : ℕ → FileDescriptor → Type 0) (s : Sys Card)
      → Walks f d fd total place is_at
      → Stands laws f d s
      → i < total
      → is_at i (s.file_desc fd)
      → Rounds f d fd total place is_at s i
  round_lem f d fd total i place is_at s w st lt h =
      let p = s.file_desc fd in
      let there = w.at_place i p lt h in
      let valid : p.block_addr < invalid_block_addr =
        omega (arith, ap (λ a. a.0) there, w.below i lt) in
      let (ok, st1, block, _, same) = cache_lem laws works f d p.block_addr s st valid in
      let s1 = (cache ops p.block_addr s).1 in
      let (ok2, st2, others, next) =
        w.advance i s1 st1 lt (subst (λ u. is_at i (u fd)) (sym same.desc) h) in
      (
        ok,
        ok2,
        ap (λ b. get_entry b p.index_in_block) block ∙ ap (entry_at d) there,
        ap (λ (b : ℕ → ℕ). b p.index_in_block) block ∙ ap (byte_at d) there,
        st2,
        λ j ne. others j ne ∙ ap (λ u. u j) same.desc,
        next,
      )

  pub next_entry_lem :
      (f : FatInfo) (d : Disk) (fd total i n fuel mask : ℕ) (place : ℕ → ℕ × ℕ)
      (is_at : ℕ → FileDescriptor → Type 0) (dst : FatDirEntry) (s : Sys Card)
      → Walks f d fd total place is_at
      → Stands laws f d s
      → is_at i (s.file_desc fd)
      → IsNext d mask place i n
      → i + n < total
      → n < fuel
      → Lists f d fd total place is_at s (i + n) (next_entry ops fuel fd mask dst s)
  unfolding next_entry
  next_entry_lem f d fd total i n zero mask place is_at dst s w st h next lt enough =
      absurd (omega (arith, enough))
  next_entry_lem f d fd total i zero (suc fuel) mask place is_at dst s w st h next lt enough =
      let e : i ≡ i + 0 = omega arith in
      let (ok, ok2, entry, first, st2, others, at) =
        round_lem f d fd total i place is_at s w st (omega (arith, lt)) h in
      let found : (is_end d (place i) || not (is_skipped d mask (place i))) ≡ true =
        subst (λ x. (is_end d (place x) || not (is_skipped d mask (place x))) ≡ true) (sym e)
          next.found in
      subst (λ x. Lists f d fd total place is_at s x (next_entry ops (suc fuel) fd mask dst s)) e
        (after_round fd s, rw (ok, ok2, entry, first) (ground (arith, found)), st2, others, at)
  next_entry_lem f d fd total i (suc n) (suc fuel) mask place is_at dst s w st h next lt enough =
      let e : suc i + n ≡ i + suc n = omega arith in
      let same : i + 0 ≡ i = omega arith in
      let (ok, ok2, entry, first, st2, others, at) =
        round_lem f d fd total i place is_at s w st (omega (arith, lt)) h in
      let more : is_end d (place i) ≡ false =
        subst (λ x. is_end d (place x) ≡ false) same (next.before 0 (omega arith)) in
      let skip : is_skipped d mask (place i) ≡ true =
        subst (λ x. is_skipped d mask (place x) ≡ true) same (next.skipped 0 (omega arith)) in
      let (s', run, st', others', at') =
        next_entry_lem f d fd total (suc i) n fuel mask place is_at (entry_at d (place i))
          (after_round fd s) w st2 (at (omega (arith, lt))) (IsNext-suc d mask place i n next)
          (omega (arith, lt)) (omega (arith, enough)) in
      subst (λ x. Lists f d fd total place is_at s x (next_entry ops (suc fuel) fd mask dst s)) e
        (
          s',
          rw (ok, ok2, entry, first, more, skip) run,
          st',
          λ j ne. others' j ne ∙ others j ne,
          at',
        )

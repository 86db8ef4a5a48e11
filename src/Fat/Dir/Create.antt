-- ===== src/Fat/Dir/Create.antt =====
-- A new entry in a directory of lib/fat/fat.c, and the search for it.
use ccpu_libsys.Prelude.{
  ℕ, zero, suc, ◌+◌, ◌*◌, ◌<◌, ◌≤◌, ◌≡◌, ◌≢◌, refl, sym, ap, ◌∙◌, inl, inr, ◌⊎◌, true, false,
  Option, none, some, List, [], ◌∷◌, arith, ◌==◌, Bool-cases, length, bit_and, get_or,
}
use mathlib.Core.Path.{subst, ap₂}
use native.Mathlib.Decide.{ℕ_discrete}
use ccpu_libsys.Fat.Card.{Block, Disk, update_self, update_ne, CardOps, CardLaws, CardWorks}
use ccpu_libsys.Fat.State.{Sys, FatInfo}
use ccpu_libsys.Fat.Entry.{get_bytes, get_entry, put_entry}
use ccpu_libsys.Fat.Entry.RoundTrip.{IsFatDirEntry, get_entry-put_entry, put_entry-outside}
use ccpu_libsys.Fat.Cache.Laws.{Stands}
use ccpu_libsys.Fat.Dir.{
  Place, Found, same_bytes, blank_entry, keep_slot, o_creat, fat_private_find_file,
}
use ccpu_libsys.Fat.Dir.Lookup.{
  is_at, ends_at, lookup, mark, has_name, found_in, add_entry, new_place,
}
use ccpu_libsys.Fat.Dir.Settle.{Settled}
use ccpu_libsys.Fat.Dir.Find.{root_places, RootFits, IsDecided, fat_private_find_file_root}
use ccpu_libsys.Name.{to_fat_name}

-- The name of an entry that is neither the last nor deleted.
pub record IsEntryName (fat_name : List ℕ) : Type 0 where
  pub eleven : length fat_name ≡ 11
  pub lasts : (get_or fat_name 0 0 == 0) ≡ false
  pub stays : (get_or fat_name 0 0 == 0xe5) ≡ false

blank_entry-IsFatDirEntry :
    (fat_name : List ℕ) → length fat_name ≡ 11 → IsFatDirEntry (blank_entry fat_name)
unfolding blank_entry
blank_entry-IsFatDirEntry fat_name e = record {
  filename = e;
  create_time = omega arith;
  create_date = omega arith;
  access_date = omega arith;
  cluster_hi = omega arith;
  modify_time = omega arith;
  modify_date = omega arith;
  cluster_lo = omega arith;
  size = omega arith;
}

same_bytes_refl : (xs : List ℕ) → same_bytes xs xs ≡ true
unfolding same_bytes
same_bytes_refl [] = refl
same_bytes_refl (x ∷ xs) = ground (arith, same_bytes_refl xs)

get_bytes-frame :
    (n : ℕ) (b c : Block) (o : ℕ)
    → ((i : ℕ) → o ≤ i → i < o + n → b i ≡ c i)
    → get_bytes n b o ≡ get_bytes n c o
unfolding get_bytes
get_bytes-frame zero b c o h = refl
get_bytes-frame (suc n) b c o h =
    ap₂ ◌∷◌ (h o (omega arith) (omega arith))
      (get_bytes-frame n b c (o + 1) λ i le lt. h i (omega arith) (omega arith))

-- Another place of a directory.
abbrev Apart : Place → Place → Type 0
Apart p q = (p.block_addr ≢ q.block_addr) ⊎ (p.entry_index ≢ q.entry_index)

module _ (fat_name : List ℕ) (name : IsEntryName fat_name) (q : Place) (d : Disk) where
  abbrev added : Disk
  added = add_entry fat_name q d

  abbrev stored : Block
  stored = put_entry (d q.block_addr) (32 * q.entry_index) (blank_entry fat_name)

  -- The bytes of the other places stay.
  added-byte :
      (p : Place) (i : ℕ)
      → Apart p q
      → 32 * p.entry_index ≤ i
      → i < 32 * p.entry_index + 32
      → added p.block_addr i ≡ d p.block_addr i
  added-byte p i (inl ne) le lt =
      ap (λ (b : Block). b i) (update_ne d q.block_addr p.block_addr stored ne)
  added-byte p i (inr ne) le lt = elim (ℕ_discrete p.block_addr q.block_addr) [
    | no other ↦ ap (λ (b : Block). b i) (update_ne d q.block_addr p.block_addr stored other)
    | yes same ↦
        let outside : (i < 32 * q.entry_index) ⊎ (32 * q.entry_index + 32 ≤ i) =
          ground (arith, ne, le, lt) in
        ap (λ a. added a i) same
        ∙ ap (λ (b : Block). b i) (update_self d q.block_addr stored)
        ∙ put_entry-outside (d q.block_addr) (32 * q.entry_index) (blank_entry fat_name) i
            (blank_entry-IsFatDirEntry fat_name name.eleven) outside
        ∙ ap (λ a. d a i) (sym same)
  ]

  added-mark : (p : Place) → Apart p q → mark added p ≡ mark d p
  added-mark p ne = added-byte p (32 * p.entry_index) ne (omega arith) (omega arith)

  added-has_name : (p : Place) → Apart p q → has_name added fat_name p ≡ has_name d fat_name p
  added-has_name p ne =
      ap (λ bytes. same_bytes bytes fat_name)
        (get_bytes-frame 11 (added p.block_addr) (d p.block_addr) (32 * p.entry_index)
          λ i le lt. added-byte p i ne le (omega arith))

  added-entry : get_entry stored (32 * q.entry_index) ≡ blank_entry fat_name
  added-entry =
      get_entry-put_entry (d q.block_addr) (32 * q.entry_index) (blank_entry fat_name)
        (blank_entry-IsFatDirEntry fat_name name.eleven)

  added-name : get_bytes 11 (added q.block_addr) (32 * q.entry_index) ≡ fat_name
  unfolding blank_entry get_entry
  added-name =
      ap (λ b. get_bytes 11 b (32 * q.entry_index)) (update_self d q.block_addr stored)
      ∙ ap (λ e. e.filename) added-entry

  -- The new entry is found at its place.
  added-found :
      (slot : Option Place) (ps : List Place) → lookup added fat_name slot (q ∷ ps) ≡ is_at q
  unfolding lookup get_bytes
  added-found slot ps =
      let m : mark added q ≡ get_or fat_name 0 0 = ap (λ xs. get_or xs 0 0) added-name in
      let e0 : (mark added q == 0) ≡ false = ap (λ x. x == 0) m ∙ name.lasts in
      let e1 : (mark added q == 0xe5) ≡ false = ap (λ x. x == 0xe5) m ∙ name.stays in
      let e2 : has_name added fat_name q ≡ true =
        ap (λ xs. same_bytes xs fat_name) added-name ∙ same_bytes_refl fat_name in
      rw (e0, e1, e2) refl

-- The slot that a search already has stays the slot.
lookup-slot :
    (d : Disk) (fat_name : List ℕ) (q p : Place) (slot : Option Place) (ps : List Place)
    → lookup d fat_name (some q) ps ≡ ends_at p slot
    → new_place slot p ≡ q
unfolding lookup keep_slot new_place
lookup-slot d fat_name q p slot [] e = absurd (cc e)
lookup-slot d fat_name q p slot (x ∷ ps) e = elim (Bool-cases (mark d x == 0)) [
  | inl e0 ↦
      let h : ends_at x (some q) ≡ ends_at p slot = rw e0 at e in
      let same : slot ≡ some q = cc h in ap (λ slot. new_place slot p) same
  | inr e0 ↦ elim (Bool-cases (mark d x == 0xe5)) [
    | inl e1 ↦ lookup-slot d fat_name q p slot ps (rw (e0, e1) at e)
    | inr e1 ↦ elim (Bool-cases (has_name d fat_name x)) [
      | inl e2 ↦ let h : is_at x ≡ ends_at p slot = rw (e0, e1, e2) at e in absurd (cc h)
      | inr e2 ↦ lookup-slot d fat_name q p slot ps (rw (e0, e1, e2) at e)
    ]
  ]
]

new_place-end :
    (x p : Place) (slot : Option Place) → ends_at x none ≡ ends_at p slot → new_place slot p ≡ x
unfolding new_place
new_place-end x p slot h =
    let e : slot ≡ none = cc h in let same : p ≡ x = cc h in ap (λ slot. new_place slot p) e ∙ same

lookup-passed :
    (d : Disk) (fat_name : List ℕ) (x : Place) (ps : List Place)
    → (mark d x == 0) ≡ false
    → (mark d x == 0xe5) ≡ false
    → has_name d fat_name x ≡ false
    → lookup d fat_name none (x ∷ ps) ≡ lookup d fat_name none ps
unfolding lookup
lookup-passed d fat_name x ps e0 e1 e2 = rw (e0, e1, e2) refl

-- Where a search meets the end, the new place has a first byte that no entry with a name has.
new_place-mark :
    (d : Disk) (fat_name : List ℕ) (p : Place) (slot : Option Place) (ps : List Place)
    → lookup d fat_name none ps ≡ ends_at p slot
    → (mark d (new_place slot p) ≡ 0) ⊎ (mark d (new_place slot p) ≡ 0xe5)
unfolding lookup keep_slot new_place
new_place-mark d fat_name p slot [] e = absurd (cc e)
new_place-mark d fat_name p slot (x ∷ ps) e = elim (Bool-cases (mark d x == 0)) [
  | inl e0 ↦
      let h : ends_at x none ≡ ends_at p slot = rw e0 at e in
      let same : new_place slot p ≡ x = new_place-end x p slot h in
      inl (ap (mark d) same ∙ ground (arith, e0))
  | inr e0 ↦ elim (Bool-cases (mark d x == 0xe5)) [
    | inl e1 ↦
        let same : new_place slot p ≡ x = lookup-slot d fat_name x p slot ps (rw (e0, e1) at e) in
        inr (ap (mark d) same ∙ ground (arith, e1))
    | inr e1 ↦ elim (Bool-cases (has_name d fat_name x)) [
      | inl e2 ↦ let h : is_at x ≡ ends_at p slot = rw (e0, e1, e2) at e in absurd (cc h)
      | inr e2 ↦ new_place-mark d fat_name p slot ps (rw (e0, e1, e2) at e)
    ]
  ]
]

-- An entry that stays and is not at the new place's mark is at another place.
mark-Apart :
    (d : Disk) (p q : Place)
    → (mark d p == 0) ≡ false
    → (mark d p == 0xe5) ≡ false
    → (mark d q ≡ 0) ⊎ (mark d q ≡ 0xe5)
    → Apart p q
mark-Apart d p q e0 e1 free = elim (ℕ_discrete p.block_addr q.block_addr) [
  | no ne ↦ inl ne
  | yes same ↦ inr λ index.
      let e : mark d p ≡ mark d q = ap₂ (λ a i. d a (32 * i)) same index in
      elim free [ inl z ↦ ground (arith, e, z, e0) | inr z ↦ ground (arith, e, z, e1) ]
]

-- If a search meets the end, the search after the new entry is made finds it, at the new place.
pub lookup-add_entry :
    (fat_name : List ℕ) (d : Disk) (p : Place) (slot : Option Place) (ps : List Place)
    → IsEntryName fat_name
    → lookup d fat_name none ps ≡ ends_at p slot
    → lookup (add_entry fat_name (new_place slot p) d) fat_name none ps ≡ is_at (new_place slot p)
unfolding lookup keep_slot
lookup-add_entry fat_name d p slot [] name e = absurd (cc e)
lookup-add_entry fat_name d p slot (x ∷ ps) name e =
    let q = new_place slot p in
    let here : q ≡ x → lookup (add_entry fat_name q d) fat_name none (x ∷ ps) ≡ is_at q = λ same.
      ap (λ x. lookup (add_entry fat_name q d) fat_name none (x ∷ ps)) (sym same)
      ∙ added-found fat_name name q d none ps in
    elim (Bool-cases (mark d x == 0)) [
      | inl e0 ↦ here (new_place-end x p slot (rw e0 at e))
      | inr e0 ↦ elim (Bool-cases (mark d x == 0xe5)) [
        | inl e1 ↦ here (lookup-slot d fat_name x p slot ps (rw (e0, e1) at e))
        | inr e1 ↦ elim (Bool-cases (has_name d fat_name x)) [
          | inl e2 ↦ let h : is_at x ≡ ends_at p slot = rw (e0, e1, e2) at e in absurd (cc h)
          | inr e2 ↦
              let h : lookup d fat_name none ps ≡ ends_at p slot = rw (e0, e1, e2) at e in
              let apart = mark-Apart d x q e0 e1 (new_place-mark d fat_name p slot ps h) in
              let m = added-mark fat_name name q d x apart in
              let n = added-has_name fat_name name q d x apart in
              lookup-passed (add_entry fat_name q d) fat_name x ps (ap (λ m. m == 0) m ∙ e0)
                (ap (λ m. m == 0xe5) m ∙ e1) (n ∙ e2)
              ∙ lookup-add_entry fat_name d p slot ps name h
        ]
      ]
    ]

module _ {Card : Type 0} {ops : CardOps Card} (laws : CardLaws ops) (works : CardWorks ops) where
  -- On a card where no transfer fails and with a coherent cache, for the root directory and a number
  -- `n` of runs of blocks from its start on, with addresses below 0xffffffff: if the search for a name
  -- meets the directory's end there, then with fuel `n` `fat_private_find_file` with O_CREAT returns a
  -- blank entry with the name, and a search for the name after it, with any mode but O_CREAT with
  -- O_EXCL, returns the same entry at the same place.
  pub fat_private_find_file_create :
      (f : FatInfo) (d : Disk) (name : List ℕ) (mode mode' fuel n : ℕ) (p : Place)
      (slot : Option Place) (s : Sys Card)
      → let find = fat_private_find_file ops fuel none name in
        Stands laws f d s
        → RootFits f n f.root_dir_block
        → n ≤ fuel
        → IsEntryName (to_fat_name name)
        → lookup d (to_fat_name name) none (root_places f n f.root_dir_block) ≡ ends_at p slot
        → bit_and mode o_creat ≢ 0
        → bit_and mode' 3 ≢ 3
        → (x : Found) × (s1 : Sys Card) × (s2 : Sys Card) × (find mode s ≡ some (some x, s1))
          × (find mode' s1 ≡ some (some x, s2))
          × (x.dir_entry ≡ blank_entry (to_fat_name name))
  unfolding Settled IsDecided
  fat_private_find_file_create f d name mode mode' fuel n p slot s st run le h e creat plain =
      let fat_name = to_fat_name name in
      let places = root_places f n f.root_dir_block in
      let q = new_place slot p in
      let d1 = add_entry fat_name q d in
      let e1 : lookup d1 fat_name none places ≡ is_at q =
        lookup-add_entry fat_name d p slot places h e in
      let (r1, run1, done1) =
        fat_private_find_file_root laws works f d name mode fuel n s st run
          (subst IsDecided (sym e) tt) le in
      let settled1 : Settled laws works f d fat_name mode s (ends_at p slot) r1 =
        subst (λ o. Settled laws works f d fat_name mode s o r1) e done1 in
      let (found1, st1, same1) = settled1.1 creat in
      let (r2, run2, done2) =
        fat_private_find_file_root laws works f d1 name mode' fuel n r1.1 st1 run
          (subst IsDecided (sym e1) tt) le in
      let settled2 : Settled laws works f d1 fat_name mode' r1.1 (is_at q) r2 =
        subst (λ o. Settled laws works f d1 fat_name mode' r1.1 o r2) e1 done2 in
      let (found2, st2, same2) = settled2.1 plain in
      (
        found_in d1 q,
        r1.1,
        r2.1,
        run1 ∙ ap (λ x. some (x, r1.1)) found1,
        run2 ∙ ap (λ x. some (x, r2.1)) found2,
        ap (λ b. get_entry b (32 * q.entry_index))
              (update_self d q.block_addr
                (put_entry (d q.block_addr) (32 * q.entry_index) (blank_entry fat_name)))
            ∙ get_entry-put_entry (d q.block_addr) (32 * q.entry_index) (blank_entry fat_name)
                (blank_entry-IsFatDirEntry fat_name h.eleven),
      )

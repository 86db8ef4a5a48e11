-- ===== src/Fat/Dir/Lookup.antt =====
-- A directory as the list of its places, and what a search by name through it meets.
use ccpu_libsys.Prelude.{
  ℕ, zero, suc, ◌+◌, ◌*◌, ◌<◌, ◌≡◌, refl, inl, inr, Bool, Option, none, some, List, [], ◌∷◌, ◌++◌,
  ◌==◌, Bool-cases, if◌then◌else◌,
}
use ccpu_libsys.Fat.Bytes.{u32}
use ccpu_libsys.Fat.Card.{Disk, update}
use ccpu_libsys.Fat.State.{invalid_block_addr}
use ccpu_libsys.Fat.Entry.{get_bytes, get_entry, put_entry}
use ccpu_libsys.Fat.Dir.{
  Place, Found, Scan, last_entry, same_name, no_match, same_bytes, blank_entry, keep_slot,
  scan_block, entries_per_block,
}

-- The places of a block from index `i` on.
unfoldable pub block_places : ℕ → ℕ → ℕ → List Place
block_places zero i a = []
block_places (suc n) i a = record { block_addr = a; entry_index = i } ∷ block_places n (i + 1) a

-- The places of `n` blocks from the address `a` on.
unfoldable pub run_places : ℕ → ℕ → List Place
run_places zero a = []
run_places (suc n) a = block_places entries_per_block 0 a ++ run_places n (u32 (a + 1))

-- The entry's first byte: 0 behind the last entry, 0xe5 in a deleted one.
abbrev pub mark : Disk → Place → ℕ
mark d p = d p.block_addr (32 * p.entry_index)

abbrev pub has_name : Disk → List ℕ → Place → Bool
has_name d fat_name p = same_bytes (get_bytes 11 (d p.block_addr) (32 * p.entry_index)) fat_name

-- Either the name is at a place, or the directory ends at one, or it has no end; with the first
-- place that is free before the end.
pub data Outcome : Type 0 where
  is_at : Place → Outcome
  ends_at : Place → Option Place → Outcome
  runs_out : Option Place → Outcome

unfoldable pub lookup : Disk → List ℕ → Option Place → List Place → Outcome
lookup d fat_name slot [] = runs_out slot
lookup d fat_name slot (p ∷ ps) =
    let kept = lookup d fat_name slot ps in
    let freed = lookup d fat_name (keep_slot slot p.block_addr p.entry_index) ps in
    if mark d p == 0
    then ends_at p slot
    else if mark d p == 0xe5
    then freed
    else if has_name d fat_name p
    then is_at p
    else kept

-- The record that a search returns for a place, and the disk with a new entry there.
abbrev pub found_in : Disk → Place → Found
found_in d p = record {
  dir_entry = get_entry (d p.block_addr) (32 * p.entry_index);
  dir_entry_index_in_block = 32 * p.entry_index;
  dir_entry_block_addr = p.block_addr;
}

abbrev pub add_entry : List ℕ → Place → Disk → Disk
add_entry fat_name p d =
    update d p.block_addr (put_entry (d p.block_addr) (32 * p.entry_index) (blank_entry fat_name))

-- The place that a new entry takes.
unfoldable pub new_place : Option Place → Place → Place
new_place none p = p
new_place (some q) p = q

-- The block of a free place has an address.
unfoldable pub SlotFits : Option Place → Type 0
SlotFits none = Unit
SlotFits (some p) = p.block_addr < invalid_block_addr

-- The outcome that a scan of a block leads to, with the places `ps` behind the block.
unfoldable pub scanned : Disk → List ℕ → ℕ → List Place → Scan → Outcome
scanned d fat_name a ps (last_entry i slot) =
    ends_at (record { block_addr = a; entry_index = i }) slot
scanned d fat_name a ps (same_name i) = is_at (record { block_addr = a; entry_index = i })
scanned d fat_name a ps (no_match slot) = lookup d fat_name slot ps

pub lookup-scan_block :
    (n i a : ℕ) (fat_name : List ℕ) (slot : Option Place) (d : Disk) (ps : List Place)
    → lookup d fat_name slot (block_places n i a ++ ps)
      ≡ scanned d fat_name a ps (scan_block n i fat_name a slot (d a))
unfolding lookup block_places scan_block scanned
lookup-scan_block zero i a fat_name slot d ps = refl
lookup-scan_block (suc n) i a fat_name slot d ps =
    let kept = lookup-scan_block n (i + 1) a fat_name slot d ps in
    let freed = lookup-scan_block n (i + 1) a fat_name (keep_slot slot a i) d ps in
    elim (Bool-cases (d a (32 * i) == 0)) [
      | inl e ↦ rw e refl
      | inr e ↦ elim (Bool-cases (d a (32 * i) == 0xe5)) [
        | inl e2 ↦ rw (e, e2) freed
        | inr e2 ↦ elim (Bool-cases (same_bytes (get_bytes 11 (d a) (32 * i)) fat_name)) [
          | inl e3 ↦ rw (e, e2, e3) refl
          | inr e3 ↦ rw (e, e2, e3) kept
        ]
      ]
    ]

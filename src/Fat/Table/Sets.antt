-- ===== src/Fat/Table/Sets.antt =====
-- Reading entries of the tables of lib/fat/fat.c after writing one.
use ccpu_libsys.Prelude.{
  ℕ, ◌/◌, ◌<◌, ◌≡◌, ◌≢◌, sym, ap, ◌∙◌, inl, inr, arith, ◌==◌, if◌then◌else◌, Bool-cases,
}
use native.Mathlib.Decide.{ℕ_discrete}
use ccpu_libsys.Fat.Card.{Disk, update, update_self, update_ne}
use ccpu_libsys.Fat.Bytes.{
  get_u16, get_word, put_word, get_word-put_word_self, get_word-put_word_ne,
}
use ccpu_libsys.Fat.State.{FatInfo}
use ccpu_libsys.Fat.Table.{entry_offset}
use ccpu_libsys.Fat.Table.Entries.{IsLaidOut, HasEntry, entry_block, fat_entry, set_entry, set_both}

fat_entry-set_entry_self :
    (base k v : ℕ) (d : Disk) → v < 65536 → fat_entry base (set_entry base k v d) k ≡ v
unfolding fat_entry set_entry
fat_entry-set_entry_self base k v d lt =
    ap (λ b. get_word b (entry_offset k)) (update_self d (entry_block base k) _)
    ∙ get_word-put_word_self (d (entry_block base k)) (entry_offset k) v lt

fat_entry-set_entry_apart :
    (base base' j k v : ℕ) (d : Disk)
    → entry_block base j ≢ entry_block base' k
    → fat_entry base (set_entry base' k v d) j ≡ fat_entry base d j
unfolding fat_entry set_entry
fat_entry-set_entry_apart base base' j k v d ne =
    ap (λ b. get_word b (entry_offset j))
      (update_ne d (entry_block base' k) (entry_block base j) _ ne)

fat_entry-set_entry_ne :
    (base j k v : ℕ) (d : Disk)
    → j ≢ k
    → fat_entry base (set_entry base k v d) j ≡ fat_entry base d j
unfolding fat_entry set_entry get_u16 update
fat_entry-set_entry_ne base j k v d ne = elim (ℕ_discrete (j / 256) (k / 256)) [
  | yes e ↦ same_block e
  | no far ↦ fat_entry-set_entry_apart base base j k v d (omega arith)
]
  where
    same_block : j / 256 ≡ k / 256 → fat_entry base (set_entry base k v d) j ≡ fat_entry base d j
    same_block e =
        let eb : entry_block base k ≡ entry_block base j = omega arith in
        ap (λ b. get_word b (entry_offset j))
          (ap (update d (entry_block base k) (put_word (d (entry_block base k)) (entry_offset k) v))
              (sym eb)
            ∙ update_self d (entry_block base k) _)
        ∙ get_word-put_word_ne (d (entry_block base k)) (entry_offset k) (entry_offset j) v
            (omega arith)
        ∙ ap (λ a. get_word (d a) (entry_offset j)) eb

-- A read after a write to the same table.
fat_entry-set_entry :
    (base j k v : ℕ) (d : Disk)
    → v < 65536
    → fat_entry base (set_entry base k v d) j ≡ (if j == k then v else fat_entry base d j)
fat_entry-set_entry base j k v d lt = elim (Bool-cases (j == k)) [
  | inl e ↦
      let same : j ≡ k = ground arith in
      rw e
        (ap (fat_entry base (set_entry base k v d)) same ∙ fat_entry-set_entry_self base k v d lt)
  | inr e ↦ rw e (fat_entry-set_entry_ne base j k v d (ground arith))
]

module _ {f : FatInfo} (g : IsLaidOut f) where
  -- After a write to both tables each of them has the new entry, and every other entry as before.
  pub fat0-set_both :
      (k v : ℕ) (d : Disk) (j : ℕ)
      → v < 65536
      → HasEntry f k
      → HasEntry f j
      → fat_entry f.fat0_offset (set_both f k v d) j
        ≡ (if j == k then v else fat_entry f.fat0_offset d j)
  unfolding set_both
  fat0-set_both k v d j lt hk hj =
      fat_entry-set_entry_apart f.fat0_offset f.fat1_offset j k v _ (omega arith)
      ∙ fat_entry-set_entry f.fat0_offset j k v d lt

  pub fat1-set_both :
      (k v : ℕ) (d : Disk) (j : ℕ)
      → v < 65536
      → HasEntry f k
      → HasEntry f j
      → fat_entry f.fat1_offset (set_both f k v d) j
        ≡ (if j == k then v else fat_entry f.fat1_offset d j)
  unfolding set_both
  fat1-set_both k v d j lt hk hj =
      fat_entry-set_entry f.fat1_offset j k v (set_entry f.fat0_offset k v d) lt
      ∙ ap (λ t. if j == k then v else t)
          (fat_entry-set_entry_apart f.fat1_offset f.fat0_offset j k v d (omega arith))

  -- Blocks outside the two tables stay as they are.
  pub other-set_both :
      (k v : ℕ) (d : Disk) (x : ℕ)
      → x ≢ entry_block f.fat0_offset k
      → x ≢ entry_block f.fat1_offset k
      → set_both f k v d x ≡ d x
  unfolding set_both set_entry
  other-set_both k v d x n0 n1 = update_ne _ _ x _ n1 ∙ update_ne _ _ x _ n0

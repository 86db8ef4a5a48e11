-- ===== src/Fat/Table/Mirror.antt =====
-- Two equal tables, as `alloc_cluster` of lib/fat/fat.c writes them: a block goes to one table and
-- then with the same bytes to the other.
use ccpu_libsys.Prelude.{ℕ, ◌+◌, ◌/◌, ◌<◌, ◌≡◌, ◌≢◌, sym, ap, ◌∙◌, arith, fun_ext}
use native.Mathlib.Decide.{ℕ_discrete}
use ccpu_libsys.Fat.Card.{Block, Disk, update, update_self, update_ne}
use ccpu_libsys.Fat.Bytes.{put_word}
use ccpu_libsys.Fat.State.{FatInfo}
use ccpu_libsys.Fat.Table.{entry_offset}
use ccpu_libsys.Fat.Table.Entries.{IsLaidOut, HasEntry, entry_block, set_entry, set_both}

-- The two tables hold the same.
abbrev pub IsMirrored : FatInfo → Disk → Type 0
IsMirrored f d = (i : ℕ) → i < f.sectors_per_fat → d (f.fat1_offset + i) ≡ d (f.fat0_offset + i)

pub update_comm :
    (d : Disk) (a a' : ℕ) (b b' : Block)
    → a ≢ a'
    → update (update d a b) a' b' ≡ update (update d a' b') a b
unfolding update
update_comm d a a' b b' ne = fun_ext λ x. ground arith

module _ {f : FatInfo} (g : IsLaidOut f) where
  -- Over equal tables the entry may be set in one block, and the block copied.
  pub set_both-mirror :
      (d : Disk) (k v : ℕ)
      → IsMirrored f d
      → HasEntry f k
      → let a0 = entry_block f.fat0_offset k in
        let b = put_word (d a0) (entry_offset k) v in
        set_both f k v d ≡ update (update d a0 b) (entry_block f.fat1_offset k) b
  unfolding set_both set_entry
  set_both-mirror d k v m e =
      let a0 = entry_block f.fat0_offset k in
      let a1 = entry_block f.fat1_offset k in
      let b = put_word (d a0) (entry_offset k) v in
      ap (λ b'. update (update d a0 b) a1 (put_word b' (entry_offset k) v))
        (update_ne d a0 a1 b (omega arith) ∙ m (k / 256) (e.sector))

  -- The copy keeps the tables equal.
  pub set_both-IsMirrored :
      (d : Disk) (k v : ℕ) → IsMirrored f d → HasEntry f k → IsMirrored f (set_both f k v d)
  set_both-IsMirrored d k v m e i lt =
      let a0 = entry_block f.fat0_offset k in
      let a1 = entry_block f.fat1_offset k in
      let b = put_word (d a0) (entry_offset k) v in
      rw (set_both-mirror d k v m e) (elim (ℕ_discrete i (k / 256)) [
        | yes same ↦
            ap (update (update d a0 b) a1 b) (omega arith)
            ∙ update_self (update d a0 b) a1 b
            ∙ sym (update_self d a0 b)
            ∙ sym (update_ne (update d a0 b) a1 a0 b (omega arith))
            ∙ ap (update (update d a0 b) a1 b) (omega arith)
        | no ne ↦
            update_ne (update d a0 b) a1 (f.fat1_offset + i) b (omega arith)
            ∙ update_ne d a0 (f.fat1_offset + i) b (omega arith)
            ∙ m i lt
            ∙ sym (update_ne d a0 (f.fat0_offset + i) b (omega arith))
            ∙ sym (update_ne (update d a0 b) a1 (f.fat0_offset + i) b (omega arith))
      ])

  -- The same with the block and the place in it written otherwise.
  pub set_both-mirror_at :
      (d : Disk) (k v a0 a1 o : ℕ)
      → IsMirrored f d
      → HasEntry f k
      → a0 ≡ entry_block f.fat0_offset k
      → a1 ≡ entry_block f.fat1_offset k
      → o ≡ entry_offset k
      → set_both f k v d ≡ update (update d a0 (put_word (d a0) o v)) a1 (put_word (d a0) o v)
  set_both-mirror_at d k v a0 a1 o m e e0 e1 eo = rw (e0, e1, eo) (set_both-mirror d k v m e)

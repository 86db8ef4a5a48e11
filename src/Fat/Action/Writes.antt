-- ===== src/Fat/Action/Writes.antt =====
-- What a write of some bytes of a chain means, and how one follows another.
use ccpu_libsys.Prelude.{
  ℕ, ◌+◌, ◌-◌, ◌*◌, ◌/◌, ◌<◌, ◌≤◌, ◌≡◌, ◌≢◌, refl, sym, ap, ◌∙◌, inl, inr, List, ◌∷◌, arith, ltb,
  Bool-cases, length, fun_ext, ltb→lt,
}
use ccpu_libsys.Fat.Card.{Block, Disk}
use ccpu_libsys.Fat.State.{FatInfo, FileDescriptor}
use ccpu_libsys.Fat.Bytes.{get_word}
use ccpu_libsys.Fat.Table.{entry_offset}
use ccpu_libsys.Fat.Table.Entries.{IsLaidOut, HasEntry, fat_entry}
use ccpu_libsys.Fat.Table.Chains.{IsChain, IsChain-frame}
use ccpu_libsys.Fat.Seek.Moves.{in_cluster}
use ccpu_libsys.Fat.Action.Content.{
  cluster_size, chain_place, byte_at, chain_byte, DataFits, IsReading, left,
}
use ccpu_libsys.Fat.Action.Places.{SamePlaces}
use ccpu_libsys.Fat.Action.Apart.{chain_place-injective, chain_place-data}

-- The data area lies behind the tables.
abbrev pub IsBehind : FatInfo → Type 0
IsBehind f = f.fat1_offset + f.sectors_per_fat ≤ f.data_offset

-- From the disk `d` to `d'`: the chain's `n` bytes from the position of `p` on become those of the
-- buffer from `result` on, and no other byte of the card changes.
pub record Stored (f : FatInfo) (d d' : Disk) (ks : List ℕ) (i n result : ℕ) (buf : Block)
    : Type 0 where
  pub bytes : (j : ℕ) → j < n → chain_byte f d' ks (i + j) ≡ buf (result + j)
  pub kept : (a x : ℕ) → ((j : ℕ) → j < n → chain_place f ks (i + j) ≢ (a, x)) → d' a x ≡ d a x

-- The bytes up to the end of a file are positions of its chain.
pub in_file :
    (f : FatInfo) (t : ℕ → ℕ) (k : ℕ) (post : List ℕ) (p : FileDescriptor)
    → IsReading f t k post p
    → in_cluster p + left p ≤ cluster_size f * length (k ∷ post)
in_file f t k post p h = omega (arith, h.position, h.before_end, h.last)

-- The table is not among the bytes of a chain.
pub Stored-table :
    (f : FatInfo) (d d' : Disk) (ks : List ℕ) (i n result j : ℕ) (buf : Block)
    → DataFits f
    → IsLaidOut f
    → IsBehind f
    → i + n ≤ cluster_size f * length ks
    → Stored f d d' ks i n result buf
    → HasEntry f j
    → fat_entry f.fat0_offset d' j ≡ fat_entry f.fat0_offset d j
unfolding fat_entry
Stored-table f d d' ks i n result j buf fit g behind le h e =
    let a = f.fat0_offset + j / 256 in
    let same : d' a ≡ d a = fun_ext λ x. h.kept a x λ m lt place. omega (
      arith,
      chain_place-data f ks (i + m) fit (omega (arith, le, lt)),
      ap (λ c. c.0) place,
      e.sector,
      behind,
      g.apart,
    ) in
    ap (λ b. get_word b (entry_offset j)) same

pub IsReading-frame :
    (f : FatInfo) (t u : ℕ → ℕ) (k : ℕ) (post : List ℕ) (p : FileDescriptor)
    → IsReading f t k post p
    → ((j : ℕ) → HasEntry f j → u j ≡ t j)
    → IsReading f u k post p
IsReading-frame f t u k post p h same = record {
  not_root = h.not_root;
  cluster = h.cluster;
  next = h.next ∙ sym (same k h.chain.2);
  chain = IsChain-frame f t u k (k ∷ post) h.chain (λ j i e. same j e);
  index = h.index;
  inside = h.inside;
  at_most = h.at_most;
  full = h.full;
  some_last = h.some_last;
  last = h.last;
  position = h.position;
  before_end = h.before_end;
  size = h.size;
}

pub Stored-refl :
    (f : FatInfo) (d : Disk) (ks : List ℕ) (i result : ℕ) (buf : Block)
    → Stored f d d ks i 0 result buf
Stored-refl f d ks i result buf = record {
  bytes = λ j lt. absurd (omega (arith, lt));
  kept = λ a x h. refl;
}

-- One part after another.
pub Stored-trans :
    (f : FatInfo) (t : ℕ → ℕ) (c : ℕ) (d d1 d' : Disk) (ks ks' : List ℕ) (i i' n m result : ℕ)
    (buf : Block)
    → DataFits f
    → IsChain f t c ks
    → i + (n + m) ≤ cluster_size f * length ks
    → SamePlaces f ks (i + n) ks' i'
    → Stored f d d1 ks i n result buf
    → Stored f d1 d' ks' i' m (result + n) buf
    → Stored f d d' ks i (n + m) result buf
Stored-trans f t c d d1 d' ks ks' i i' n m result buf fit chain le same h1 h2 = record {
  bytes = λ j lt. elim (Bool-cases (ltb j n)) [
    | inl early ↦
        let at = chain_place f ks (i + j) in
        h2.kept at.0 at.1 (λ x lt2 e.
          let equal : i + n + x ≡ i + j =
            chain_place-injective f t c (i + n + x) (i + j) ks fit chain (omega (arith, le, lt2))
              (omega (arith, le, lt)) (sym (same x) ∙ e) in
          omega (arith, equal, ltb→lt j n early))
        ∙ h1.bytes j (ltb→lt j n early)
    | inr late ↦
        let (x, e) : (x : ℕ) × (j ≡ n + x) = (j - n, ground (arith, late)) in
        ap (λ j. chain_byte f d' ks (i + j)) e
        ∙ ap (chain_byte f d' ks) (omega arith)
        ∙ ap (byte_at d') (sym (same x))
        ∙ h2.bytes x (omega (arith, e, lt))
        ∙ ap buf (omega (arith, e))
  ];
  kept = λ a x h.
      h2.kept a x (λ j lt e.
        h (n + j) (omega (arith, lt)) (ap (chain_place f ks) (omega arith) ∙ sym (same j) ∙ e))
      ∙ h1.kept a x (λ j lt e. h j (omega (arith, lt)) e);
}

-- ===== src/Fat/Action/Reads.antt =====
-- What a read of some bytes of a chain means, and how one follows another.
use ccpu_libsys.Prelude.{
  ℕ, ◌+◌, ◌-◌, ◌<◌, ◌≤◌, ◌≡◌, ◌≢◌, refl, sym, ap, ◌∙◌, ◌⊎◌, inl, inr, List, ◌∷◌, arith, ltb,
  Bool-cases,
}
use mathlib.Core.Path.{subst}
use ccpu_libsys.Fat.Card.{Block, Disk, CardOps, CardLaws, CardWorks}
use ccpu_libsys.Fat.State.{Sys, FatInfo, FileDescriptor}
use ccpu_libsys.Fat.Cache.Laws.{Stands}
use ccpu_libsys.Fat.Table.Entries.{fat_entry}
use ccpu_libsys.Fat.Seek.Moves.{in_cluster, SameFile}
use ccpu_libsys.Fat.Action.Content.{chain_place, byte_at, chain_byte, IsReading}
use ccpu_libsys.Fat.Action.Places.{NextPlace, NextPlace-trans, NextPlace-refl}

pub SameFile-trans : (p q r : FileDescriptor) → SameFile p q → SameFile q r → SameFile p r
SameFile-trans p q r a b = record {
  is_free = b.is_free ∙ a.is_free;
  is_stale = b.is_stale ∙ a.is_stale;
  is_root = b.is_root ∙ a.is_root;
  last_cluster_len = b.last_cluster_len ∙ a.last_cluster_len;
  entry = b.entry ∙ a.entry;
  modified = b.modified ∙ a.modified;
}

pub SameFile-refl : (p : FileDescriptor) → SameFile p p
SameFile-refl p = record {
  is_free = refl;
  is_stale = refl;
  is_root = refl;
  last_cluster_len = refl;
  entry = refl;
  modified = refl;
}

module _ {Card : Type 0} {ops : CardOps Card} (laws : CardLaws ops) (works : CardWorks ops) where
  -- A read of `n` bytes into the buffer from `result` on: the chain's bytes from the position on
  -- are there, and nothing else is changed in the buffer, on the card and in other descriptors. The
  -- descriptor stands behind the bytes.
  pub record IsRead (f : FatInfo) (d : Disk) (k : ℕ) (post : List ℕ) (fd n result : ℕ) (buf : Block)
      (p : FileDescriptor) (s : Sys Card) (buf' : Block) (s' : Sys Card) : Type 0 where
    pub bytes : (j : ℕ) → j < n → buf' (result + j) ≡ chain_byte f d (k ∷ post) (in_cluster p + j)
    pub outside : (x : ℕ) → (x < result) ⊎ (result + n ≤ x) → buf' x ≡ buf x
    pub stands : Stands laws f d s'
    pub others : (i : ℕ) → i ≢ fd → s'.file_desc i ≡ s.file_desc i
    pub file : SameFile p (s'.file_desc fd)
    pub position : (s'.file_desc fd).abs_offset ≡ p.abs_offset + n
    pub place : NextPlace f (fat_entry f.fat0_offset d) k post n p (s'.file_desc fd)

  pub IsRead-trans :
      (f : FatInfo) (d : Disk) (k k' : ℕ) (post post' : List ℕ) (fd n m result : ℕ)
      (buf buf' buf'' : Block) (p : FileDescriptor) (s s' s'' : Sys Card)
      → ((j : ℕ) → j < n → buf' (result + j) ≡ chain_byte f d (k ∷ post) (in_cluster p + j))
      → ((x : ℕ) → (x < result) ⊎ (result + n ≤ x) → buf' x ≡ buf x)
      → ((i : ℕ) → i ≢ fd → s'.file_desc i ≡ s.file_desc i)
      → SameFile p (s'.file_desc fd)
      → (s'.file_desc fd).abs_offset ≡ p.abs_offset + n
      → ((j : ℕ)
          → chain_place f (k' ∷ post') (in_cluster (s'.file_desc fd) + j)
            ≡ chain_place f (k ∷ post) (in_cluster p + n + j))
      → (k ≢ 0 → k' ≢ 0)
      → IsRead f d k' post' fd m (result + n) buf' (s'.file_desc fd) s' buf'' s''
      → IsRead f d k post fd (n + m) result buf p s buf'' s''
  IsRead-trans f d k k' post post' fd n m result buf buf' buf'' p s s' s'' bytes outside others file
        abs same used r =
      record {
        bytes = λ j lt. elim (Bool-cases (ltb j n)) [
          | inl early ↦
              r.outside (result + j) (inl (ground (arith, early))) ∙ bytes j (ground (arith, early))
          | inr late ↦
              let (i, e) : (i : ℕ) × (j ≡ n + i) = (j - n, ground (arith, late)) in
              ap buf'' (omega (arith, e))
              ∙ r.bytes i (omega (arith, e, lt))
              ∙ ap (byte_at d) (same i)
              ∙ ap (chain_byte f d (k ∷ post)) (omega (arith, e))
        ];
        outside = λ x out. r.outside x (ground arith) ∙ outside x (ground arith);
        stands = r.stands;
        others = λ i ne. r.others i ne ∙ others i ne;
        file = SameFile-trans p (s'.file_desc fd) (s''.file_desc fd) file r.file;
        position = omega (arith, r.position, abs);
        place =
            NextPlace-trans f (fat_entry f.fat0_offset d) k k' n m post post' p (s'.file_desc fd)
              (s''.file_desc fd) used same r.place;
      }

  -- Nothing is read.
  pub IsRead-refl :
      (f : FatInfo) (d : Disk) (k : ℕ) (post : List ℕ) (fd result : ℕ) (buf : Block)
      (p : FileDescriptor) (s s' : Sys Card)
      → Stands laws f d s'
      → s'.file_desc fd ≡ p
      → ((i : ℕ) → i ≢ fd → s'.file_desc i ≡ s.file_desc i)
      → IsReading f (fat_entry f.fat0_offset d) k post p
      → IsRead f d k post fd 0 result buf p s buf s'
  IsRead-refl f d k post fd result buf p s s' st e others h = record {
    bytes = λ j lt. absurd (omega arith);
    outside = λ x out. refl;
    stands = st;
    others = others;
    file = subst (SameFile p) (sym e) (SameFile-refl p);
    position = ap (λ q. q.abs_offset) e ∙ omega arith;
    place = NextPlace-refl f (fat_entry f.fat0_offset d) k post p (s'.file_desc fd) e h;
  }

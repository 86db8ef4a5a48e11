-- ===== src/Fat/Dir/OnChain.antt =====
-- A descriptor of lib/fat/fat.c on the entries of a directory in a chain of clusters.
use ccpu_libsys.Prelude.{
  ℕ, suc, ◌+◌, ◌*◌, ◌/◌, ◌%◌, ◌^◌, ◌<◌, ◌≡◌, refl, sym, ap, ◌∙◌, ◌⊎◌, inl, inr, false, List, [],
  ◌∷◌, arith, length,
}
use mathlib.Core.Path.{subst}
use ccpu_libsys.Fat.Bytes.{u32}
use ccpu_libsys.Fat.Card.{Disk, CardOps, CardLaws, CardWorks}
use ccpu_libsys.Fat.State.{FatInfo, FileDescriptor, cluster_block}
use ccpu_libsys.Fat.Table.Entries.{IsLaidOut, fat_entry}
use ccpu_libsys.Fat.Table.Chains.{IsChain}
use ccpu_libsys.Fat.Seek.{seek_advance}
use ccpu_libsys.Fat.Seek.Moves.{in_cluster, IsInside, IsFurther, IsLast, IsEntered, SameFile}
use ccpu_libsys.Fat.Action.Content.{cluster_size, chain_place, DataFits}
use ccpu_libsys.Fat.Action.Apart.{chain_place-below}
use ccpu_libsys.Fat.Action.Places.{SamePlaces, block_start, chain_place-next}
use ccpu_libsys.Fat.Action.Round.{chain_place-block, seek_advance_at, AdvancedAt}
use ccpu_libsys.Fat.Dir.Listing.{Walks}

-- A descriptor of a directory in the cluster `k` of its chain, on an entry, with the clusters `post`
-- behind it.
pub record IsOnChain (f : FatInfo) (t : ℕ → ℕ) (k : ℕ) (post : List ℕ) (p : FileDescriptor)
    : Type 0 where
  pub not_root : p.is_root ≡ false
  pub cluster : p.cur_cluster ≡ k
  pub next : p.next_cluster ≡ t k
  pub chain : IsChain f t k (k ∷ post)
  pub aligned : p.index_in_block % 32 ≡ 0
  pub index : p.index_in_block < 512
  pub inside : p.block_in_cluster < f.sectors_per_cluster
  pub address : p.block_addr ≡ u32 (cluster_block f k + p.block_in_cluster)

-- The descriptor is on the entry `i` of the directory in the clusters `ks`.
pub record IsOnEntry (f : FatInfo) (t : ℕ → ℕ) (ks : List ℕ) (i : ℕ) (p : FileDescriptor)
    : Type 0 where
  pub current : ℕ
  pub behind : List ℕ
  pub on_chain : IsOnChain f t current behind p
  pub position :
      32 * i + cluster_size f * length (current ∷ behind)
      ≡ cluster_size f * length ks + in_cluster p
  pub same : SamePlaces f ks (32 * i) (current ∷ behind) (in_cluster p)
  pub offset : p.abs_offset ≡ 32 * i

IsOnChain-IsInside :
    (f : FatInfo) (t : ℕ → ℕ) (k : ℕ) (post : List ℕ) (p : FileDescriptor)
    → DataFits f
    → IsOnChain f t k post p
    → IsInside f t p
IsOnChain-IsInside f t k [] p fit h = record {
  not_root = h.not_root;
  next = rw h.cluster h.next;
  follows = λ lt. absurd (omega (arith, lt, h.next, h.chain.5));
  inside = h.inside;
  sectors = omega (arith, fit.sectors);
  address = rw h.cluster h.address;
}
IsOnChain-IsInside f t k (k2 ∷ post) p fit h = record {
  not_root = h.not_root;
  next = rw h.cluster h.next;
  follows = λ lt. rw h.next (h.chain.5.2, h.chain.5.3);
  inside = h.inside;
  sectors = omega (arith, fit.sectors);
  address = rw h.cluster h.address;
}

-- The number of entries in the clusters `ks`.
abbrev pub entries_of : FatInfo → List ℕ → ℕ
entries_of f ks = cluster_size f * length ks / 32

-- Behind an entry that is not the last of the chain there is another one.
next-IsOnEntry :
    (f : FatInfo) (t : ℕ → ℕ) (ks : List ℕ) (i k : ℕ) (post : List ℕ) (p q : FileDescriptor)
    → DataFits f
    → IsOnChain f t k post p
    → 32 * i + cluster_size f * length (k ∷ post) ≡ cluster_size f * length ks + in_cluster p
    → SamePlaces f ks (32 * i) (k ∷ post) (in_cluster p)
    → p.abs_offset ≡ 32 * i
    → SameFile p q
    → q.abs_offset ≡ p.abs_offset + 32
    → IsFurther f 32 p q ⊎ IsLast f 32 p q ⊎ IsEntered f t 32 p q
    → suc i < entries_of f ks
    → IsOnEntry f t ks (suc i) q
next-IsOnEntry f t ks i k post p q fit h position same offset file abs (inl u) lt =
    let cluster : q.cur_cluster ≡ k = u.cluster ∙ h.cluster in
    record {
      current = k;
      behind = post;
      on_chain = record {
        not_root = file.is_root ∙ h.not_root;
        cluster = cluster;
        next = u.next ∙ h.next;
        chain = h.chain;
        aligned = omega (arith, u.position, h.aligned);
        index = u.index;
        inside = u.inside;
        address =
            subst (λ c. q.block_addr ≡ u32 (cluster_block f c + q.block_in_cluster)) cluster
              u.address;
      };
      position = omega (arith, position, u.position);
      same = λ j.
          ap (λ x. chain_place f (k ∷ post) (x + j)) u.position
          ∙ ap (chain_place f (k ∷ post)) (omega arith)
          ∙ same (32 + j)
          ∙ ap (chain_place f ks) (omega arith);
      offset = omega (arith, abs, offset);
    }
next-IsOnEntry f t ks i k [] p q fit h position same offset file abs (inr (inl u)) lt =
    absurd (omega (arith, position, u.reached, lt))
next-IsOnEntry f t ks i k (k2 ∷ post) p q fit h position same offset file abs (inr (inl u)) lt =
    absurd (omega (arith, u.last, h.next, h.chain.5.1))
next-IsOnEntry f t ks i k [] p q fit h position same offset file abs (inr (inr u)) lt =
    absurd (omega (arith, u.follows, h.next, h.chain.5))
next-IsOnEntry f t ks i k (k2 ∷ post) p q fit h position same offset file abs (inr (inr u)) lt =
    let next : p.next_cluster ≡ k2 = h.next ∙ sym h.chain.5.0 in
    let block : q.block_in_cluster ≡ 0 = omega (arith, u.position) in
    record {
      current = k2;
      behind = post;
      on_chain = record {
        not_root = file.is_root ∙ h.not_root;
        cluster = u.cluster ∙ next;
        next = u.next ∙ ap t next;
        chain = subst (λ c. IsChain f t c (k2 ∷ post)) (sym h.chain.5.0) h.chain.5;
        aligned = omega (arith, u.position);
        index = omega (arith, u.position);
        inside = omega (arith, block, fit.some_sectors);
        address = u.address ∙ ap (cluster_block f) next ∙ block_start f k2 q.block_in_cluster block;
      };
      position = omega (arith, position, u.reached, u.position);
      same = λ j.
          ap (λ x. chain_place f (k2 ∷ post) (x + j)) u.position
          ∙ ap (chain_place f (k2 ∷ post)) (omega arith)
          ∙ sym (chain_place-next f k j (k2 ∷ post))
          ∙ ap (λ x. chain_place f (k ∷ k2 ∷ post) (x + j)) (sym u.reached)
          ∙ ap (chain_place f (k ∷ k2 ∷ post)) (omega arith)
          ∙ same (32 + j)
          ∙ ap (chain_place f ks) (omega arith);
      offset = omega (arith, abs, offset);
    }

pub place-address :
    (f : FatInfo) (t : ℕ → ℕ) (ks : List ℕ) (i : ℕ) (p : FileDescriptor)
    → IsOnEntry f t ks i p
    → (p.block_addr, p.index_in_block) ≡ chain_place f ks (32 * i)
place-address f t ks i p h =
    let c = h.on_chain in
    ap (λ x. (p.block_addr, x)) (omega arith)
    ∙ sym (chain_place-block f h.current 0 h.behind p c.inside c.address (omega (arith, c.index)))
    ∙ h.same 0
    ∙ ap (chain_place f ks) (omega arith)

module _ {Card : Type 0} {ops : CardOps Card} (laws : CardLaws ops) (works : CardWorks ops) where
  pub IsOnEntry-Walks :
      (f : FatInfo) (d : Disk) (fd : ℕ) (ks : List ℕ)
      → let t = fat_entry f.fat0_offset d in
        IsLaidOut f
        → DataFits f
        → 32 * entries_of f ks < 2 ^ 32
        → Walks laws works f d fd
            (entries_of f ks)
            (λ i. chain_place f ks (32 * i))
            (IsOnEntry f t ks)
  unfolding AdvancedAt
  IsOnEntry-Walks f d fd ks g fit fits =
      let t = fat_entry f.fat0_offset d in
      record {
        at_place = λ i p lt h. place-address f t ks i p h;
        below = λ i lt. chain_place-below f ks (32 * i) fit (omega (arith, lt));
        advance = λ i s st lt h.
            let p = s.file_desc fd in
            let c = h.on_chain in
            let (ok, st', others, file, abs, moved) =
              seek_advance_at laws works f d fd 32 p s g st refl
                (IsOnChain-IsInside f t h.current h.behind p fit c)
                (omega (arith, c.index, c.aligned)) (omega (arith, h.offset, lt, fits)) in
            (
              ok,
              st',
              others,
              next-IsOnEntry f t ks i h.current h.behind p
                  ((seek_advance ops fd 32 s).1.file_desc fd) fit c h.position h.same h.offset file
                  abs moved,
            );
      }

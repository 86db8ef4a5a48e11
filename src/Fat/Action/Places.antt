-- ===== src/Fat/Action/Places.antt =====
-- Where `seek_advance` of lib/fat/fat.c leaves a descriptor that stands on a byte of a chain.
use ccpu_libsys.Prelude.{ℕ, ◌+◌, ◌≤◌, ◌≡◌, ◌≢◌, sym, ap, ◌∙◌, ◌⊎◌, inl, inr, List, [], ◌∷◌, arith}
use mathlib.Core.Path.{subst}
use ccpu_libsys.Fat.Bytes.{u32}
use ccpu_libsys.Fat.State.{FatInfo, FileDescriptor, cluster_block}
use ccpu_libsys.Fat.Table.Chains.{IsChain}
use ccpu_libsys.Fat.Seek.Moves.{in_cluster, IsFurther, IsLast, IsEntered, SameFile}
use ccpu_libsys.Fat.Action.Content.{cluster_size, chain_place, DataFits, IsReading, left}

-- The position `i` of a chain is the position `i'` of its end `ks'`.
abbrev pub SamePlaces : FatInfo → List ℕ → ℕ → List ℕ → ℕ → Type 0
SamePlaces f ks i ks' i' = (j : ℕ) → chain_place f ks' (i' + j) ≡ chain_place f ks (i + j)

further-IsReading :
    (f : FatInfo) (t : ℕ → ℕ) (k n : ℕ) (post : List ℕ) (p q : FileDescriptor)
    → IsReading f t k post p
    → n ≤ left p
    → SameFile p q
    → q.abs_offset ≡ p.abs_offset + n
    → IsFurther f n p q
    → IsReading f t k post q
further-IsReading f t k n post p q h le same abs u =
    let size : q.dir_entry.size ≡ p.dir_entry.size = ap (λ e. e.size) same.entry in
    let cluster : q.cur_cluster ≡ k = u.cluster ∙ h.cluster in
    record {
      not_root = same.is_root ∙ h.not_root;
      cluster = cluster;
      next = u.next ∙ h.next;
      chain = h.chain;
      index = u.index;
      inside = λ _.
          subst (λ c. q.block_addr ≡ u32 (cluster_block f c + q.block_in_cluster)) cluster
            u.address;
      at_most = omega (arith, u.inside);
      full = λ e. absurd (omega (arith, e, u.inside));
      some_last = omega (arith, same.last_cluster_len, h.some_last);
      last = omega (arith, same.last_cluster_len, h.last);
      position = omega (arith, same.last_cluster_len, size, abs, u.position, h.position);
      before_end = omega (arith, size, abs, le, h.before_end);
      size = omega (arith, size, h.size);
    }

last-IsReading :
    (f : FatInfo) (t : ℕ → ℕ) (k n : ℕ) (post : List ℕ) (p q : FileDescriptor)
    → DataFits f
    → IsReading f t k post p
    → n ≤ left p
    → SameFile p q
    → q.abs_offset ≡ p.abs_offset + n
    → IsLast f n p q
    → IsReading f t k post q
last-IsReading f t k n post p q fit h le same abs u =
    let size : q.dir_entry.size ≡ p.dir_entry.size = ap (λ e. e.size) same.entry in
    let full : q.block_in_cluster ≡ f.sectors_per_cluster =
      omega (arith, u.position, u.reached, u.index) in
    record {
      not_root = same.is_root ∙ h.not_root;
      cluster = u.cluster ∙ h.cluster;
      next = u.next ∙ h.next;
      chain = h.chain;
      index = omega (arith, u.index);
      inside = λ lt. absurd (omega (arith, lt, full));
      at_most = omega (arith, full);
      full = λ _. (u.index, omega (arith, u.next, u.last));
      some_last = omega (arith, same.last_cluster_len, h.some_last);
      last = omega (arith, same.last_cluster_len, h.last);
      position = omega (arith, same.last_cluster_len, size, abs, u.position, h.position);
      before_end = omega (arith, size, abs, le, h.before_end);
      size = omega (arith, size, h.size);
    }

pub block_start : (f : FatInfo) (c b : ℕ) → b ≡ 0 → cluster_block f c ≡ u32 (cluster_block f c + b)
unfolding cluster_block
block_start f c b e = omega arith

entered-IsReading :
    (f : FatInfo) (t : ℕ → ℕ) (k k2 n : ℕ) (post : List ℕ) (p q : FileDescriptor)
    → DataFits f
    → IsReading f t k (k2 ∷ post) p
    → n ≤ left p
    → SameFile p q
    → q.abs_offset ≡ p.abs_offset + n
    → IsEntered f t n p q
    → IsReading f t k2 post q
entered-IsReading f t k k2 n post p q fit h le same abs u =
    let size : q.dir_entry.size ≡ p.dir_entry.size = ap (λ e. e.size) same.entry in
    let next : p.next_cluster ≡ k2 = h.next ∙ sym h.chain.5.0 in
    let start : (q.block_in_cluster ≡ 0) × (q.index_in_block ≡ 0) =
      (omega (arith, u.position), omega (arith, u.position)) in
    record {
      not_root = same.is_root ∙ h.not_root;
      cluster = u.cluster ∙ next;
      next = u.next ∙ ap t next;
      chain = subst (λ c. IsChain f t c (k2 ∷ post)) (sym h.chain.5.0) h.chain.5;
      index = omega (arith, start.1);
      inside =
          λ _. u.address ∙ ap (cluster_block f) next ∙ block_start f k2 q.block_in_cluster start.0;
      at_most = omega (arith, start.0);
      full = λ e. absurd (omega (arith, e, start.0, fit.some_sectors));
      some_last = omega (arith, same.last_cluster_len, h.some_last);
      last = omega (arith, same.last_cluster_len, h.last);
      position = omega (arith, same.last_cluster_len, size, abs, u.position, u.reached, h.position);
      before_end = omega (arith, size, abs, le, h.before_end);
      size = omega (arith, size, h.size);
    }

pub chain_place-next :
    (f : FatInfo) (k j : ℕ) (ks : List ℕ)
    → chain_place f (k ∷ ks) (cluster_size f + j) ≡ chain_place f ks j
unfolding chain_place
chain_place-next f k j ks = ground arith

-- Where `seek_advance` leaves a descriptor that stands on a byte of a chain.
abbrev pub NextPlace : FatInfo → (ℕ → ℕ) → ℕ → List ℕ → ℕ → FileDescriptor → FileDescriptor → Type 0
NextPlace f t k post n p q =
    (k' : ℕ) × (post' : List ℕ) × IsReading f t k' post' q
    × (k ≢ 0 → k' ≢ 0)
    × SamePlaces f (k ∷ post) (in_cluster p + n) (k' ∷ post') (in_cluster q)

pub advance-NextPlace :
    (f : FatInfo) (t : ℕ → ℕ) (k n : ℕ) (post : List ℕ) (p q : FileDescriptor)
    → DataFits f
    → IsReading f t k post p
    → n ≤ left p
    → SameFile p q
    → q.abs_offset ≡ p.abs_offset + n
    → IsFurther f n p q ⊎ IsLast f n p q ⊎ IsEntered f t n p q
    → NextPlace f t k post n p q
advance-NextPlace f t k n post p q fit h le same abs (inl u) = (
  k,
  post,
  further-IsReading f t k n post p q h le same abs u,
  λ ne. ne,
  λ j. ap (λ i. chain_place f (k ∷ post) (i + j)) u.position,
)
advance-NextPlace f t k n post p q fit h le same abs (inr (inl u)) = (
  k,
  post,
  last-IsReading f t k n post p q fit h le same abs u,
  λ ne. ne,
  λ j. ap (λ i. chain_place f (k ∷ post) (i + j)) u.position,
)
advance-NextPlace f t k n [] p q fit h le same abs (inr (inr u)) =
    absurd (omega (arith, u.follows, h.next, h.chain.5))
advance-NextPlace f t k n (k2 ∷ post) p q fit h le same abs (inr (inr u)) = (
  k2,
  post,
  entered-IsReading f t k k2 n post p q fit h le same abs u,
  λ ne z. h.chain.3 (sym h.chain.5.0 ∙ z),
  λ j.
      ap (λ i. chain_place f (k2 ∷ post) (i + j)) u.position
      ∙ ap (chain_place f (k2 ∷ post)) (omega arith)
      ∙ sym (chain_place-next f k j (k2 ∷ post))
      ∙ ap (λ i. chain_place f (k ∷ k2 ∷ post) (i + j)) (sym u.reached),
)

-- One move after another.
pub NextPlace-trans :
    (f : FatInfo) (t : ℕ → ℕ) (k k' n m : ℕ) (post post' : List ℕ) (p q r : FileDescriptor)
    → (k ≢ 0 → k' ≢ 0)
    → SamePlaces f (k ∷ post) (in_cluster p + n) (k' ∷ post') (in_cluster q)
    → NextPlace f t k' post' m q r
    → NextPlace f t k post (n + m) p r
NextPlace-trans f t k k' n m post post' p q r used same (k'', post'', h, used', same') = (
  k'',
  post'',
  h,
  λ ne. used' (used ne),
  λ j.
      same' j
      ∙ ap (chain_place f (k' ∷ post')) (omega arith)
      ∙ same (m + j)
      ∙ ap (chain_place f (k ∷ post)) (omega arith),
)

-- No move.
pub NextPlace-refl :
    (f : FatInfo) (t : ℕ → ℕ) (k : ℕ) (post : List ℕ) (p q : FileDescriptor)
    → q ≡ p
    → IsReading f t k post p
    → NextPlace f t k post 0 p q
NextPlace-refl f t k post p q e h = (
  k,
  post,
  subst (IsReading f t k post) (sym e) h,
  λ ne. ne,
  λ j.
      ap (λ q. chain_place f (k ∷ post) (in_cluster q + j)) e
      ∙ ap (chain_place f (k ∷ post)) (omega arith),
)

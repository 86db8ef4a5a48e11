-- ===== src/Fat/Action/Step.antt =====
-- The chunk that a round of `fat_read` of lib/fat/fat.c takes.
use ccpu_libsys.Prelude.{ℕ, ◌+◌, ◌-◌, ◌*◌, ◌<◌, ◌≡◌, true, false, List, [], ◌∷◌, arith, leb}
use ccpu_libsys.Fat.State.{FatInfo, FileDescriptor, fat_min_last_cluster}
use ccpu_libsys.Fat.Seek.Moves.{in_cluster, IsInside}
use ccpu_libsys.Fat.Action.{remainder, block_rest, last_chunk, next_chunk}
use ccpu_libsys.Fat.Action.Content.{cluster_size, DataFits, IsReading, left, smaller}

block_rest_lem :
    (p : FileDescriptor) → p.index_in_block < 512 → block_rest p ≡ 512 - p.index_in_block
unfolding block_rest
block_rest_lem p lt = omega arith

-- In the last cluster the position is not behind the end.
pub remainder-IsReading :
    (f : FatInfo) (t : ℕ → ℕ) (k : ℕ) (p : FileDescriptor)
    → DataFits f
    → IsReading f t k [] p
    → (remainder p + 512 * p.block_in_cluster ≡ p.last_cluster_len)
      × (in_cluster p + left p ≡ p.last_cluster_len)
unfolding remainder
remainder-IsReading f t k p fit h = (
  omega (arith, fit.sectors, h.last, h.position, h.before_end),
  omega (arith, h.position, h.before_end),
)

-- In another cluster the file reaches behind the cluster's end.
left-IsReading :
    (f : FatInfo) (t : ℕ → ℕ) (k k2 : ℕ) (post : List ℕ) (p : FileDescriptor)
    → IsReading f t k (k2 ∷ post) p
    → (p.block_in_cluster < f.sectors_per_cluster) × (cluster_size f < in_cluster p + left p)
left-IsReading f t k k2 post p h =
    let more : t k < fat_min_last_cluster = h.chain.5.1 in
    (
      ground (arith, more, h.next, h.full, h.at_most),
      omega (arith, h.position, h.some_last, h.before_end),
    )

-- A read takes the rest of the block or of the file.
pub next_chunk-IsReading :
    (f : FatInfo) (t : ℕ → ℕ) (k len : ℕ) (post : List ℕ) (p : FileDescriptor)
    → DataFits f
    → IsReading f t k post p
    → next_chunk false len p ≡ (smaller len (smaller (512 - p.index_in_block) (left p)), p)
unfolding next_chunk last_chunk
next_chunk-IsReading f t k len [] p fit h =
    let last : leb fat_min_last_cluster p.next_cluster ≡ true = ground (arith, h.next, h.chain.5) in
    let (e_rem, e_left) = remainder-IsReading f t k p fit h in
    let e_rest = block_rest_lem p h.index in ground (arith, last, e_rem, e_left, e_rest, h.index)
next_chunk-IsReading f t k len (k2 ∷ post) p fit h =
    let more : leb fat_min_last_cluster p.next_cluster ≡ false =
      ground (arith, h.next, h.chain.5.1) in
    let (inside, long) = left-IsReading f t k k2 post p h in
    let e_rest = block_rest_lem p h.index in ground (arith, more, inside, long, e_rest)

-- With bytes left the descriptor is inside its cluster.
pub IsReading-IsInside :
    (f : FatInfo) (t : ℕ → ℕ) (k : ℕ) (post : List ℕ) (p : FileDescriptor)
    → DataFits f
    → IsReading f t k post p
    → 0 < left p
    → IsInside f t p
IsReading-IsInside f t k [] p fit h some_left =
    let (_, e_left) = remainder-IsReading f t k p fit h in
    let inside : p.block_in_cluster < f.sectors_per_cluster = omega (arith, e_left, h.last) in
    record {
      not_root = h.not_root;
      next = rw h.cluster h.next;
      follows = λ lt. absurd (omega (arith, lt, h.next, h.chain.5));
      inside = inside;
      sectors = omega (arith, fit.sectors);
      address = rw h.cluster (h.inside inside);
    }
IsReading-IsInside f t k (k2 ∷ post) p fit h some_left =
    let (inside, _) = left-IsReading f t k k2 post p h in
    record {
      not_root = h.not_root;
      next = rw h.cluster h.next;
      follows = λ lt. rw h.next (h.chain.5.2, h.chain.5.3);
      inside = inside;
      sectors = omega (arith, fit.sectors);
      address = rw h.cluster (h.inside inside);
    }

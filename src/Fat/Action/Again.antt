-- ===== src/Fat/Action/Again.antt =====
-- A descriptor that `fat_seek` of lib/fat/fat.c puts on a byte of a chain reads from there.
use ccpu_libsys.Prelude.{ℕ, ◌<◌, ◌≡◌, ◌≢◌, sym, ap, ◌∙◌, List, [], ◌∷◌, ◌++◌, arith}
use ccpu_libsys.Fat.State.{FatInfo, FileDescriptor}
use ccpu_libsys.Fat.Table.Chains.{IsChain}
use ccpu_libsys.Fat.Seek.{bytes_per_cluster}
use ccpu_libsys.Fat.Seek.Moves.{in_cluster, SameFile}
use ccpu_libsys.Fat.Seek.Position.{IsAt}
use ccpu_libsys.Fat.Action.Content.{cluster_size, DataFits, IsReading}

pub bytes_per_cluster_lem : (f : FatInfo) → DataFits f → bytes_per_cluster f ≡ cluster_size f
bytes_per_cluster_lem f fit = omega (arith, fit.sectors)

-- The first cluster of a chain that another one begins with is 0 only if that cluster is.
pub IsChain-first :
    (f : FatInfo) (t : ℕ → ℕ) (c : ℕ) (pre : List ℕ) (k : ℕ) (post : List ℕ)
    → c ≢ 0
    → IsChain f t c (pre ++ (k ∷ post))
    → k ≢ 0
IsChain-first f t c [] k post ne h = λ z. ne (sym h.0 ∙ z)
IsChain-first f t c (x ∷ pre) k post ne h = IsChain-first f t (t c) pre k post h.3 h.5

-- The descriptor `p` is somewhere in the cluster `k`, and `q` is put there on its position.
pub IsAt-IsReading :
    (f : FatInfo) (t : ℕ → ℕ) (k : ℕ) (post : List ℕ) (p q r : FileDescriptor)
    → DataFits f
    → IsReading f t k post p
    → in_cluster p < cluster_size f
    → SameFile p r
    → IsAt f k (t k) (in_cluster p) p.abs_offset r q
    → IsReading f t k post q
IsAt-IsReading f t k post p q r fit h lt same u =
    let size : q.dir_entry.size ≡ p.dir_entry.size =
      ap (λ e. e.size) u.file.entry ∙ ap (λ e. e.size) same.entry in
    let len : q.last_cluster_len ≡ p.last_cluster_len =
      u.file.last_cluster_len ∙ same.last_cluster_len in
    let inside : q.block_in_cluster < f.sectors_per_cluster = omega (arith, u.block, lt) in
    record {
      not_root = u.file.is_root ∙ same.is_root ∙ h.not_root;
      cluster = u.cluster;
      next = u.next_cluster;
      chain = h.chain;
      index = u.index;
      inside = λ _. u.address;
      at_most = omega (arith, inside);
      full = λ e. absurd (omega (arith, e, inside));
      some_last = omega (arith, len, h.some_last);
      last = omega (arith, len, h.last);
      position = omega (arith, len, size, u.abs_offset, u.block, h.position);
      before_end = omega (arith, size, u.abs_offset, h.before_end);
      size = omega (arith, size, h.size);
    }

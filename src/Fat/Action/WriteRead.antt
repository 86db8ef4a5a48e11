-- ===== src/Fat/Action/WriteRead.antt =====
-- `fat_write`, `fat_seek` and `fat_read` of lib/fat/fat.c, one after another.
use ccpu_libsys.Prelude.{
  ℕ, inl, ◌+◌, ◌*◌, ◌<◌, ◌≤◌, ◌≡◌, ◌≢◌, sym, ap, ◌∙◌, Bool, true, Option, false, some, List, ◌∷◌,
  ◌++◌, arith, length,
}
use mathlib.Core.Path.{subst}
use ccpu_libsys.Fat.Card.{Block, CardOps, CardLaws, CardWorks, Disk}
use ccpu_libsys.Fat.State.{Sys, FatInfo, FileDescriptor}
use ccpu_libsys.Fat.Cache.Laws.{Stands}
use ccpu_libsys.Fat.Table.Entries.{IsLaidOut, HasEntry, fat_entry}
use ccpu_libsys.Fat.Table.Chains.{IsChain, IsChain-frame}
use ccpu_libsys.Fat.Seek.{bytes_per_cluster, fat_seek}
use ccpu_libsys.Fat.Seek.Moves.{in_cluster, SameFile}
use ccpu_libsys.Fat.Seek.Position.{IsAt, fat_seek_lem}
use ccpu_libsys.Fat.Action.{fat_read, fat_write}
use ccpu_libsys.Fat.Action.Content.{cluster_size, chain_byte, DataFits, IsReading, left}
use ccpu_libsys.Fat.Action.Writes.{IsBehind, Stored-table, IsReading-frame, in_file}
use ccpu_libsys.Fat.Action.Write.{fat_write_lem}
use ccpu_libsys.Fat.Action.Read.{fat_read_lem}
use ccpu_libsys.Fat.Action.Reads.{SameFile-trans}
use ccpu_libsys.Fat.Action.Again.{bytes_per_cluster_lem, IsChain-first, IsAt-IsReading}

-- An open descriptor on a byte of its file that is in the cluster `k` and, unless that is the file's
-- first cluster, not the cluster's first byte.
pub record IsOpenAt (f : FatInfo) (t : ℕ → ℕ) (pre : List ℕ) (k : ℕ) (post : List ℕ)
    (p : FileDescriptor) : Type 0 where
  pub taken : p.is_free ≡ false
  pub fresh : p.is_stale ≡ false
  pub some_cluster : p.dir_entry.cluster_lo ≢ 0
  pub chain : IsChain f t p.dir_entry.cluster_lo (pre ++ (k ∷ post))
  pub reading : IsReading f t k post p
  pub inside : in_cluster p < cluster_size f
  pub not_first : 0 < length pre → 0 < in_cluster p
  pub offset : p.abs_offset ≡ cluster_size f * length pre + in_cluster p

IsOpenAt-frame :
    (f : FatInfo) (t u : ℕ → ℕ) (pre : List ℕ) (k : ℕ) (post : List ℕ) (p : FileDescriptor)
    → IsOpenAt f t pre k post p
    → ((j : ℕ) → HasEntry f j → u j ≡ t j)
    → IsOpenAt f u pre k post p
IsOpenAt-frame f t u pre k post p h same = record {
  taken = h.taken;
  fresh = h.fresh;
  some_cluster = h.some_cluster;
  chain = IsChain-frame f t u p.dir_entry.cluster_lo (pre ++ (k ∷ post)) h.chain (λ j _. same j);
  reading = IsReading-frame f t u k post p h.reading same;
  inside = h.inside;
  not_first = h.not_first;
  offset = h.offset;
}

module _ {Card : Type 0} {ops : CardOps Card} (laws : CardLaws ops) (works : CardWorks ops) where
  -- The descriptor stands where `p` does, on the same file.
  abbrev SoughtBack :
      FatInfo → Disk → ℕ → List ℕ → ℕ → FileDescriptor → Option (Bool × Sys Card) → Type 0
  SoughtBack f d k post fd p r =
      (s' : Sys Card) × (r ≡ some (true, s'))
      × Stands laws f d s'
      × SameFile p (s'.file_desc fd)
      × IsReading f (fat_entry f.fat0_offset d) k post (s'.file_desc fd)
      × (in_cluster (s'.file_desc fd) ≡ in_cluster p)
      × ((s'.file_desc fd).abs_offset ≡ p.abs_offset)

  seek_back :
      (f : FatInfo) (d : Disk) (pre : List ℕ) (k : ℕ) (post : List ℕ) (fuel fd : ℕ)
      (p : FileDescriptor) (s : Sys Card)
      → IsLaidOut f
      → DataFits f
      → Stands laws f d s
      → IsOpenAt f (fat_entry f.fat0_offset d) pre k post p
      → SameFile p (s.file_desc fd)
      → length pre < fuel
      → SoughtBack f d k post fd p (fat_seek ops fuel fd p.abs_offset s)
  seek_back f d pre k post fuel fd p s g fit st h same enough =
      let t = fat_entry f.fat0_offset d in
      let at = in_cluster p in
      let p1 = s.file_desc fd in
      let lo : p1.dir_entry.cluster_lo ≡ p.dir_entry.cluster_lo =
        ap (λ e. e.cluster_lo) same.entry in
      let chain1 : IsChain f t p1.dir_entry.cluster_lo (pre ++ (k ∷ post)) =
        subst (λ c. IsChain f t c (pre ++ (k ∷ post))) (sym lo) h.chain in
      let bytes = bytes_per_cluster_lem f fit in
      let offset : bytes_per_cluster f * length pre + at ≡ p.abs_offset =
        ap (λ b. b * length pre + at) bytes ∙ sym h.offset in
      let size : p1.dir_entry.size ≡ p.dir_entry.size = ap (λ e. e.size) same.entry in
      let (s2, sought, st2, placed, _) =
        fat_seek_lem laws works f pre k post fuel fd at d s g st (same.is_free ∙ h.taken)
          (same.is_stale ∙ h.fresh) (λ z. h.some_cluster (sym lo ∙ z)) chain1 h.not_first
          (inl (omega (arith, bytes, h.inside))) (omega (arith, offset, size, h.reading.before_end))
          enough in
      let q = s2.file_desc fd in
      let placed2 : IsAt f k (t k) at p.abs_offset p1 q =
        subst (λ o. IsAt f k (t k) at o p1 q) offset placed in
      (
        s2,
        ap (λ o. fat_seek ops fuel fd o s) (sym offset) ∙ sought,
        st2,
        SameFile-trans p p1 q same placed2.file,
        IsAt-IsReading f t k post p q p1 fit h.reading h.inside same placed2,
        placed2.block,
        placed2.abs_offset,
      )

  -- A write of `n` bytes of `buf`, a seek back to where it began and a read of `n` bytes into `dst`.
  abbrev pub ReadsBack : ℕ → ℕ → ℕ → Block → Block → Sys Card → Type 0
  ReadsBack fuel fd n buf dst s =
      (s1 : Sys Card) × (s2 : Sys Card) × (s3 : Sys Card) × (dst' : Block) × (fat_write ops fd n buf
          s
        ≡ some (n, buf, s1))
      × (fat_seek ops fuel fd (s.file_desc fd).abs_offset s1 ≡ some (true, s2))
      × (fat_read ops fd n dst s2 ≡ some (n, dst', s3))
      × ((j : ℕ) → j < n → dst' j ≡ buf j)
      × ((s3.file_desc fd).abs_offset ≡ (s1.file_desc fd).abs_offset)

  -- On a card where no transfer fails, with a coherent cache, the tables laid out, the data area
  -- behind them and below the address 0xffffffff, for an open descriptor on a byte of its file that
  -- is not the first of a later cluster, and `n` < 65536 bytes, no more than there are up to the
  -- end of the file: after `fat_write` of `n` bytes and `fat_seek` to where the write began,
  -- `fat_read` of `n` bytes gives the bytes written, and the position is the one after the write.
  -- All three succeed in full. Fuel of more than the clusters of `pre`, those in front of the
  -- current one, is enough for `fat_seek`.
  pub fat_read-fat_write :
      (f : FatInfo) (d : Disk) (pre : List ℕ) (k : ℕ) (post : List ℕ) (fuel fd n : ℕ)
      (buf dst : Block) (s : Sys Card)
      → IsLaidOut f
      → DataFits f
      → IsBehind f
      → Stands laws f d s
      → IsOpenAt f (fat_entry f.fat0_offset d) pre k post (s.file_desc fd)
      → n ≤ left (s.file_desc fd)
      → n < 65536
      → length pre < fuel
      → ReadsBack fuel fd n buf dst s
  fat_read-fat_write f d pre k post fuel fd n buf dst s g fit behind st h le lt enough =
      let p = s.file_desc fd in
      let t = fat_entry f.fat0_offset d in
      let used = IsChain-first f t p.dir_entry.cluster_lo pre k post h.some_cluster h.chain in
      let (d1, s1, wrote, w) =
        fat_write_lem laws works f d k post fd n buf s g fit behind st h.taken h.fresh h.reading
          used le lt in
      let h1 : IsOpenAt f (fat_entry f.fat0_offset d1) pre k post p =
        IsOpenAt-frame f t (fat_entry f.fat0_offset d1) pre k post p h λ j.
          Stored-table f d d1 (k ∷ post) (in_cluster p) n 0 j buf fit g behind
            (omega (arith, in_file f t k post p h.reading, le)) w.stored in
      let (s2, sought, st2, same, reading, at, abs) =
        seek_back f d1 pre k post fuel fd p s1 g fit w.stands h1 w.file enough in
      let (m, all, dst', s3, read, r, _) =
        fat_read_lem laws works f d1 k post fd n dst s2 g fit st2 (same.is_free ∙ h.taken)
          (same.is_stale ∙ h.fresh) reading lt in
      let size : (s2.file_desc fd).dir_entry.size ≡ p.dir_entry.size =
        ap (λ e. e.size) same.entry in
      let whole : m ≡ n = ground (arith, all, size, abs, le) in
      (
        s1,
        s2,
        s3,
        dst',
        wrote ∙ ap (λ m. some (m, buf, s1)) (omega arith),
        sought,
        read ∙ ap (λ m. some (m, dst', s3)) (omega (arith, whole)),
        λ j lt.
            ap dst' (omega arith)
            ∙ r.bytes j (omega (arith, whole, lt))
            ∙ ap (λ i. chain_byte f d1 (k ∷ post) (i + j)) at
            ∙ w.stored.bytes j lt
            ∙ ap buf (omega arith),
        omega (arith, r.position, whole, abs, w.position),
      )

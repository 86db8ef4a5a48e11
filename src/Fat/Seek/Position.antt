-- ===== src/Fat/Seek/Position.antt =====
-- What `seek_begin`, `fat_seek` and `fat_seek_end` of lib/fat/fat.c do to a descriptor.
use ccpu_libsys.Prelude.{
  ℕ, ◌+◌, ◌*◌, ◌<◌, ◌≤◌, ◌≡◌, ◌≢◌, ◌⊎◌, refl, sym, ap, ◌∙◌, Bool, true, false, Option, some, List,
  [], ◌∷◌, ◌++◌, arith, length, ltb,
}
use mathlib.Core.Path.{subst}
use ccpu_libsys.Fat.Bytes.{u32}
use ccpu_libsys.Fat.Card.{Disk, CardOps, CardLaws, CardWorks}
use ccpu_libsys.Fat.State.{Sys, FatInfo, FileDescriptor, put_desc, cluster_block}
use ccpu_libsys.Fat.Cache.Laws.{Stands}
use ccpu_libsys.Fat.Desc.Put.{put_desc_self, put_desc_ne, Stands-set_desc}
use ccpu_libsys.Fat.Desc.{set_desc, get_desc}
use ccpu_libsys.Fat.Table.{read_fat_entry}
use ccpu_libsys.Fat.Table.Entries.{IsLaidOut, HasEntry, fat_entry}
use ccpu_libsys.Fat.Table.Chains.{IsChain}
use ccpu_libsys.Fat.Table.Free.{read_fat_entry_lem}
use ccpu_libsys.Fat.Seek.{
  Walk, bytes_per_cluster, place_in_cluster, finish_seek, read_next, seek_begin, fat_seek,
  fat_seek_end,
}
use ccpu_libsys.Fat.Seek.Moves.{SameFile, SameFile-reposition}
use ccpu_libsys.Fat.Seek.Chain.{chain_head, walk_to_offset_lem, walk_to_end_lem}

-- A descriptor at a byte of the cluster `k` behind which `next` stands in the table: `at` is
-- counted from the start of the cluster, `abs` from the start of the file. The end of the cluster
-- is a position in it.
pub record IsAt (f : FatInfo) (k next at abs : ℕ) (p q : FileDescriptor) : Type 0 where
  pub cluster : q.cur_cluster ≡ k
  pub next_cluster : q.next_cluster ≡ next
  pub abs_offset : q.abs_offset ≡ abs
  pub index : q.index_in_block < 512
  pub block : 512 * q.block_in_cluster + q.index_in_block ≡ at
  pub address : q.block_addr ≡ u32 (cluster_block f k + q.block_in_cluster)
  pub file : SameFile p q

-- `b` is the descriptor before the position is set, `p` an earlier one on the same file.
place_in_cluster-IsAt :
    (f : FatInfo) (w : Walk) (abs : ℕ) (p b : FileDescriptor)
    → SameFile p b
    → w.offset < 65536
    → IsAt f w.cur_cluster w.next_cluster w.offset abs p (place_in_cluster f w abs b)
unfolding place_in_cluster
place_in_cluster-IsAt f w abs p b same lt = record {
  cluster = refl;
  next_cluster = refl;
  abs_offset = refl;
  index = omega arith;
  block = omega arith;
  address = refl;
  file = record {
    is_free = same.is_free;
    is_stale = same.is_stale;
    is_root = same.is_root;
    last_cluster_len = same.last_cluster_len;
    entry = same.entry;
    modified = same.modified;
  };
}

-- The descriptor after `seek_begin`.
abbrev begun : FatInfo → ℕ → FileDescriptor → FileDescriptor
begun f next p = record p {
  block_addr = cluster_block f p.dir_entry.cluster_lo;
  block_in_cluster = 0;
  index_in_block = 0;
  cur_cluster = p.dir_entry.cluster_lo;
  next_cluster = next;
  abs_offset = 0;
}

begun-SameFile : (f : FatInfo) (next : ℕ) (p : FileDescriptor) → SameFile p (begun f next p)
begun-SameFile f next p =
    SameFile-reposition p (cluster_block f p.dir_entry.cluster_lo) 0 0 next p.dir_entry.cluster_lo 0

module _ {Card : Type 0} {ops : CardOps Card} (laws : CardLaws ops) (works : CardWorks ops) where
  seek_begin_lem :
      (f : FatInfo) (d : Disk) (fd : ℕ) (s : Sys Card)
      → let c = (s.file_desc fd).dir_entry.cluster_lo in
        let next = fat_entry f.fat0_offset d c in
        IsLaidOut f
        → Stands laws f d s
        → HasEntry f c
        → c ≢ 0
        → next ≢ 0
        → (s' : Sys Card) × (seek_begin ops fd s ≡ (true, s'))
          × Stands laws f d s'
          × (s'.file_desc ≡ put_desc s.file_desc fd (begun f next (s.file_desc fd)))
  unfolding seek_begin read_next set_desc
  seek_begin_lem f d fd s g st e nz ne =
      let c = (s.file_desc fd).dir_entry.cluster_lo in
      let (e1, st1, same1) = read_fat_entry_lem laws works f d c s g e st in
      let next = fat_entry f.fat0_offset d c in
      let s1 = (read_fat_entry ops c s).1 in
      let s' = set_desc fd (begun f next (s.file_desc fd)) s1 in
      (
        s',
        ground (arith, e1, st.info),
        Stands-set_desc laws f d fd (begun f next (s.file_desc fd)) s1 st1,
        ap (λ t. put_desc t fd (begun f next (s.file_desc fd))) same1.desc,
      )

  -- The result of a seek that succeeds: the descriptor at a place, and the card as before.
  abbrev pub Placed :
      FatInfo → Disk → ℕ → (FileDescriptor → Type 0) → Sys Card → Option (Bool × Sys Card) → Type 0
  Placed f d fd is_placed s r =
      (s' : Sys Card) × (r ≡ some (true, s'))
      × Stands laws f d s'
      × is_placed (s'.file_desc fd)
      × ((i : ℕ) → i ≢ fd → s'.file_desc i ≡ s.file_desc i)

  -- Where the loop stops: so many whole clusters from the start, and `at` bytes into the next. The
  -- border of two clusters is taken for the end of the first.
  seek_in_chain :
      (f : FatInfo) (pre : List ℕ) (k : ℕ) (post : List ℕ) (fuel fd at : ℕ) (d : Disk)
      (s : Sys Card)
      → let p = s.file_desc fd in
        let t = fat_entry f.fat0_offset d in
        let offset = bytes_per_cluster f * length pre + at in
        IsLaidOut f
        → Stands laws f d s
        → p.is_free ≡ false
        → p.is_stale ≡ false
        → p.dir_entry.cluster_lo ≢ 0
        → IsChain f t p.dir_entry.cluster_lo (pre ++ (k ∷ post))
        → (0 < length pre → 0 < at)
        → at ≤ bytes_per_cluster f
        → offset ≤ p.dir_entry.size
        → length pre < fuel
        → Placed f d fd (IsAt f k (t k) at offset p) s (fat_seek ops fuel fd offset s)
  unfolding fat_seek get_desc finish_seek set_desc
  seek_in_chain f pre k post fuel fd at d s g st taken fresh nz h pos le size lt =
      let p = s.file_desc fd in
      let t = fat_entry f.fat0_offset d in
      let (lo, en, ne) = chain_head f t p.dir_entry.cluster_lo pre k post h in
      let (s1, begin, st1, e1) = seek_begin_lem f d fd s g st en nz ne in
      let (s2, walk, st2, same2) =
        walk_to_offset_lem laws works f pre k post (bytes_per_cluster f) fuel p.dir_entry.cluster_lo
          at d s1 g st1 h pos le lt in
      let w : Walk = record { cur_cluster = k; next_cluster = t k; offset = at } in
      let offset = bytes_per_cluster f * length pre + at in
      let b = begun f (t p.dir_entry.cluster_lo) p in
      let q = place_in_cluster f w offset b in
      let got : get_desc fd s ≡ (true, s) = ground (arith, taken, fresh) in
      let over : ltb p.dir_entry.size offset ≡ false = ground (arith, size) in
      let at1 : s1.file_desc fd ≡ b = ap (λ u. u fd) e1 ∙ put_desc_self s.file_desc fd b in
      let at2 : s2.file_desc fd ≡ b = ap (λ u. u fd) same2.desc ∙ at1 in
      (
        set_desc fd q s2,
        ground (arith, got, over, begin, at1, at2, st1.info, st2.info, walk),
        Stands-set_desc laws f d fd q s2 st2,
        subst (IsAt f k (t k) at offset p) (sym (put_desc_self s2.file_desc fd q)) (
            place_in_cluster-IsAt f w offset p b (begun-SameFile f (t p.dir_entry.cluster_lo) p)
              (omega arith)),
        λ i ne.
            put_desc_ne s2.file_desc fd i q ne
            ∙ ap (λ u. u i) (same2.desc ∙ e1)
            ∙ put_desc_ne s.file_desc fd i b ne,
      )

  -- On a card where no transfer fails, with a coherent cache and the tables laid out, for an open
  -- descriptor of a file whose chain has the cluster `k` behind the clusters `pre`, and a position
  -- up to the file's size that is so many whole clusters, and `at` more: if the position is the start
  -- or the end of the file or none of the borders of its clusters, `fat_seek` returns true and puts the
  -- descriptor on that byte of `k`, with the address of the block that the byte is in; the end of the
  -- file may be the end of `k`. Fuel of more than the clusters of `pre` is enough. The card and the
  -- other descriptors stay as they are.
  pub fat_seek_lem :
      (f : FatInfo) (pre : List ℕ) (k : ℕ) (post : List ℕ) (fuel fd at : ℕ) (d : Disk)
      (s : Sys Card)
      → let p = s.file_desc fd in
        let t = fat_entry f.fat0_offset d in
        let offset = bytes_per_cluster f * length pre + at in
        IsLaidOut f
        → Stands laws f d s
        → p.is_free ≡ false
        → p.is_stale ≡ false
        → p.dir_entry.cluster_lo ≢ 0
        → IsChain f t p.dir_entry.cluster_lo (pre ++ (k ∷ post))
        → (0 < length pre → 0 < at)
        → (at < bytes_per_cluster f) ⊎ ((at ≡ bytes_per_cluster f) × (offset ≡ p.dir_entry.size))
        → offset ≤ p.dir_entry.size
        → length pre < fuel
        → Placed f d fd (IsAt f k (t k) at offset p) s (fat_seek ops fuel fd offset s)
  fat_seek_lem f pre k post fuel fd at d s g st taken fresh nz h pos inside size lt =
      seek_in_chain f pre k post fuel fd at d s g st taken fresh nz h pos (ground (arith, inside))
        size lt

  -- On a card where no transfer fails, with a coherent cache and the tables laid out, for an open
  -- descriptor of a file whose chain has the clusters `front`, then the current one and the others of
  -- `pre`, and `k` as the last, and whose size is that of all but the last and `last_cluster_len`
  -- bytes, at least one and no more than a cluster: `fat_seek_end` returns true and puts the
  -- descriptor behind the last byte of the file, `last_cluster_len` bytes into `k`, with the file's
  -- size as its position; the size itself stays as it is. Fuel of more than the clusters of `pre` is
  -- enough. The card and the other descriptors stay as they are.
  pub fat_seek_end_lem :
      (f : FatInfo) (front pre : List ℕ) (k fuel fd : ℕ) (d : Disk) (s : Sys Card)
      → let p = s.file_desc fd in
        let t = fat_entry f.fat0_offset d in
        IsLaidOut f
        → Stands laws f d s
        → p.is_free ≡ false
        → p.is_stale ≡ false
        → p.next_cluster ≡ t p.cur_cluster
        → IsChain f t p.dir_entry.cluster_lo (front ++ (pre ++ (k ∷ [])))
        → IsChain f t p.cur_cluster (pre ++ (k ∷ []))
        → 0 < p.last_cluster_len
        → p.last_cluster_len ≤ bytes_per_cluster f
        → p.dir_entry.size ≡ bytes_per_cluster f * (length front + length pre) + p.last_cluster_len
        → length pre < fuel
        → Placed f d fd
            (IsAt f k (t k) p.last_cluster_len p.dir_entry.size p)
            s
            (fat_seek_end ops fuel fd s)
  unfolding fat_seek_end get_desc finish_seek set_desc
  fat_seek_end_lem f front pre k fuel fd d s g st taken fresh next whole h some_last last size lt =
      let p = s.file_desc fd in
      let t = fat_entry f.fat0_offset d in
      let (s2, walk, st2, same2) =
        walk_to_end_lem laws works f pre k fuel p.cur_cluster p.last_cluster_len d s g st h lt in
      let w : Walk = record { cur_cluster = k; next_cluster = t k; offset = p.last_cluster_len } in
      let q = place_in_cluster f w p.dir_entry.size p in
      let got : get_desc fd s ≡ (true, s) = ground (arith, taken, fresh) in
      let at2 : s2.file_desc fd ≡ p = ap (λ u. u fd) same2.desc in
      (
        set_desc fd q s2,
        ground (arith, got, at2, next, st2.info, walk),
        Stands-set_desc laws f d fd q s2 st2,
        subst (IsAt f k (t k) p.last_cluster_len p.dir_entry.size p)
            (sym (put_desc_self s2.file_desc fd q))
            (place_in_cluster-IsAt f w p.dir_entry.size p p
              (SameFile-reposition p p.block_addr p.block_in_cluster p.index_in_block p.next_cluster
                p.cur_cluster p.abs_offset)
              (omega (arith, last))),
        λ i ne. put_desc_ne s2.file_desc fd i q ne ∙ ap (λ u. u i) same2.desc,
      )

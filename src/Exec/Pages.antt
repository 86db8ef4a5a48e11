-- ===== src/Exec/Pages.antt =====
-- The loop of lib/fat/exec.c that loads the RAM below 0x8000.
use ccpu_libsys.Prelude.{
  ℕ, zero, suc, ◌+◌, ◌-◌, ◌*◌, ◌/◌, ◌<◌, ◌≤◌, ◌≡◌, ◌≢◌, refl, sym, ap, ◌∙◌, ◌⊎◌, inl, inr, Bool,
  true, false, not, ◌&&◌, Option, some, List, ◌∷◌, arith, ◌==◌, ◌||◌, ltb, Bool-cases,
}
use ccpu_libsys.Fat.Card.{Block, Disk, CardOps, CardLaws, CardWorks}
use ccpu_libsys.Fat.Error
use ccpu_libsys.Fat.State.{Sys, FatInfo, FileDescriptor}
use ccpu_libsys.Fat.Cache.Laws.{Stands}
use ccpu_libsys.Fat.Table.Entries.{IsLaidOut, fat_entry}
use ccpu_libsys.Fat.Seek.Moves.{in_cluster, SameFile}
use ccpu_libsys.Fat.Action.{copy, fat_read}
use ccpu_libsys.Fat.Action.Content.{chain_byte, DataFits, left, smaller}
use ccpu_libsys.Fat.Action.Places.{NextPlace, NextPlace-trans}
use ccpu_libsys.Fat.Action.Reads.{SameFile-trans}
use ccpu_libsys.Fat.Action.Read.{fat_read_lem}
use ccpu_libsys.Progressbar.{Memory}
use ccpu_libsys.Progressbar.Over.{IsDrawn, progress-IsDrawn}
use ccpu_libsys.Exec.{Machine, ◌>>=◌, copy_to_loram, show_progress, read_page, keep_page, load_lo}

-- A page is copied behind those that are there.
copied :
    (dst_hi pos n x : ℕ) (ram buf : Block)
    → pos ≡ 256 * dst_hi
    → n ≤ 256
    → x < pos + n
    → ((x < pos) × (copy 256 ram (dst_hi * 256) buf 0 x ≡ ram x))
      ⊎ ((j : ℕ) × (j < n) × (x ≡ pos + j) × (copy 256 ram (dst_hi * 256) buf 0 x ≡ buf (0 + j)))
unfolding copy
copied dst_hi pos n x ram buf e le lt = elim (Bool-cases (ltb x pos)) [
  | inl early ↦ inl (ground (arith, early), ground (arith, early, e))
  | inr late ↦
      let (j, same) : (j : ℕ) × (x ≡ pos + j) = (x - pos, ground (arith, late)) in
      let index : 0 + (x - dst_hi * 256) ≡ 0 + j = omega (arith, same, e) in
      inr (j, omega (arith, same, lt), same, ground (arith, e, same, le, lt, ap buf index))
]

module _ {Card : Type 0} {ops : CardOps Card} (laws : CardLaws ops) (works : CardWorks ops) where
  -- The first `pos` bytes of the file, of those from `p` on, are in the RAM below 0x8000, in `pages`
  -- pages; `size` bytes are left.
  pub record IsLoaded (f : FatInfo) (d : Disk) (k : ℕ) (post : List ℕ) (fd pos size pages : ℕ)
      (mem : Memory) (p : FileDescriptor) (m : Machine Card) : Type 0 where
    pub stands : Stands laws f d m.sys
    pub file : SameFile p (m.sys.file_desc fd)
    pub position : (m.sys.file_desc fd).abs_offset ≡ pos
    pub place : NextPlace f (fat_entry f.fat0_offset d) k post pos p (m.sys.file_desc fd)
    pub total : pos + size ≡ p.dir_entry.size
    pub most : pos ≤ 256 * pages
    pub full : size ≢ 0 → pos ≡ 256 * pages
    pub bytes : (j : ℕ) → j < pos → m.lo_ram j ≡ chain_byte f d (k ∷ post) (in_cluster p + j)
    pub drawn : IsDrawn (p.dir_entry.size / 256) pages mem m.bar

  -- The rest of a file that is being read.
  pub read_on :
      (f : FatInfo) (d : Disk) (k : ℕ) (post : List ℕ) (fd pos size pages n : ℕ) (mem : Memory)
      (p : FileDescriptor) (buf : Block) (m : Machine Card)
      → IsLaidOut f
      → DataFits f
      → p.is_free ≡ false
      → p.is_stale ≡ false
      → IsLoaded f d k post fd pos size pages mem p m
      → n < 65536
      → (r : ℕ) × (buf' : Block) × (s : Sys Card) × (fat_read ops fd n buf m.sys
          ≡ some (r, buf', s))
        × (r ≡ smaller n size)
        × ((j : ℕ) → j < r → buf' (0 + j) ≡ chain_byte f d (k ∷ post) (in_cluster p + (pos + j)))
        × Stands laws f d s
        × SameFile p (s.file_desc fd)
        × ((s.file_desc fd).abs_offset ≡ pos + r)
        × NextPlace f (fat_entry f.fat0_offset d) k post (pos + r) p (s.file_desc fd)
        × (r < n → s.last_error ≡ Error.eof)
  read_on f d k post fd pos size pages n mem p buf m g fit taken fresh h lt =
      let q = m.sys.file_desc fd in
      let t = fat_entry f.fat0_offset d in
      let (k', post', reading, used, same) = h.place in
      let (r, all, buf', s, run, read, eof) =
        fat_read_lem laws works f d k' post' fd n buf m.sys g fit h.stands (h.file.is_free ∙ taken)
          (h.file.is_stale ∙ fresh) reading lt in
      let size_q : q.dir_entry.size ≡ p.dir_entry.size = ap (λ e. e.size) h.file.entry in
      let rest : left q ≡ size = omega (arith, size_q, h.total, h.position) in
      (
        r,
        buf',
        s,
        run ∙ ap (λ r. some (r, buf', s)) (omega arith),
        all ∙ ap (smaller n) rest,
        λ j lt.
            read.bytes j lt
            ∙ ap (λ a. d a.0 a.1) (same j)
            ∙ ap (chain_byte f d (k ∷ post)) (omega arith),
        read.stands,
        SameFile-trans p q (s.file_desc fd) h.file read.file,
        omega (arith, read.position, h.position),
        NextPlace-trans f t k k' pos r post post' p q (s.file_desc fd) used same read.place,
        eof,
      )

  -- A run that goes on with the loop after one page.
  abbrev LoadsPage :
      FatInfo
      → Disk
      → ℕ
      → List ℕ
      → ℕ
      → ℕ
      → ℕ
      → ℕ
      → Memory
      → FileDescriptor
      → (ℕ → Machine Card → Option (Bool × ℕ × Machine Card))
      → Option (Bool × ℕ × Machine Card)
      → Type 0
  LoadsPage f d k post fd pos size pages mem p next run =
      (n : ℕ) × (m : Machine Card) × (0 < n)
      × (n ≤ size)
      × (run ≡ next (size - n) m)
      × IsLoaded f d k post fd (pos + n) (size - n) (pages + 1) mem p m

  load_page :
      (f : FatInfo) (d : Disk) (k : ℕ) (post : List ℕ) (fd pos size pages : ℕ) (mem : Memory)
      (p : FileDescriptor) (next : ℕ → Machine Card → Option (Bool × ℕ × Machine Card))
      (m : Machine Card)
      → IsLaidOut f
      → DataFits f
      → p.is_free ≡ false
      → p.is_stale ≡ false
      → IsLoaded f d k post fd pos size pages mem p m
      → 0 < size
      → 256 ≤ p.dir_entry.size
      → p.dir_entry.size < 65536
      → LoadsPage f d k post fd pos size pages mem p next
          (read_page ops fd m >>= keep_page size pages next)
  unfolding read_page keep_page show_progress copy_to_loram
  load_page f d k post fd pos size pages mem p next m g fit taken fresh h some_left enough small =
      let total = p.dir_entry.size in
      let (n, buf, s, run, all, bytes, st, file, position, place, eof) =
        read_on f d k post fd pos size pages 256 mem p m.loload_buf m g fit taken fresh h
          (omega arith) in
      let at : pos ≡ 256 * pages = h.full (omega (arith, some_left)) in
      let le : n ≤ 256 = ground (arith, all) in
      let le_size : n ≤ size = ground (arith, all) in
      let good : (not (n == 256) && not (s.last_error == Error.eof)) ≡ false =
        ground (arith, le, eof) in
      let (bar, shown, drawn) =
        progress-IsDrawn 1 (total / 256) pages mem m.bar h.drawn (omega (arith, enough))
          (omega (arith, at, h.total)) (omega (arith, small)) in
      let m1 = record m {
        sys = s;
        loload_buf = buf;
        lo_ram = copy 256 m.lo_ram (pages * 256) buf 0;
        bar = bar;
      } in
      (
        n,
        m1,
        ground (arith, all, some_left),
        le_size,
        rw (run, good, shown) (ap (λ r. next r m1) (omega (arith, le_size, h.total, small))),
        record {
          stands = st;
          file = file;
          position = position;
          place = place;
          total = omega (arith, h.total, le_size);
          most = omega (arith, at, le);
          full = λ ne. ground (arith, all, at, ne);
          bytes = λ j lt. elim (copied pages pos n j m.lo_ram buf at le lt) [
            | inl (early, same) ↦ same ∙ h.bytes j early
            | inr (i, lt2, e, same) ↦
                same ∙ bytes i lt2 ∙ ap (λ j. chain_byte f d (k ∷ post) (in_cluster p + j)) (sym e)
          ];
          drawn = drawn;
        },
      )

  -- The loop ends with nothing left, or with all of the 128 pages loaded.
  abbrev pub LoadsLo :
      FatInfo
      → Disk
      → ℕ
      → List ℕ
      → ℕ
      → Memory
      → FileDescriptor
      → Option (Bool × ℕ × Machine Card)
      → Type 0
  LoadsLo f d k post fd mem p run =
      (pos : ℕ) × (size : ℕ) × (pages : ℕ) × (m : Machine Card) × (run ≡ some (true, size, m))
      × IsLoaded f d k post fd pos size pages mem p m
      × ((size ≡ 0) ⊎ (pages ≡ 128))
      × (pages ≤ 128)

  pub load_lo_lem :
      (f : FatInfo) (d : Disk) (k : ℕ) (post : List ℕ) (fuel fd pos size pages : ℕ) (mem : Memory)
      (p : FileDescriptor) (m : Machine Card)
      → IsLaidOut f
      → DataFits f
      → p.is_free ≡ false
      → p.is_stale ≡ false
      → IsLoaded f d k post fd pos size pages mem p m
      → 256 ≤ p.dir_entry.size
      → p.dir_entry.size < 65536
      → 128 < fuel + pages
      → pages ≤ 128
      → LoadsLo f d k post fd mem p (load_lo ops fuel fd size pages m)
  unfolding load_lo
  load_lo_lem f d k post zero fd pos size pages mem p m g fit taken fresh h enough small lt le =
      absurd (omega (arith, lt, le))
  load_lo_lem f d k post (suc fuel) fd pos size pages mem p m g fit taken fresh h enough small lt
        le =
      elim (Bool-cases (size == 0 || pages == 0x80)) [
        | inl done ↦ (pos, size, pages, m, rw done refl, h, ground (arith, done), le)
        | inr more ↦
            let next : ℕ → Machine Card → Option (Bool × ℕ × Machine Card) =
              λ size m. load_lo ops fuel fd size (pages + 1) m in
            let (n, m1, pos_n, le_n, run, h1) =
              load_page f d k post fd pos size pages mem p next m g fit taken fresh h
                (ground (arith, more)) enough small in
            let (pos', size', pages', m', run', h', end, few) =
              load_lo_lem f d k post fuel fd (pos + n) (size - n) (pages + 1) mem p m1 g fit taken
                fresh h1 enough small (omega (arith, lt)) (ground (arith, more, le)) in
            (pos', size', pages', m', rw more (run ∙ run'), h', end, few)
      ]

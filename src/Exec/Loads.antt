-- ===== src/Exec/Loads.antt =====
-- `fat_exec_fd` of lib/fat/exec.c on a program file.
use ccpu_libsys.Prelude.{
  ℕ, ◌+◌, ◌-◌, ◌/◌, ◌<◌, ◌≤◌, ◌≡◌, refl, ap, ◌∙◌, inl, inr, true, false, not, Option, some, List,
  ◌∷◌, arith, ◌==◌, ltb, Bool-cases, ◌⊎◌, if◌then◌else◌,
}
use mathlib.Core.Path.{subst}
use ccpu_libsys.Fat.Bytes.{u16}
use ccpu_libsys.Fat.Card.{Disk, CardOps, CardLaws, CardWorks}
use ccpu_libsys.Fat.State.{Sys, FatInfo, FileDescriptor}
use ccpu_libsys.Fat.Cache.Laws.{Stands}
use ccpu_libsys.Fat.Desc.{fat_get_dir_entry, set_desc, close_desc, fat_close, set_error, write_back}
use ccpu_libsys.Fat.Error
use ccpu_libsys.Fat.Desc.Put.{put_desc_self}
use ccpu_libsys.Fat.Table.Entries.{IsLaidOut, fat_entry}
use ccpu_libsys.Fat.Seek.Moves.{in_cluster}
use ccpu_libsys.Fat.Action.Content.{chain_byte, DataFits, IsReading}
use ccpu_libsys.Fat.Action.Places.{NextPlace-refl}
use ccpu_libsys.Fat.Action.Reads.{SameFile-refl}
use ccpu_libsys.Fat.Action.Loop.{get_desc-open}
use ccpu_libsys.Progressbar.{Memory, Bar, last_row, progressbar_init}
use ccpu_libsys.Progressbar.Over.{IsDrawn, init-IsDrawn, progress-IsDrawn}
use ccpu_libsys.Exec.{
  Outcome, started, Machine, is_app, extension, buffer_at, with_buffer, show_progress, keep_rest,
  load_hi, finish_load, load_rest, load_program, check_program, fat_exec_fd,
}
use ccpu_libsys.Exec.Pages.{IsLoaded, read_on, load_lo_lem}

-- `mem` with other bytes from 0x8000 on shows the same bar.
IsDrawn-memory :
    (m k : ℕ) (mem mem' : Memory) (b : Bar)
    → IsDrawn m k mem b
    → IsDrawn m k mem' (record b { memory = mem' })
IsDrawn-memory m k mem mem' b h = record {
  cells = h.cells;
  draws = record {
    steps = h.draws.steps;
    reached = h.draws.reached;
    drawn = h.draws.drawn;
    size = h.draws.size;
    front = λ x lt. refl;
  };
  low = h.low;
  high = h.high;
}

pub get_dir_entry-open :
    {Card : Type 0} (fd : ℕ) (s : Sys Card)
    → (s.file_desc fd).is_free ≡ false
    → (s.file_desc fd).is_stale ≡ false
    → fat_get_dir_entry fd s ≡ (some (s.file_desc fd).dir_entry, s)
unfolding fat_get_dir_entry
get_dir_entry-open fd s taken fresh = rw (get_desc-open fd s taken fresh) refl

module _ {Card : Type 0} (ops : CardOps Card) where
  pub fat_close-is_free :
      (fd : ℕ) (s : Sys Card) → ((fat_close ops fd s).1.file_desc fd).is_free ≡ true
  unfolding fat_close set_desc
  fat_close-is_free fd s =
      let s1 =
        if (s.file_desc fd).dir_entry_modified
        then (if (s.file_desc fd).is_stale
            then set_error Error.stale_descriptor s
            else write_back ops (s.file_desc fd) s)
        else s in
      ap (λ p. p.is_free) (put_desc_self s1.file_desc fd (close_desc (s1.file_desc fd)))

module _ {Card : Type 0} {ops : CardOps Card} (laws : CardLaws ops) (works : CardWorks ops) where
  -- Byte `j` of the file is at the address `j`: below 0x8000 in the RAM of the program, from there on
  -- in the memory.
  pub record IsInMemory (f : FatInfo) (d : Disk) (ks : List ℕ) (from total : ℕ) (m : Machine Card)
      : Type 0 where
    pub low : (j : ℕ) → j < total → j < 0x8000 → m.lo_ram j ≡ chain_byte f d ks (from + j)
    pub high : (j : ℕ) → j < total → 0x8000 ≤ j → m.bar.memory j ≡ chain_byte f d ks (from + j)

  load_hi_lem :
      (f : FatInfo) (d : Disk) (k : ℕ) (post : List ℕ) (fd size : ℕ) (mem : Memory)
      (p : FileDescriptor) (m : Machine Card)
      → IsLaidOut f
      → DataFits f
      → p.is_free ≡ false
      → p.is_stale ≡ false
      → IsLoaded laws works f d k post fd 0x8000 size 128 mem p m
      → p.dir_entry.size ≤ last_row
      → (m' : Machine Card) × (load_hi ops fd size m ≡ some (true, m'))
        × IsInMemory f d (k ∷ post) (in_cluster p) p.dir_entry.size m'
  unfolding load_hi keep_rest show_progress buffer_at with_buffer
  load_hi_lem f d k post fd size mem p m g fit taken fresh h le =
      let total = p.dir_entry.size in
      let mem0 = m.bar.memory in
      let (n, buf, s, run, all, bytes, _, _, _, _, _) =
        read_on laws works f d k post fd 0x8000 size 128 size mem p (buffer_at 0x8000 mem0) m g fit
          taken fresh h (omega (arith, h.total, le)) in
      let whole : n ≡ size = ground (arith, all) in
      let good : not (n == size) ≡ false = ground (arith, whole) in
      let mem1 = with_buffer 0x8000 buf mem0 in
      let (bar, shown, drawn) =
        progress-IsDrawn (n / 256) (total / 256) 128 mem1 (record (m.bar) { memory = mem1 })
          (IsDrawn-memory (total / 256) 128 mem mem1 m.bar h.drawn) (omega (arith, h.total))
          (omega (arith, h.total, whole)) (omega (arith, le)) in
      (
        record m { sys = s; bar = bar },
        rw (run, good, shown) refl,
        record {
          low = λ j lt lt2. h.bytes j lt2;
          high = λ j lt le2.
              let (i, e) : (i : ℕ) × (j ≡ 0x8000 + i) = (j - 0x8000, omega (arith, le2)) in
              let index : j - 0x8000 ≡ 0 + i = omega (arith, e) in
              let there : mem1 j ≡ buf (0 + i) = ground (arith, le2, ap buf index) in
              drawn.draws.front j (omega (arith, lt, le))
              ∙ there
              ∙ bytes i (omega (arith, e, lt, whole, h.total))
              ∙ ap (λ j. chain_byte f d (k ∷ post) (in_cluster p + j)) (omega (arith, e));
        },
      )

  -- The program is started, with `total` bytes of the chain in memory and the descriptor closed.
  abbrev pub StartsWith :
      FatInfo → Disk → List ℕ → ℕ → ℕ → ℕ → Option (Outcome × Machine Card) → Type 0
  StartsWith f d ks from total fd run =
      (m : Machine Card) × (run ≡ some (started, m))
      × IsInMemory f d ks from total m
      × ((m.sys.file_desc fd).is_free ≡ true)

  started_lem :
      (f : FatInfo) (d : Disk) (ks : List ℕ) (from total fd : ℕ) (m : Machine Card)
      → IsInMemory f d ks from total m
      → StartsWith f d ks from total fd (some (finish_load ops fd (true, m)))
  unfolding finish_load
  started_lem f d ks from total fd m h = (
    record m { sys = (fat_close ops fd m.sys).1 },
    refl,
    record { low = h.low; high = h.high },
    fat_close-is_free ops fd m.sys,
  )

  load_rest_lem :
      (f : FatInfo) (d : Disk) (k : ℕ) (post : List ℕ) (fd pos size pages : ℕ) (mem : Memory)
      (p : FileDescriptor) (m : Machine Card)
      → IsLaidOut f
      → DataFits f
      → p.is_free ≡ false
      → p.is_stale ≡ false
      → IsLoaded laws works f d k post fd pos size pages mem p m
      → p.dir_entry.size ≤ last_row
      → (size ≡ 0) ⊎ (pages ≡ 128)
      → pages ≤ 128
      → StartsWith f d
          (k ∷ post)
          (in_cluster p)
          p.dir_entry.size
          fd
          (load_rest ops fd (true, size, m))
  unfolding load_rest
  load_rest_lem f d k post fd pos size pages mem p m g fit taken fresh h le end few =
      let goal = StartsWith f d (k ∷ post) (in_cluster p) p.dir_entry.size fd in
      elim (Bool-cases (size == 0)) [
        | inl none_left ↦ rw none_left (
            started_lem f d (k ∷ post) (in_cluster p) p.dir_entry.size fd m (record {
              low = λ j lt lt2. h.bytes j (ground (arith, none_left, lt, h.total));
              high = λ j lt le2. absurd (ground (arith, none_left, lt, le2, h.total, h.most, few));
            }))
        | inr more ↦
            let all : pages ≡ 128 = ground (arith, more, end) in
            let at : pos ≡ 0x8000 = ground (arith, more, h.full, all) in
            let h1 : IsLoaded laws works f d k post fd 0x8000 size 128 mem p m =
              subst (λ pages. IsLoaded laws works f d k post fd 0x8000 size pages mem p m) all
                (subst (λ pos. IsLoaded laws works f d k post fd pos size pages mem p m) at h) in
            let (m', run, there) = load_hi_lem f d k post fd size mem p m g fit taken fresh h1 le in
            rw (more, run) (started_lem f d (k ∷ post) (in_cluster p) p.dir_entry.size fd m' there)
      ]

  load_program_lem :
      (f : FatInfo) (d : Disk) (k : ℕ) (post : List ℕ) (fd : ℕ) (m : Machine Card)
      → let p = m.sys.file_desc fd in
        IsLaidOut f
        → DataFits f
        → Stands laws f d m.sys
        → p.is_free ≡ false
        → p.is_stale ≡ false
        → IsReading f (fat_entry f.fat0_offset d) k post p
        → p.abs_offset ≡ 0
        → 256 ≤ p.dir_entry.size
        → p.dir_entry.size ≤ last_row
        → StartsWith f d
            (k ∷ post)
            (in_cluster p)
            p.dir_entry.size
            fd
            (load_program ops fd (u16 p.dir_entry.size) m)
  unfolding load_program
  load_program_lem f d k post fd m g fit st taken fresh h start enough le =
      let p = m.sys.file_desc fd in
      let total = p.dir_entry.size in
      let mem = m.bar.memory in
      let same : u16 total ≡ total = omega (arith, le) in
      let m0 = record m { bar = progressbar_init (total / 256) mem } in
      let h0 : IsLoaded laws works f d k post fd 0 total 0 mem p m0 = record {
        stands = st;
        file = SameFile-refl p;
        position = start;
        place = NextPlace-refl f (fat_entry f.fat0_offset d) k post p p refl h;
        total = omega arith;
        most = omega arith;
        full = λ ne. omega arith;
        bytes = λ j lt. absurd (omega (arith, lt));
        drawn = init-IsDrawn (total / 256) mem (omega (arith, enough));
      } in
      let (pos, size, pages, m1, run, loaded, end, few) =
        load_lo_lem laws works f d k post 129 fd 0 total 0 mem p m0 g fit taken fresh h0 enough
          (omega (arith, le)) (omega arith) (omega arith) in
      rw (same, run)
        (load_rest_lem f d k post fd pos size pages mem p m1 g fit taken fresh loaded le end few)

  -- On a card where no transfer fails, with a coherent cache, the tables laid out and the data area
  -- below the address 0xffffffff, for an open descriptor at the start of a program file, with the
  -- extension "APP" and 256 bytes or more, no more than `max_size`, which is no more than the address
  -- of the last row of the display: `fat_exec_fd` starts the program, with every byte `j` of the
  -- file at the address `j`, in the program's RAM below 0x8000 and in the memory from there on. The
  -- descriptor is closed.
  pub fat_exec_fd_lem :
      (f : FatInfo) (d : Disk) (k : ℕ) (post : List ℕ) (max_size fd : ℕ) (m : Machine Card)
      → let p = m.sys.file_desc fd in
        IsLaidOut f
        → DataFits f
        → Stands laws f d m.sys
        → p.is_free ≡ false
        → p.is_stale ≡ false
        → IsReading f (fat_entry f.fat0_offset d) k post p
        → p.abs_offset ≡ 0
        → is_app (extension 8 p.dir_entry.filename) ≡ true
        → 256 ≤ p.dir_entry.size
        → p.dir_entry.size ≤ max_size
        → max_size ≤ last_row
        → StartsWith f d
            (k ∷ post)
            (in_cluster p)
            p.dir_entry.size
            fd
            (fat_exec_fd ops max_size fd m)
  unfolding fat_exec_fd check_program
  fat_exec_fd_lem f d k post max_size fd m g fit st taken fresh h start app enough le most =
      let p = m.sys.file_desc fd in
      let fits : ltb max_size p.dir_entry.size ≡ false = ground (arith, le) in
      rw (get_dir_entry-open fd m.sys taken fresh, app, fits)
        (load_program_lem f d k post fd m g fit st taken fresh h start enough
          (omega (arith, le, most)))

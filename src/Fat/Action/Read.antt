-- ===== src/Fat/Action/Read.antt =====
-- What `fat_read` of lib/fat/fat.c reads of a chain.
use ccpu_libsys.Prelude.{
  ℕ, zero, suc, ◌+◌, ◌-◌, ◌<◌, ◌≡◌, refl, sym, ap, ◌∙◌, inl, inr, false, Option, some, List, arith,
  ◌==◌, Bool-cases,
}
use mathlib.Core.Path.{subst}
use ccpu_libsys.Fat.Bytes.{u16}
use ccpu_libsys.Fat.Card.{Block, Disk, CardOps, CardLaws, CardWorks}
use ccpu_libsys.Fat.Error
use ccpu_libsys.Fat.State.{Sys, FatInfo, FileDescriptor}
use ccpu_libsys.Fat.Cache.Laws.{Stands}
use ccpu_libsys.Fat.Desc.{set_desc, set_error}
use ccpu_libsys.Fat.Desc.Put.{put_desc_self, put_desc_ne, Stands-set_desc}
use ccpu_libsys.Fat.Table.Entries.{IsLaidOut, fat_entry}
use ccpu_libsys.Fat.Seek.{seek_advance}
use ccpu_libsys.Fat.Action.{next_chunk, transfer, at_end, action_loop, fat_read}
use ccpu_libsys.Fat.Action.Content.{DataFits, IsReading, left, smaller}
use ccpu_libsys.Fat.Action.Loop.{
  smaller_bounds, smaller_zero, smaller_pos, smaller_rest, fat_action-loop, get_desc-open,
  action_loop-done, make_room-read, action_loop-end, action_loop-round,
}
use ccpu_libsys.Fat.Action.Step.{next_chunk-IsReading}
use ccpu_libsys.Fat.Action.Reads.{IsRead, IsRead-trans, IsRead-refl}
use ccpu_libsys.Fat.Action.Round.{round_lem}

module _ {Card : Type 0} {ops : CardOps Card} (laws : CardLaws ops) (works : CardWorks ops) where
  -- The loop: it reads all that is asked for, or all up to the end of the file with FAT_EOF set.
  abbrev pub ReadsSome :
      FatInfo
      → Disk
      → ℕ
      → List ℕ
      → ℕ
      → ℕ
      → ℕ
      → Block
      → FileDescriptor
      → Sys Card
      → Option (ℕ × Block × Sys Card)
      → Type 0
  ReadsSome f d k post fd len result buf p s r =
      (n : ℕ) × (n ≡ smaller len (left p))
      × (buf' : Block) × (s' : Sys Card) × (r ≡ some (result + n, buf', s'))
      × IsRead laws works f d k post fd n result buf p s buf' s'
      × (n < len → s'.last_error ≡ Error.eof)

  at_end_lem :
      (f : FatInfo) (d : Disk) (fd : ℕ) (s : Sys Card)
      → Stands laws f d s
      → (s.file_desc fd).abs_offset ≡ (s.file_desc fd).dir_entry.size
      → Stands laws f d (at_end fd s)
        × ((at_end fd s).file_desc ≡ s.file_desc)
        × ((at_end fd s).last_error ≡ Error.eof)
  unfolding at_end set_error
  at_end_lem f d fd s st e = ground (arith, e, st)

  -- No byte is left in the file.
  read_nothing :
      (f : FatInfo) (d : Disk) (k : ℕ) (post : List ℕ) (fd fuel len result : ℕ) (buf : Block)
      (s : Sys Card)
      → let p = s.file_desc fd in
        DataFits f
        → Stands laws f d s
        → IsReading f (fat_entry f.fat0_offset d) k post p
        → (len == 0) ≡ false
        → left p ≡ 0
        → ReadsSome f d k post fd len result buf p s
            (action_loop ops false fd (suc fuel) len result buf s)
  unfolding set_desc
  read_nothing f d k post fd fuel len result buf s fit st h more none_left =
      let p = s.file_desc fd in
      let zero_chunk = smaller_zero len (512 - p.index_in_block) (left p) none_left in
      let at_size : p.abs_offset ≡ p.dir_entry.size = omega (arith, none_left, h.before_end) in
      let e_chunk : next_chunk false len p ≡ (0, p) =
        next_chunk-IsReading f (fat_entry f.fat0_offset d) k len post p fit h
        ∙ ap (λ c. (c, p)) zero_chunk.0 in
      let s2 = set_desc fd p s in
      let stored : s2.file_desc fd ≡ p = put_desc_self s.file_desc fd p in
      let (st', desc, eof) =
        at_end_lem f d fd s2 (Stands-set_desc laws f d fd p s st)
          (ap (λ q. q.abs_offset) stored ∙ at_size ∙ sym (ap (λ q. q.dir_entry.size) stored)) in
      (
        0,
        sym zero_chunk.1,
        buf,
        at_end fd s2,
        action_loop-end ops fd fuel len result buf s more e_chunk
            ∙ ap (λ n. some (n, buf, at_end fd s2)) (omega arith),
        IsRead-refl laws works f d k post fd result buf p s (at_end fd s2) st'
            (ap (λ u. u fd) desc ∙ stored)
            (λ i ne. ap (λ u. u i) desc ∙ put_desc_ne s.file_desc fd i p ne) h,
        λ _. eof,
      )

  -- What the loop does with `fuel`, from any place.
  abbrev LoopReads : FatInfo → Disk → ℕ → ℕ → Type 0
  LoopReads f d fd fuel =
      (k : ℕ) (post : List ℕ) (len result : ℕ) (buf : Block) (s : Sys Card)
      → Stands laws f d s
      → IsReading f (fat_entry f.fat0_offset d) k post (s.file_desc fd)
      → len < fuel
      → result + len < 65536
      → ReadsSome f d k post fd len result buf (s.file_desc fd) s
          (action_loop ops false fd fuel len result buf s)

  read_round :
      (f : FatInfo) (d : Disk) (k : ℕ) (post : List ℕ) (fd fuel len result : ℕ) (buf : Block)
      (s : Sys Card)
      → let p = s.file_desc fd in
        IsLaidOut f
        → DataFits f
        → Stands laws f d s
        → IsReading f (fat_entry f.fat0_offset d) k post p
        → len < suc fuel
        → result + len < 65536
        → (len == 0) ≡ false
        → 0 < left p
        → LoopReads f d fd fuel
        → ReadsSome f d k post fd len result buf p s
            (action_loop ops false fd (suc fuel) len result buf s)
  unfolding set_desc
  read_round f d k post fd fuel len result buf s g fit st h lt fits more some_left ih =
      let p = s.file_desc fd in
      let t = fat_entry f.fat0_offset d in
      let room = 512 - p.index_in_block in
      let c = smaller len (smaller room (left p)) in
      let (c_len, c_room, c_left) = smaller_bounds len room (left p) in
      let pos : 0 < c =
        smaller_pos len room (left p) (ground (arith, more)) (omega (arith, h.index)) some_left in
      let s2 = set_desc fd p s in
      let (ok, ok2, outside, bytes, st4, others, file, abs, place) =
        round_lem laws works f d k post fd c result buf p s2 g fit
          (Stands-set_desc laws f d fd p s st) (put_desc_self s.file_desc fd p) h pos c_left
          (omega (arith, c_room, h.index)) in
      let (k', post', h', used, same) = place in
      let r = transfer ops false fd c result buf s2 in
      let s4 = (seek_advance ops fd c r.2).1 in
      let e_result : u16 (result + c) ≡ result + c = omega (arith, c_len, fits) in
      let e_left : left (s4.file_desc fd) ≡ left p - c =
        omega (arith, abs, ap (λ e. e.size) file.entry) in
      let (m, em, buf', s', run, read, eof) =
        ih k' post' (len - c) (result + c) r.1 s4 st4 h' (omega (arith, lt, pos, c_len))
          (omega (arith, fits, c_len)) in
      let total : c + m ≡ smaller len (left p) =
        ap (λ n. c + n) (em ∙ ap (smaller (len - c)) e_left) ∙ smaller_rest len room (left p) in
      (
        c + m,
        total,
        buf',
        s',
        action_loop-round ops false fd fuel len result c buf s more (make_room-read ops fd s)
              (next_chunk-IsReading f t k len post p fit h) (ground (arith, pos))
              (omega (arith, c_room, h.index)) ok ok2
            ∙ ap (λ n. action_loop ops false fd fuel (len - c) n r.1 s4) e_result
            ∙ run
            ∙ ap (λ n. some (n, buf', s')) (omega arith),
        IsRead-trans laws works f d k k' post post' fd c m result buf r.1 buf' p s s4 s' bytes
            outside (λ i ne. others i ne ∙ put_desc_ne s.file_desc fd i p ne) file abs same used
            read,
        λ less. eof (omega (arith, less, c_len)),
      )

  read_loop_lem :
      (f : FatInfo) (d : Disk) (fd fuel : ℕ) → IsLaidOut f → DataFits f → LoopReads f d fd fuel
  read_loop_lem f d fd zero g fit k post len result buf s st h lt fits = absurd (omega arith)
  read_loop_lem f d fd (suc fuel) g fit k post len result buf s st h lt fits =
      let p = s.file_desc fd in
      elim (Bool-cases (len == 0)) [
        | inl e ↦
            let none : len ≡ 0 = ground (arith, e) in
            (
              0,
              ground (arith, none),
              buf,
              s,
              action_loop-done ops false fd fuel len result buf s e
                  ∙ ap (λ n. some (n, buf, s)) (omega arith),
              IsRead-refl laws works f d k post fd result buf p s s st refl (λ i ne. refl) h,
              λ lt. absurd (omega (arith, lt, none)),
            )
        | inr more ↦ elim (Bool-cases (left p == 0)) [
          | inl e ↦
              read_nothing f d k post fd fuel len result buf s fit st h more (ground (arith, e))
          | inr some_left ↦
              read_round f d k post fd fuel len result buf s g fit st h lt fits more
                (ground (arith, some_left)) (read_loop_lem f d fd fuel g fit)
        ]
      ]

  -- On a card where no transfer fails, with a coherent cache, the tables laid out and the data area
  -- below the address 0xffffffff, for an open descriptor of a file on the byte of a cluster `k`
  -- with the clusters `post` behind it in its chain: `fat_read` of fewer than 65536 bytes returns the
  -- smaller of `len` and the number of bytes up to the end of the file. So many bytes of the chain
  -- from the position on are in the buffer then, which is otherwise as before, and the descriptor
  -- stands behind them. If there were fewer than `len`, the error is FAT_EOF. The card and the other
  -- descriptors stay as they are.
  pub fat_read_lem :
      (f : FatInfo) (d : Disk) (k : ℕ) (post : List ℕ) (fd len : ℕ) (buf : Block) (s : Sys Card)
      → let p = s.file_desc fd in
        IsLaidOut f
        → DataFits f
        → Stands laws f d s
        → p.is_free ≡ false
        → p.is_stale ≡ false
        → IsReading f (fat_entry f.fat0_offset d) k post p
        → len < 65536
        → ReadsSome f d k post fd len 0 buf p s (fat_read ops fd len buf s)
  unfolding fat_read
  fat_read_lem f d k post fd len buf s g fit st taken fresh h lt =
      subst (ReadsSome f d k post fd len 0 buf (s.file_desc fd) s)
        (sym (fat_action-loop ops false fd len buf s (get_desc-open fd s taken fresh)))
        (read_loop_lem f d fd (len + 1) g fit k post len 0 buf s st h (omega arith) (omega arith))

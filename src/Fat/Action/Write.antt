-- ===== src/Fat/Action/Write.antt =====
-- `fat_write` of lib/fat/fat.c over bytes that the file already has.
use ccpu_libsys.Prelude.{
  ℕ, zero, suc, ◌+◌, ◌-◌, ◌<◌, ◌≤◌, ◌≡◌, ◌≢◌, refl, sym, ap, ◌∙◌, inl, inr, true, false, Option,
  some, List, ◌∷◌, arith, ◌==◌, Bool-cases,
}
use mathlib.Core.Path.{subst, ap₂}
use ccpu_libsys.Fat.Card.{Block, Disk, CardOps, CardLaws, CardWorks}
use ccpu_libsys.Fat.State.{Sys, FatInfo, FileDescriptor}
use ccpu_libsys.Fat.Cache.Laws.{Stands}
use ccpu_libsys.Fat.Desc.{set_desc}
use ccpu_libsys.Fat.Desc.Put.{put_desc_self, put_desc_ne, Stands-set_desc}
use ccpu_libsys.Fat.Table.Entries.{IsLaidOut, fat_entry}
use ccpu_libsys.Fat.Seek.{seek_advance}
use ccpu_libsys.Fat.Seek.Moves.{in_cluster, SameFile}
use ccpu_libsys.Fat.Action.{transfer, action_loop, fat_write}
use ccpu_libsys.Fat.Action.Content.{DataFits, IsReading, left, smaller}
use ccpu_libsys.Fat.Action.Loop.{
  smaller_bounds, smaller_pos, action_loop-done, fat_action-loop, get_desc-open, action_loop-round,
}
use ccpu_libsys.Fat.Action.Step.{next_chunk-IsReading}
use ccpu_libsys.Fat.Action.Places.{NextPlace, NextPlace-trans, NextPlace-refl}
use ccpu_libsys.Fat.Action.Reads.{SameFile-trans, SameFile-refl}
use ccpu_libsys.Fat.Action.Writes.{IsBehind, Stored, Stored-refl, Stored-trans, in_file}
use ccpu_libsys.Fat.Action.WriteRound.{
  stored_block, next_chunk-write, make_room-write, write_round_lem,
}

module _ {Card : Type 0} {ops : CardOps Card} (laws : CardLaws ops) (works : CardWorks ops) where
  -- All `n` bytes of the buffer from `result` on are written: they are the chain's bytes from the
  -- position on, and no other byte of the card changes. The descriptor stands behind them, on the
  -- same file, and the other descriptors are as before.
  pub record IsWritten (f : FatInfo) (d d' : Disk) (k : ℕ) (post : List ℕ) (fd n result : ℕ)
      (buf : Block) (p : FileDescriptor) (s s' : Sys Card) : Type 0 where
    pub stored : Stored f d d' (k ∷ post) (in_cluster p) n result buf
    pub stands : Stands laws f d' s'
    pub others : (i : ℕ) → i ≢ fd → s'.file_desc i ≡ s.file_desc i
    pub file : SameFile p (s'.file_desc fd)
    pub position : (s'.file_desc fd).abs_offset ≡ p.abs_offset + n
    pub place : NextPlace f (fat_entry f.fat0_offset d') k post n p (s'.file_desc fd)

  abbrev pub WritesAll :
      FatInfo
      → Disk
      → ℕ
      → List ℕ
      → ℕ
      → ℕ
      → ℕ
      → Block
      → FileDescriptor
      → Sys Card
      → Option (ℕ × Block × Sys Card)
      → Type 0
  WritesAll f d k post fd n result buf p s run =
      (d' : Disk) × (s' : Sys Card) × (run ≡ some (result + n, buf, s'))
      × IsWritten f d d' k post fd n result buf p s s'

  write_done :
      (f : FatInfo) (d : Disk) (k : ℕ) (post : List ℕ) (fd fuel len result : ℕ) (buf : Block)
      (s : Sys Card)
      → Stands laws f d s
      → IsReading f (fat_entry f.fat0_offset d) k post (s.file_desc fd)
      → (len == 0) ≡ true
      → WritesAll f d k post fd len result buf
          (s.file_desc fd)
          s
          (action_loop ops true fd (suc fuel) len result buf s)
  write_done f d k post fd fuel len result buf s st h e =
      let p = s.file_desc fd in
      let none_left : 0 ≡ len = ground (arith, e) in
      subst
        (λ n.
          WritesAll f d k post fd n result buf p s
            (action_loop ops true fd (suc fuel) len result buf s))
        none_left
        (
          d,
          s,
          action_loop-done ops true fd fuel len result buf s e
              ∙ ap (λ n. some (n, buf, s)) (omega arith),
          record {
            stored = Stored-refl f d (k ∷ post) (in_cluster p) result buf;
            stands = st;
            others = λ i ne. refl;
            file = SameFile-refl p;
            position = omega arith;
            place = NextPlace-refl f (fat_entry f.fat0_offset d) k post p p refl h;
          },
        )

  -- What the loop does with `fuel`, from any place.
  abbrev LoopWrites : FatInfo → ℕ → ℕ → Block → Type 0
  LoopWrites f fd fuel buf =
      (d : Disk) (k : ℕ) (post : List ℕ) (len result : ℕ) (s : Sys Card)
      → Stands laws f d s
      → IsReading f (fat_entry f.fat0_offset d) k post (s.file_desc fd)
      → k ≢ 0
      → len ≤ left (s.file_desc fd)
      → len < fuel
      → result + len < 65536
      → WritesAll f d k post fd len result buf (s.file_desc fd) s
          (action_loop ops true fd fuel len result buf s)

  write_round :
      (f : FatInfo) (d : Disk) (k : ℕ) (post : List ℕ) (fd fuel len result : ℕ) (buf : Block)
      (s : Sys Card)
      → IsLaidOut f
      → DataFits f
      → IsBehind f
      → Stands laws f d s
      → IsReading f (fat_entry f.fat0_offset d) k post (s.file_desc fd)
      → k ≢ 0
      → len ≤ left (s.file_desc fd)
      → len < suc fuel
      → result + len < 65536
      → (len == 0) ≡ false
      → LoopWrites f fd fuel buf
      → WritesAll f d k post fd len result buf
          (s.file_desc fd)
          s
          (action_loop ops true fd (suc fuel) len result buf s)
  unfolding set_desc
  write_round f d k post fd fuel len result buf s g fit behind st h used le lt fits more ih =
      let p = s.file_desc fd in
      let t = fat_entry f.fat0_offset d in
      let room = 512 - p.index_in_block in
      let c = smaller len (smaller room (left p)) in
      let (c_len, c_room, c_left) = smaller_bounds len room (left p) in
      let some_left : 0 < left p = ground (arith, more, le) in
      let pos : 0 < c =
        smaller_pos len room (left p) (ground (arith, more)) (omega (arith, h.index)) some_left in
      let s2 = set_desc fd p s in
      let (parts, moved) =
        write_round_lem laws works f d k post fd c result buf p s2 g fit behind
          (Stands-set_desc laws f d fd p s st) (put_desc_self s.file_desc fd p) h pos c_left
          (omega (arith, c_room, h.index)) in
      let (ok, ok2, same_buf, st4, others, file, abs, place) = moved in
      let (k', post', h', used', same) = place in
      let d1 = stored_block c result buf p d in
      let r = transfer ops true fd c result buf s2 in
      let s4 = (seek_advance ops fd c r.2).1 in
      let q = s4.file_desc fd in
      let rest : len - c ≤ left q = omega (arith, abs, ap (λ e. e.size) file.entry, le, c_len) in
      let (d', s', run, w) =
        ih d1 k' post' (len - c) (result + c) s4 st4 h' (used' used) rest
          (omega (arith, lt, pos, c_len)) (omega (arith, fits, c_len)) in
      let total : c + (len - c) ≡ len = omega (arith, c_len) in
      subst
        (λ n.
          WritesAll f d k post fd n result buf p s
            (action_loop ops true fd (suc fuel) len result buf s))
        total
        (
          d',
          s',
          action_loop-round ops true fd fuel len result c buf s more
                (make_room-write laws works f t k post fd s fit st.info h used some_left)
                (next_chunk-write f t k len post p fit h le
                  ∙ next_chunk-IsReading f t k len post p fit h)
                (ground (arith, pos)) (omega (arith, c_room, h.index)) ok ok2
              ∙ ap₂ (λ n b. action_loop ops true fd fuel (len - c) n b s4)
                  (omega (arith, c_len, fits)) same_buf
              ∙ run
              ∙ ap (λ n. some (n, buf, s')) (omega arith),
          record {
            stored =
                Stored-trans f t k d d1 d' (k ∷ post) (k' ∷ post') (in_cluster p) (in_cluster q) c
                  (len - c) result buf fit h.chain
                  (omega (arith, in_file f t k post p h, le, total)) same parts w.stored;
            stands = w.stands;
            others = λ i ne. w.others i ne ∙ others i ne ∙ put_desc_ne s.file_desc fd i p ne;
            file = SameFile-trans p q (s'.file_desc fd) file w.file;
            position = omega (arith, w.position, abs);
            place =
                NextPlace-trans f (fat_entry f.fat0_offset d') k k' c (len - c) post post' p q
                  (s'.file_desc fd) used' same w.place;
          },
        )

  write_loop_lem :
      (f : FatInfo) (fd fuel : ℕ) (buf : Block)
      → IsLaidOut f
      → DataFits f
      → IsBehind f
      → LoopWrites f fd fuel buf
  write_loop_lem f fd zero buf g fit behind d k post len result s st h used le lt fits =
      absurd (omega (arith, lt))
  write_loop_lem f fd (suc fuel) buf g fit behind d k post len result s st h used le lt fits =
      elim (Bool-cases (len == 0)) [
        | inl e ↦ write_done f d k post fd fuel len result buf s st h e
        | inr more ↦
            write_round f d k post fd fuel len result buf s g fit behind st h used le lt fits more
              (write_loop_lem f fd fuel buf g fit behind)
      ]

  -- On a card where no transfer fails, with a coherent cache, the tables laid out, the data area behind
  -- them and below the address 0xffffffff, for an open descriptor of a file on the byte of a cluster
  -- `k`, not 0, with the clusters `post` behind it in its chain: `fat_write` of fewer than 65536
  -- bytes, no more than there are up to the end of the file, writes them all and returns their number.
  -- They are the chain's bytes from the position on then, and no other byte of the card changes. The
  -- descriptor stands behind them; its file's size and entry and the other descriptors stay.
  pub fat_write_lem :
      (f : FatInfo) (d : Disk) (k : ℕ) (post : List ℕ) (fd len : ℕ) (buf : Block) (s : Sys Card)
      → let p = s.file_desc fd in
        IsLaidOut f
        → DataFits f
        → IsBehind f
        → Stands laws f d s
        → p.is_free ≡ false
        → p.is_stale ≡ false
        → IsReading f (fat_entry f.fat0_offset d) k post p
        → k ≢ 0
        → len ≤ left p
        → len < 65536
        → WritesAll f d k post fd len 0 buf p s (fat_write ops fd len buf s)
  unfolding fat_write
  fat_write_lem f d k post fd len buf s g fit behind st taken fresh h used le lt =
      subst (WritesAll f d k post fd len 0 buf (s.file_desc fd) s)
        (sym (fat_action-loop ops true fd len buf s (get_desc-open fd s taken fresh)))
        (write_loop_lem f fd (len + 1) buf g fit behind d k post len 0 s st h used le (omega arith)
          (omega (arith, lt)))

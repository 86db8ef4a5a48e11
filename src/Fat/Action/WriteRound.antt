-- ===== src/Fat/Action/WriteRound.antt =====
-- What one round of `fat_write` of lib/fat/fat.c does to bytes that the file already has.
use ccpu_libsys.Prelude.{
  ℕ, ◌+◌, ◌-◌, ◌<◌, ◌≤◌, ◌≡◌, ◌≢◌, refl, sym, ap, ◌∙◌, ◌⊎◌, inl, inr, Bool, true, false, List, [],
  ◌∷◌, arith, ltb, leb, ◌==◌, Bool-cases, ltb→lt,
}
use native.Mathlib.Decide.{ℕ_discrete}
use mathlib.Core.Path.{subst, ap₂}
use ccpu_libsys.Fat.Card.{Block, Disk, update, update_self, update_ne, CardOps, CardLaws, CardWorks}
use ccpu_libsys.Fat.State.{Sys, FatInfo, FileDescriptor, fat_min_last_cluster, invalid_block_addr}
use ccpu_libsys.Fat.Cache.{cache}
use ccpu_libsys.Fat.Cache.Laws.{Stands}
use ccpu_libsys.Fat.Table.Entries.{IsLaidOut, fat_entry}
use ccpu_libsys.Fat.Table.Steps.{cache_lem, flush_cache_lem}
use ccpu_libsys.Fat.Seek.{seek_advance}
use ccpu_libsys.Fat.Seek.Moves.{in_cluster, SameFile}
use ccpu_libsys.Fat.Action.{
  copy, make_room, start_file, extend_file, next_chunk, last_chunk, transfer,
}
use ccpu_libsys.Fat.Action.Content.{chain_place, DataFits, address-valid, IsReading, left}
use ccpu_libsys.Fat.Action.Step.{IsReading-IsInside, remainder-IsReading}
use ccpu_libsys.Fat.Action.Places.{NextPlace, advance-NextPlace}
use ccpu_libsys.Fat.Action.Round.{
  chain_place-block, copy-inside, copy-other, AdvancedAt, seek_advance_at,
}
use ccpu_libsys.Fat.Action.Writes.{IsBehind, Stored, Stored-table, IsReading-frame, in_file}

-- `memcpy` of `n` bytes of the buffer into the current block
abbrev pub stored_block : ℕ → ℕ → Block → FileDescriptor → Disk → Disk
stored_block n result buf p d =
    update d p.block_addr (copy n (d p.block_addr) p.index_in_block buf result)

pub stored_block-Stored :
    (f : FatInfo) (k : ℕ) (post : List ℕ) (n result : ℕ) (buf : Block) (p : FileDescriptor)
    (d : Disk)
    → ((j : ℕ)
        → j < n
        → chain_place f (k ∷ post) (in_cluster p + j) ≡ (p.block_addr, p.index_in_block + j))
    → Stored f d (stored_block n result buf p d) (k ∷ post) (in_cluster p) n result buf
stored_block-Stored f k post n result buf p d places =
    let a = p.block_addr in
    let i = p.index_in_block in
    let b = copy n (d a) i buf result in
    record {
      bytes = λ j lt.
          ap (λ c. update d a b c.0 c.1) (places j lt)
          ∙ ap (λ (b : Block). b (i + j)) (update_self d a b)
          ∙ copy-inside n i result j (d a) buf lt;
      kept = λ c x away. elim (ℕ_discrete c a) [
        | no ne ↦ ap (λ (b : Block). b x) (update_ne d a c b ne)
        | yes same ↦ elim (Bool-cases (leb i x)) [
          | inr before ↦ kept_byte c x (inl (ground (arith, before))) same
          | inl behind ↦ elim (Bool-cases (ltb x (i + n))) [
            | inr after ↦ kept_byte c x (inr (ground (arith, after))) same
            | inl within ↦
                let (j, e) : (j : ℕ) × (x ≡ i + j) = (x - i, ground (arith, behind)) in
                absurd (
                  away j (omega (arith, e, ltb→lt x (i + n) within)) (
                    places j (omega (arith, e, ltb→lt x (i + n) within))
                    ∙ ap₂ (λ c x. (c, x)) (sym same) (sym e)))
          ]
        ]
      ];
    }
  where
    kept_byte :
        (c x : ℕ)
        → (x < p.index_in_block) ⊎ (p.index_in_block + n ≤ x)
        → c ≡ p.block_addr
        → stored_block n result buf p d c x ≡ d c x
    kept_byte c x out same =
        ap (λ c. stored_block n result buf p d c x) same
        ∙ ap (λ (b : Block). b x)
            (update_self d p.block_addr (copy n (d p.block_addr) p.index_in_block buf result))
        ∙ copy-other n p.index_in_block result x (d p.block_addr) buf out
        ∙ ap (λ c. d c x) (sym same)

-- A write of no more than the file has does not make it grow.
pub next_chunk-write :
    (f : FatInfo) (t : ℕ → ℕ) (k len : ℕ) (post : List ℕ) (p : FileDescriptor)
    → DataFits f
    → IsReading f t k post p
    → len ≤ left p
    → next_chunk true len p ≡ next_chunk false len p
unfolding next_chunk last_chunk
next_chunk-write f t k len [] p fit h le =
    let (e_rem, e_left) = remainder-IsReading f t k p fit h in
    ground (arith, e_rem, e_left, h.index, h.last, fit.sectors, le)
next_chunk-write f t k len (k2 ∷ post) p fit h le =
    let more : leb fat_min_last_cluster p.next_cluster ≡ false =
      ground (arith, h.next, h.chain.5.1) in
    rw more refl

module _ {Card : Type 0} {ops : CardOps Card} (laws : CardLaws ops) (works : CardWorks ops) where
  -- Before the end of the file no cluster is wanted.
  pub make_room-write :
      (f : FatInfo) (t : ℕ → ℕ) (k : ℕ) (post : List ℕ) (fd : ℕ) (s : Sys Card)
      → DataFits f
      → s.fat_info ≡ f
      → IsReading f t k post (s.file_desc fd)
      → k ≢ 0
      → 0 < left (s.file_desc fd)
      → make_room ops true fd s ≡ (true, s)
  unfolding make_room start_file extend_file
  make_room-write f t k post fd s fit info h used some_left =
      let p = s.file_desc fd in
      let inside = (IsReading-IsInside f t k post p fit h some_left).inside in
      let begun : (p.cur_cluster == 0) ≡ false = ground (arith, h.cluster, used) in
      let room : (p.block_in_cluster == s.fat_info.sectors_per_cluster) ≡ false =
        ground (arith, inside, ap (λ (f : FatInfo). f.sectors_per_cluster) info) in
      elim (Bool-cases (leb fat_min_last_cluster p.next_cluster)) [
        | inl last ↦ rw (begun, last, room) refl
        | inr more ↦ rw (begun, more) refl
      ]

  -- The cached block is changed and written.
  Transfers : FatInfo → Disk → Block → Sys Card → Bool × Block × Sys Card → Type 0
  Transfers f d buf s r =
      (r.0 ≡ true) × (r.1 ≡ buf) × Stands laws f d r.2 × (r.2.file_desc ≡ s.file_desc)

  transfer_lem :
      (f : FatInfo) (d : Disk) (fd n result : ℕ) (buf : Block) (s : Sys Card)
      → let p = s.file_desc fd in
        Stands laws f d s
        → p.block_addr < invalid_block_addr
        → Transfers f (stored_block n result buf p d) buf s (transfer ops true fd n result buf s)
  unfolding transfer Transfers
  transfer_lem f d fd n result buf s st lt =
      let p = s.file_desc fd in
      let a = p.block_addr in
      let (ok, st1, block, addr, same) = cache_lem laws works f d a s st lt in
      let s1 = (cache ops a s).1 in
      let b = copy n s1.cache_block p.index_in_block buf result in
      let (ok2, st2, block2, same2) =
        flush_cache_lem laws works f d a (copy n (d a) p.index_in_block buf result)
          (record s1 { cache_block = b }) st1.info addr lt
          (ap (λ c. copy n c p.index_in_block buf result) block) st1.on_disk in
      rw (ok, ok2) (refl, refl, st2, same2.desc ∙ same.desc)

  -- A round that writes `n` bytes.
  abbrev pub WriteRounds :
      FatInfo
      → Disk
      → ℕ
      → List ℕ
      → ℕ
      → ℕ
      → Block
      → FileDescriptor
      → Sys Card
      → Bool × Block × Sys Card
      → Type 0
  WriteRounds f d k post fd n buf p s r =
      let a = seek_advance ops fd n r.2 in
      (r.0 ≡ true)
      × (a.0 ≡ true)
      × (r.1 ≡ buf)
      × Stands laws f d a.1
      × ((i : ℕ) → i ≢ fd → a.1.file_desc i ≡ s.file_desc i)
      × SameFile p (a.1.file_desc fd)
      × ((a.1.file_desc fd).abs_offset ≡ p.abs_offset + n)
      × NextPlace f (fat_entry f.fat0_offset d) k post n p (a.1.file_desc fd)

  pub write_round_lem :
      (f : FatInfo) (d : Disk) (k : ℕ) (post : List ℕ) (fd n result : ℕ) (buf : Block)
      (p : FileDescriptor) (s : Sys Card)
      → IsLaidOut f
      → DataFits f
      → IsBehind f
      → Stands laws f d s
      → s.file_desc fd ≡ p
      → IsReading f (fat_entry f.fat0_offset d) k post p
      → 0 < n
      → n ≤ left p
      → p.index_in_block + n ≤ 512
      → let d1 = stored_block n result buf p d in
        Stored f d d1 (k ∷ post) (in_cluster p) n result buf
        × WriteRounds f d1 k post fd n buf p s (transfer ops true fd n result buf s)
  unfolding AdvancedAt Transfers
  write_round_lem f d k post fd n result buf p s g fit behind st e h pos le room =
      let t = fat_entry f.fat0_offset d in
      let d1 = stored_block n result buf p d in
      let inside = (IsReading-IsInside f t k post p fit h (omega (arith, pos, le))).inside in
      let address = h.inside inside in
      let valid : p.block_addr < invalid_block_addr =
        omega (arith, address, address-valid f k p.block_in_cluster fit inside) in
      let parts : Stored f d d1 (k ∷ post) (in_cluster p) n result buf =
        stored_block-Stored f k post n result buf p d
          λ j lt. chain_place-block f k j post p inside address (omega (arith, lt, room)) in
      let h1 : IsReading f (fat_entry f.fat0_offset d1) k post p =
        IsReading-frame f t (fat_entry f.fat0_offset d1) k post p h λ j entry.
          Stored-table f d d1 (k ∷ post) (in_cluster p) n result j buf fit g behind
            (omega (arith, in_file f t k post p h, le)) parts entry in
      let (ok, same_buf, st1, same) =
        subst
          (λ p.
            Transfers f (stored_block n result buf p d) buf s (transfer ops true fd n result buf s))
          e
          (transfer_lem f d fd n result buf s st
            (subst (λ p. p.block_addr < invalid_block_addr) (sym e) valid)) in
      let s1 = (transfer ops true fd n result buf s).2 in
      let (ok2, st2, others, file, abs, moved) =
        seek_advance_at laws works f d1 fd n p s1 g st1 (ap (λ u. u fd) same ∙ e)
          (IsReading-IsInside f (fat_entry f.fat0_offset d1) k post p fit h1
            (omega (arith, pos, le)))
          room (omega (arith, le, h.size, h.before_end)) in
      (
        parts,
        (
          ok,
          ok2,
          same_buf,
          st2,
          λ i ne. others i ne ∙ ap (λ u. u i) same,
          file,
          abs,
          advance-NextPlace f (fat_entry f.fat0_offset d1) k n post p
              ((seek_advance ops fd n s1).1.file_desc fd) fit h1 le file abs moved,
        ),
      )

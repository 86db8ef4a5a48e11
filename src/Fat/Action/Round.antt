-- ===== src/Fat/Action/Round.antt =====
-- What one round of `fat_read` of lib/fat/fat.c does: `cache`, `memcpy` and `seek_advance`.
use ccpu_libsys.Prelude.{
  ℕ, ◌+◌, ◌-◌, ◌/◌, ◌%◌, ◌^◌, ◌<◌, ◌≤◌, ◌≡◌, ◌≢◌, refl, sym, ap, ◌∙◌, ◌⊎◌, Bool, true, false, List,
  ◌∷◌, arith, ltb,
}
use mathlib.Core.Path.{subst}
use ccpu_libsys.Fat.Bytes.{u32}
use ccpu_libsys.Fat.Card.{Block, Disk, CardOps, CardLaws, CardWorks}
use ccpu_libsys.Fat.State.{Sys, FatInfo, FileDescriptor, cluster_block, invalid_block_addr}
use ccpu_libsys.Fat.Cache.{cache}
use ccpu_libsys.Fat.Cache.Laws.{Stands, SameTables, Loaded, cache-Loaded}
use ccpu_libsys.Fat.Cache.Works.{cache_works}
use ccpu_libsys.Fat.Desc.Put.{put_desc_self, put_desc_ne, Stands-set_desc}
use ccpu_libsys.Fat.Desc.{set_desc}
use ccpu_libsys.Fat.Table.Entries.{IsLaidOut, fat_entry}
use ccpu_libsys.Fat.Seek.{seek_advance}
use ccpu_libsys.Fat.Seek.Moves.{in_cluster, IsInside, IsFurther, IsLast, IsEntered, SameFile}
use ccpu_libsys.Fat.Seek.Advance.{seek_advance_lem}
use ccpu_libsys.Fat.Action.{copy, transfer}
use ccpu_libsys.Fat.Action.Content.{
  cluster_size, chain_place, byte_at, chain_byte, DataFits, address-valid, IsReading, left,
}
use ccpu_libsys.Fat.Action.Step.{IsReading-IsInside}
use ccpu_libsys.Fat.Action.Places.{NextPlace, advance-NextPlace}

-- The current block from the position on is the chain's.
pub chain_place-block :
    (f : FatInfo) (k j : ℕ) (post : List ℕ) (p : FileDescriptor)
    → p.block_in_cluster < f.sectors_per_cluster
    → p.block_addr ≡ u32 (cluster_block f k + p.block_in_cluster)
    → p.index_in_block + j < 512
    → chain_place f (k ∷ post) (in_cluster p + j) ≡ (p.block_addr, p.index_in_block + j)
unfolding chain_place
chain_place-block f k j post p inside address lt =
    let e_block : (in_cluster p + j) / 512 ≡ p.block_in_cluster = omega arith in
    let e_index : (in_cluster p + j) % 512 ≡ p.index_in_block + j = omega arith in
    let inside_it : ltb (in_cluster p + j) (cluster_size f) ≡ true = ground arith in
    rw (inside_it, e_block, e_index) (ap (λ a. (a, p.index_in_block + j)) (sym address))

pub copy-inside : (n i j x : ℕ) (dst src : Block) → x < n → copy n dst i src j (i + x) ≡ src (j + x)
unfolding copy
copy-inside n i j x dst src lt = let e : i + x - i ≡ x = omega arith in ground (arith, e)

pub copy-other :
    (n i j x : ℕ) (dst src : Block) → (x < i) ⊎ (i + n ≤ x) → copy n dst i src j x ≡ dst x
unfolding copy
copy-other n i j x dst src out = ground arith

module _ {Card : Type 0} {ops : CardOps Card} (laws : CardLaws ops) (works : CardWorks ops) where
  -- `cache` of a block that the card has.
  pub cache_lem :
      (f : FatInfo) (d : Disk) (a : ℕ) (s : Sys Card)
      → Stands laws f d s
      → a ≢ invalid_block_addr
      → ((cache ops a s).0 ≡ true)
        × ((cache ops a s).1.cache_block ≡ d a)
        × Stands laws f d (cache ops a s).1
        × SameTables laws s (cache ops a s).1
  cache_lem f d a s st valid =
      let l : Loaded laws a s (cache ops a s) = cache-Loaded laws a s valid st.coherent in
      let ok : (cache ops a s).0 ≡ true = cache_works works a s in
      (
        ok,
        (l.held ok).1 ∙ ap (λ (d : Disk). d a) st.on_disk,
        record {
          info = l.same.info ∙ st.info;
          coherent = l.coherent;
          on_disk = l.same_disk ∙ st.on_disk;
        },
        l.same,
      )

  -- The same for a descriptor that is known by an equation.
  unfoldable pub AdvancedAt :
      FatInfo → Disk → ℕ → ℕ → Sys Card → Bool × Sys Card → FileDescriptor → Type 0
  AdvancedAt f d fd n s r p =
      (r.0 ≡ true)
      × Stands laws f d r.1
      × ((i : ℕ) → i ≢ fd → r.1.file_desc i ≡ s.file_desc i)
      × SameFile p (r.1.file_desc fd)
      × ((r.1.file_desc fd).abs_offset ≡ p.abs_offset + n)
      × (IsFurther f n p (r.1.file_desc fd)
          ⊎ IsLast f n p (r.1.file_desc fd)
          ⊎ IsEntered f (fat_entry f.fat0_offset d) n p (r.1.file_desc fd))

  pub seek_advance_at :
      (f : FatInfo) (d : Disk) (fd n : ℕ) (p : FileDescriptor) (s : Sys Card)
      → IsLaidOut f
      → Stands laws f d s
      → s.file_desc fd ≡ p
      → IsInside f (fat_entry f.fat0_offset d) p
      → p.index_in_block + n ≤ 512
      → p.abs_offset + n < 2 ^ 32
      → AdvancedAt f d fd n s (seek_advance ops fd n s) p
  unfolding AdvancedAt set_desc
  seek_advance_at f d fd n p s g st e h le fits =
      let (q, s', run, st', same, file, abs, moved) =
        seek_advance_lem laws works f fd n d s g st
          (subst (λ p. IsInside f (fat_entry f.fat0_offset d) p) (sym e) h)
          (subst (λ p. p.index_in_block + n ≤ 512) (sym e) le)
          (subst (λ p. p.abs_offset + n < 2 ^ 32) (sym e) fits) in
      let stored : (set_desc fd q s').file_desc fd ≡ q = put_desc_self s'.file_desc fd q in
      subst (AdvancedAt f d fd n s (seek_advance ops fd n s)) e (
        subst (λ r. AdvancedAt f d fd n s r (s.file_desc fd)) (sym run)
          (
            refl,
            Stands-set_desc laws f d fd q s' st',
            λ i ne. put_desc_ne s'.file_desc fd i q ne ∙ ap (λ u. u i) same.desc,
            subst (SameFile (s.file_desc fd)) (sym stored) file,
            ap (λ q. q.abs_offset) stored ∙ abs,
            subst
                (λ q.
                  IsFurther f n (s.file_desc fd) q
                  ⊎ IsLast f n (s.file_desc fd) q
                  ⊎ IsEntered f (fat_entry f.fat0_offset d) n (s.file_desc fd) q)
                (sym stored) moved,
          ))

  transfer_lem :
      (fd n result : ℕ) (buf : Block) (p : FileDescriptor) (s : Sys Card)
      → let r = cache ops p.block_addr s in
        s.file_desc fd ≡ p
        → r.0 ≡ true
        → transfer ops false fd n result buf s
          ≡ (true, copy n buf result r.1.cache_block p.index_in_block, r.1)
  unfolding transfer
  transfer_lem fd n result buf p s e ok = ground (arith, e, ok)

  -- A round that takes `n` bytes.
  abbrev pub Rounds :
      FatInfo
      → Disk
      → ℕ
      → List ℕ
      → ℕ
      → ℕ
      → ℕ
      → Block
      → FileDescriptor
      → Sys Card
      → Bool × Block × Sys Card
      → Type 0
  Rounds f d k post fd n result buf p s r =
      let a = seek_advance ops fd n r.2 in
      (r.0 ≡ true)
      × (a.0 ≡ true)
      × ((x : ℕ) → (x < result) ⊎ (result + n ≤ x) → r.1 x ≡ buf x)
      × ((j : ℕ) → j < n → r.1 (result + j) ≡ chain_byte f d (k ∷ post) (in_cluster p + j))
      × Stands laws f d a.1
      × ((i : ℕ) → i ≢ fd → a.1.file_desc i ≡ s.file_desc i)
      × SameFile p (a.1.file_desc fd)
      × ((a.1.file_desc fd).abs_offset ≡ p.abs_offset + n)
      × NextPlace f (fat_entry f.fat0_offset d) k post n p (a.1.file_desc fd)

  pub round_lem :
      (f : FatInfo) (d : Disk) (k : ℕ) (post : List ℕ) (fd n result : ℕ) (buf : Block)
      (p : FileDescriptor) (s : Sys Card)
      → IsLaidOut f
      → DataFits f
      → Stands laws f d s
      → s.file_desc fd ≡ p
      → IsReading f (fat_entry f.fat0_offset d) k post p
      → 0 < n
      → n ≤ left p
      → p.index_in_block + n ≤ 512
      → Rounds f d k post fd n result buf p s (transfer ops false fd n result buf s)
  unfolding AdvancedAt
  round_lem f d k post fd n result buf p s g fit st e h pos le room =
      let t = fat_entry f.fat0_offset d in
      let here : IsInside f t p = IsReading-IsInside f t k post p fit h (omega arith) in
      let address = h.inside here.inside in
      let (ok, block, st1, same1) =
        cache_lem f d p.block_addr s st
          (λ a. address-valid f k p.block_in_cluster fit here.inside (sym address ∙ a)) in
      let s1 = (cache ops p.block_addr s).1 in
      let (ok2, st2, others, file, abs, moved) =
        seek_advance_at f d fd n p s1 g st1 (ap (λ u. u fd) same1.desc ∙ e) here room
          (omega (arith, h.size, h.before_end)) in
      subst (Rounds f d k post fd n result buf p s) (sym (transfer_lem fd n result buf p s e ok)) (
        refl,
        ok2,
        λ x out. copy-other n result p.index_in_block x buf s1.cache_block out,
        λ j lt.
            copy-inside n result p.index_in_block j buf s1.cache_block lt
            ∙ ap (λ (b : Block). b (p.index_in_block + j)) block
            ∙ ap (byte_at d)
                (sym (chain_place-block f k j post p here.inside address (omega arith))),
        st2,
        λ i ne. others i ne ∙ ap (λ u. u i) same1.desc,
        file,
        abs,
        advance-NextPlace f t k n post p ((seek_advance ops fd n s1).1.file_desc fd) fit h le file
            abs moved,
      )

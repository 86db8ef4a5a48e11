-- ===== src/Fat/Table/Alloc.antt =====
-- `alloc_cluster` of lib/fat/fat.c: it takes the first free cluster of the table.
use ccpu_libsys.Prelude.{
  ℕ, zero, suc, ◌+◌, ◌-◌, ◌*◌, ◌<◌, ◌≤◌, ◌≡◌, ◌≢◌, refl, sym, ap, ◌∙◌, true, Option, none, some,
  arith, ◌==◌, if◌then◌else◌, inl, inr, ◌⊎◌, Bool-cases,
}
use mathlib.Core.Path.{subst}
use native.Mathlib.Decide.{dec_lt}
use ccpu_libsys.Fat.Card.{Disk, update, CardOps, CardLaws, CardWorks}
use ccpu_libsys.Fat.Bytes.{get_word, put_word, u32, u16}
use ccpu_libsys.Fat.State.{Sys, FatInfo}
use ccpu_libsys.Fat.Cache.{cache, flush_cache, ◌&&>◌}
use ccpu_libsys.Fat.Cache.Laws.{SameTables, SameTables-trans, Stands}
use ccpu_libsys.Fat.Cache.Works.{cache-last_error}
use ccpu_libsys.Fat.Table.{
  entry_offset, store_entry, find_free_entry, flush_as, link_parent, take_entry, alloc_entry,
  alloc_from, alloc_cluster,
}
use ccpu_libsys.Fat.Table.Mirror.{IsMirrored, set_both-mirror_at, set_both-IsMirrored}
use ccpu_libsys.Fat.Table.Entries.{IsLaidOut, HasEntry, entry_block, fat_entry, set_both}
use ccpu_libsys.Fat.Table.Steps.{
  &&>-Succeeds, Succeeds, linked, cache_lem, flush_mirror, link_parent_lem,
}
use ccpu_libsys.Fat.Table.FindFree.{FreeEntry, find_free_entry_lem}

-- The first cluster, by number, whose entry in the first table is 0.
pub record FirstFree (f : FatInfo) (d : Disk) (c : ℕ) : Type 0 where
  pub entry : HasEntry f c
  pub free : fat_entry f.fat0_offset d c ≡ 0
  pub before : (j : ℕ) → j < c → fat_entry f.fat0_offset d j ≢ 0

module _ {Card : Type 0} {ops : CardOps Card} (laws : CardLaws ops) (works : CardWorks ops) where
  take_entry_lem :
      (f : FatInfo) (d : Disk) (last i j : ℕ) (s : Sys Card)
      → IsLaidOut f
      → IsMirrored f d
      → (last ≢ 0 → HasEntry f last)
      → i < f.sectors_per_fat
      → f.sectors_per_fat ≤ 256
      → j < 256
      → Stands laws f d s
      → s.cache_block_addr ≡ f.fat0_offset + i
      → s.cache_block ≡ d (f.fat0_offset + i)
      → Succeeds laws works f
          (linked laws works f last (256 * i + j) (set_both f (256 * i + j) 0xffff d))
          s
          (take_entry ops last (f.fat0_offset + i) j (256 * i + j) s)
  unfolding take_entry store_entry
  take_entry_lem f d last i j s g m e lt small ltj st ea eb =
      let k = 256 * i + j in
      let hk : HasEntry f k = record { word = omega arith; sector = omega arith } in
      let a0 = f.fat0_offset + i in
      let a1 = f.fat1_offset + i in
      let b = put_word (d a0) j 0xffff in
      let e0 = ap (λ (f : FatInfo). f.fat0_offset) st.info in
      let e1 = ap (λ (f : FatInfo). f.fat1_offset) st.info in
      let addr : a1 ≡ u32 (a0 + s.fat_info.fat1_offset + 0x1_0000_0000 - s.fat_info.fat0_offset) =
        omega (arith, e0, e1) in
      let d' = set_both f k 0xffff d in
      let same_disk : d' ≡ update (update d a0 b) a1 b =
        set_both-mirror_at g d k 0xffff a0 a1 j m hk (omega arith) (omega arith) (omega arith) in
      let s' = store_entry j 0xffff s in
      let mirrored : Succeeds laws works f d' s (flush_cache ops s' &&> flush_as ops a1) =
        rw same_disk (
          flush_mirror laws works f d a0 a1 b s s' (record { info = refl; desc = refl }) st.info ea
            (omega arith) (omega arith) (ap (λ b. put_word b j 0xffff) eb) st.on_disk) in
      &&>-Succeeds laws works _ (λ s2. if last == 0 then (true, s2) else link_parent ops last k s2)
        (subst (λ a. Succeeds laws works f d' s (flush_cache ops s' &&> flush_as ops a)) addr
          mirrored)
        λ t st'. elim (Bool-cases (last == 0)) [
          | inl z ↦ rw z (refl, st', record { info = refl; desc = refl })
          | inr nz ↦ rw nz (
              link_parent_lem laws works f d' last k t g (set_both-IsMirrored g d k 0xffff m hk)
                (e (ground arith)) st')
        ]

  -- What `alloc_cluster` may do: take the first free cluster, or report that there is none.
  abbrev pub Allocated : FatInfo → Disk → ℕ → Sys Card → ℕ × Sys Card → Type 0
  Allocated f d last s r =
      ((c : ℕ) × FirstFree f d c
        × (r.0 ≡ c)
        × Stands laws f (linked laws works f last c (set_both f c 0xffff d)) r.1
        × SameTables laws s r.1)
      ⊎ (((j : ℕ) → HasEntry f j → fat_entry f.fat0_offset d j ≢ 0)
          × (r.0 ≡ 0xffff)
          × Stands laws f d r.1
          × SameTables laws s r.1
          × (r.1.last_error ≡ s.last_error))

  Allocated-SameTables :
      (f : FatInfo) (d : Disk) (last : ℕ) (s t : Sys Card) (r : ℕ × Sys Card)
      → SameTables laws s t
      → t.last_error ≡ s.last_error
      → Allocated f d last t r
      → Allocated f d last s r
  Allocated-SameTables f d last s t r same ee (inl (c, ff, e, st, same')) =
      inl (c, ff, e, st, SameTables-trans laws same same')
  Allocated-SameTables f d last s t r same ee (inr (nf, e, st, same', ee')) =
      inr (nf, e, st, SameTables-trans laws same same', ee' ∙ ee)

  -- A round with a free entry in its sector.
  alloc_entry-some :
      (f : FatInfo) (d : Disk) (last i a c j : ℕ) (rest : ℕ × Sys Card) (s : Sys Card)
      → IsLaidOut f
      → IsMirrored f d
      → (last ≢ 0 → HasEntry f last)
      → f.sectors_per_fat ≤ 256
      → i < f.sectors_per_fat
      → a ≡ f.fat0_offset + i
      → c ≡ u16 (256 * i)
      → Stands laws f d s
      → s.cache_block_addr ≡ a
      → s.cache_block ≡ d a
      → j < 256
      → FirstFree f d (256 * i + j)
      → Allocated f d last s (alloc_entry ops last a c rest (some j) s)
  unfolding alloc_entry
  alloc_entry-some f d last i a c j rest s g m e small lt ea ec st eaddr eb ltj ff =
      let ek : u16 (c + j) ≡ 256 * i + j = omega arith in
      let (ok, st', same') =
        take_entry_lem f d last i j s g m e lt small ltj st (eaddr ∙ ea) (eb ∙ ap d ea) in
      rw (ek, ea, ok) (inl (256 * i + j, ff, refl, st', same'))

  -- An entry of the sector `i` of the first table.
  sector_entry :
      (f : FatInfo) (d : Disk) (i a j o : ℕ)
      → a ≡ f.fat0_offset + i
      → j ≡ 256 * i + o
      → o < 256
      → fat_entry f.fat0_offset d j ≡ get_word (d a) o
  unfolding fat_entry
  sector_entry f d i a j o ea ej lt =
      let e0 : entry_block f.fat0_offset j ≡ a = omega arith in
      let e1 : entry_offset j ≡ o = omega arith in rw (e0, e1)

  -- A round, from what the inner loop finds and what the next rounds give if it finds nothing.
  alloc_entry_lem :
      (f : FatInfo) (d : Disk) (last i a c : ℕ) (rest : ℕ × Sys Card) (o : Option ℕ) (s : Sys Card)
      → IsLaidOut f
      → IsMirrored f d
      → (last ≢ 0 → HasEntry f last)
      → f.sectors_per_fat ≤ 256
      → i < f.sectors_per_fat
      → a ≡ f.fat0_offset + i
      → c ≡ u16 (256 * i)
      → ((j : ℕ) → j < 256 * i → fat_entry f.fat0_offset d j ≢ 0)
      → Stands laws f d s
      → s.cache_block_addr ≡ a
      → s.cache_block ≡ d a
      → FreeEntry 256 0 (d a) o
      → (((j : ℕ) → j < 256 * (i + 1) → fat_entry f.fat0_offset d j ≢ 0)
          → Allocated f d last s rest)
      → Allocated f d last s (alloc_entry ops last a c rest o s)
  alloc_entry_lem f d last i a c rest (some j) s g m e small lt ea ec before st eaddr eb
        (ge, ltj, free, none_in) next =
      let entry = λ (o : ℕ) (h : o < 256). sector_entry f d i a (256 * i + o) o ea refl h in
      alloc_entry-some f d last i a c j rest s g m e small lt ea ec st eaddr eb (omega arith)
        (record {
          entry = record { word = omega arith; sector = omega arith };
          free = entry j (omega arith) ∙ free;
          before = λ x h. elim (dec_lt x (256 * i)) [
            | yes p ↦ before x p
            | no p ↦ λ z.
                none_in (x - 256 * i) (omega arith) (omega arith)
                  (sym (sector_entry f d i a x (x - 256 * i) ea (omega arith) (omega arith)) ∙ z)
          ];
        })
  alloc_entry_lem f d last i a c rest none s g m e small lt ea ec before st eaddr eb none_in next =
      all_done
    where
      all_before : (x : ℕ) → x < 256 * (i + 1) → fat_entry f.fat0_offset d x ≢ 0
      all_before x h = elim (dec_lt x (256 * i)) [
        | yes p ↦ before x p
        | no p ↦ λ z.
            none_in (x - 256 * i) (omega arith) (omega arith)
              (sym (sector_entry f d i a x (x - 256 * i) ea (omega arith) (omega arith)) ∙ z)
      ]

      all_done : Allocated f d last s (alloc_entry ops last a c rest none s)
      all_done = unfold alloc_entry in next all_before

  alloc_from_lem :
      (f : FatInfo) (d : Disk) (last n i a c : ℕ) (s : Sys Card)
      → IsLaidOut f
      → IsMirrored f d
      → (last ≢ 0 → HasEntry f last)
      → f.sectors_per_fat ≤ 256
      → i + n ≡ f.sectors_per_fat
      → a ≡ f.fat0_offset + i
      → c ≡ u16 (256 * i)
      → ((j : ℕ) → j < 256 * i → fat_entry f.fat0_offset d j ≢ 0)
      → Stands laws f d s
      → Allocated f d last s (alloc_from ops last n a c s)
  unfolding alloc_from
  alloc_from_lem f d last zero i a c s g m e small ei ea ec before st =
      inr (λ j h. before j (omega arith), refl, st, record { info = refl; desc = refl }, refl)
  alloc_from_lem f d last (suc n) i a c s g m e small ei ea ec before st =
      let (ok, st1, eb, ea1, same1) = cache_lem laws works f d a s st (omega arith) in
      let s1 = (cache ops a s).1 in
      let o = find_free_entry 256 0 s1.cache_block in
      rw ok (
        Allocated-SameTables f d last s s1 _ same1 (cache-last_error works a s) (
          alloc_entry_lem f d last i a c _ o s1 g m e small (omega arith) ea ec before st1 ea1 eb
            (subst (λ b. FreeEntry 256 0 b o) eb (find_free_entry_lem 256 0 s1.cache_block))
            λ before'.
              alloc_from_lem f d last n (i + 1) (u32 (a + 1)) (u16 (c + 256)) s1 g m e small
                (omega arith) (omega arith) (omega arith) before' st1))

  -- Over equal tables of at most 256 sectors that are laid out behind one another, on a card where
  -- no transfer fails, with a coherent cache, and with `last` 0 or a cluster of the table: if a
  -- cluster is free, `alloc_cluster` returns the first, marks it as the end of a chain, links it
  -- behind `last` unless that is 0, all this in both tables, and changes nothing else on the card.
  -- If none is free it returns 0xffff, and the card and `last_error` stay as they are.
  pub alloc_cluster_lem :
      (d : Disk) (last : ℕ) (s : Sys Card)
      → IsLaidOut s.fat_info
      → IsMirrored s.fat_info d
      → (last ≢ 0 → HasEntry s.fat_info last)
      → s.fat_info.sectors_per_fat ≤ 256
      → Stands laws s.fat_info d s
      → Allocated s.fat_info d last s (alloc_cluster ops last s)
  unfolding alloc_cluster
  alloc_cluster_lem d last s g m e small st =
      alloc_from_lem s.fat_info d last s.fat_info.sectors_per_fat 0 s.fat_info.fat0_offset 0 s g m e
        small (omega arith) (omega arith) (omega arith) (λ j h. absurd (omega arith)) st

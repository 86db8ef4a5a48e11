-- ===== src/Fat/Table/Steps.antt =====
-- The steps of `alloc_cluster` of lib/fat/fat.c that write both tables.
use ccpu_libsys.Prelude.{
  ℕ, ◌+◌, ◌-◌, ◌/◌, ◌<◌, ◌≡◌, refl, sym, ap, ◌∙◌, Bool, true, false, arith, ◌==◌, if◌then◌else◌,
}
use mathlib.Core.Path.{subst₂}
use ccpu_libsys.Fat.Card.{Block, Disk, update, CardOps, CardLaws, CardWorks}
use ccpu_libsys.Fat.Bytes.{put_word, u32, u8}
use ccpu_libsys.Fat.State.{Sys, FatInfo, invalid_block_addr}
use ccpu_libsys.Fat.Cache.{cache, flush_cache, ◌&&>◌}
use ccpu_libsys.Fat.Cache.Laws.{
  disk, SameTables, SameTables-trans, Stands, flush_cache-Flushed, flush_cache-Wrote, cache-Loaded,
}
use ccpu_libsys.Fat.Cache.Works.{cache_works, flush_cache_works}
use ccpu_libsys.Fat.Table.{store_entry, flush_as, link_parent}
use ccpu_libsys.Fat.Table.Mirror.{IsMirrored, update_comm, set_both-mirror}
use ccpu_libsys.Fat.Table.Entries.{IsLaidOut, HasEntry, entry_block, set_both}

module _ {Card : Type 0} {ops : CardOps Card} (laws : CardLaws ops) (works : CardWorks ops) where
  -- A flush that cannot fail.
  pub flush_cache_lem :
      (f : FatInfo) (d : Disk) (a : ℕ) (b : Block) (t : Sys Card)
      → t.fat_info ≡ f
      → t.cache_block_addr ≡ a
      → a < invalid_block_addr
      → t.cache_block ≡ b
      → disk laws t ≡ d
      → ((flush_cache ops t).0 ≡ true)
        × Stands laws f (update d a b) (flush_cache ops t).1
        × ((flush_cache ops t).1.cache_block ≡ b)
        × SameTables laws t (flush_cache ops t).1
  flush_cache_lem f d a b t ef ea lt eb ed =
      let ok = flush_cache_works works t in
      let w =
        flush_cache-Wrote laws d a b t t (record { info = refl; desc = refl }) ea (omega arith) eb
          ed in
      let fl = flush_cache-Flushed laws t (omega arith) in
      (
        ok,
        record { info = w.same.info ∙ ef; coherent = w.coherent ok; on_disk = w.done ok },
        fl.block ∙ eb,
        w.same,
      )

  pub cache_lem :
      (f : FatInfo) (d : Disk) (a : ℕ) (s : Sys Card)
      → Stands laws f d s
      → a < invalid_block_addr
      → ((cache ops a s).0 ≡ true)
        × Stands laws f d (cache ops a s).1
        × ((cache ops a s).1.cache_block ≡ d a)
        × ((cache ops a s).1.cache_block_addr ≡ a)
        × SameTables laws s (cache ops a s).1
  cache_lem f d a s st lt =
      let ok = cache_works works a s in
      let l = cache-Loaded laws a s (omega arith) st.coherent in
      (
        ok,
        record {
          info = l.same.info ∙ st.info;
          coherent = l.coherent;
          on_disk = l.same_disk ∙ st.on_disk;
        },
        (l.held ok).1 ∙ ap (λ (d : Disk). d a) st.on_disk,
        (l.held ok).0,
        l.same,
      )

  -- A step that succeeds and leaves the disk `d`, from the state `s`.
  abbrev pub Succeeds : FatInfo → Disk → Sys Card → Bool × Sys Card → Type 0
  Succeeds f d s r = (r.0 ≡ true) × Stands laws f d r.1 × SameTables laws s r.1

  pub &&>-Succeeds :
      {f : FatInfo} {d d' : Disk} {s : Sys Card} (r : Bool × Sys Card)
      (k : Sys Card → Bool × Sys Card)
      → Succeeds f d s r
      → ((t : Sys Card) → Stands laws f d t → Succeeds f d' t (k t))
      → Succeeds f d' s (r &&> k)
  &&>-Succeeds (true, t) k (ok, st, same) next =
      let (ok', st', same') = next t st in (ok', st', SameTables-trans laws same same')
  &&>-Succeeds (false, t) k (ok, st, same) next = cc ok

  -- A block is written to one table, then the same bytes to the other.
  pub flush_mirror :
      (f : FatInfo) (d : Disk) (a a' : ℕ) (b : Block) (s t : Sys Card)
      → SameTables laws s t
      → t.fat_info ≡ f
      → t.cache_block_addr ≡ a
      → a < invalid_block_addr
      → a' < invalid_block_addr
      → t.cache_block ≡ b
      → disk laws t ≡ d
      → Succeeds f (update (update d a b) a' b) s (flush_cache ops t &&> flush_as ops a')
  unfolding flush_as
  flush_mirror f d a a' b s t same0 ef ea lt lt' eb ed =
      let (ok, st, eb', same) = flush_cache_lem f d a b t ef ea lt eb ed in
      let t1 = record (flush_cache ops t).1 { cache_block_addr = a' } in
      let (ok', st', eb'', same') =
        flush_cache_lem f (update d a b) a' b t1 st.info refl lt' eb' st.on_disk in
      rw ok (
        ok',
        st',
        SameTables-trans laws (SameTables-trans laws same0 same)
            (record { info = same'.info; desc = same'.desc }),
      )

  -- The disk on which `alloc_cluster(last)` has taken cluster `c`.
  abbrev pub linked : FatInfo → ℕ → ℕ → Disk → Disk
  linked f last c d = if last == 0 then d else set_both f last c d

  -- The second table's block is changed first and copied to the first table.
  link_parent_mirror :
      (f : FatInfo) (d : Disk) (last c : ℕ) (s : Sys Card)
      → IsLaidOut f
      → IsMirrored f d
      → HasEntry f last
      → Stands laws f d s
      → Succeeds f (set_both f last c d) s (
          cache ops (entry_block f.fat1_offset last) s
          &&> (λ s1. flush_cache ops (store_entry (u8 last) c s1))
          &&> flush_as ops (entry_block f.fat0_offset last))
  unfolding store_entry
  link_parent_mirror f d last c s g m e st =
      let a0 = entry_block f.fat0_offset last in
      let a1 = entry_block f.fat1_offset last in
      let b = put_word (d a0) (u8 last) c in
      let (ok, st1, eb, ea, same) = cache_lem f d a1 s st (omega arith) in
      let s1 = (cache ops a1 s).1 in
      let same_block : put_word s1.cache_block (u8 last) c ≡ b =
        ap (λ b. put_word b (u8 last) c) (eb ∙ m (last / 256) e.sector) in
      let moved : update (update d a1 b) a0 b ≡ set_both f last c d =
        update_comm d a1 a0 b b (omega arith) ∙ sym (set_both-mirror g d last c m e) in
      rw (ok, ← moved)
        (flush_mirror f d a1 a0 b s (store_entry (u8 last) c s1)
          (record { info = same.info; desc = same.desc }) st1.info ea (omega arith) (omega arith)
          same_block st1.on_disk)

  pub link_parent_lem :
      (f : FatInfo) (d : Disk) (last c : ℕ) (s : Sys Card)
      → IsLaidOut f
      → IsMirrored f d
      → HasEntry f last
      → Stands laws f d s
      → Succeeds f (set_both f last c d) s (link_parent ops last c s)
  unfolding link_parent
  link_parent_lem f d last c s g m e st =
      let e0 = ap (λ (f : FatInfo). f.fat0_offset) st.info in
      let e1 = ap (λ (f : FatInfo). f.fat1_offset) st.info in
      let b1 = u32 (s.fat_info.fat1_offset + last / 256) in
      let b0 = u32 (b1 + s.fat_info.fat0_offset + 0x1_0000_0000 - s.fat_info.fat1_offset) in
      subst₂
        (λ a1 a0. Succeeds f (set_both f last c d) s (
          cache ops a1 s
          &&> (λ s1. flush_cache ops (store_entry (u8 last) c s1))
          &&> flush_as ops a0))
        (let p : entry_block f.fat1_offset last ≡ b1 = omega (arith, e0, e1) in p)
        (let p : entry_block f.fat0_offset last ≡ b0 = omega (arith, e0, e1) in p)
        (link_parent_mirror f d last c s g m e st)

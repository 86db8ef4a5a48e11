-- ===== src/Fat/Cache/Laws.antt =====
-- What `cache` and `flush_cache` of lib/fat/fat.c do to the card and to the cached block.
use ccpu_libsys.Prelude.{ℕ, ◌≡◌, ◌≢◌, refl, ap, ◌∙◌, Bool, true, false, arith}
use ccpu_libsys.Fat.Card.{Block, Disk, update, update_self, CardOps, CardLaws}
use ccpu_libsys.Fat.Error
use ccpu_libsys.Fat.State.{Sys, invalid_block_addr, FatInfo}
use ccpu_libsys.Fat.Cache.{set_fat_error, load_block, cache, flush_cache, ◌&&>◌}

module _ {Card : Type 0} {ops : CardOps Card} (laws : CardLaws ops) where
  open laws use {view, read_keeps, read_ok, write_ok, write_other, power_off_keeps}

  -- What the card stores.
  abbrev pub disk : Sys Card → Disk
  disk s = view s.card

  -- The cached block is the card's, if the cache is not empty.
  abbrev pub IsCoherent : Sys Card → Type 0
  IsCoherent s = s.cache_block_addr ≢ invalid_block_addr → s.cache_block ≡ disk s s.cache_block_addr

  set_fat_error-disk : (e : ℕ) (s : Sys Card) → disk (set_fat_error ops e s) ≡ disk s
  unfolding set_fat_error
  set_fat_error-disk e s = ground (arith, power_off_keeps s.card)

  -- The variables that only the callers of the cache change.
  pub record SameTables (s t : Sys Card) : Type 0 where
    pub info : t.fat_info ≡ s.fat_info
    pub desc : t.file_desc ≡ s.file_desc

  set_fat_error-SameTables : (e : ℕ) (s : Sys Card) → SameTables s (set_fat_error ops e s)
  unfolding set_fat_error
  set_fat_error-SameTables e s = record { info = ground arith; desc = ground arith }

  -- What holds between the calls of the table's functions: the geometry, and a coherent cache over the disk `d`.
  pub record Stands (f : FatInfo) (d : Disk) (s : Sys Card) : Type 0 where
    pub info : s.fat_info ≡ f
    pub coherent : IsCoherent s
    pub on_disk : disk s ≡ d

  -- What a call of `cache` may do: hold the block of the card, or fail with the cache empty and an
  -- error set; the card's content, the tables and coherence are kept.
  pub record Loaded (a : ℕ) (s : Sys Card) (r : Bool × Sys Card) : Type 0 where
    pub same_disk : disk r.1 ≡ disk s
    pub same : SameTables s r.1
    pub coherent : IsCoherent r.1
    pub held : r.0 ≡ true → (r.1.cache_block_addr ≡ a) × (r.1.cache_block ≡ disk s a)
    pub failed :
        r.0 ≡ false → (r.1.cache_block_addr ≡ invalid_block_addr) × (r.1.last_error ≢ Error.ok)

  load_block-Loaded : (a : ℕ) (s : Sys Card) → Loaded a s (load_block ops a s)
  unfolding load_block set_fat_error
  load_block-Loaded a s = ground (
    arith,
    read_keeps a s.cache_block s.card,
    read_ok a s.cache_block s.card,
    power_off_keeps (ops.read_block a s.cache_block s.card).2,
  )

  -- `cache` with a block address other than 0xffffffff and a coherent cache: on success the cache holds that block as
  -- the card stores it; on failure the cache is empty and an error is set. The card's content, the
  -- tables and coherence are kept.
  pub cache-Loaded :
      (a : ℕ) (s : Sys Card) → a ≢ invalid_block_addr → IsCoherent s → Loaded a s (cache ops a s)
  unfolding cache
  cache-Loaded a s h v = ground (arith, load_block-Loaded a s)

  -- What a call of `flush_cache` with a block in the cache may do: write that block and nothing
  -- else, or fail with an error set and no other block changed.
  pub record Flushed (s : Sys Card) (r : Bool × Sys Card) : Type 0 where
    pub same : SameTables s r.1
    pub block : r.1.cache_block ≡ s.cache_block
    pub addr : r.1.cache_block_addr ≡ s.cache_block_addr
    pub written : r.0 ≡ true → disk r.1 ≡ update (disk s) s.cache_block_addr s.cache_block
    pub other : (x : ℕ) → x ≢ s.cache_block_addr → disk r.1 x ≡ disk s x
    pub failed : r.0 ≡ false → r.1.last_error ≢ Error.ok

  flush_cache_other :
      (s : Sys Card) (x : ℕ) → x ≢ s.cache_block_addr → disk (flush_cache ops s).1 x ≡ disk s x
  unfolding flush_cache set_fat_error
  flush_cache_other s x ne = ground (
    arith,
    write_other s.cache_block_addr s.cache_block s.card x ne,
    power_off_keeps (ops.write_block s.cache_block_addr s.cache_block s.card).1,
  )

  -- `flush_cache` with a block in the cache writes that block and nothing else, or fails with an
  -- error set and no other block changed; the cache and the tables stay as they are.
  pub flush_cache-Flushed :
      (s : Sys Card) → s.cache_block_addr ≢ invalid_block_addr → Flushed s (flush_cache ops s)
  unfolding flush_cache set_fat_error
  flush_cache-Flushed s h = record {
    same = record { info = ground arith; desc = ground arith };
    block = ground arith;
    addr = ground arith;
    written = ground (arith, write_ok s.cache_block_addr s.cache_block s.card);
    other = flush_cache_other s;
    failed = ground arith;
  }

  -- A write that leads to the disk `d`, seen from the state `s` before it: it succeeds with `d` on
  -- the card and the cache coherent, or fails with an error set; the tables are kept.
  pub record Wrote (d : Disk) (s : Sys Card) (r : Bool × Sys Card) : Type 0 where
    pub same : SameTables s r.1
    pub coherent : r.0 ≡ true → IsCoherent r.1
    pub done : r.0 ≡ true → disk r.1 ≡ d
    pub failed : r.0 ≡ false → r.1.last_error ≢ Error.ok

  -- A flush of the block `b` for address `a` over the disk `d`.
  pub flush_cache-Wrote :
      (d : Disk) (a : ℕ) (b : Block) (s t : Sys Card)
      → SameTables s t
      → t.cache_block_addr ≡ a
      → a ≢ invalid_block_addr
      → t.cache_block ≡ b
      → disk t ≡ d
      → Wrote (update d a b) s (flush_cache ops t)
  flush_cache-Wrote d a b s t same ea na eb ed =
      let f : Flushed t (flush_cache ops t) = flush_cache-Flushed t (rw ea na) in
      let done : (flush_cache ops t).0 ≡ true → disk (flush_cache ops t).1 ≡ update d a b =
        λ e. cc (f.written e) in
      record {
        same = record { info = cc; desc = cc };
        coherent = λ e _. cc (done e, f.addr, f.block, update_self d a b);
        done = done;
        failed = f.failed;
      }

  -- The C idiom `if (!first) return false; next`.
  pub &&>-Wrote :
      (d : Disk) (s : Sys Card) (r : Bool × Sys Card) (k : Sys Card → Bool × Sys Card)
      → SameTables s r.1
      → (r.0 ≡ false → r.1.last_error ≢ Error.ok)
      → (r.0 ≡ true → Wrote d s (k r.1))
      → Wrote d s (r &&> k)
  &&>-Wrote d s (true, t) k same failed next = next refl
  &&>-Wrote d s (false, t) k same failed next = record {
    same = same;
    coherent = cc;
    done = cc;
    failed = failed;
  }

  pub SameTables-trans : {s t u : Sys Card} → SameTables s t → SameTables t u → SameTables s u
  SameTables-trans p q = record { info = q.info ∙ p.info; desc = q.desc ∙ p.desc }

  pub Wrote-SameTables :
      {d : Disk} {s t : Sys Card} {r : Bool × Sys Card} → SameTables s t → Wrote d t r → Wrote d s r
  Wrote-SameTables p w = record {
    same = SameTables-trans p w.same;
    coherent = w.coherent;
    done = w.done;
    failed = w.failed;
  }

  -- A read-modify-write: the block `a` on the card is changed by `h`.
  pub cache-flush_cache-Wrote :
      (a : ℕ) (h : Block → Block) (s : Sys Card)
      → a ≢ invalid_block_addr
      → IsCoherent s
      → Wrote
          (update (disk s) a (h (disk s a)))
          s
          (cache ops a s &&> λ t. flush_cache ops (record t { cache_block = h t.cache_block }))
  cache-flush_cache-Wrote a h s na c =
      let t = (cache ops a s).1 in
      let l : Loaded a s (cache ops a s) = cache-Loaded a s na c in
      &&>-Wrote (update (disk s) a (h (disk s a))) s (cache ops a s)
        (λ t. flush_cache ops (record t { cache_block = h t.cache_block })) l.same
        (λ e. (l.failed e).1)
        λ e.
          flush_cache-Wrote (disk s) a (h (disk s a)) s (record t { cache_block = h t.cache_block })
            (record { info = l.same.info; desc = l.same.desc }) (l.held e).0 na (ap h (l.held e).1)
            l.same_disk

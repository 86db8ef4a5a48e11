-- ===== src/Fat/Cache/Works.antt =====
-- The cache of lib/fat/fat.c over a card on which no transfer fails: no call of it fails.
use ccpu_libsys.Prelude.{ℕ, ◌≡◌, true, arith}
use ccpu_libsys.Fat.Card.{CardOps, CardWorks}
use ccpu_libsys.Fat.State.{Sys}
use ccpu_libsys.Fat.Cache.{load_block, cache, flush_cache}

module _ {Card : Type 0} {ops : CardOps Card} (works : CardWorks ops) where
  pub cache_works : (a : ℕ) (s : Sys Card) → (cache ops a s).0 ≡ true
  unfolding cache load_block
  cache_works a s = ground (arith, works.reads a s.cache_block s.card)

  pub flush_cache_works : (s : Sys Card) → (flush_cache ops s).0 ≡ true
  unfolding flush_cache
  flush_cache_works s = ground (arith, works.writes s.cache_block_addr s.cache_block s.card)

  pub cache-last_error : (a : ℕ) (s : Sys Card) → (cache ops a s).1.last_error ≡ s.last_error
  unfolding cache load_block
  cache-last_error a s = ground (arith, works.reads a s.cache_block s.card)

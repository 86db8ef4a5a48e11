-- ===== src/Fat/Cache.antt =====
-- The one-block cache of lib/fat/fat.c: `set_fat_error`, `cache` and `flush_cache`.
pub mod Laws
pub mod Works
use ccpu_libsys.Prelude.{ℕ, Bool, true, false, ◌==◌, if◌then◌else◌}
use ccpu_libsys.Fat.Card.{Block, CardOps}
use ccpu_libsys.Fat.Error
use ccpu_libsys.Fat.State.{Sys, invalid_block_addr}

-- `if (!f()) { return false; } …`
infixl 5 ◌&&>◌
abbrev pub ◌&&>◌ : {S : Type 0} → Bool × S → (S → Bool × S) → Bool × S
r &&> k = if r.0 then k r.1 else (false, r.1)

module _ {Card : Type 0} (ops : CardOps Card) where
  unfoldable pub set_fat_error : ℕ → Sys Card → Sys Card
  set_fat_error card_error s =
      if card_error == Error.card_no_card
      then record s { last_error = Error.no_card; card = ops.power_off s.card }
      else if card_error == Error.card_not_initialized
      then record s { last_error = Error.card_reinserted; card = ops.power_off s.card }
      else if card_error == Error.card_out_of_range
      then record s { last_error = Error.fs_broken }
      else record s { last_error = Error.card_failed; card = ops.power_off s.card }

  -- The part of `cache` behind the test for a hit.
  unfoldable pub load_block : ℕ → Sys Card → Bool × Sys Card
  load_block a s =
      let (r, b, c) = ops.read_block a s.cache_block s.card in
      if r == 0 then (true, record s { card = c; cache_block = b; cache_block_addr = a }) else (
        false,
        set_fat_error r
            (record s { card = c; cache_block = b; cache_block_addr = invalid_block_addr }),
      )

  unfoldable pub cache : ℕ → Sys Card → Bool × Sys Card
  cache a s = if s.cache_block_addr == a then (true, s) else load_block a s

  unfoldable pub flush_cache : Sys Card → Bool × Sys Card
  flush_cache s =
      let (r, c) = ops.write_block s.cache_block_addr s.cache_block s.card in
      if s.cache_block_addr == invalid_block_addr
      then (true, s)
      else if r == 0
      then (true, record s { card = c })
      else (false, set_fat_error r (record s { card = c }))

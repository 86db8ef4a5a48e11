-- ===== src/Fat/Action/Loop.antt =====
-- The rounds of `action_loop` of fat.c that read, and the chunks they take.
use ccpu_libsys.Prelude.{
  ℕ, suc, ◌+◌, ◌-◌, ◌<◌, ◌≤◌, ◌≡◌, ◌≢◌, refl, Bool, true, false, some, arith, ◌==◌, ◌&&◌, ltb,
}
use ccpu_libsys.Fat.Bytes.{u16}
use ccpu_libsys.Fat.Card.{Block, CardOps}
use ccpu_libsys.Fat.State.{Sys}
use ccpu_libsys.Fat.Desc.{get_desc, set_desc}
use ccpu_libsys.Fat.Seek.{seek_advance}
use ccpu_libsys.Fat.Action.{
  next_chunk, make_room, transfer, at_end, overruns, action_loop, fat_action,
}
use ccpu_libsys.Fat.Action.Content.{smaller}

-- A chunk is in the block, in the file and in what is asked for.
pub smaller_bounds :
    (len room rest : ℕ)
    → let c = smaller len (smaller room rest) in (c ≤ len) × (c ≤ room) × (c ≤ rest)
smaller_bounds len room rest = ground arith

pub smaller_zero :
    (len room rest : ℕ) → rest ≡ 0 → (smaller len (smaller room rest) ≡ 0) × (smaller len rest ≡ 0)
smaller_zero len room rest e = ground arith

pub smaller_pos :
    (len room rest : ℕ) → len ≢ 0 → 0 < room → 0 < rest → 0 < smaller len (smaller room rest)
smaller_pos len room rest l r e = ground arith

pub smaller_rest :
    (len room rest : ℕ)
    → let c = smaller len (smaller room rest) in c + smaller (len - c) (rest - c) ≡ smaller len rest
smaller_rest len room rest = ground arith

pub and_false : (b : Bool) → (b && false) ≡ false
and_false true = refl
and_false false = refl

module _ {Card : Type 0} (ops : CardOps Card) where
  pub action_loop-done :
      (is_write : Bool) (fd fuel len result : ℕ) (buf : Block) (s : Sys Card)
      → (len == 0) ≡ true
      → action_loop ops is_write fd (suc fuel) len result buf s ≡ some (result, buf, s)
  unfolding action_loop
  action_loop-done is_write fd fuel len result buf s e = rw e refl

  pub action_loop-end :
      (fd fuel len result : ℕ) (buf : Block) (s : Sys Card)
      → (len == 0) ≡ false
      → next_chunk false len (s.file_desc fd) ≡ (0, s.file_desc fd)
      → action_loop ops false fd (suc fuel) len result buf s
        ≡ some (result, buf, at_end fd (set_desc fd (s.file_desc fd) s))
  unfolding action_loop make_room
  action_loop-end fd fuel len result buf s more e = rw (more, e) refl

  pub action_loop-round :
      (is_write : Bool) (fd fuel len result c : ℕ) (buf : Block) (s : Sys Card)
      → let t = transfer ops is_write fd c result buf (set_desc fd (s.file_desc fd) s) in
        let r = seek_advance ops fd c t.2 in
        (len == 0) ≡ false
        → make_room ops is_write fd s ≡ (true, s)
        → next_chunk is_write len (s.file_desc fd) ≡ (c, s.file_desc fd)
        → (c == 0) ≡ false
        → (s.file_desc fd).index_in_block + c ≤ 512
        → t.0 ≡ true
        → r.0 ≡ true
        → action_loop ops is_write fd (suc fuel) len result buf s
          ≡ action_loop ops is_write fd fuel (len - c) (u16 (result + c)) t.1 r.1
  unfolding action_loop overruns
  action_loop-round is_write fd fuel len result c buf s more room e some_left fits ok ok2 =
      let here : ltb 512 ((s.file_desc fd).index_in_block + c) ≡ false = ground (arith, fits) in
      rw (more, room, e, some_left, here, and_false, ok, ok2) refl

  pub make_room-read : (fd : ℕ) (s : Sys Card) → make_room ops false fd s ≡ (true, s)
  unfolding make_room
  make_room-read fd s = refl

  pub fat_action-loop :
      (is_write : Bool) (fd len : ℕ) (buf : Block) (s : Sys Card)
      → get_desc fd s ≡ (true, s)
      → fat_action ops is_write fd len buf s ≡ action_loop ops is_write fd (len + 1) len 0 buf s
  unfolding fat_action
  fat_action-loop is_write fd len buf s got = rw got refl

module _ {Card : Type 0} where
  pub get_desc-open :
      (fd : ℕ) (s : Sys Card)
      → (s.file_desc fd).is_free ≡ false
      → (s.file_desc fd).is_stale ≡ false
      → get_desc fd s ≡ (true, s)
  unfolding get_desc
  get_desc-open fd s taken fresh = ground (arith, taken, fresh)

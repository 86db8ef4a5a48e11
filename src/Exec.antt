-- ===== src/Exec.antt =====
-- lib/fat/exec.c: a program file is loaded and started. `lorun` (lib/fat/lorun.asm) jumps to the
-- program and does not come back: the outcome `started`. The arguments of the program are passed on
-- to it and left out. The memory is a function from addresses to bytes; the RAM that
-- `copy_to_loram` fills at the addresses below 0x8000 is another one. The linker gives the address
-- `__seg_ramtext_begin`, which is the parameter `max_size`.
pub mod Pages
pub mod Loads
pub mod Refuses
pub mod Tests
use ccpu_libsys.Prelude.{
  ℕ, zero, suc, ◌+◌, ◌-◌, ◌*◌, ◌/◌, Bool, true, false, not, ◌&&◌, ◌||◌, Option, none, some, List,
  [], ◌∷◌, leb, ltb, if◌then◌else◌, ◌==◌,
}
use ccpu_libsys.Fat.Bytes.{u16}
use ccpu_libsys.Fat.Card.{Block, CardOps}
use ccpu_libsys.Fat.Error
use ccpu_libsys.Fat.State.{Sys, FatDirEntry, fat_bad_desc}
use ccpu_libsys.Fat.Desc.{fat_close, fat_get_dir_entry, set_error}
use ccpu_libsys.Fat.Action.{copy, fat_read}
use ccpu_libsys.Fat.Path.{fat_open_path}
use ccpu_libsys.Progressbar.{Memory, Bar, progressbar_init, progressbar_progress}

pub data Outcome : Type 0 where
  refused : Outcome
  started : Outcome

-- The state: that of the files, `loload_buf`, the RAM below 0x8000, and the bar with the memory.
pub record Machine (Card : Type 0) : Type 0 where
  pub sys : Sys Card
  pub loload_buf : Block
  pub lo_ram : Memory
  pub bar : Bar

-- `memcmp(ext, "APP", 3) == 0`, with `ext` the bytes of the name from the ninth on
unfoldable pub is_app : List ℕ → Bool
is_app (a ∷ b ∷ c ∷ ext) = a == b'A' && b == b'P' && c == b'P'
is_app _ = false

unfoldable pub extension : ℕ → List ℕ → List ℕ
extension zero name = name
extension (suc n) [] = []
extension (suc n) (c ∷ name) = extension n name

-- The bytes of the memory from an address on as a buffer, and back.
unfoldable pub buffer_at : ℕ → Memory → Block
buffer_at a mem i = mem (a + i)

unfoldable pub with_buffer : ℕ → Block → Memory → Memory
with_buffer a buf mem x = if leb a x then buf (x - a) else mem x

infixl 5 ◌>>=◌
abbrev pub ◌>>=◌ : {A B : Type 0} → Option A → (A → Option B) → Option B
none >>= k = none
some a >>= k = k a

module _ {Card : Type 0} where
  -- lib/fat/loload.asm: all of `loload_buf` goes to the page `dst_hi`.
  unfoldable pub copy_to_loram : ℕ → Machine Card → Machine Card
  copy_to_loram dst_hi m = record m { lo_ram = copy 256 m.lo_ram (dst_hi * 256) m.loload_buf 0 }

  -- `progressbar_progress(n)`. A bar with a step is in its cell after 81 rounds.
  unfoldable pub show_progress : ℕ → Machine Card → Option (Machine Card)
  show_progress n m = do bar' ← progressbar_progress 81 n m.bar; some (record m { bar = bar' })

  -- The rest of a round of "load lo RAM part", with what `fat_read` gave; `next` are the other rounds.
  unfoldable pub keep_page :
      ℕ
      → ℕ
      → (ℕ → Machine Card → Option (Bool × ℕ × Machine Card))
      → ℕ × Machine Card
      → Option (Bool × ℕ × Machine Card)
  keep_page size dst_hi next (r, m) =
      let rest = show_progress 1 (copy_to_loram dst_hi m) >>= next (u16 (size + 65536 - r)) in
      if not (r == 256) && not (m.sys.last_error == Error.eof) then some (false, size, m) else rest

  -- The rest of "load hi RAM part", with what `fat_read` gave.
  unfoldable pub keep_rest : ℕ → ℕ → Machine Card → Option (Bool × Machine Card)
  keep_rest size r m =
      let shown = show_progress (r / 256) m >>= λ m. some (true, m) in
      if not (r == size) then some (false, m) else shown

module _ {Card : Type 0} (ops : CardOps Card) where
  unfoldable pub refuse : ℕ → Machine Card → Outcome × Machine Card
  refuse fd m = (refused, record m { sys = (fat_close ops fd m.sys).1 })

  -- `last_error` is set after `fat_close`.
  unfoldable pub refuse_with : ℕ → ℕ → Machine Card → Outcome × Machine Card
  refuse_with e fd m = (refused, record m { sys = set_error e (fat_close ops fd m.sys).1 })

  -- `fat_read` of 256 bytes into `loload_buf`
  unfoldable pub read_page : ℕ → Machine Card → Option (ℕ × Machine Card)
  read_page fd m = do
    (r, buf, s) ← fat_read ops fd 256 m.loload_buf m.sys
    some (r, record m { sys = s; loload_buf = buf })

  -- "load lo RAM part": whether it went well, and the size that is left. `none` if the fuel runs out.
  unfoldable pub load_lo : ℕ → ℕ → ℕ → ℕ → Machine Card → Option (Bool × ℕ × Machine Card)
  load_lo zero fd size dst_hi m = none
  load_lo (suc fuel) fd size dst_hi m =
      let round =
        read_page fd m >>= keep_page size dst_hi (λ size m. load_lo fuel fd size (dst_hi + 1) m) in
      if size == 0 || dst_hi == 0x80 then some (true, size, m) else round

  -- "load hi RAM part", of `size` bytes to the address 0x8000
  unfoldable pub load_hi : ℕ → ℕ → Machine Card → Option (Bool × Machine Card)
  load_hi fd size m = do
    (r, buf, s) ← fat_read ops fd size (buffer_at 0x8000 m.bar.memory) m.sys
    keep_rest size r (record m {
      sys = s;
      bar = record (m.bar) { memory = with_buffer 0x8000 buf m.bar.memory };
    })

  -- `fat_close` and `lorun`, or `fat_close` and `return false`
  unfoldable pub finish_load : ℕ → Bool × Machine Card → Outcome × Machine Card
  finish_load fd (false, m) = refuse fd m
  finish_load fd (true, m) = (started, record m { sys = (fat_close ops fd m.sys).1 })

  -- After "load lo RAM part".
  unfoldable pub load_rest : ℕ → Bool × ℕ × Machine Card → Option (Outcome × Machine Card)
  load_rest fd (ok, size, m) =
      let rest = load_hi fd size m >>= λ r. some (finish_load fd r) in
      if not ok || size == 0 then some (finish_load fd (ok, m)) else rest

  -- From `progressbar_init` on. `dst_hi` grows up to 0x80, so 129 rounds are enough.
  unfoldable pub load_program : ℕ → ℕ → Machine Card → Option (Outcome × Machine Card)
  load_program fd size m =
      load_lo 129 fd size 0 (record m { bar = progressbar_init (size / 256) m.bar.memory })
      >>= load_rest fd

  unfoldable pub check_program :
      ℕ → ℕ → Option FatDirEntry → Machine Card → Option (Outcome × Machine Card)
  check_program max_size fd none m = some (refuse fd m)
  check_program max_size fd (some e) m =
      let run = load_program fd (u16 e.size) m in
      if not (is_app (extension 8 e.filename))
      then some (refuse_with Error.wrong_extension fd m)
      else if ltb max_size e.size
      then some (refuse_with Error.file_too_large fd m)
      else run

  unfoldable pub fat_exec_fd : ℕ → ℕ → Machine Card → Option (Outcome × Machine Card)
  fat_exec_fd max_size fd m =
      let (e, s) = fat_get_dir_entry fd m.sys in check_program max_size fd e (record m { sys = s })

  -- What follows `fat_open_path`.
  unfoldable pub opened : ℕ → Machine Card → ℕ × Sys Card → Option (Outcome × Machine Card)
  opened max_size m (fd, s) =
      let run = fat_exec_fd max_size fd (record m { sys = s }) in
      if fd == fat_bad_desc then some (refused, record m { sys = s }) else run

  -- `fuel` is for the search of the names in the path.
  unfoldable pub fat_exec : ℕ → ℕ → List ℕ → Machine Card → Option (Outcome × Machine Card)
  fat_exec max_size fuel filename m = fat_open_path ops fuel filename 0 m.sys >>= opened max_size m

-- ===== src/Progressbar.antt =====
-- lib/fat/progressbar.c: the bar in the last row of the display. The memory is a function from
-- addresses to bytes; `offset` is an address.
pub mod Row
pub mod Over
pub mod Tests
use ccpu_libsys.Prelude.{
  ℕ, zero, suc, ◌+◌, ◌-◌, ◌*◌, ◌%◌, Bool, ◌&&◌, Option, none, some, leb, ltb, if◌then◌else◌, ◌==◌,
}

abbrev pub Memory : Type 0
Memory = ℕ → ℕ

abbrev pub char_empty : ℕ
char_empty = 177

abbrev pub char_full : ℕ
char_full = 219

abbrev pub vga_cols : ℕ
vga_cols = 80

abbrev pub vga_rows : ℕ
vga_rows = 30

-- `VGA_CHAR_SEG + VGA_OFFSET(0, VGA_ROWS - 1)`
abbrev pub last_row : ℕ
last_row = 0xe000 + (vga_rows * 128 - 128)

-- The variables of progressbar.c, with the memory.
pub record Bar : Type 0 where
  pub last_x : ℕ
  pub last_y : ℕ
  pub offset : ℕ
  pub max_value : ℕ
  pub memory : Memory

-- `memset(at, value, n)`
unfoldable pub fill : ℕ → ℕ → ℕ → Memory → Memory
fill at value n mem x = if leb at x && ltb x (at + n) then value else mem x

unfoldable pub progressbar_init : ℕ → Memory → Bar
progressbar_init max_value mem = record {
  last_x = 0;
  last_y = 0;
  offset = last_row;
  max_value = max_value;
  memory = fill last_row char_empty vga_cols mem;
}

-- One cell.
unfoldable pub draw_cell : Bar → Bar
draw_cell b = record b {
  last_y = (b.last_y + b.max_value) % 65536;
  offset = (b.offset + 1) % 65536;
  memory = fill b.offset char_full 1 b.memory;
}

-- `while (last_y < last_x)`; `none` if the fuel runs out.
unfoldable pub catch_up : ℕ → Bar → Option Bar
catch_up zero b = none
catch_up (suc fuel) b =
    let rest = catch_up fuel (draw_cell b) in if ltb b.last_y b.last_x then rest else some b

abbrev pub next_round : Option Bar → (Bar → Option Bar) → Option Bar
next_round none k = none
next_round (some b) k = k b

-- Each of the `n` rounds of `for (i = 0; i != n; ++i)` has the fuel for its inner loop.
unfoldable pub progressbar_progress : ℕ → ℕ → Bar → Option Bar
progressbar_progress fuel zero b = some b
progressbar_progress fuel (suc n) b =
    next_round (catch_up fuel (record b { last_x = (b.last_x + vga_cols) % 65536 }))
      (progressbar_progress fuel n)

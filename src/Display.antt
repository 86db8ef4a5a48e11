-- ===== src/Display.antt =====
-- lib/vga.c: `vga_clear`. The memory is a function from addresses to bytes.
use ccpu_libsys.Prelude.{ℕ, ◌+◌, ◌*◌, ◌<◌, ◌≤◌, ◌≡◌, ◌⊎◌, arith}
use ccpu_libsys.Progressbar.{Memory, vga_cols, vga_rows, fill}

-- VGA_CHAR_SEG and VGA_COLOR_SEG
abbrev pub char_seg : ℕ
char_seg = 0xe000

abbrev pub color_seg : ℕ
color_seg = 0xd000

-- `VGA_OFFSET(col, row)`
abbrev pub vga_offset : ℕ → ℕ → ℕ
vga_offset col row = col + row * 128

unfoldable pub vga_clear : ℕ → Memory → Memory
vga_clear color mem = fill color_seg color (vga_rows * 128) (fill char_seg 0 (vga_rows * 128) mem)

-- After `vga_clear` every cell of the display has the character 0 and the color.
pub vga_clear_cell :
    (color col row : ℕ) (mem : Memory)
    → col < vga_cols
    → row < vga_rows
    → (vga_clear color mem (char_seg + vga_offset col row) ≡ 0)
      × (vga_clear color mem (color_seg + vga_offset col row) ≡ color)
unfolding vga_clear fill
vga_clear_cell color col row mem in_row in_rows =
    (ground (arith, in_row, in_rows), ground (arith, in_row, in_rows))

-- It changes the two segments alone, each of 30 rows of 128 bytes.
pub vga_clear_outside :
    (color x : ℕ) (mem : Memory)
    → (x < char_seg) ⊎ (char_seg + vga_rows * 128 ≤ x)
    → (x < color_seg) ⊎ (color_seg + vga_rows * 128 ≤ x)
    → vga_clear color mem x ≡ mem x
unfolding vga_clear fill
vga_clear_outside color x mem chars colors = ground (arith, chars, colors)

-- ===== src/Keyboard/Scancodes.antt =====
-- lib/ps2keyboard.c: the tables `scancode` and `scancode_ext`. Entries with no initialiser are 0.
use ccpu_libsys.Prelude.{ℕ, List, [], ◌∷◌, ◌==◌, if◌then◌else◌}
use ccpu_libsys.Keyboard.Keys.{
  key_0, key_1, key_2, key_3, key_4, key_5, key_6, key_7, key_8, key_9, key_a, key_b, key_backquote,
  key_backspace, key_c, key_capslock, key_comma, key_d, key_dash, key_delete, key_dot, key_down,
  key_e, key_end, key_enter, key_equals, key_escape, key_f, key_f1, key_f10, key_f11, key_f12,
  key_f2, key_f3, key_f4, key_f5, key_f6, key_f7, key_f8, key_f9, key_g, key_h, key_home, key_i,
  key_insert, key_j, key_k, key_l, key_lalt, key_lbrace, key_lctrl, key_left, key_lshift, key_lwin,
  key_m, key_menu, key_n, key_num_0, key_num_1, key_num_2, key_num_3, key_num_4, key_num_5,
  key_num_6, key_num_7, key_num_8, key_num_9, key_num_add, key_num_div, key_num_dot, key_num_enter,
  key_num_mul, key_num_sub, key_numlock, key_o, key_p, key_pagedown, key_pageup, key_q, key_quote,
  key_r, key_ralt, key_rbrace, key_rctrl, key_right, key_rshift, key_rwin, key_s, key_scrolllock,
  key_semicolon, key_slash, key_space, key_t, key_tab, key_u, key_up, key_v, key_w, key_x, key_y,
  key_z,
}

-- `scancode[256]`, up to its last initialiser, at index 0x83.
unfoldable pub scancode : List ℕ
scancode =
    0 ∷ key_f9 ∷ 0 ∷ key_f5 ∷ key_f3 ∷ key_f1 ∷ key_f2 ∷ key_f12 ∷ 0 ∷ key_f10 ∷ key_f8 ∷ key_f6
    ∷ key_f4 ∷ key_tab ∷ key_backquote ∷ 0 ∷ 0 ∷ key_lalt ∷ key_lshift ∷ 0 ∷ key_lctrl ∷ key_q
    ∷ key_1 ∷ 0 ∷ 0 ∷ 0 ∷ key_z ∷ key_s ∷ key_a ∷ key_w ∷ key_2 ∷ 0 ∷ 0 ∷ key_c ∷ key_x ∷ key_d
    ∷ key_e ∷ key_4 ∷ key_3 ∷ 0 ∷ 0 ∷ key_space ∷ key_v ∷ key_f ∷ key_t ∷ key_r ∷ key_5 ∷ 0 ∷ 0
    ∷ key_n ∷ key_b ∷ key_h ∷ key_g ∷ key_y ∷ key_6 ∷ 0 ∷ 0 ∷ 0 ∷ key_m ∷ key_j ∷ key_u ∷ key_7
    ∷ key_8 ∷ 0 ∷ 0 ∷ key_comma ∷ key_k ∷ key_i ∷ key_o ∷ key_0 ∷ key_9 ∷ 0 ∷ 0 ∷ key_dot
    ∷ key_slash ∷ key_l ∷ key_semicolon ∷ key_p ∷ key_dash ∷ 0 ∷ 0 ∷ 0 ∷ key_quote ∷ 0 ∷ key_lbrace
    ∷ key_equals ∷ 0 ∷ 0 ∷ key_capslock ∷ key_rshift ∷ key_enter ∷ key_rbrace ∷ 0 ∷ 0 ∷ 0 ∷ 0 ∷ 0
    ∷ 0 ∷ 0 ∷ 0 ∷ 0 ∷ 0 ∷ key_backspace ∷ 0 ∷ 0 ∷ key_num_1 ∷ 0 ∷ key_num_4 ∷ key_num_7 ∷ 0 ∷ 0 ∷ 0
    ∷ key_num_0 ∷ key_num_dot ∷ key_num_2 ∷ key_num_5 ∷ key_num_6 ∷ key_num_8 ∷ key_escape
    ∷ key_numlock ∷ key_f11 ∷ key_num_add ∷ key_num_3 ∷ key_num_sub ∷ key_num_mul ∷ key_num_9
    ∷ key_scrolllock ∷ 0 ∷ 0 ∷ 0 ∷ 0 ∷ key_f7 ∷ []

-- A table given by designated initialisers, `[index] = value`.
unfoldable pub entry : List (ℕ × ℕ) → ℕ → ℕ
entry [] i = 0
entry ((j, v) ∷ t) i = if j == i then v else entry t i

unfoldable pub scancode_ext : List (ℕ × ℕ)
scancode_ext =
    (0x11, key_ralt)
    ∷ (0x14, key_rctrl)
    ∷ (0x1f, key_lwin)
    ∷ (0x27, key_rwin)
    ∷ (0x2f, key_menu)
    ∷ (0x4a, key_num_div)
    ∷ (0x5a, key_num_enter)
    ∷ (0x69, key_end)
    ∷ (0x6b, key_left)
    ∷ (0x6c, key_home)
    ∷ (0x70, key_insert)
    ∷ (0x71, key_delete)
    ∷ (0x72, key_down)
    ∷ (0x74, key_right)
    ∷ (0x75, key_up)
    ∷ (0x7a, key_pagedown)
    ∷ (0x7d, key_pageup)
    ∷ []

-- ===== src/Keyboard/Keymaps.antt =====
-- lib/ps2keyboard.c: the tables `ps2_keymap` and `ps2_keymap_shift`, from key codes to characters.
use ccpu_libsys.Prelude.{ℕ, List, [], ◌∷◌}
use ccpu_libsys.Keyboard.Keys.{
  key_0, key_1, key_2, key_3, key_4, key_5, key_6, key_7, key_8, key_9, key_a, key_b, key_backquote,
  key_backslash, key_c, key_comma, key_d, key_dash, key_dot, key_e, key_equals, key_f, key_g, key_h,
  key_i, key_j, key_k, key_l, key_lbrace, key_m, key_n, key_num_0, key_num_1, key_num_2, key_num_3,
  key_num_4, key_num_5, key_num_6, key_num_7, key_num_8, key_num_9, key_num_add, key_num_div,
  key_num_dot, key_num_mul, key_num_sub, key_o, key_p, key_pipe, key_q, key_quote, key_r,
  key_rbrace, key_s, key_semicolon, key_slash, key_space, key_t, key_u, key_v, key_w, key_x, key_y,
  key_z,
}

unfoldable pub ps2_keymap : List (ℕ × ℕ)
ps2_keymap =
    (key_a, b'a')
    ∷ (key_b, b'b')
    ∷ (key_c, b'c')
    ∷ (key_d, b'd')
    ∷ (key_e, b'e')
    ∷ (key_f, b'f')
    ∷ (key_g, b'g')
    ∷ (key_h, b'h')
    ∷ (key_i, b'i')
    ∷ (key_j, b'j')
    ∷ (key_k, b'k')
    ∷ (key_l, b'l')
    ∷ (key_m, b'm')
    ∷ (key_n, b'n')
    ∷ (key_o, b'o')
    ∷ (key_p, b'p')
    ∷ (key_q, b'q')
    ∷ (key_r, b'r')
    ∷ (key_s, b's')
    ∷ (key_t, b't')
    ∷ (key_u, b'u')
    ∷ (key_v, b'v')
    ∷ (key_w, b'w')
    ∷ (key_x, b'x')
    ∷ (key_y, b'y')
    ∷ (key_z, b'z')
    ∷ (key_0, b'0')
    ∷ (key_1, b'1')
    ∷ (key_2, b'2')
    ∷ (key_3, b'3')
    ∷ (key_4, b'4')
    ∷ (key_5, b'5')
    ∷ (key_6, b'6')
    ∷ (key_7, b'7')
    ∷ (key_8, b'8')
    ∷ (key_9, b'9')
    ∷ (key_backquote, b'`')
    ∷ (key_dash, b'-')
    ∷ (key_equals, b'=')
    ∷ (key_lbrace, b'[')
    ∷ (key_rbrace, b']')
    ∷ (key_semicolon, b';')
    ∷ (key_quote, 39)
    ∷ (key_backslash, 92)
    ∷ (key_pipe, b'`')
    ∷ (key_comma, b',')
    ∷ (key_dot, b'.')
    ∷ (key_slash, b'/')
    ∷ (key_space, b' ')
    ∷ (key_num_div, b'/')
    ∷ (key_num_mul, b'*')
    ∷ (key_num_sub, b'-')
    ∷ (key_num_add, b'+')
    ∷ (key_num_dot, b'.')
    ∷ (key_num_0, b'0')
    ∷ (key_num_1, b'1')
    ∷ (key_num_2, b'2')
    ∷ (key_num_3, b'3')
    ∷ (key_num_4, b'4')
    ∷ (key_num_5, b'5')
    ∷ (key_num_6, b'6')
    ∷ (key_num_7, b'7')
    ∷ (key_num_8, b'8')
    ∷ (key_num_9, b'9')
    ∷ []

unfoldable pub ps2_keymap_shift : List (ℕ × ℕ)
ps2_keymap_shift =
    (key_a, b'A')
    ∷ (key_b, b'B')
    ∷ (key_c, b'C')
    ∷ (key_d, b'D')
    ∷ (key_e, b'E')
    ∷ (key_f, b'F')
    ∷ (key_g, b'G')
    ∷ (key_h, b'H')
    ∷ (key_i, b'I')
    ∷ (key_j, b'J')
    ∷ (key_k, b'K')
    ∷ (key_l, b'L')
    ∷ (key_m, b'M')
    ∷ (key_n, b'N')
    ∷ (key_o, b'O')
    ∷ (key_p, b'P')
    ∷ (key_q, b'Q')
    ∷ (key_r, b'R')
    ∷ (key_s, b'S')
    ∷ (key_t, b'T')
    ∷ (key_u, b'U')
    ∷ (key_v, b'V')
    ∷ (key_w, b'W')
    ∷ (key_x, b'X')
    ∷ (key_y, b'Y')
    ∷ (key_z, b'Z')
    ∷ (key_0, b')')
    ∷ (key_1, b'!')
    ∷ (key_2, b'@')
    ∷ (key_3, b'#')
    ∷ (key_4, b'$')
    ∷ (key_5, b'%')
    ∷ (key_6, b'^')
    ∷ (key_7, b'&')
    ∷ (key_8, b'*')
    ∷ (key_9, b'(')
    ∷ (key_backquote, b'~')
    ∷ (key_dash, b'_')
    ∷ (key_equals, b'+')
    ∷ (key_lbrace, b'{')
    ∷ (key_rbrace, b'}')
    ∷ (key_semicolon, b':')
    ∷ (key_quote, 34)
    ∷ (key_backslash, b'|')
    ∷ (key_pipe, b'~')
    ∷ (key_comma, b'<')
    ∷ (key_dot, b'>')
    ∷ (key_slash, b'?')
    ∷ (key_space, b' ')
    ∷ (key_num_div, b'/')
    ∷ (key_num_mul, b'*')
    ∷ (key_num_sub, b'-')
    ∷ (key_num_add, b'+')
    ∷ (key_num_dot, b'.')
    ∷ (key_num_0, b'0')
    ∷ (key_num_1, b'1')
    ∷ (key_num_2, b'2')
    ∷ (key_num_3, b'3')
    ∷ (key_num_4, b'4')
    ∷ (key_num_5, b'5')
    ∷ (key_num_6, b'6')
    ∷ (key_num_7, b'7')
    ∷ (key_num_8, b'8')
    ∷ (key_num_9, b'9')
    ∷ []

-- ===== src/Keyboard/Keys/Printing.antt =====
-- include/libsys/ps2keyboard.h: the codes of keys that print, which are ASCII, and the two markers.
use ccpu_libsys.Prelude.{ℕ}

abbrev pub key_release : ℕ
key_release = 0x80

abbrev pub key_none : ℕ
key_none = 0

abbrev pub key_a : ℕ
key_a = b'A'

abbrev pub key_b : ℕ
key_b = b'B'

abbrev pub key_c : ℕ
key_c = b'C'

abbrev pub key_d : ℕ
key_d = b'D'

abbrev pub key_e : ℕ
key_e = b'E'

abbrev pub key_f : ℕ
key_f = b'F'

abbrev pub key_g : ℕ
key_g = b'G'

abbrev pub key_h : ℕ
key_h = b'H'

abbrev pub key_i : ℕ
key_i = b'I'

abbrev pub key_j : ℕ
key_j = b'J'

abbrev pub key_k : ℕ
key_k = b'K'

abbrev pub key_l : ℕ
key_l = b'L'

abbrev pub key_m : ℕ
key_m = b'M'

abbrev pub key_n : ℕ
key_n = b'N'

abbrev pub key_o : ℕ
key_o = b'O'

abbrev pub key_p : ℕ
key_p = b'P'

abbrev pub key_q : ℕ
key_q = b'Q'

abbrev pub key_r : ℕ
key_r = b'R'

abbrev pub key_s : ℕ
key_s = b'S'

abbrev pub key_t : ℕ
key_t = b'T'

abbrev pub key_u : ℕ
key_u = b'U'

abbrev pub key_v : ℕ
key_v = b'V'

abbrev pub key_w : ℕ
key_w = b'W'

abbrev pub key_x : ℕ
key_x = b'X'

abbrev pub key_y : ℕ
key_y = b'Y'

abbrev pub key_z : ℕ
key_z = b'Z'

abbrev pub key_0 : ℕ
key_0 = b'0'

abbrev pub key_1 : ℕ
key_1 = b'1'

abbrev pub key_2 : ℕ
key_2 = b'2'

abbrev pub key_3 : ℕ
key_3 = b'3'

abbrev pub key_4 : ℕ
key_4 = b'4'

abbrev pub key_5 : ℕ
key_5 = b'5'

abbrev pub key_6 : ℕ
key_6 = b'6'

abbrev pub key_7 : ℕ
key_7 = b'7'

abbrev pub key_8 : ℕ
key_8 = b'8'

abbrev pub key_9 : ℕ
key_9 = b'9'

abbrev pub key_backquote : ℕ
key_backquote = b'`'

abbrev pub key_dash : ℕ
key_dash = b'-'

abbrev pub key_equals : ℕ
key_equals = b'='

abbrev pub key_lbrace : ℕ
key_lbrace = b'['

abbrev pub key_rbrace : ℕ
key_rbrace = b']'

abbrev pub key_semicolon : ℕ
key_semicolon = b';'

abbrev pub key_quote : ℕ
key_quote = 34

abbrev pub key_backslash : ℕ
key_backslash = 92

abbrev pub key_pipe : ℕ
key_pipe = b'|'

abbrev pub key_comma : ℕ
key_comma = b','

abbrev pub key_dot : ℕ
key_dot = b'.'

abbrev pub key_slash : ℕ
key_slash = b'/'

abbrev pub key_space : ℕ
key_space = b' '

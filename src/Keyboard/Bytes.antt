-- ===== src/Keyboard/Bytes.antt =====
-- What the byte operations and the tables of lib/ps2keyboard.c give, value by value.
use ccpu_libsys.Prelude.{
  ℕ, suc, zero, ◌+◌, ◌<◌, ◌≡◌, refl, inl, inr, Bool, true, false, ◌||◌, ◌&&◌, List, [], ◌∷◌, arith,
  ==_iff, ltb, ◌==◌, get_or, bit_or, check_range, checked, all, Bool-cases,
}
use ccpu_libsys.Keyboard.Scancodes.{scancode, scancode_ext, entry}
use ccpu_libsys.Keyboard.Keys.{
  key_escape, key_f1, key_f2, key_f3, key_f4, key_f5, key_f6, key_f7, key_f8, key_f9, key_f10,
  key_f11, key_f12, key_backspace, key_tab, key_capslock, key_enter, key_lshift, key_rshift,
  key_lctrl, key_lalt, key_lwin, key_ralt, key_rwin, key_menu, key_rctrl, key_insert, key_delete,
  key_home, key_end, key_pageup, key_pagedown, key_left, key_right, key_up, key_down, key_numlock,
  key_num_div, key_num_mul, key_num_sub, key_num_add, key_num_enter, key_num_dot, key_num_0,
  key_num_1, key_num_2, key_num_3, key_num_4, key_num_5, key_num_6, key_num_7, key_num_8, key_num_9,
  key_scrolllock, key_pause, key_print, key_a, key_b, key_c, key_d, key_e, key_f, key_g, key_h,
  key_i, key_j, key_k, key_l, key_m, key_n, key_o, key_p, key_q, key_r, key_s, key_t, key_u, key_v,
  key_w, key_x, key_y, key_z, key_0, key_1, key_2, key_3, key_4, key_5, key_6, key_7, key_8, key_9,
  key_backquote, key_dash, key_equals, key_lbrace, key_rbrace, key_semicolon, key_quote, key_comma,
  key_dot, key_slash, key_space,
}

bit_or_release_table : check_range 0 128 (λ x. bit_or x 0x80 == x + 128) ≡ true
unfolding check_range
bit_or_release_table = refl

pub bit_or_release : (x : ℕ) → x < 128 → bit_or x 0x80 ≡ x + 128
bit_or_release x h = (==_iff _ _).0 (checked h _ bit_or_release_table)

bit_or_zero_table : check_range 0 128 (λ x. bit_or x 0 == x) ≡ true
unfolding check_range
bit_or_zero_table = refl

pub bit_or_zero : (x : ℕ) → x < 128 → bit_or x 0 ≡ x
bit_or_zero x h = (==_iff _ _).0 (checked h _ bit_or_zero_table)

-- Every key of include/libsys/ps2keyboard.h but the backslash and the pipe.
unfoldable pub typed_keys : List ℕ
typed_keys =
    key_escape ∷ key_f1 ∷ key_f2 ∷ key_f3 ∷ key_f4 ∷ key_f5 ∷ key_f6 ∷ key_f7 ∷ key_f8 ∷ key_f9
    ∷ key_f10 ∷ key_f11 ∷ key_f12 ∷ key_backspace ∷ key_tab ∷ key_capslock ∷ key_enter ∷ key_lshift
    ∷ key_rshift ∷ key_lctrl ∷ key_lalt ∷ key_lwin ∷ key_ralt ∷ key_rwin ∷ key_menu ∷ key_rctrl
    ∷ key_insert ∷ key_delete ∷ key_home ∷ key_end ∷ key_pageup ∷ key_pagedown ∷ key_left
    ∷ key_right ∷ key_up ∷ key_down ∷ key_numlock ∷ key_num_div ∷ key_num_mul ∷ key_num_sub
    ∷ key_num_add ∷ key_num_enter ∷ key_num_dot ∷ key_num_0 ∷ key_num_1 ∷ key_num_2 ∷ key_num_3
    ∷ key_num_4 ∷ key_num_5 ∷ key_num_6 ∷ key_num_7 ∷ key_num_8 ∷ key_num_9 ∷ key_scrolllock
    ∷ key_pause ∷ key_print ∷ key_a ∷ key_b ∷ key_c ∷ key_d ∷ key_e ∷ key_f ∷ key_g ∷ key_h ∷ key_i
    ∷ key_j ∷ key_k ∷ key_l ∷ key_m ∷ key_n ∷ key_o ∷ key_p ∷ key_q ∷ key_r ∷ key_s ∷ key_t ∷ key_u
    ∷ key_v ∷ key_w ∷ key_x ∷ key_y ∷ key_z ∷ key_0 ∷ key_1 ∷ key_2 ∷ key_3 ∷ key_4 ∷ key_5 ∷ key_6
    ∷ key_7 ∷ key_8 ∷ key_9 ∷ key_backquote ∷ key_dash ∷ key_equals ∷ key_lbrace ∷ key_rbrace
    ∷ key_semicolon ∷ key_quote ∷ key_comma ∷ key_dot ∷ key_slash ∷ key_space ∷ []

unfoldable pub is_in : ℕ → List ℕ → Bool
is_in v [] = false
is_in v (k ∷ ks) = v == k || is_in v ks

-- What a scancode table may hold: no key, or one of those.
abbrev pub IsKey : ℕ → Type 0
IsKey v = (v < 128) × ((v == 0 || is_in v typed_keys) ≡ true)

is_key : ℕ → Bool
is_key v = ltb v 128 && (v == 0 || is_in v typed_keys)

is_key→IsKey : (v : ℕ) → is_key v ≡ true → IsKey v
unfolding is_key
is_key→IsKey v h = ground arith

get_or-IsKey : (t : List ℕ) (i : ℕ) → all is_key t ≡ true → IsKey (get_or t i 0)
get_or-IsKey [] i h = (omega arith, refl)
get_or-IsKey (v ∷ t) zero h = is_key→IsKey v (ground arith)
get_or-IsKey (v ∷ t) (suc i) h = get_or-IsKey t i (ground arith)

entry-IsKey : (t : List (ℕ × ℕ)) (i : ℕ) → all (λ p. is_key p.1) t ≡ true → IsKey (entry t i)
unfolding entry
entry-IsKey [] i h = (omega arith, refl)
entry-IsKey ((j, v) ∷ t) i h = elim (Bool-cases (j == i)) [
  | inl e ↦ rw e (is_key→IsKey v (ground arith))
  | inr e ↦ rw e (entry-IsKey t i (ground arith))
]

pub scancode-IsKey : (code : ℕ) → IsKey (get_or scancode code 0)
unfolding is_key scancode typed_keys is_in
scancode-IsKey code = get_or-IsKey scancode code refl

pub scancode_ext-IsKey : (code : ℕ) → IsKey (entry scancode_ext code)
unfolding is_key scancode_ext typed_keys is_in
scancode_ext-IsKey code = entry-IsKey scancode_ext code refl

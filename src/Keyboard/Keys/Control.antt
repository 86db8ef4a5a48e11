-- ===== src/Keyboard/Keys/Control.antt =====
-- include/libsys/ps2keyboard.h: the codes of the other keys.
use ccpu_libsys.Prelude.{ℕ}

abbrev pub key_escape : ℕ
key_escape = 121

abbrev pub key_f1 : ℕ
key_f1 = 1

abbrev pub key_f2 : ℕ
key_f2 = 2

abbrev pub key_f3 : ℕ
key_f3 = 3

abbrev pub key_f4 : ℕ
key_f4 = 4

abbrev pub key_f5 : ℕ
key_f5 = 5

abbrev pub key_f6 : ℕ
key_f6 = 6

abbrev pub key_f7 : ℕ
key_f7 = 7

abbrev pub key_f8 : ℕ
key_f8 = 8

abbrev pub key_f9 : ℕ
key_f9 = 9

abbrev pub key_f10 : ℕ
key_f10 = 10

abbrev pub key_f11 : ℕ
key_f11 = 11

abbrev pub key_f12 : ℕ
key_f12 = 12

abbrev pub key_backspace : ℕ
key_backspace = 13

abbrev pub key_tab : ℕ
key_tab = 14

abbrev pub key_capslock : ℕ
key_capslock = 15

abbrev pub key_enter : ℕ
key_enter = 16

abbrev pub key_lshift : ℕ
key_lshift = 17

abbrev pub key_rshift : ℕ
key_rshift = 18

abbrev pub key_lctrl : ℕ
key_lctrl = 19

abbrev pub key_lalt : ℕ
key_lalt = 20

abbrev pub key_lwin : ℕ
key_lwin = 21

abbrev pub key_ralt : ℕ
key_ralt = 22

abbrev pub key_rwin : ℕ
key_rwin = 23

abbrev pub key_menu : ℕ
key_menu = 24

abbrev pub key_rctrl : ℕ
key_rctrl = 25

abbrev pub key_insert : ℕ
key_insert = 26

abbrev pub key_delete : ℕ
key_delete = 27

abbrev pub key_home : ℕ
key_home = 28

abbrev pub key_end : ℕ
key_end = 29

abbrev pub key_pageup : ℕ
key_pageup = 30

abbrev pub key_pagedown : ℕ
key_pagedown = 31

abbrev pub key_left : ℕ
key_left = 97

abbrev pub key_right : ℕ
key_right = 98

abbrev pub key_up : ℕ
key_up = 99

abbrev pub key_down : ℕ
key_down = 100

abbrev pub key_numlock : ℕ
key_numlock = 101

abbrev pub key_num_div : ℕ
key_num_div = 102

abbrev pub key_num_mul : ℕ
key_num_mul = 103

abbrev pub key_num_sub : ℕ
key_num_sub = 104

abbrev pub key_num_add : ℕ
key_num_add = 105

abbrev pub key_num_enter : ℕ
key_num_enter = 106

abbrev pub key_num_dot : ℕ
key_num_dot = 107

abbrev pub key_num_0 : ℕ
key_num_0 = 108

abbrev pub key_num_1 : ℕ
key_num_1 = 109

abbrev pub key_num_2 : ℕ
key_num_2 = 110

abbrev pub key_num_3 : ℕ
key_num_3 = 111

abbrev pub key_num_4 : ℕ
key_num_4 = 112

abbrev pub key_num_5 : ℕ
key_num_5 = 113

abbrev pub key_num_6 : ℕ
key_num_6 = 114

abbrev pub key_num_7 : ℕ
key_num_7 = 115

abbrev pub key_num_8 : ℕ
key_num_8 = 116

abbrev pub key_num_9 : ℕ
key_num_9 = 117

abbrev pub key_scrolllock : ℕ
key_scrolllock = 118

abbrev pub key_pause : ℕ
key_pause = 119

abbrev pub key_print : ℕ
key_print = 120

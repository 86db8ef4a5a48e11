-- ===== src/Keyboard/Valid.antt =====
-- The variables of lib/ps2keyboard.c between two key strokes, and what every event may be.
use ccpu_libsys.Prelude.{
  ℕ, ◌+◌, ◌<◌, ◌≡◌, ◌≢◌, inl, inr, Bool, true, false, not, arith, ◌==◌, ◌||◌, bit_or, Bool-cases,
  if◌then◌else◌,
}
use ccpu_libsys.Keyboard.{
  Keyboard, modifier_mask, update_modifiers, finish_event, find_key, get_key_event_with_code,
}
use ccpu_libsys.Keyboard.Bytes.{
  IsKey, scancode-IsKey, scancode_ext-IsKey, bit_or_release, bit_or_zero,
}
use ccpu_libsys.Keyboard.Keys.{
  key_lshift, key_rshift, key_lctrl, key_rctrl, key_lalt, key_ralt, key_lwin, key_rwin,
}

-- The four modifiers as a set, apart from its byte.
pub record Modifiers : Type 0 where
  pub ctrl : Bool
  pub alt : Bool
  pub win : Bool
  pub shift : Bool

abbrev pub bit_if : Bool → ℕ → ℕ
bit_if true n = n
bit_if false n = 0

unfoldable pub mask : Modifiers → ℕ
mask m = bit_if m.ctrl 1 + bit_if m.alt 2 + bit_if m.win 4 + bit_if m.shift 8

-- What pressing (`down`) or releasing a key does to the set.
unfoldable pub set_modifier : Bool → ℕ → Modifiers → Modifiers
set_modifier down key m =
    if key == key_lshift || key == key_rshift
    then record m { shift = down }
    else if key == key_lctrl || key == key_rctrl
    then record m { ctrl = down }
    else if key == key_lalt || key == key_ralt
    then record m { alt = down }
    else if key == key_lwin || key == key_rwin
    then record m { win = down }
    else m

-- `release` after a 0xf0, or not.
abbrev pub release_of : Bool → ℕ
release_of true = 0x80
release_of false = 0

-- The state before a code, with or without its two prefixes.
abbrev pub waiting : Bool → Bool → Modifiers → Keyboard
waiting extended released m = record {
  extended = extended;
  release = release_of released;
  modifiers = mask m;
}

pub find_key-IsKey : (k : Keyboard) (code : ℕ) → IsKey (find_key k code)
unfolding find_key
find_key-IsKey k code = elim (Bool-cases k.extended) [
  | inl e ↦ rw e (scancode_ext-IsKey code)
  | inr e ↦ rw e (scancode-IsKey code)
]

abbrev mask_of : Bool → Bool → Bool → Bool → ℕ
mask_of c a w s = bit_if c 1 + bit_if a 2 + bit_if w 4 + bit_if s 8

update_shift :
    (r c a w s : Bool) → update_modifiers (release_of r) (mask_of c a w s) 8 ≡ mask_of c a w (not r)
unfolding update_modifiers
update_shift r c a w s = ground arith

update_ctrl :
    (r c a w s : Bool) → update_modifiers (release_of r) (mask_of c a w s) 1 ≡ mask_of (not r) a w s
unfolding update_modifiers
update_ctrl r c a w s = ground arith

update_alt :
    (r c a w s : Bool) → update_modifiers (release_of r) (mask_of c a w s) 2 ≡ mask_of c (not r) w s
unfolding update_modifiers
update_alt r c a w s = ground arith

update_win :
    (r c a w s : Bool) → update_modifiers (release_of r) (mask_of c a w s) 4 ≡ mask_of c a (not r) s
unfolding update_modifiers
update_win r c a w s = ground arith

update_none :
    (r c a w s : Bool) → update_modifiers (release_of r) (mask_of c a w s) 0 ≡ mask_of c a w s
unfolding update_modifiers
update_none r c a w s = ground arith

-- The byte follows the set: a press adds the key's modifier and a release removes it.
pub update_modifiers-mask :
    (r : Bool) (key : ℕ) (m : Modifiers)
    → update_modifiers (release_of r) (mask m) (modifier_mask key)
      ≡ mask (set_modifier (not r) key m)
unfolding mask modifier_mask set_modifier
update_modifiers-mask r key m = ground (
  arith,
  update_shift r m.ctrl m.alt m.win m.shift,
  update_ctrl r m.ctrl m.alt m.win m.shift,
  update_alt r m.ctrl m.alt m.win m.shift,
  update_win r m.ctrl m.alt m.win m.shift,
  update_none r m.ctrl m.alt m.win m.shift,
)

unfoldable pub event_of : Bool → ℕ → ℕ
event_of released key = if key == 0 then 0 else key + release_of released

bit_or-release_of :
    (r : Bool) (key : ℕ) → key < 128 → bit_or key (release_of r) ≡ key + release_of r
bit_or-release_of true key h = bit_or_release key h
bit_or-release_of false key h = ground (arith, bit_or_zero key h)

-- A code completes the event of its key, and leaves no prefix behind.
pub finish_event_lem :
    (x r : Bool) (m : Modifiers) (key : ℕ)
    → key < 128
    → finish_event (waiting x r m) key
      ≡ (event_of r key, waiting false false (set_modifier (not r) key m))
unfolding finish_event event_of
finish_event_lem x r m key h =
    ground (arith, update_modifiers-mask r key m, bit_or-release_of r key h)

-- A byte with no meaning of its own goes to the tables.
pub get_key_event_with_code-eq :
    (k : Keyboard) (code : ℕ)
    → code ≢ 0
    → code ≢ 0xaa
    → code ≢ 0xe0
    → code ≢ 0xe1
    → code ≢ 0xf0
    → code ≢ 0xff
    → get_key_event_with_code k code ≡ finish_event k (find_key k code)
unfolding get_key_event_with_code
get_key_event_with_code-eq k code h0 h1 h2 h3 h4 h5 = ground arith

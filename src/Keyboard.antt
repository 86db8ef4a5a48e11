-- ===== src/Keyboard.antt =====
-- lib/ps2keyboard.c: from the bytes that a PS/2 keyboard sends to key events and to characters.
pub mod Keys
pub mod Scancodes
pub mod Keymaps
pub mod Bytes
pub mod Valid
pub mod Strokes
pub mod Events
pub mod Release
pub mod Typing
pub mod Tests
use ccpu_libsys.Prelude.{
  ℕ, zero, suc, ◌-◌, Bool, true, false, not, ◌&&◌, ◌||◌, Option, none, some, List, [], ◌∷◌, ◌==◌,
  if◌then◌else◌, get_or, bit_and, bit_or,
}
use ccpu_libsys.Keyboard.Keys.{
  key_none, key_release, key_lshift, key_rshift, key_lctrl, key_rctrl, key_lalt, key_ralt, key_lwin,
  key_rwin,
}
use ccpu_libsys.Keyboard.Scancodes.{scancode, scancode_ext, entry}
use ccpu_libsys.Keyboard.Keymaps.{ps2_keymap, ps2_keymap_shift}

-- The file's variables `extended`, `release` and `ps2_modifiers_mask`.
pub record Keyboard : Type 0 where
  pub extended : Bool
  pub release : ℕ
  pub modifiers : ℕ

-- PS2_MASK_CTRL, PS2_MASK_ALT, PS2_MASK_WIN and PS2_MASK_SHIFT.
abbrev pub mask_ctrl : ℕ
mask_ctrl = 1

abbrev pub mask_alt : ℕ
mask_alt = 2

abbrev pub mask_win : ℕ
mask_win = 4

abbrev pub mask_shift : ℕ
mask_shift = 8

-- PS2_READ_EMPTY, PS2_CODE_BAT_PASSED and PS2_CODE_BUFFER_OVERRUN of include/libsys/ps2.h.
abbrev pub read_empty : ℕ
read_empty = 0xff

abbrev pub code_bat_passed : ℕ
code_bat_passed = 0xaa

abbrev pub code_buffer_overrun : ℕ
code_buffer_overrun = 0

-- The bit that the key sets in `ps2_modifiers_mask`, or 0.
pub modifier_mask : ℕ → ℕ
modifier_mask key =
    if key == key_rshift || key == key_lshift
    then mask_shift
    else if key == key_lctrl || key == key_rctrl
    then mask_ctrl
    else if key == key_lalt || key == key_ralt
    then mask_alt
    else if key == key_lwin || key == key_rwin
    then mask_win
    else 0

-- `mask = release ? mask & ~bit : mask | bit`, over bytes.
pub update_modifiers : ℕ → ℕ → ℕ → ℕ
update_modifiers release mask bit =
    if release == 0 then bit_or mask bit else bit_and mask (255 - bit)

-- The `if (done)` part of `ps2_get_key_event_with_code`, for the key found in the table.
pub finish_event : Keyboard → ℕ → ℕ × Keyboard
finish_event k key = (
  if key == 0 then 0 else bit_or key k.release,
  record {
    extended = false;
    release = 0;
    modifiers = update_modifiers k.release k.modifiers (modifier_mask key);
  },
)

unfoldable pub find_key : Keyboard → ℕ → ℕ
find_key k code = if k.extended then entry scancode_ext code else get_or scancode code 0

-- `ps2_get_key_event_with_code`: the event and the new state.
unfoldable pub get_key_event_with_code : Keyboard → ℕ → ℕ × Keyboard
get_key_event_with_code k code =
    if code == read_empty
    then (0, k)
    else if code == code_bat_passed || code == code_buffer_overrun
    then (0, record k { extended = false; release = 0 })
    else if code == 0xf0
    then (0, record k { release = 0x80 })
    else if code == 0xe0 || code == 0xe1
    then (0, record k { extended = true })
    else finish_event k (find_key k code)

-- `ps2_get_ascii`, from the byte that `ps2_read` returns. 0x8000 is PS2_ASCII_SCANCODE_MASK.
unfoldable pub char_of_event : ℕ → ℕ → ℕ
char_of_event modifiers event =
    let plain = entry ps2_keymap event in
    let shifted = entry ps2_keymap_shift event in
    let key = if bit_and modifiers mask_shift == 0 then plain else shifted in
    if event == 0 || not (bit_and event key_release == 0)
    then 0
    else if not (bit_and modifiers 7 == 0)
    then bit_or 0x8000 event
    else if key == 0
    then bit_or 0x8000 event
    else key

unfoldable pub get_ascii : Keyboard → ℕ → ℕ × Keyboard
unfolding get_key_event_with_code char_of_event
get_ascii k code =
    let (event, k') = get_key_event_with_code k code in (char_of_event k'.modifiers event, k')

-- The loop of `ps2_wait_key_pressed` over the bytes that successive calls of `ps2_read` return:
-- the first event that is a press, the bytes not yet read, and the state. `none` if no byte of the
-- list completes one; the source then goes on reading.
unfoldable pub wait_key_pressed : Keyboard → List ℕ → Option (ℕ × List ℕ × Keyboard)
wait_key_pressed k [] = none
wait_key_pressed k (code ∷ codes) =
    let (event, k') = get_key_event_with_code k code in
    let rest = wait_key_pressed k' codes in
    if event == 0 || not (bit_and event key_release == 0) then rest else some (event, codes, k')

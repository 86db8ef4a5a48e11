-- ===== src/Keyboard/Tests.antt =====
-- Runs of the decoder of lib/ps2keyboard.c.
use ccpu_libsys.Prelude.{◌≡◌, refl, true, false, List, [], ◌∷◌, arith, All}
use ccpu_libsys.Keyboard.{wait_key_pressed}
use ccpu_libsys.Keyboard.Valid.{Modifiers, waiting}
use ccpu_libsys.Keyboard.Strokes.{
  Stroke, IsCode, bytes, all_bytes, events, held, feed, feed-all_bytes,
}
use ccpu_libsys.Keyboard.Events.{IsValid, IsEvent, FirstPress, feed-IsValid, wait_key_pressed_first}
use ccpu_libsys.Keyboard.Typing.{at_rest, read_text, type_text, IsTyped, read_text-type_text}

abbrev nothing_held : Modifiers
nothing_held = record { ctrl = false; alt = false; win = false; shift = false }

abbrev shift_held : Modifiers
shift_held = record { ctrl = false; alt = false; win = false; shift = true }

-- The left shift key pressed, the key A pressed and released, and the right control key pressed.
abbrev strokes : List Stroke
strokes =
    record { extended = false; released = false; code = 0x12 }
    ∷ record { extended = false; released = false; code = 0x1c }
    ∷ record { extended = false; released = true; code = 0x1c }
    ∷ record { extended = true; released = false; code = 0x14 }
    ∷ []

strokes-IsCode : All IsCode strokes
strokes-IsCode = ground arith

strokes_bytes : all_bytes strokes ≡ 0x12 ∷ 0x1c ∷ 0xf0 ∷ 0x1c ∷ 0xe0 ∷ 0x14 ∷ []
unfolding all_bytes bytes
strokes_bytes = refl

start-IsValid : IsValid (waiting false false nothing_held)
start-IsValid = record { x = false; r = false; m = nothing_held; eq = refl }

feed-all_bytes_example :
    feed (waiting false false nothing_held) (all_bytes strokes)
    ≡ (events strokes, waiting false false (held strokes nothing_held))
feed-all_bytes_example = feed-all_bytes nothing_held strokes strokes-IsCode

feed-IsValid_example :
    let r = feed (waiting false false nothing_held) (0xf0 ∷ 0x5d ∷ 0x5d ∷ 0x1c ∷ []) in
    All IsEvent r.0 × IsValid r.1
feed-IsValid_example =
    feed-IsValid (waiting false false nothing_held) (0xf0 ∷ 0x5d ∷ 0x5d ∷ 0x1c ∷ []) start-IsValid

wait_key_pressed_first_example :
    FirstPress
      (feed (waiting false false nothing_held) (0xf0 ∷ 0x1c ∷ 0x1c ∷ 0x32 ∷ [])).0
      (wait_key_pressed (waiting false false nothing_held) (0xf0 ∷ 0x1c ∷ 0x1c ∷ 0x32 ∷ []))
wait_key_pressed_first_example =
    wait_key_pressed_first (waiting false false nothing_held) (0xf0 ∷ 0x1c ∷ 0x1c ∷ 0x32 ∷ [])
      start-IsValid

hi-IsTyped : All IsTyped (b'H' ∷ b'i' ∷ b'!' ∷ [])
hi-IsTyped = ground arith

-- "Hi!", with the shift key for two of the characters.
read_text-type_text_example :
    read_text at_rest (type_text (b'H' ∷ b'i' ∷ b'!' ∷ [])) ≡ (b'H' ∷ b'i' ∷ b'!' ∷ [], at_rest)
read_text-type_text_example = read_text-type_text (b'H' ∷ b'i' ∷ b'!' ∷ []) hi-IsTyped

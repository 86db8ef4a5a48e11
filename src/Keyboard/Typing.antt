-- ===== src/Keyboard/Typing.antt =====
-- A text typed on a keyboard and read with `ps2_get_ascii` of lib/ps2keyboard.c.
use ccpu_libsys.Prelude.{
  ℕ, ◌+◌, ◌-◌, ◌<◌, ◌≤◌, ◌≡◌, ◌≢◌, refl, ap, ◌∙◌, Bool, true, false, not, ◌&&◌, ◌||◌, List, [], ◌∷◌,
  ◌++◌, arith, ◌==◌, ltb, leb, if◌then◌else◌, All, get_or, check_range, checked, Bool-cases, inl,
  inr,
}
use mathlib.Core.Path.{subst}
use ccpu_libsys.Keyboard.{
  Keyboard, get_ascii, get_key_event_with_code, finish_event, find_key, char_of_event,
  modifier_mask, update_modifiers,
}
use ccpu_libsys.Keyboard.Scancodes.{scancode, scancode_ext, entry}
use ccpu_libsys.Keyboard.Keymaps.{ps2_keymap, ps2_keymap_shift}

abbrev pub keep : ℕ → List ℕ → List ℕ
keep c cs = if c == 0 || leb 0x8000 c then cs else c ∷ cs

-- The characters that successive calls of `ps2_get_ascii` give for the bytes of the port: not 0, and
-- without PS2_ASCII_SCANCODE_MASK.
unfoldable pub read_text : Keyboard → List ℕ → List ℕ × Keyboard
read_text k [] = ([], k)
read_text k (b ∷ bs) =
    let (c, k1) = get_ascii k b in let (cs, k2) = read_text k1 bs in (keep c cs, k2)

-- The scan codes of the characters from the space on, for a US keyboard, with 256 added where shift
-- is held; 0 for the backslash and the pipe.
unfoldable pub us_layout : List ℕ
us_layout =
    41 ∷ 278 ∷ 338 ∷ 294 ∷ 293 ∷ 302 ∷ 317 ∷ 82 ∷ 326 ∷ 325 ∷ 318 ∷ 341 ∷ 65 ∷ 78 ∷ 73 ∷ 74 ∷ 69
    ∷ 22 ∷ 30 ∷ 38 ∷ 37 ∷ 46 ∷ 54 ∷ 61 ∷ 62 ∷ 70 ∷ 332 ∷ 76 ∷ 321 ∷ 85 ∷ 329 ∷ 330 ∷ 286 ∷ 284 ∷ 306
    ∷ 289 ∷ 291 ∷ 292 ∷ 299 ∷ 308 ∷ 307 ∷ 323 ∷ 315 ∷ 322 ∷ 331 ∷ 314 ∷ 305 ∷ 324 ∷ 333 ∷ 277 ∷ 301
    ∷ 283 ∷ 300 ∷ 316 ∷ 298 ∷ 285 ∷ 290 ∷ 309 ∷ 282 ∷ 84 ∷ 0 ∷ 91 ∷ 310 ∷ 334 ∷ 14 ∷ 28 ∷ 50 ∷ 33
    ∷ 35 ∷ 36 ∷ 43 ∷ 52 ∷ 51 ∷ 67 ∷ 59 ∷ 66 ∷ 75 ∷ 58 ∷ 49 ∷ 68 ∷ 77 ∷ 21 ∷ 45 ∷ 27 ∷ 44 ∷ 60 ∷ 42
    ∷ 29 ∷ 34 ∷ 53 ∷ 26 ∷ 340 ∷ 0 ∷ 347 ∷ 270 ∷ []

-- What the keyboard sends when a character is typed: the key is pressed and released, with left
-- shift held down meanwhile if it is wanted.
abbrev pub press_and_release : ℕ → List ℕ
press_and_release code = code ∷ 0xf0 ∷ code ∷ []

unfoldable pub type_char : ℕ → List ℕ
type_char c =
    let key = get_or us_layout (c - 32) 0 in
    if ltb key 256
    then press_and_release key
    else (0x12 ∷ press_and_release (key - 256)) ++ (0xf0 ∷ 0x12 ∷ [])

unfoldable pub type_text : List ℕ → List ℕ
type_text [] = []
type_text (c ∷ cs) = type_char c ++ type_text cs

-- A printable character of ASCII that a key exists for.
pub record IsTyped (c : ℕ) : Type 0 where
  pub first : 32 ≤ c
  pub last : c < 127
  pub not_backslash : c ≢ 92
  pub not_pipe : c ≢ 124

-- No prefix was read, and no modifier is held.
abbrev pub at_rest : Keyboard
at_rest = record { extended = false; release = 0; modifiers = 0 }

gives : ℕ → List ℕ × Keyboard → Bool
gives c (x ∷ [], k) = x == c && (not k.extended && (k.release == 0 && k.modifiers == 0))
gives c _ = false

gives_lem : (c : ℕ) (r : List ℕ × Keyboard) → gives c r ≡ true → r ≡ (c ∷ [], at_rest)
unfolding gives
gives_lem c ([], k) h = absurd (cc h)
gives_lem c (x ∷ y ∷ xs, k) h = absurd (cc h)
gives_lem c (x ∷ [], k) h =
    let record { extended = e; release = r; modifiers = m } = k in ground (arith, h)

abbrev gives_it : ℕ → Bool
gives_it i = let c = i + 32 in c == 92 || c == 124 || gives c (read_text at_rest (type_char c))

typed_table : check_range 0 95 gives_it ≡ true
unfolding check_range gives read_text type_char us_layout get_ascii get_key_event_with_code
    finish_event update_modifiers modifier_mask char_of_event find_key scancode scancode_ext
    ps2_keymap ps2_keymap_shift entry
typed_table = refl

type_char_lem : (c : ℕ) → IsTyped c → read_text at_rest (type_char c) ≡ (c ∷ [], at_rest)
type_char_lem c h =
    let e : c - 32 + 32 ≡ c = omega (arith, h.first) in
    let lt : c - 32 < 95 = omega (arith, h.first, h.last) in
    let found : gives_it (c - 32) ≡ true = checked lt gives_it typed_table in
    let found2 : (c == 92 || c == 124 || gives c (read_text at_rest (type_char c))) ≡ true =
      subst (λ c. (c == 92 || c == 124 || gives c (read_text at_rest (type_char c))) ≡ true) e
        found in
    gives_lem c (read_text at_rest (type_char c))
      (ground (arith, found2, h.not_backslash, h.not_pipe))

keep-append : (c : ℕ) (xs ys : List ℕ) → keep c (xs ++ ys) ≡ keep c xs ++ ys
keep-append c xs ys = elim (Bool-cases (c == 0 || leb 0x8000 c)) [
  | inl skipped ↦ rw skipped refl
  | inr char ↦ rw char refl
]

-- The bytes of one part, with others behind them.
read_text-append :
    (bs cs : List ℕ) (k : Keyboard)
    → let r = read_text k bs in
      let r2 = read_text r.1 cs in read_text k (bs ++ cs) ≡ (r.0 ++ r2.0, r2.1)
unfolding read_text
read_text-append [] cs k = refl
read_text-append (b ∷ bs) cs k =
    let c = (get_ascii k b).0 in
    let k' = (get_ascii k b).1 in
    let r = read_text k' bs in
    let r2 = read_text r.1 cs in
    ap (λ (r : List ℕ × Keyboard). (keep c r.0, r.1)) (read_text-append bs cs k')
    ∙ ap (λ xs. (xs, r2.1)) (keep-append c r.0 r2.0)

read_text-next :
    (bs cs xs ys : List ℕ) (k : Keyboard)
    → read_text k bs ≡ (xs, k)
    → read_text k cs ≡ (ys, k)
    → read_text k (bs ++ cs) ≡ (xs ++ ys, k)
read_text-next bs cs xs ys k e e2 =
    read_text-append bs cs k
    ∙ ap (λ (r : List ℕ × Keyboard). (r.0 ++ (read_text r.1 cs).0, (read_text r.1 cs).1)) e
    ∙ ap (λ (r : List ℕ × Keyboard). (xs ++ r.0, r.1)) e2

-- Every text of printable ASCII characters but the backslash and the pipe can be typed: the bytes
-- that a US keyboard sends for its keys, with left shift where it is wanted, are read by
-- `ps2_get_ascii` as that text, and no modifier is held afterwards.
pub read_text-type_text :
    (cs : List ℕ) → All IsTyped cs → read_text at_rest (type_text cs) ≡ (cs, at_rest)
unfolding read_text type_text
read_text-type_text [] h = refl
read_text-type_text (c ∷ cs) h =
    read_text-next (type_char c) (type_text cs) (c ∷ []) cs at_rest (type_char_lem c h.0)
      (read_text-type_text cs h.1)

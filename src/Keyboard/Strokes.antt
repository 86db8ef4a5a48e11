-- ===== src/Keyboard/Strokes.antt =====
-- The byte protocol that `ps2_get_key_event_with_code` decodes: a key stroke is a code, behind 0xe0
-- if it is in the extended table and behind 0xf0 if the key is released.
use ccpu_libsys.Prelude.{
  ℕ, ◌≡◌, ◌≢◌, refl, ◌∙◌, Bool, true, false, not, List, [], ◌∷◌, ◌++◌, arith, ◌==◌, if◌then◌else◌,
  All, get_or, append_assoc,
}
use ccpu_libsys.Keyboard.{Keyboard, find_key, get_key_event_with_code}
use ccpu_libsys.Keyboard.Scancodes.{scancode, scancode_ext, entry}
use ccpu_libsys.Keyboard.Valid.{
  Modifiers, set_modifier, waiting, event_of, finish_event_lem, find_key-IsKey,
  get_key_event_with_code-eq,
}

pub record Stroke : Type 0 where
  pub extended : Bool
  pub released : Bool
  pub code : ℕ

-- A code is none of the bytes with a meaning of their own.
pub record IsCode (s : Stroke) : Type 0 where
  pub not_overrun : s.code ≢ 0
  pub not_bat : s.code ≢ 0xaa
  pub not_e0 : s.code ≢ 0xe0
  pub not_e1 : s.code ≢ 0xe1
  pub not_f0 : s.code ≢ 0xf0
  pub not_empty : s.code ≢ 0xff

abbrev pub prefix : Bool → ℕ → List ℕ
prefix true b = b ∷ []
prefix false b = []

-- The bytes that the keyboard sends.
unfoldable pub bytes : Stroke → List ℕ
bytes s = prefix s.extended 0xe0 ++ (prefix s.released 0xf0 ++ (s.code ∷ []))

unfoldable pub all_bytes : List Stroke → List ℕ
all_bytes [] = []
all_bytes (s ∷ ss) = bytes s ++ all_bytes ss

-- The key of a stroke by its table, and what strokes mean: their events, and the modifiers held.
unfoldable pub key_of : Stroke → ℕ
key_of s = if s.extended then entry scancode_ext s.code else get_or scancode s.code 0

abbrev pub emit : ℕ → List ℕ → List ℕ
emit e es = if e == 0 then es else e ∷ es

unfoldable pub events : List Stroke → List ℕ
events [] = []
events (s ∷ ss) = emit (event_of s.released (key_of s)) (events ss)

unfoldable pub held : List Stroke → Modifiers → Modifiers
held [] m = m
held (s ∷ ss) m = held ss (set_modifier (not s.released) (key_of s) m)

-- Successive calls of `ps2_get_key_event_with_code`: the events other than PS2_KEY_NONE, and the
-- state after the last.
unfoldable pub feed : Keyboard → List ℕ → List ℕ × Keyboard
feed k [] = ([], k)
feed k (b ∷ bs) =
    let (e, k') = get_key_event_with_code k b in let (es, k'') = feed k' bs in (emit e es, k'')

module _ (m : Modifiers) where
  get-e0 : (x r : Bool) → get_key_event_with_code (waiting x r m) 0xe0 ≡ (0, waiting true r m)
  unfolding get_key_event_with_code
  get-e0 x r = refl

  get-f0 : (x r : Bool) → get_key_event_with_code (waiting x r m) 0xf0 ≡ (0, waiting x true m)
  unfolding get_key_event_with_code
  get-f0 x r = refl

  get-code :
      (s : Stroke)
      → IsCode s
      → get_key_event_with_code (waiting s.extended s.released m) s.code ≡ (
        event_of s.released (key_of s),
        waiting false false (set_modifier (not s.released) (key_of s) m),
      )
  unfolding key_of find_key
  get-code s v =
      let k = waiting s.extended s.released m in
      get_key_event_with_code-eq k s.code v.not_overrun v.not_bat v.not_e0 v.not_e1 v.not_f0
        v.not_empty
      ∙ finish_event_lem s.extended s.released m (find_key k s.code) (find_key-IsKey k s.code).0

  feed_stroke :
      (s : Stroke) (rest : List ℕ)
      → IsCode s
      → feed (waiting false false m) (bytes s ++ rest) ≡ (
          let (es, k) =
            feed (waiting false false (set_modifier (not s.released) (key_of s) m)) rest in
          (emit (event_of s.released (key_of s)) es, k))
  unfolding feed bytes
  feed_stroke s rest v = ground (
    arith,
    get-e0 false false,
    get-f0 s.extended false,
    get-code s v,
    append_assoc (prefix s.extended 0xe0) (prefix s.released 0xf0 ++ (s.code ∷ [])) rest,
  )

-- Between strokes the bytes of any strokes decode to exactly their events, and the modifier byte is
-- the set of modifiers whose last stroke was a press; the state is again between strokes.
pub feed-all_bytes :
    (m : Modifiers) (ss : List Stroke)
    → All IsCode ss
    → feed (waiting false false m) (all_bytes ss) ≡ (events ss, waiting false false (held ss m))
unfolding feed all_bytes events held
feed-all_bytes m [] v = refl
feed-all_bytes m (s ∷ ss) v = rw (
  feed_stroke m s (all_bytes ss) v.0,
  feed-all_bytes (set_modifier (not s.released) (key_of s) m) ss v.1,
)

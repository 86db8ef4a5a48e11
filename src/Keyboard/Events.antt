-- ===== src/Keyboard/Events.antt =====
-- Every event that `ps2_get_key_event_with_code` can give on any bytes at all, and the loop of
-- `ps2_wait_key_pressed`.
use ccpu_libsys.Prelude.{
  ℕ, ◌+◌, ◌%◌, ◌<◌, ◌≤◌, ◌≡◌, refl, sym, ap, ◌⊎◌, inl, inr, Bool, true, false, not, ◌||◌, Option,
  none, some, List, [], ◌∷◌, ◌++◌, arith, ◌==◌, All, Bool-cases, bit_and,
}
use mathlib.Core.Path.{subst}
use ccpu_libsys.Keyboard.{
  Keyboard, finish_event, find_key, get_key_event_with_code, wait_key_pressed,
}
use ccpu_libsys.Keyboard.Bytes.{IsKey, is_in, typed_keys}
use ccpu_libsys.Keyboard.Valid.{
  Modifiers, set_modifier, waiting, event_of, release_of, finish_event_lem, find_key-IsKey,
}
use ccpu_libsys.Keyboard.Keys.{key_release}
use ccpu_libsys.Keyboard.Release.{release_bit}
use ccpu_libsys.Keyboard.Strokes.{emit, feed}

-- The states that the code can be in: the two flags and a set of modifiers.
pub record IsValid (k : Keyboard) : Type 0 where
  pub x : Bool
  pub r : Bool
  pub m : Modifiers
  pub eq : k ≡ waiting x r m

-- The code of a key other than backslash and pipe, or one with the release bit.
abbrev pub IsEvent : ℕ → Type 0
IsEvent e = (e < 256) × (is_in (e % 128) typed_keys ≡ true)

-- No event, or one.
abbrev IsResult : ℕ → Type 0
IsResult e = (e < 256) × ((e == 0 || is_in (e % 128) typed_keys) ≡ true)

without_release : (r : Bool) (key : ℕ) → key < 128 → (key + release_of r) % 128 ≡ key
without_release true key lt = omega (arith, lt)
without_release false key lt = omega (arith, lt)

release_of-lt : (r : Bool) (key : ℕ) → key < 128 → key + release_of r < 256
release_of-lt true key lt = omega (arith, lt)
release_of-lt false key lt = omega (arith, lt)

event_of-IsResult : (r : Bool) (key : ℕ) → IsKey key → IsResult (event_of r key)
unfolding event_of
event_of-IsResult r key h = elim (Bool-cases (key == 0)) [
  | inl e ↦ rw e (omega arith, refl)
  | inr ne ↦
      let there : is_in key typed_keys ≡ true = ground (arith, ne, h.1) in
      rw ne (
        release_of-lt r key h.0,
        subst (λ v. (key + release_of r == 0 || is_in v typed_keys) ≡ true)
            (sym (without_release r key h.0)) (ground (arith, there)),
      )
]

-- The five things that a byte can do.
get_key_event-cases :
    (k : Keyboard) (code : ℕ)
    → (get_key_event_with_code k code ≡ (0, k))
      ⊎ (get_key_event_with_code k code ≡ (0, record k { extended = false; release = 0 }))
      ⊎ (get_key_event_with_code k code ≡ (0, record k { release = 0x80 }))
      ⊎ (get_key_event_with_code k code ≡ (0, record k { extended = true }))
      ⊎ (get_key_event_with_code k code ≡ finish_event k (find_key k code))
unfolding get_key_event_with_code
get_key_event-cases k code = ground arith

IsGood : ℕ × Keyboard → Type 0
IsGood p = IsResult p.0 × IsValid p.1

IsGood-prefix : (x r : Bool) (m : Modifiers) → IsGood (0, waiting x r m)
unfolding IsGood
IsGood-prefix x r m = ((omega arith, refl), record { x = x; r = r; m = m; eq = refl })

-- One byte keeps the state valid, and gives no event or the event of a key.
get_key_event-IsGood :
    (x r : Bool) (m : Modifiers) (code : ℕ) → IsGood (get_key_event_with_code (waiting x r m) code)
unfolding IsGood
get_key_event-IsGood x r m code = elim (get_key_event-cases (waiting x r m) code) [
  | inl e ↦ rw e (IsGood-prefix x r m)
  | inr (inl e) ↦ rw e (IsGood-prefix false false m)
  | inr (inr (inl e)) ↦ rw e (IsGood-prefix x true m)
  | inr (inr (inr (inl e))) ↦ rw e (IsGood-prefix true r m)
  | inr (inr (inr (inr e))) ↦ rw (e, finish_event_lem x r m key is_key.0) good_event
]
  where
    key : ℕ
    key = find_key (waiting x r m) code

    is_key : IsKey key
    is_key = find_key-IsKey (waiting x r m) code

    good_event : IsGood (event_of r key, waiting false false (set_modifier (not r) key m))
    good_event = (
      event_of-IsResult r key is_key,
      record { x = false; r = false; m = set_modifier (not r) key m; eq = refl },
    )

get-IsGood : (k : Keyboard) (code : ℕ) → IsValid k → IsGood (get_key_event_with_code k code)
get-IsGood k code v = rw (v.eq) (get_key_event-IsGood v.x v.r v.m code)

-- From a valid state, whatever bytes come: every event is the code of a key that the header defines,
-- other than backslash and pipe, with or without the release bit; the state stays valid.
pub feed-IsValid :
    (k : Keyboard) (bs : List ℕ) → IsValid k → All IsEvent (feed k bs).0 × IsValid (feed k bs).1
unfolding feed IsGood
feed-IsValid k [] v = (tt, v)
feed-IsValid k (b ∷ bs) v = elim (Bool-cases ((get_key_event_with_code k b).0 == 0)) [
  | inl e ↦ rw e (feed-IsValid k' bs good.1)
  | inr e ↦ rw e (
    ((good.0.0, ground (arith, e, good.0.1)), (feed-IsValid k' bs good.1).0),
    (feed-IsValid k' bs good.1).1,
  )
]
  where
    k' : Keyboard
    k' = (get_key_event_with_code k b).1

    good : IsGood (get_key_event_with_code k b)
    good = get-IsGood k b v

-- What `ps2_wait_key_pressed` must find among the events `es` of its bytes.
abbrev pub FirstPress : List ℕ → Option (ℕ × List ℕ × Keyboard) → Type 0
FirstPress es none = All (λ e. 128 ≤ e) es
FirstPress es (some (e, rest, k)) =
    (releases : List ℕ) × All (λ e'. 128 ≤ e') releases
    × (0 < e)
    × (e < 128)
    × (es ≡ releases ++ (e ∷ (feed k rest).0))

FirstPress-emit :
    (e : ℕ) (es : List ℕ) (o : Option (ℕ × List ℕ × Keyboard))
    → (e ≡ 0) ⊎ (128 ≤ e)
    → FirstPress es o
    → FirstPress (emit e es) o
FirstPress-emit e es o (inl z) h = rw z h
FirstPress-emit e es none (inr le) h = let ne : (e == 0) ≡ false = ground arith in rw ne (le, h)
FirstPress-emit e es (some (e', rest, k)) (inr le) h =
    let ne : (e == 0) ≡ false = ground arith in
    rw ne (e ∷ h.0, (le, h.1), h.2, h.3, ap (λ t. e ∷ t) h.4)

-- The loop's test.
abbrev goes_on : ℕ → Bool
goes_on e = e == 0 || not (bit_and e key_release == 0)

goes_on-cases :
    (e : ℕ)
    → e < 256
    → ((goes_on e ≡ true) × ((e ≡ 0) ⊎ (128 ≤ e))) ⊎ ((goes_on e ≡ false) × (0 < e) × (e < 128))
goes_on-cases e h = ground (arith, release_bit e h)

FirstPress-press :
    (e : ℕ) (bs : List ℕ) (k : Keyboard)
    → 0 < e
    → e < 128
    → FirstPress (emit e (feed k bs).0) (some (e, bs, k))
FirstPress-press e bs k pos lt =
    let ne : (e == 0) ≡ false = ground arith in rw ne ([], tt, pos, lt, refl)

-- From a valid state `ps2_wait_key_pressed` returns the first press among the events of the bytes
-- it reads, after releases only, with the bytes behind it unread; if no byte completes a press it
-- goes on waiting.
pub wait_key_pressed_first :
    (k : Keyboard) (bs : List ℕ) → IsValid k → FirstPress (feed k bs).0 (wait_key_pressed k bs)
unfolding feed wait_key_pressed IsGood
wait_key_pressed_first k [] v = tt
wait_key_pressed_first k (b ∷ bs) v = elim (goes_on-cases e good.0.0) [
  | inl p ↦ rw (p.0) (FirstPress-emit e (feed k' bs).0 _ p.1 (wait_key_pressed_first k' bs good.1))
  | inr p ↦ rw (p.0) (FirstPress-press e bs k' p.1 p.2)
]
  where
    e : ℕ
    e = (get_key_event_with_code k b).0

    k' : Keyboard
    k' = (get_key_event_with_code k b).1

    good : IsGood (get_key_event_with_code k b)
    good = get-IsGood k b v

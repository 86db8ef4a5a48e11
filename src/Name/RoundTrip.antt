-- ===== src/Name/RoundTrip.antt =====
-- `from_fat_name` of lib/fat/name.c reads back what `to_fat_name` wrote.
use ccpu_libsys.Prelude.{
  ℕ, zero, suc, ◌+◌, ◌≤◌, ◌<◌, ◌≡◌, ◌≢◌, refl, sym, ap, ◌∙◌, Option, none, some, List, [], ◌∷◌,
  ◌++◌, arith, append-nil, get_or, get_or-append, length, All,
}
use ccpu_libsys.Name.{to_fat_name, copy_field, from_fat_name}
use ccpu_libsys.Name.Spec.{
  pad, length-pad, NotDot, dotted, extension, to_fat_name_short, copy_from-pad,
}

abbrev pub NotSpace : ℕ → Type 0
NotSpace c = c ≢ b' '

copy_field-cons : (n i x : ℕ) (src : List ℕ) → copy_field n (suc i) (x ∷ src) ≡ copy_field n i src
unfolding copy_field
copy_field-cons zero i x src = refl
copy_field-cons (suc n) i x src =
    let e : suc i + 1 ≡ suc (i + 1) = omega arith in rw (e, copy_field-cons n (i + 1) x src)

copy_field-append :
    (n : ℕ) (p src : List ℕ) → copy_field n (length p) (p ++ src) ≡ copy_field n 0 src
copy_field-append n [] src = refl
copy_field-append n (x ∷ p) src =
    copy_field-cons n (length p) x (p ++ src) ∙ copy_field-append n p src

-- A field is read up to its padding.
copy_field-pad :
    (n : ℕ) (s q : List ℕ) → All NotSpace s → length s ≤ n → copy_field n 0 (pad n s ++ q) ≡ s
unfolding copy_field pad
copy_field-pad zero [] q h le = refl
copy_field-pad zero (c ∷ s) q h le = absurd (omega arith)
copy_field-pad (suc n) [] q h le = refl
copy_field-pad (suc n) (c ∷ s) q h le =
    ground (arith, copy_field-cons n 0 c (pad n s ++ q), copy_field-pad n s q h.1)

-- Byte 8 is the extension's first byte.
get_or-pad : (b e : List ℕ) → get_or (pad 8 b ++ pad 3 e) 8 0 ≡ get_or (pad 3 e) 0 0
get_or-pad b e =
    let p : get_or (pad 8 b ++ pad 3 e) (length (pad 8 b) + 0) 0 ≡ get_or (pad 3 e) 0 0 =
      get_or-append (pad 8 b) (pad 3 e) 0 0 in
    rw (length-pad 8 b) at p

copy_field-pad_ext :
    (b e : List ℕ) → All NotSpace e → length e ≤ 3 → copy_field 3 8 (pad 8 b ++ pad 3 e) ≡ e
copy_field-pad_ext b e h le =
    let p : copy_field 3 (length (pad 8 b)) (pad 8 b ++ pad 3 e) ≡ copy_field 3 0 (pad 3 e) =
      copy_field-append 3 (pad 8 b) (pad 3 e) in
    (rw (length-pad 8 b) at p)
    ∙ ap (copy_field 3 0) (sym (append-nil (pad 3 e)))
    ∙ copy_field-pad 3 e [] h le

-- A present extension is not empty: a dot at the end of a name is lost.
abbrev pub IsProper : Option (List ℕ) → Type 0
IsProper none = Unit {0}
IsProper (some e) = (0 < length e) × (length e ≤ 3) × All NotSpace e

from_fat_name_fields :
    (b : List ℕ) (o : Option (List ℕ))
    → All NotSpace b
    → length b ≤ 8
    → IsProper o
    → from_fat_name (pad 8 b ++ pad 3 (extension o)) ≡ b ++ dotted o
unfolding from_fat_name pad
from_fat_name_fields b none h le proper =
    ground (arith, get_or-pad b [], copy_field-pad 8 b (pad 3 []) h le, append-nil b)
from_fat_name_fields b (some []) h le proper = absurd (omega arith)
from_fat_name_fields b (some (x ∷ e)) h le proper = ground (
  arith,
  get_or-pad b (x ∷ e),
  copy_field-pad 8 b (pad 3 (x ∷ e)) h le,
  copy_field-pad_ext b (x ∷ e) proper.2 proper.1,
)

-- A name of a base of 1 to 8 bytes with no dot and no space, then nothing or a dot and 1 to 3
-- bytes with no space, is read back by `from_fat_name` as it was before `to_fat_name`.
pub from_fat_name-to_fat_name :
    (c : ℕ) (b : List ℕ) (o : Option (List ℕ))
    → All NotDot (c ∷ b)
    → All NotSpace (c ∷ b)
    → length (c ∷ b) ≤ 8
    → IsProper o
    → from_fat_name (to_fat_name ((c ∷ b) ++ dotted o)) ≡ (c ∷ b) ++ dotted o
from_fat_name-to_fat_name c b o nd ns le proper =
    ap from_fat_name (to_fat_name_short c b o nd le) ∙ from_fat_name_fields (c ∷ b) o ns le proper

-- "." and "..", and each name that begins with a dot, are copied as they are and space-filled.
pub to_fat_name_dot : (s : List ℕ) → to_fat_name (b'.' ∷ s) ≡ pad 11 (b'.' ∷ s)
unfolding to_fat_name
to_fat_name_dot s = copy_from-pad 11 (b'.' ∷ s) [] ∙ append-nil (pad 11 (b'.' ∷ s))

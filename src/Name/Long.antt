-- ===== src/Name/Long.antt =====
-- A base name of more than 8 bytes in `to_fat_name` of lib/fat/name.c: the loop over the rest of
-- the base stops at the dot, and unlike the short case nothing steps over it.
use ccpu_libsys.Prelude.{
  ℕ, zero, suc, ◌<◌, ◌≡◌, ap, ◌∙◌, Option, List, [], ◌∷◌, ◌++◌, arith, length, drop, All,
}
use ccpu_libsys.Name.{to_fat_name, find_ext}
use ccpu_libsys.Name.Spec.{pad, NotDot, dotted, to_fat_name_fields, find_ext-cons}

drop-All : (n : ℕ) (b : List ℕ) → All NotDot b → All NotDot (drop n b)
drop-All zero b h = h
drop-All (suc n) [] h = h
drop-All (suc n) (x ∷ b) h = drop-All n b h.1

length-drop_pos : (n : ℕ) (b : List ℕ) → n < length b → 0 < length (drop n b)
length-drop_pos zero b h = h
length-drop_pos (suc n) [] h = absurd (omega arith)
length-drop_pos (suc n) (x ∷ b) h = length-drop_pos n b (omega arith)

find_ext-rest :
    (b : List ℕ) (o : Option (List ℕ))
    → All NotDot b
    → 0 < length b
    → find_ext (b ++ dotted o) ≡ dotted o
find_ext-rest [] o h lt = absurd (omega arith)
find_ext-rest (x ∷ b) o h lt = find_ext-cons x b o h

-- A name whose base has more than 8 bytes and no dot gives the first 8 bytes of the base, and then
-- three bytes that begin with the dot itself: "longfilename.txt" is stored with extension ".tx".
pub to_fat_name_long :
    (c : ℕ) (b : List ℕ) (o : Option (List ℕ))
    → All NotDot (c ∷ b)
    → 8 < length (c ∷ b)
    → to_fat_name ((c ∷ b) ++ dotted o) ≡ pad 8 (c ∷ b) ++ pad 3 (dotted o)
to_fat_name_long c b o h lt =
    to_fat_name_fields c b o h
    ∙ ap (λ t. pad 8 (c ∷ b) ++ pad 3 t)
        (find_ext-rest (drop 8 (c ∷ b)) o (drop-All 8 (c ∷ b) h) (length-drop_pos 8 (c ∷ b) lt))

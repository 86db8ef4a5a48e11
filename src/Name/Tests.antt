-- ===== src/Name/Tests.antt =====
-- Runs of `to_fat_name` and `from_fat_name` of lib/fat/name.c.
use ccpu_libsys.Prelude.{replicate, refl, ℕ, ◌≡◌, List, [], ◌∷◌, ◌++◌, Option, some, All, arith}
use ccpu_libsys.Name.{to_fat_name, from_fat_name}
use ccpu_libsys.Name.Spec.{pad, dotted, extension, NotDot, to_fat_name_short}
use ccpu_libsys.Name.Long.{to_fat_name_long}
use ccpu_libsys.Name.RoundTrip.{from_fat_name-to_fat_name}

-- The rest of a short base after its first byte, of a long one, and an extension.
abbrev ab : List ℕ
ab = b'A' ∷ b'B' ∷ []

abbrev longname : List ℕ
longname = b'O' ∷ b'N' ∷ b'G' ∷ b'F' ∷ b'I' ∷ b'L' ∷ b'E' ∷ b'N' ∷ b'M' ∷ []

abbrev txt : Option (List ℕ)
txt = some (b'T' ∷ b'X' ∷ b'T' ∷ [])

longname-NotDot : All NotDot (b'L' ∷ longname)
longname-NotDot = (
  omega arith,
  (
    omega arith,
    (
      omega arith,
      (
        omega arith,
        (
          omega arith,
          (omega arith, (omega arith, (omega arith, (omega arith, (omega arith, tt))))),
        ),
      ),
    ),
  ),
)

to_fat_name_short_example :
    to_fat_name ((b'C' ∷ ab) ++ dotted txt) ≡ pad 8 (b'C' ∷ ab) ++ pad 3 (extension txt)
to_fat_name_short_example =
    to_fat_name_short b'C' ab txt (omega arith, (omega arith, (omega arith, tt))) (ground arith)

to_fat_name_long_example :
    to_fat_name ((b'L' ∷ longname) ++ dotted txt) ≡ pad 8 (b'L' ∷ longname) ++ pad 3 (dotted txt)
to_fat_name_long_example = to_fat_name_long b'L' longname txt longname-NotDot (ground arith)

from_fat_name-to_fat_name_example :
    from_fat_name (to_fat_name ((b'C' ∷ ab) ++ dotted txt)) ≡ (b'C' ∷ ab) ++ dotted txt
from_fat_name-to_fat_name_example =
    from_fat_name-to_fat_name b'C' ab txt (omega arith, (omega arith, (omega arith, tt)))
      (omega arith, (omega arith, (omega arith, tt))) (ground arith) (ground arith)

pub to_fat_name_b : to_fat_name (b'B' ∷ []) ≡ b'B' ∷ replicate 10 b' '
unfolding to_fat_name
to_fat_name_b = refl

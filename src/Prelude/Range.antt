-- ===== src/Prelude/Range.antt =====
-- Facts about every number of a small range, by evaluation.
use Prim.Native.Nat.{ℕ, zero, suc, ◌<◌, ◌≤◌, ◌+◌}
use mathlib.Core.Path.{◌≡◌}
use mathlib.Core.Bool.{Bool, true, false, ◌&&◌}
use mathlib.Core.List.{List, [], ◌∷◌}
use mathlib.Core.Logic.{inl, inr}
use ccpu_libsys.Prelude.Tests.{if◌then◌else◌, ◌==◌, Bool-cases}
use native.Mathlib.Omega.{arith}

-- Does `p` hold of `first` and of the `len` numbers from there on?
unfoldable pub check_range : ℕ → ℕ → (ℕ → Bool) → Bool
check_range first zero p = true
check_range first (suc len) p =
    let rest = check_range (first + 1) len p in if p first then rest else false

check_range_lem :
    (first len x : ℕ) (p : ℕ → Bool)
    → first ≤ x
    → x < first + len
    → check_range first len p ≡ true
    → p x ≡ true
unfolding check_range
check_range_lem first zero x p le lt h = absurd (omega arith)
check_range_lem first (suc len) x p le lt h = elim (Bool-cases (x == first)) [
  | inl e ↦ ground arith
  | inr e ↦ check_range_lem (first + 1) len x p (ground arith) (omega arith) (ground arith)
]

-- The check from 0 on covers every number below its length.
pub checked : {n x : ℕ} → x < n → (p : ℕ → Bool) → check_range 0 n p ≡ true → p x ≡ true
checked {n = n} {x = x} lt p h = check_range_lem 0 n x p (omega arith) (omega arith) h

abbrev pub all : {A : Type 0} → (A → Bool) → List A → Bool
all p [] = true
all p (x ∷ xs) = p x && all p xs

-- ===== src/Fat/Table/FindFree.antt =====
-- The inner loop of `alloc_cluster` of lib/fat/fat.c.
use ccpu_libsys.Prelude.{
  ℕ, zero, suc, ◌+◌, ◌<◌, ◌≤◌, ◌≡◌, ◌≢◌, Option, none, some, arith, ◌==◌, inl, inr, Bool-cases,
}
use mathlib.Core.Path.{subst}
use native.Mathlib.Decide.{ℕ_discrete}
use ccpu_libsys.Fat.Card.{Block}
use ccpu_libsys.Fat.Bytes.{get_word}
use ccpu_libsys.Fat.Table.{find_free_entry}

-- The inner loop finds the first entry that is 0, or there is none.
abbrev pub FreeEntry : ℕ → ℕ → Block → Option ℕ → Type 0
FreeEntry n i b none = (j : ℕ) → i ≤ j → j < i + n → get_word b j ≢ 0
FreeEntry n i b (some k) =
    (i ≤ k) × (k < i + n) × (get_word b k ≡ 0) × ((j : ℕ) → i ≤ j → j < k → get_word b j ≢ 0)

FreeEntry-next :
    (n i : ℕ) (b : Block) (o : Option ℕ)
    → get_word b i ≢ 0
    → FreeEntry n (i + 1) b o
    → FreeEntry (suc n) i b o
FreeEntry-next n i b none ne h = λ j le lt. elim (ℕ_discrete i j) [
  | yes e ↦ subst (λ j. get_word b j ≢ 0) e ne
  | no far ↦ h j (omega arith) (omega arith)
]
FreeEntry-next n i b (some k) ne h = (
  omega (arith, h.0),
  omega (arith, h.1),
  h.2,
  λ j le lt. elim (ℕ_discrete i j) [
    | yes e ↦ subst (λ j. get_word b j ≢ 0) e ne
    | no far ↦ h.3 j (omega arith) lt
  ],
)

pub find_free_entry_lem : (n i : ℕ) (b : Block) → FreeEntry n i b (find_free_entry n i b)
unfolding find_free_entry
find_free_entry_lem zero i b = λ j le lt. absurd (omega arith)
find_free_entry_lem (suc n) i b = elim (Bool-cases (get_word b i == 0)) [
  | inl e ↦ rw e (omega arith, omega arith, ground arith, λ j le lt. absurd (omega arith))
  | inr e ↦ rw e (
      FreeEntry-next n i b (find_free_entry n (i + 1) b) (ground arith)
        (find_free_entry_lem n (i + 1) b))
]

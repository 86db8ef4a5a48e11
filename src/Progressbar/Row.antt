-- ===== src/Progressbar/Row.antt =====
-- What `progressbar_progress` of lib/fat/progressbar.c draws.
use ccpu_libsys.Prelude.{
  ℕ, zero, suc, ◌+◌, ◌*◌, ◌%◌, ◌<◌, ◌≤◌, ◌≡◌, refl, inl, inr, false, some, arith, ltb, leb,
  Bool-cases, ◌⊎◌,
}
use mathlib.Core.Path.{subst}
use native.Mathlib.Nat.{mul-le-mul_left}
use ccpu_libsys.Progressbar.{
  Memory, Bar, char_empty, char_full, vga_cols, last_row, fill, draw_cell, catch_up,
  progressbar_init, progressbar_progress,
}

-- `k` of `m` steps are shown by `c` full cells: as many as it takes to reach the part `k / m` of the
-- row. The rest of the row is empty, and the memory outside of it as it was.
pub record Shows (m k c : ℕ) (mem : Memory) (b : Bar) : Type 0 where
  pub steps : b.last_x ≡ 80 * k
  pub reached : b.last_y ≡ m * c
  pub drawn : b.offset ≡ last_row + c
  pub size : b.max_value ≡ m
  pub full : (i : ℕ) → i < c → b.memory (last_row + i) ≡ char_full
  pub empty : (i : ℕ) → c ≤ i → i < 80 → b.memory (last_row + i) ≡ char_empty
  pub outside : (x : ℕ) → (x < last_row) ⊎ (last_row + 80 ≤ x) → b.memory x ≡ mem x

pub init-Shows : (m : ℕ) (mem : Memory) → Shows m 0 0 mem (progressbar_init m mem)
unfolding progressbar_init fill
init-Shows m mem = record {
  steps = refl;
  reached = omega arith;
  drawn = refl;
  size = refl;
  full = λ i lt. absurd (omega arith);
  empty = λ i le lt. ground arith;
  outside = λ x out. ground arith;
}

draw_cell-Shows :
    (m k c : ℕ) (mem : Memory) (b : Bar)
    → Shows m k c mem b
    → c < 80
    → m * c + m < 65536
    → Shows m k (suc c) mem (draw_cell b)
unfolding draw_cell fill
draw_cell-Shows m k c mem b h lt fits = record {
  steps = h.steps;
  reached = omega (arith, h.reached, h.size, fits);
  drawn = omega (arith, h.drawn, lt);
  size = h.size;
  full = λ i le. ground (arith, h.drawn, h.full i);
  empty = λ i le lt. ground (arith, h.drawn, h.empty i);
  outside = λ x out. ground (arith, h.drawn, h.outside x, lt);
}

-- With fewer steps done than there are, a cell that is still wanted is in the row.
cell_in_row : (m k c : ℕ) → k ≤ m → 0 < m → m * c < 80 * k → c < 80
cell_in_row m k c le pos lt = elim (Bool-cases (leb 80 c)) [
  | inr few ↦ ground (arith, few)
  | inl many ↦
      let wide : m * 80 ≤ m * c = mul-le-mul_left m (ground (arith, many)) in
      absurd (omega (arith, wide, lt, le))
]

catch_up_lem :
    (fuel m k c : ℕ) (mem : Memory) (b : Bar)
    → Shows m k c mem b
    → 0 < m
    → k ≤ m
    → m < 256
    → 80 * k < m * c + suc fuel
    → m * c < 80 * k + m
    → (c' : ℕ) × (b' : Bar) × (catch_up (suc fuel) b ≡ some b')
      × Shows m k c' mem b'
      × (80 * k ≤ m * c')
      × (m * c' < 80 * k + m)
unfolding catch_up
catch_up_lem zero m k c mem b h pos le small lt near =
    let done : ltb b.last_y b.last_x ≡ false = ground (arith, lt, h.steps, h.reached) in
    (c, b, rw done refl, h, omega (arith, lt), near)
catch_up_lem (suc fuel) m k c mem b h pos le small lt near =
    elim (Bool-cases (ltb b.last_y b.last_x)) [
      | inr done ↦ (c, b, rw done refl, h, ground (arith, done, h.steps, h.reached), near)
      | inl behind ↦
          let more : m * c < 80 * k = ground (arith, behind, h.steps, h.reached) in
          let inside : c < 80 = cell_in_row m k c le pos more in
          let (c', b', run, shown, done, near') =
            catch_up_lem fuel m k (suc c) mem (draw_cell b)
              (draw_cell-Shows m k c mem b h inside (omega (arith, more, le, small))) pos le small
              (omega (arith, lt, pos)) (omega (arith, more)) in
          (c', b', rw behind run, shown, done, near')
    ]

-- The cells are as many as it takes to reach the part `k / m` of the row, and stay in the row.
abbrev pub Reaches : ℕ → ℕ → ℕ → Type 0
Reaches m k c = (80 * k ≤ m * c) × (m * c < 80 * k + m)

progress_lem :
    (n m k c : ℕ) (mem : Memory) (b : Bar)
    → Shows m k c mem b
    → Reaches m k c
    → 0 < m
    → k + n ≤ m
    → m < 256
    → (c' : ℕ) × (b' : Bar) × (progressbar_progress 81 n b ≡ some b')
      × Shows m (k + n) c' mem b'
      × Reaches m (k + n) c'
unfolding progressbar_progress
progress_lem zero m k c mem b h near pos le small = (
  c,
  b,
  refl,
  subst (λ k. Shows m k c mem b) (omega arith) h,
  subst (λ k. Reaches m k c) (omega arith) near,
)
progress_lem (suc n) m k c mem b h near pos le small =
    let b1 : Bar = record b { last_x = (b.last_x + vga_cols) % 65536 } in
    let h1 : Shows m (k + 1) c mem b1 = record {
      steps = omega (arith, h.steps, le, small);
      reached = h.reached;
      drawn = h.drawn;
      size = h.size;
      full = h.full;
      empty = h.empty;
      outside = h.outside;
    } in
    let (c2, b2, run2, h2, low2, high2) =
      catch_up_lem 80 m (k + 1) c mem b1 h1 pos (omega (arith, le)) small (omega (arith, near))
        (omega (arith, near)) in
    let (c', b', run, h', near') =
      progress_lem n m (k + 1) c2 mem b2 h2 (low2, high2) pos (omega (arith, le)) small in
    (
      c',
      b',
      rw run2 run,
      subst (λ k. Shows m k c' mem b') (omega arith) h',
      subst (λ k. Reaches m k c') (omega arith) near',
    )

in_row : (m k c : ℕ) → k ≤ m → 0 < m → Reaches m k c → c ≤ 80
in_row m k c le pos near = elim (Bool-cases (leb c 80)) [
  | inl few ↦ ground (arith, few)
  | inr many ↦
      let wide : m * 81 ≤ m * c = mul-le-mul_left m (ground (arith, many)) in
      absurd (omega (arith, wide, near, le))
]

all_cells : (m c : ℕ) → 0 < m → Reaches m m c → 80 ≤ c
all_cells m c pos near = elim (Bool-cases (leb 80 c)) [
  | inl many ↦ ground (arith, many)
  | inr few ↦
      let short : m * c ≤ m * 79 = mul-le-mul_left m (ground (arith, few)) in
      absurd (omega (arith, short, near, pos))
]

-- For a bar of 1 to 255 steps and `n` of them: `progressbar_init` and `progressbar_progress(n)` end,
-- with 81 rounds at most for each step, and show `n` steps: the first `c` cells of the last row are
-- full, the others of its 80 cells are empty, and the memory outside of the row is as before. `c` is
-- the least number with `80 * n ≤ m * c`, at most 80, and 80 when all steps are done.
pub progressbar_progress_lem :
    (m n : ℕ) (mem : Memory)
    → 0 < m
    → m < 256
    → n ≤ m
    → (c : ℕ) × (b : Bar) × (progressbar_progress 81 n (progressbar_init m mem) ≡ some b)
      × Shows m n c mem b
      × Reaches m n c
      × (c ≤ 80)
      × (n ≡ m → c ≡ 80)
progressbar_progress_lem m n mem pos small le =
    let (c, b, run, h, near) =
      progress_lem n m 0 0 mem (progressbar_init m mem) (init-Shows m mem)
        (omega arith, omega (arith, pos)) pos (omega (arith, le)) small in
    let h' : Shows m n c mem b = subst (λ k. Shows m k c mem b) (omega arith) h in
    let near' : Reaches m n c = subst (λ k. Reaches m k c) (omega arith) near in
    let few : c ≤ 80 = in_row m n c le pos near' in
    (
      c,
      b,
      run,
      h',
      near',
      few,
      λ all.
          let many = all_cells m c pos (subst (λ n. Reaches m n c) all near') in
          omega (arith, few, many),
    )

-- ===== src/Progressbar/Over.antt =====
-- `progressbar_progress` of lib/fat/progressbar.c one step beyond the last: it ends, and draws
-- behind the row.
use ccpu_libsys.Prelude.{
  ℕ, zero, suc, ◌+◌, ◌*◌, ◌%◌, ◌<◌, ◌≤◌, ◌≡◌, refl, inl, inr, false, some, arith, ltb, leb,
  Bool-cases,
}
use mathlib.Core.Path.{subst}
use native.Mathlib.Nat.{mul-le-mul_left}
use ccpu_libsys.Progressbar.{
  Memory, Bar, vga_cols, last_row, fill, draw_cell, catch_up, progressbar_init,
  progressbar_progress,
}

-- After `k` of `m` steps, or one more, the bar has drawn `c` cells, and the memory in front of the
-- row is as before.
pub record Draws (m k c : ℕ) (mem : Memory) (b : Bar) : Type 0 where
  pub steps : b.last_x ≡ 80 * k
  pub reached : b.last_y ≡ m * c
  pub drawn : b.offset ≡ last_row + c
  pub size : b.max_value ≡ m
  pub front : (x : ℕ) → x < last_row → b.memory x ≡ mem x

pub init-Draws : (m : ℕ) (mem : Memory) → Draws m 0 0 mem (progressbar_init m mem)
unfolding progressbar_init fill
init-Draws m mem = record {
  steps = refl;
  reached = omega arith;
  drawn = refl;
  size = refl;
  front = λ x lt. ground (arith, lt);
}

draw_cell-Draws :
    (m k c : ℕ) (mem : Memory) (b : Bar)
    → Draws m k c mem b
    → c < 200
    → m * c + m < 65536
    → Draws m k (suc c) mem (draw_cell b)
unfolding draw_cell fill
draw_cell-Draws m k c mem b h lt fits = record {
  steps = h.steps;
  reached = omega (arith, h.reached, h.size, fits);
  drawn = omega (arith, h.drawn, lt);
  size = h.size;
  front = λ x lt. ground (arith, h.drawn, h.front x lt, lt);
}

few_cells : (m k c : ℕ) → k ≤ suc m → 0 < m → m * c < 80 * k → c < 200
few_cells m k c le pos lt = elim (Bool-cases (leb 200 c)) [
  | inr few ↦ ground (arith, few)
  | inl many ↦
      let wide : m * 200 ≤ m * c = mul-le-mul_left m (ground (arith, many)) in
      absurd (omega (arith, wide, lt, le, pos))
]

catch_up-Draws :
    (fuel m k c : ℕ) (mem : Memory) (b : Bar)
    → Draws m k c mem b
    → 0 < m
    → k ≤ suc m
    → m < 256
    → 80 * k < m * c + suc fuel
    → m * c < 80 * k + m
    → (c' : ℕ) × (b' : Bar) × (catch_up (suc fuel) b ≡ some b')
      × Draws m k c' mem b'
      × (80 * k ≤ m * c')
      × (m * c' < 80 * k + m)
unfolding catch_up
catch_up-Draws zero m k c mem b h pos le small lt near =
    let done : ltb b.last_y b.last_x ≡ false = ground (arith, lt, h.steps, h.reached) in
    (c, b, rw done refl, h, omega (arith, lt), near)
catch_up-Draws (suc fuel) m k c mem b h pos le small lt near =
    elim (Bool-cases (ltb b.last_y b.last_x)) [
      | inr done ↦ (c, b, rw done refl, h, ground (arith, done, h.steps, h.reached), near)
      | inl behind ↦
          let more : m * c < 80 * k = ground (arith, behind, h.steps, h.reached) in
          let few : c < 200 = few_cells m k c le pos more in
          let (c', b', run, shown, done, near') =
            catch_up-Draws fuel m k (suc c) mem (draw_cell b)
              (draw_cell-Draws m k c mem b h few (omega (arith, more, le, small))) pos le small
              (omega (arith, lt, pos)) (omega (arith, more)) in
          (c', b', rw behind run, shown, done, near')
    ]

-- `k` of `m` steps are done, or one more, with the cells that they take.
pub record IsDrawn (m k : ℕ) (mem : Memory) (b : Bar) : Type 0 where
  pub cells : ℕ
  pub draws : Draws m k cells mem b
  pub low : 80 * k ≤ m * cells
  pub high : m * cells < 80 * k + m

pub init-IsDrawn : (m : ℕ) (mem : Memory) → 0 < m → IsDrawn m 0 mem (progressbar_init m mem)
init-IsDrawn m mem pos = record {
  cells = 0;
  draws = init-Draws m mem;
  low = omega arith;
  high = omega (arith, pos);
}

-- `n` steps more, at most one beyond the last, end and leave the memory in front of the row.
pub progress-IsDrawn :
    (n m k : ℕ) (mem : Memory) (b : Bar)
    → IsDrawn m k mem b
    → 0 < m
    → k + n ≤ suc m
    → m < 256
    → (b' : Bar) × (progressbar_progress 81 n b ≡ some b') × IsDrawn m (k + n) mem b'
unfolding progressbar_progress
progress-IsDrawn zero m k mem b h pos le small =
    (b, refl, subst (λ k. IsDrawn m k mem b) (omega arith) h)
progress-IsDrawn (suc n) m k mem b h pos le small =
    let b1 : Bar = record b { last_x = (b.last_x + vga_cols) % 65536 } in
    let h1 : Draws m (k + 1) h.cells mem b1 = record {
      steps = omega (arith, h.draws.steps, le, small);
      reached = h.draws.reached;
      drawn = h.draws.drawn;
      size = h.draws.size;
      front = h.draws.front;
    } in
    let (c2, b2, run2, h2, low2, high2) =
      catch_up-Draws 80 m (k + 1) h.cells mem b1 h1 pos (omega (arith, le)) small
        (omega (arith, h.low)) (omega (arith, h.high)) in
    let (b', run, h') =
      progress-IsDrawn n m (k + 1) mem b2
        (record { cells = c2; draws = h2; low = low2; high = high2 }) pos (omega (arith, le))
        small in
    (b', rw run2 run, subst (λ k. IsDrawn m k mem b') (omega arith) h')

-- ===== src/Progressbar/Tests.antt =====
-- A run of the bar of lib/fat/progressbar.c.
use ccpu_libsys.Prelude.{ℕ, ◌≤◌, ◌≡◌, some, arith}
use ccpu_libsys.Progressbar.{Bar, progressbar_init, progressbar_progress}
use ccpu_libsys.Progressbar.Row.{Shows, Reaches, progressbar_progress_lem}

abbrev half : ℕ
half = 5

abbrev most : ℕ
most = 10

-- Half of the steps.
progressbar_progress_example :
    (c : ℕ) × (b : Bar) × (progressbar_progress 81 half (progressbar_init most (λ x. 0)) ≡ some b)
    × Shows most half c (λ x. 0) b
    × Reaches most half c
    × (c ≤ 80)
    × (half ≡ most → c ≡ 80)
progressbar_progress_example =
    progressbar_progress_lem most half (λ x. 0) (omega arith) (omega arith) (omega arith)

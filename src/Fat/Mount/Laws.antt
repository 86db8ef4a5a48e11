-- ===== src/Fat/Mount/Laws.antt =====
-- The shift that `fat_mount` of lib/fat/fat.c computes for a cluster.
use ccpu_libsys.Prelude.{
  ℕ, ◌+◌, ◌^◌, ◌<◌, ◌≤◌, ◌≡◌, refl, true, ◌&&◌, ◌||◌, arith, ◌==◌, ltb, leb, check_range, checked,
}
use ccpu_libsys.Fat.Mount.{log_sectors}

log_table :
    check_range 0 256
      (λ n. n == 0 || (leb (2 ^ log_sectors n) n && ltb n (2 ^ (log_sectors n + 1))))
    ≡ true
unfolding check_range log_sectors
log_table = refl

-- For an 8-bit number of sectors that is not 0, `log_sectors_per_cluster` is its logarithm to the
-- base 2, rounded down.
pub log_sectors_lem :
    (n : ℕ) → 0 < n → n < 256 → (2 ^ log_sectors n ≤ n) × (n < 2 ^ (log_sectors n + 1))
log_sectors_lem n pos lt = let t = checked lt _ log_table in ground (arith, t)

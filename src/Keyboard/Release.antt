-- ===== src/Keyboard/Release.antt =====
-- The release bit of an event.
use ccpu_libsys.Prelude.{
  ℕ, ◌<◌, ◌≡◌, refl, true, ◌==◌, if◌then◌else◌, bit_and, check_range, checked, ltb,
}

release_bit_table :
    check_range 0 256 (λ x. if ltb x 128 then bit_and x 0x80 == 0 else bit_and x 0x80 == 128) ≡ true
unfolding check_range
release_bit_table = refl

pub release_bit :
    (x : ℕ) → x < 256 → (if ltb x 128 then bit_and x 0x80 == 0 else bit_and x 0x80 == 128) ≡ true
release_bit x h = checked h _ release_bit_table

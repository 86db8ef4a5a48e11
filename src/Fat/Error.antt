-- ===== src/Fat/Error.antt =====
-- The values of `last_error`, FAT_ERROR_…, FAT_EXEC_ERROR_… and FAT_EOF of include/libsys/fat/fat.h, and the results
-- of the card driver, CARD_ERROR_… of include/libsys/card.h, that lib/fat/fat.c tells apart.
use ccpu_libsys.Prelude.{ℕ}

abbrev pub ok : ℕ
ok = 0

abbrev pub no_card : ℕ
no_card = 1

abbrev pub unsupported_fat_type : ℕ
unsupported_fat_type = 2

abbrev pub unsupported_sector_size : ℕ
unsupported_sector_size = 3

abbrev pub too_many_fats : ℕ
too_many_fats = 4

abbrev pub too_many_open_files : ℕ
too_many_open_files = 5

abbrev pub not_a_dir : ℕ
not_a_dir = 6

abbrev pub card_reinserted : ℕ
card_reinserted = 7

abbrev pub card_failed : ℕ
card_failed = 8

abbrev pub fs_broken : ℕ
fs_broken = 9

abbrev pub not_found : ℕ
not_found = 10

abbrev pub bad_descriptor : ℕ
bad_descriptor = 11

abbrev pub eof : ℕ
eof = 12

abbrev pub relative_path : ℕ
relative_path = 13

abbrev pub is_dir : ℕ
is_dir = 14

abbrev pub stale_descriptor : ℕ
stale_descriptor = 15

abbrev pub file_exists : ℕ
file_exists = 16

abbrev pub dir_full : ℕ
dir_full = 17

abbrev pub wrong_extension : ℕ
wrong_extension = 64

abbrev pub file_too_large : ℕ
file_too_large = 65

abbrev pub card_no_card : ℕ
card_no_card = 8

abbrev pub card_not_initialized : ℕ
card_not_initialized = 9

abbrev pub card_out_of_range : ℕ
card_out_of_range = 11

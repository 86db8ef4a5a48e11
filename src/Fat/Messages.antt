-- ===== src/Fat/Messages.antt =====
-- lib/fat/last_error.c: `fat_get_last_error` and `fat_print_last_error`, with `puts` as a parameter.
use ccpu_libsys.Prelude.{ℕ, ◌<◌, ◌≡◌, ◌≢◌, arith, ◌==◌, if◌then◌else◌, List, [], ◌∷◌}
use ccpu_libsys.Fat.Error
use ccpu_libsys.Fat.State.{Sys}
use Prim.Native.String.{String}

-- The cases of the `switch`: a value of `last_error` and its text.
unfoldable pub messages : List (ℕ × String)
messages =
    (Error.ok, "ok")
    ∷ (Error.no_card, "no card")
    ∷ (Error.unsupported_fat_type, "unsupported FAT type")
    ∷ (Error.unsupported_sector_size, "unsupported sector size")
    ∷ (Error.too_many_fats, "too many FATs")
    ∷ (Error.too_many_open_files, "too many open files")
    ∷ (Error.not_a_dir, "not a directory")
    ∷ (Error.card_reinserted, "card was reinserted")
    ∷ (Error.card_failed, "card error")
    ∷ (Error.fs_broken, "filesystem is broken")
    ∷ (Error.not_found, "not found")
    ∷ (Error.bad_descriptor, "bad descriptor")
    ∷ (Error.eof, "EOF")
    ∷ (Error.relative_path, "relative path")
    ∷ (Error.is_dir, "is a directory")
    ∷ (Error.stale_descriptor, "stale descriptor")
    ∷ (Error.file_exists, "file exists")
    ∷ (Error.dir_full, "directory is full")
    ∷ (Error.wrong_extension, "wrong extension")
    ∷ (Error.file_too_large, "file is too large")
    ∷ []

unfoldable pub message_in : List (ℕ × String) → ℕ → String
message_in [] e = "unknown error"
message_in ((c, text) ∷ cases) e = let rest = message_in cases e in if c == e then text else rest

module _ {Card : Type 0} where
  unfoldable pub fat_get_last_error : Sys Card → ℕ
  fat_get_last_error s = s.last_error

  unfoldable pub fat_print_last_error : {Out : Type 0} → (String → Out → Out) → Sys Card → Out → Out
  fat_print_last_error puts s = puts (message_in messages s.last_error)

-- An error that no case names.
pub message_in-unknown :
    (e : ℕ) → 17 < e → e ≢ 64 → e ≢ 65 → message_in messages e ≡ "unknown error"
unfolding message_in messages
message_in-unknown e lt ne ne2 = ground (arith, lt, ne, ne2)

-- ===== src/Exec/Refuses.antt =====
-- The files that `fat_exec_fd` of lib/fat/exec.c does not load.
use ccpu_libsys.Prelude.{
  ℕ, ◌≡◌, refl, inl, inr, true, false, ◌&&◌, Option, some, arith, ltb, leb, Bool-cases,
  if◌then◌else◌,
}
use ccpu_libsys.Fat.Card.{CardOps}
use ccpu_libsys.Fat.Error
use ccpu_libsys.Fat.Desc.{fat_close, set_error}
use ccpu_libsys.Exec.{
  Outcome, refused, Machine, is_app, extension, refuse_with, check_program, fat_exec_fd,
}
use ccpu_libsys.Exec.Loads.{get_dir_entry-open, fat_close-is_free}

module _ {Card : Type 0} (ops : CardOps Card) where
  -- Refused with the error `e`: nothing is loaded or drawn, and the descriptor is closed.
  abbrev pub RefusedWith : ℕ → ℕ → Machine Card → Option (Outcome × Machine Card) → Type 0
  RefusedWith e fd m run =
      (m' : Machine Card) × (run ≡ some (refused, m'))
      × (m'.sys.last_error ≡ e)
      × ((m'.sys.file_desc fd).is_free ≡ true)
      × (m'.loload_buf ≡ m.loload_buf)
      × (m'.lo_ram ≡ m.lo_ram)
      × (m'.bar ≡ m.bar)

  refuse_with_lem :
      (e fd : ℕ) (m : Machine Card) → RefusedWith e fd m (some (refuse_with ops e fd m))
  unfolding refuse_with set_error
  refuse_with_lem e fd m = (
    record m { sys = set_error e (fat_close ops fd m.sys).1 },
    refl,
    refl,
    fat_close-is_free ops fd m.sys,
    refl,
    refl,
    refl,
  )

  -- Whatever the card does, for an open descriptor of a file without the extension "APP" or with
  -- more than `max_size` bytes: `fat_exec_fd` loads and draws nothing, closes the descriptor and
  -- leaves the error FAT_EXEC_ERROR_WRONG_EXTENSION in the first case, whatever the size, or
  -- FAT_EXEC_ERROR_FILE_TOO_LARGE.
  pub fat_exec_fd_refused :
      (max_size fd : ℕ) (m : Machine Card)
      → let e = (m.sys.file_desc fd).dir_entry in
        let app = is_app (extension 8 e.filename) in
        (m.sys.file_desc fd).is_free ≡ false
        → (m.sys.file_desc fd).is_stale ≡ false
        → (app && leb e.size max_size) ≡ false
        → RefusedWith
            (if app then Error.file_too_large else Error.wrong_extension)
            fd
            m
            (fat_exec_fd ops max_size fd m)
  unfolding fat_exec_fd check_program
  fat_exec_fd_refused max_size fd m taken fresh bad =
      let e = (m.sys.file_desc fd).dir_entry in
      let got = get_dir_entry-open fd m.sys taken fresh in
      elim (Bool-cases (is_app (extension 8 e.filename))) [
        | inr other ↦ rw (got, other) (refuse_with_lem Error.wrong_extension fd m)
        | inl app ↦
            let large : ltb max_size e.size ≡ true = ground (arith, app, bad) in
            rw (got, app, large) (refuse_with_lem Error.file_too_large fd m)
      ]

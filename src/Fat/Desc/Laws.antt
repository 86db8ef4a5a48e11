-- ===== src/Fat/Desc/Laws.antt =====
-- Allocation and lookup of file descriptors in lib/fat/fat.c.
use ccpu_libsys.Prelude.{
  ℕ, zero, suc, ◌+◌, ◌<◌, ◌≤◌, ◌≡◌, refl, ◌⊎◌, inl, inr, true, false, arith, ◌==◌, Bool-cases,
}
use native.Mathlib.Decide.{ℕ_discrete}
use mathlib.Core.Path.{subst}
use ccpu_libsys.Fat.Error
use ccpu_libsys.Fat.State.{Sys, FileDescriptor, max_file_desc, fat_bad_desc, put_desc}
use ccpu_libsys.Fat.Desc.{find_free_fd, fat_private_get_free_fd, get_desc, set_error, set_desc}

-- What the search for a free descriptor finds from `fd` on, `n` being left.
abbrev FreeFd : (ℕ → FileDescriptor) → ℕ → ℕ → ℕ → Type 0
FreeFd t n fd r =
    (fd ≤ r)
    × (r ≤ fd + n)
    × ((i : ℕ) → fd ≤ i → i < r → (t i).is_free ≡ false)
    × (r < fd + n → (t r).is_free ≡ true)

find_free_fd_lem : (t : ℕ → FileDescriptor) (n fd : ℕ) → FreeFd t n fd (find_free_fd n fd t)
unfolding find_free_fd
find_free_fd_lem t zero fd =
    (omega arith, omega arith, λ i a b. absurd (omega arith), λ h. absurd (omega arith))
find_free_fd_lem t (suc n) fd = elim (Bool-cases (t fd).is_free) [
  | inl e ↦ rw e (omega arith, omega arith, λ i a b. absurd (omega arith), λ h. e)
  | inr e ↦
      let (a, b, c, d) = find_free_fd_lem t n (fd + 1) in
      rw e (
        omega (arith, a),
        omega (arith, b),
        λ i p q. elim (ℕ_discrete fd i) [
          | yes same ↦ subst (λ i. (t i).is_free ≡ false) same e
          | no ne ↦ c i (omega arith) q
        ],
        λ h. d (omega arith),
      )
]

module _ {Card : Type 0} where
  -- Either a descriptor is free: then `fat_private_get_free_fd` returns the lowest and marks it
  -- taken, and every other descriptor stays as it is; or none is: then it returns FAT_BAD_DESC,
  -- sets FAT_ERROR_TOO_MANY_OPEN_FILES and changes nothing else.
  pub fat_private_get_free_fd_lem :
      (s : Sys Card)
      → let (fd, s') = fat_private_get_free_fd s in
        ((fd < max_file_desc)
          × ((s.file_desc fd).is_free ≡ true)
          × ((i : ℕ) → i < fd → (s.file_desc i).is_free ≡ false)
          × (s' ≡ record s {
            file_desc = put_desc s.file_desc fd (record (s.file_desc fd) { is_free = false });
          }))
        ⊎ (((i : ℕ) → i < max_file_desc → (s.file_desc i).is_free ≡ false)
            × (fd ≡ fat_bad_desc)
            × (s' ≡ record s { last_error = Error.too_many_open_files }))
  unfolding fat_private_get_free_fd set_error set_desc
  fat_private_get_free_fd_lem s =
      elim (Bool-cases (find_free_fd max_file_desc 0 s.file_desc == max_file_desc)) [
        | inl e ↦
            let (a, b, c, d) = find_free_fd_lem s.file_desc max_file_desc 0 in
            rw e (inr (λ i h. c i (omega arith) (ground arith), refl, refl))
        | inr e ↦
            let (a, b, c, d) = find_free_fd_lem s.file_desc max_file_desc 0 in
            rw e (inl (ground arith, d (ground arith), λ i h. c i (omega arith) h, refl))
      ]

  -- `get_desc` accepts a descriptor exactly if it is open and not stale, and changes nothing then;
  -- otherwise it sets the error for a bad or for a stale descriptor, and changes nothing else.
  pub get_desc_lem :
      (fd : ℕ) (s : Sys Card)
      → (((s.file_desc fd).is_free ≡ false)
          × ((s.file_desc fd).is_stale ≡ false)
          × (get_desc fd s ≡ (true, s)))
        ⊎ (((s.file_desc fd).is_free ≡ true)
            × (get_desc fd s ≡ (false, record s { last_error = Error.bad_descriptor })))
        ⊎ (((s.file_desc fd).is_free ≡ false)
            × ((s.file_desc fd).is_stale ≡ true)
            × (get_desc fd s ≡ (false, record s { last_error = Error.stale_descriptor })))
  unfolding get_desc set_error
  get_desc_lem fd s = ground arith

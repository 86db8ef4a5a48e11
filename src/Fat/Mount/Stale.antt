-- ===== src/Fat/Mount/Stale.antt =====
-- Descriptors across `fat_mount` of lib/fat/fat.c.
use ccpu_libsys.Prelude.{
  ℕ, ◌<◌, ◌≡◌, ◌≢◌, refl, ap, ◌∙◌, Bool, true, false, arith, ◌==◌, if◌then◌else◌, Bool-cases, inl,
  inr,
}
use ccpu_libsys.Fat.Card.{CardOps}
use ccpu_libsys.Fat.Error
use ccpu_libsys.Fat.State.{Sys, FileDescriptor, max_file_desc}
use ccpu_libsys.Fat.Cache.{cache, set_fat_error, load_block, ◌&&>◌}
use ccpu_libsys.Fat.Desc.{get_desc, set_desc, set_error, fat_close}
use ccpu_libsys.Fat.Mount.{
  Bpb, get_bpb, rel_sector, set_info, accept_clusters, finish_mount, mount_bpb, begin_mount,
  read_bpb, read_partition, fat_mount,
}

module _ {Card : Type 0} (ops : CardOps Card) where
  set_fat_error-file_desc : (e : ℕ) (s : Sys Card) → (set_fat_error ops e s).file_desc ≡ s.file_desc
  unfolding set_fat_error
  set_fat_error-file_desc e s = ground arith

  cache-file_desc : (a : ℕ) (s : Sys Card) → (cache ops a s).1.file_desc ≡ s.file_desc
  unfolding cache load_block set_fat_error
  cache-file_desc a s = ground arith

  mount_bpb-file_desc : (p : Bpb) (s : Sys Card) → (mount_bpb p s).1.file_desc ≡ s.file_desc
  unfolding mount_bpb finish_mount accept_clusters set_info set_error
  mount_bpb-file_desc p s = ground arith

  &&>-file_desc :
      (t : ℕ → FileDescriptor) (r : Bool × Sys Card) (k : Sys Card → Bool × Sys Card)
      → r.1.file_desc ≡ t
      → ((s : Sys Card) → s.file_desc ≡ t → (k s).1.file_desc ≡ t)
      → (r &&> k).1.file_desc ≡ t
  &&>-file_desc t (true, s) k e next = next s e
  &&>-file_desc t (false, s) k e next = e

  read_partition-file_desc : (s : Sys Card) → (read_partition ops s).1.file_desc ≡ s.file_desc
  unfolding read_partition read_bpb
  read_partition-file_desc s =
      &&>-file_desc s.file_desc (cache ops (rel_sector s.cache_block) s) (read_bpb ops)
        (cache-file_desc (rel_sector s.cache_block) s)
        λ t e. mount_bpb-file_desc (get_bpb t.cache_block) t ∙ e

  fat_mount-file_desc : (s : Sys Card) → (fat_mount ops s).1.file_desc ≡ (begin_mount s).file_desc
  unfolding fat_mount
  fat_mount-file_desc s =
      let s0 = begin_mount s in
      let s1 = record s0 { card = (ops.init s0.card).1 } in
      let read =
        &&>-file_desc s0.file_desc (cache ops 0 s1) (read_partition ops) (cache-file_desc 0 s1)
          λ t e. read_partition-file_desc t ∙ e in
      elim (Bool-cases ((ops.init s0.card).0 == 0)) [
        | inl z ↦ rw z read
        | inr nz ↦ rw nz (set_fat_error-file_desc (ops.init s0.card).0 s1)
      ]

  -- After `fat_mount`, whether it succeeds or fails, none of the 16 descriptors serves until it is
  -- closed or opened anew: one that was open is refused as stale, and one that was free as bad.
  pub fat_mount_stale :
      (fd : ℕ) (s : Sys Card)
      → fd < max_file_desc
      → let r = get_desc fd (fat_mount ops s).1 in
        (r.0 ≡ false)
        × (r.1.last_error
            ≡ (if (s.file_desc fd).is_free then Error.bad_descriptor else Error.stale_descriptor))
  unfolding get_desc set_error begin_mount
  fat_mount_stale fd s lt =
      let e = ap (λ (t : ℕ → FileDescriptor). t fd) (fat_mount-file_desc s) in ground (arith, e)

  -- What `fat_close` leaves of the state where the descriptor is stale.
  close_stale :
      (fd : ℕ) (t : Sys Card)
      → (t.file_desc fd).is_stale ≡ true
      → let r = fat_close ops fd t in
        (r.1.card ≡ t.card)
        × (r.1.cache_block ≡ t.cache_block)
        × (r.1.cache_block_addr ≡ t.cache_block_addr)
        × ((r.1.file_desc fd).is_free ≡ true)
        × ((r.1.file_desc fd).is_stale ≡ false)
        × ((i : ℕ) → i ≢ fd → r.1.file_desc i ≡ t.file_desc i)
        × ((t.file_desc fd).dir_entry_modified ≡ true
            → (r.0 ≡ false) × (r.1.last_error ≡ Error.stale_descriptor))
  unfolding fat_close set_error set_desc
  close_stale fd t e = elim (Bool-cases (t.file_desc fd).dir_entry_modified) [
    | inl m ↦
        rw (m, e)
          (
            refl,
            refl,
            refl,
            ground arith,
            ground arith,
            λ i ne. ground (arith, ne),
            λ _. (refl, refl),
          )
    | inr m ↦
        rw (m, e)
          (
            refl,
            refl,
            refl,
            ground arith,
            ground arith,
            λ i ne. ground (arith, ne),
            λ m2. absurd (cc m2),
          )
  ]

  -- After `fat_mount`, whether it succeeds or fails, `fat_close` of a descriptor that was open before
  -- writes nothing: the card that is mounted now and the cached block stay as they are, also if the
  -- descriptor has a modified entry, which is then lost with an error. The descriptor is free, and the
  -- others stay.
  pub fat_close-fat_mount :
      (fd : ℕ) (s : Sys Card)
      → fd < max_file_desc
      → (s.file_desc fd).is_free ≡ false
      → let t = (fat_mount ops s).1 in
        let r = fat_close ops fd t in
        (r.1.card ≡ t.card)
        × (r.1.cache_block ≡ t.cache_block)
        × (r.1.cache_block_addr ≡ t.cache_block_addr)
        × ((r.1.file_desc fd).is_free ≡ true)
        × ((r.1.file_desc fd).is_stale ≡ false)
        × ((i : ℕ) → i ≢ fd → r.1.file_desc i ≡ t.file_desc i)
        × ((s.file_desc fd).dir_entry_modified ≡ true
            → (r.0 ≡ false) × (r.1.last_error ≡ Error.stale_descriptor))
  unfolding begin_mount
  fat_close-fat_mount fd s lt taken =
      let t = (fat_mount ops s).1 in
      let e = ap (λ (u : ℕ → FileDescriptor). u fd) (fat_mount-file_desc s) in
      let stale : (t.file_desc fd).is_stale ≡ true =
        ap (λ p. p.is_stale) e ∙ ground (arith, lt, taken) in
      let modified : (t.file_desc fd).dir_entry_modified ≡ (s.file_desc fd).dir_entry_modified =
        ap (λ p. p.dir_entry_modified) e ∙ ground (arith, lt, taken) in
      let (card, block, addr, free, fresh, others, lost) = close_stale fd t stale in
      (card, block, addr, free, fresh, others, λ m. lost (modified ∙ m))

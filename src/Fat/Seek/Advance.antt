-- ===== src/Fat/Seek/Advance.antt =====
-- What `seek_advance` of lib/fat/fat.c does to a descriptor of a file.
use ccpu_libsys.Prelude.{
  ℕ, ◌+◌, ◌^◌, ◌<◌, ◌≤◌, ◌≡◌, refl, ◌⊎◌, inl, inr, Bool, true, false, arith, ◌==◌, ltb, Bool-cases,
}
use ccpu_libsys.Fat.Bytes.{u8, u16, u32}
use ccpu_libsys.Fat.Card.{Disk, CardOps, CardLaws, CardWorks}
use ccpu_libsys.Fat.State.{Sys, FatInfo, FileDescriptor, fat_min_last_cluster, cluster_block}
use ccpu_libsys.Fat.Cache.Laws.{SameTables, Stands}
use ccpu_libsys.Fat.Desc.{set_desc}
use ccpu_libsys.Fat.Table.{read_fat_entry}
use ccpu_libsys.Fat.Table.Entries.{IsLaidOut, fat_entry}
use ccpu_libsys.Fat.Table.Free.{read_fat_entry_lem}
use ccpu_libsys.Fat.Seek.{enter_next_cluster, seek_advance}
use ccpu_libsys.Fat.Seek.Moves.{
  IsInside, IsFurther, IsLast, IsEntered, SameFile, SameFile-reposition,
}

abbrev moved : ℕ → FileDescriptor → FileDescriptor
moved advance p = record p {
  index_in_block = p.index_in_block + advance;
  abs_offset = p.abs_offset + advance;
}

abbrev stepped : ℕ → FileDescriptor → FileDescriptor
stepped advance p = record (moved advance p) {
  block_in_cluster = p.block_in_cluster + 1;
  index_in_block = 0;
}

module _ {Card : Type 0} {ops : CardOps Card} (laws : CardLaws ops) (works : CardWorks ops) where
  -- The call stores `q`, and changes only the cache besides.
  abbrev pub Advanced : FatInfo → Disk → ℕ → ℕ → Sys Card → Bool × Sys Card → Type 0
  Advanced f d fd advance s r =
      let p = s.file_desc fd in
      let t = fat_entry f.fat0_offset d in
      (q : FileDescriptor) × (s' : Sys Card) × (r ≡ (true, set_desc fd q s'))
      × Stands laws f d s'
      × SameTables laws s s'
      × SameFile p q
      × (q.abs_offset ≡ p.abs_offset + advance)
      × (IsFurther f advance p q ⊎ IsLast f advance p q ⊎ IsEntered f t advance p q)

  module _ (f : FatInfo) (fd advance : ℕ) (d : Disk) (s : Sys Card) (g : IsLaidOut f)
      (st : Stands laws f d s) (h : IsInside f (fat_entry f.fat0_offset d) (s.file_desc fd))
      (le : (s.file_desc fd).index_in_block + advance ≤ 512)
      (fits : (s.file_desc fd).abs_offset + advance < 2 ^ 32) where
    abbrev p : FileDescriptor
    p = s.file_desc fd

    -- Nothing wraps.
    no_wrap :
        (u16 (p.index_in_block + advance) ≡ p.index_in_block + advance)
        × (u32 (p.abs_offset + advance) ≡ p.abs_offset + advance)
        × (u8 (p.block_in_cluster + 1) ≡ p.block_in_cluster + 1)
    no_wrap = (omega arith, omega arith, omega (arith, h.inside, h.sectors))

    advance_in_block :
        (p.index_in_block + advance == 512) ≡ false
        → Advanced f d fd advance s (seek_advance ops fd advance s)
    unfolding seek_advance
    advance_in_block inside =
        let (e_index, e_abs, _) = no_wrap in
        (
          moved advance p,
          s,
          ground (arith, e_index, e_abs, inside),
          st,
          record { info = refl; desc = refl },
          SameFile-reposition p _ _ _ _ _ _,
          refl,
          inl (record {
            cluster = refl;
            next = refl;
            position = omega arith;
            index = ground (arith, inside);
            inside = h.inside;
            address = h.address;
          }),
        )

    advance_block :
        (p.index_in_block + advance == 512) ≡ true
        → (p.block_in_cluster + 1 == f.sectors_per_cluster) ≡ false
        → Advanced f d fd advance s (seek_advance ops fd advance s)
    unfolding seek_advance
    advance_block full more =
        let (e_index, e_abs, e_block) = no_wrap in
        (
          record (stepped advance p) { block_addr = u32 (p.block_addr + 1) },
          s,
          ground (arith, e_index, e_abs, e_block, st.info, full, more),
          st,
          record { info = refl; desc = refl },
          SameFile-reposition p _ _ _ _ _ _,
          refl,
          inl (record {
            cluster = refl;
            next = refl;
            position = ground (arith, full);
            index = omega arith;
            inside = ground (arith, more, h.inside);
            address = omega (arith, h.address);
          }),
        )

    reach_end :
        (p.index_in_block + advance == 512) ≡ true
        → (p.block_in_cluster + 1 == f.sectors_per_cluster) ≡ true
        → ltb p.next_cluster fat_min_last_cluster ≡ false
        → Advanced f d fd advance s (seek_advance ops fd advance s)
    unfolding seek_advance enter_next_cluster
    reach_end full end last =
        let (e_index, e_abs, e_block) = no_wrap in
        (
          stepped advance p,
          s,
          ground (arith, e_index, e_abs, e_block, st.info, full, end, last, h.not_root),
          st,
          record { info = refl; desc = refl },
          SameFile-reposition p _ _ _ _ _ _,
          refl,
          inr (
              inl (record {
                reached = ground (arith, full, end);
                last = ground (arith, last);
                cluster = refl;
                next = refl;
                position = ground (arith, full);
                index = refl;
              })),
        )

    enter_cluster :
        (p.index_in_block + advance == 512) ≡ true
        → (p.block_in_cluster + 1 == f.sectors_per_cluster) ≡ true
        → ltb p.next_cluster fat_min_last_cluster ≡ true
        → Advanced f d fd advance s (seek_advance ops fd advance s)
    unfolding seek_advance enter_next_cluster
    enter_cluster full end follows =
        let k = p.next_cluster in
        let (e_index, e_abs, e_block) = no_wrap in
        let (en, ne) = h.follows (ground (arith, follows)) in
        let (e1, st1, same1) = read_fat_entry_lem laws works f d k s g en st in
        (
          record (stepped advance p) {
            block_addr = cluster_block f k;
            cur_cluster = k;
            next_cluster = fat_entry f.fat0_offset d k;
            block_in_cluster = 0;
          },
          (read_fat_entry ops k s).1,
          ground (arith, e_index, e_abs, e_block, st.info, full, end, follows, h.not_root, e1, ne),
          st1,
          same1,
          SameFile-reposition p _ _ _ _ _ _,
          refl,
          inr (
              inr (record {
                reached = ground (arith, full, end);
                follows = ground (arith, follows);
                cluster = refl;
                next = refl;
                position = omega arith;
                address = refl;
              })),
        )

  -- On a card where no transfer fails, with a coherent cache and the tables laid out, for a
  -- descriptor of a file inside its cluster, and an advance up to the end of its block at most that
  -- keeps the position below 2 ^ 32: `seek_advance` returns true and moves the position by so many
  -- bytes, inside the cluster with its block's address, or to the end of the last cluster, or
  -- to the start of the cluster that follows. The card, the other descriptors, and the file that the
  -- descriptor is of stay as they are.
  pub seek_advance_lem :
      (f : FatInfo) (fd advance : ℕ) (d : Disk) (s : Sys Card)
      → let p = s.file_desc fd in
        IsLaidOut f
        → Stands laws f d s
        → IsInside f (fat_entry f.fat0_offset d) p
        → p.index_in_block + advance ≤ 512
        → p.abs_offset + advance < 2 ^ 32
        → Advanced f d fd advance s (seek_advance ops fd advance s)
  seek_advance_lem f fd advance d s g st h le fits =
      let p = s.file_desc fd in
      elim (Bool-cases (p.index_in_block + advance == 512)) [
        | inr inside ↦ advance_in_block f fd advance d s g st h le fits inside
        | inl full ↦ elim (Bool-cases (p.block_in_cluster + 1 == f.sectors_per_cluster)) [
          | inr more ↦ advance_block f fd advance d s g st h le fits full more
          | inl end ↦ elim (Bool-cases (ltb p.next_cluster fat_min_last_cluster)) [
            | inr last ↦ reach_end f fd advance d s g st h le fits full end last
            | inl follows ↦ enter_cluster f fd advance d s g st h le fits full end follows
          ]
        ]
      ]

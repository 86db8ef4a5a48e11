-- ===== src/Fat/Dir/OnRoot.antt =====
-- A descriptor of lib/fat/fat.c on the entries of the root directory.
use ccpu_libsys.Prelude.{
  ℕ, suc, ◌+◌, ◌*◌, ◌/◌, ◌%◌, ◌<◌, ◌≡◌, refl, sym, inl, inr, Bool, true, arith, ◌==◌, Bool-cases,
}
use mathlib.Core.Path.{subst, ap₂}
use ccpu_libsys.Fat.Bytes.{u8, u16, u32}
use ccpu_libsys.Fat.Card.{Disk, CardOps, CardLaws, CardWorks}
use ccpu_libsys.Fat.State.{Sys, FatInfo, FileDescriptor, invalid_block_addr}
use ccpu_libsys.Fat.Desc.{set_desc}
use ccpu_libsys.Fat.Desc.Put.{put_desc_self, put_desc_ne, Stands-set_desc}
use ccpu_libsys.Fat.Seek.{enter_next_cluster, seek_advance}
use ccpu_libsys.Fat.Dir.Listing.{Walks}

-- Where the entry `i` of the root directory is.
abbrev pub root_place : FatInfo → ℕ → ℕ × ℕ
root_place f i = (f.root_dir_block + i / 16, 32 * (i % 16))

pub record IsOnRootEntry (f : FatInfo) (i : ℕ) (p : FileDescriptor) : Type 0 where
  pub is_root : p.is_root ≡ true
  pub address : p.block_addr ≡ f.root_dir_block + i / 16
  pub index : p.index_in_block ≡ 32 * (i % 16)

module _ {Card : Type 0} (ops : CardOps Card) where
  -- The call stores a descriptor on the next entry, and changes nothing besides.
  abbrev StepsOn : FatInfo → ℕ → ℕ → Sys Card → Bool × Sys Card → Type 0
  StepsOn f fd i s r =
      (q : FileDescriptor) × (r ≡ (true, set_desc fd q s)) × IsOnRootEntry f (suc i) q

  root_step :
      (f : FatInfo) (fd i : ℕ) (s : Sys Card)
      → IsOnRootEntry f i (s.file_desc fd)
      → f.root_dir_block + suc i < invalid_block_addr
      → StepsOn f fd i s (seek_advance ops fd 32 s)
  unfolding seek_advance enter_next_cluster
  root_step f fd i s h lt =
      let p = s.file_desc fd in
      let abs = u32 (p.abs_offset + 32) in
      let same : u16 (p.index_in_block + 32) ≡ p.index_in_block + 32 = omega (arith, h.index) in
      let up : FileDescriptor = record p {
        index_in_block = 0;
        abs_offset = abs;
        block_in_cluster = u8 (p.block_in_cluster + 1);
        block_addr = u32 (p.block_addr + 1);
      } in
      elim (Bool-cases (p.index_in_block + 32 == 512)) [
        | inr inside ↦ (
          record p { index_in_block = p.index_in_block + 32; abs_offset = abs },
          rw (same, inside) refl,
          record {
            is_root = h.is_root;
            address = ground (arith, inside, h.address, h.index);
            index = ground (arith, inside, h.index);
          },
        )
        | inl full ↦
            let on : IsOnRootEntry f (suc i) up = record {
              is_root = h.is_root;
              address = ground (arith, full, h.address, h.index, lt);
              index = ground (arith, full, h.index);
            } in
            elim (Bool-cases (u8 (p.block_in_cluster + 1) == s.fat_info.sectors_per_cluster)) [
              | inl end ↦ (up, rw (same, full, end, h.is_root) refl, on)
              | inr more ↦ (up, rw (same, full, more) refl, on)
            ]
      ]

module _ {Card : Type 0} {ops : CardOps Card} (laws : CardLaws ops) (works : CardWorks ops) where
  pub IsOnRootEntry-Walks :
      (f : FatInfo) (d : Disk) (fd total : ℕ)
      → f.root_dir_block + total < invalid_block_addr
      → Walks laws works f d fd total (root_place f) (IsOnRootEntry f)
  unfolding set_desc
  IsOnRootEntry-Walks f d fd total fits = record {
    at_place = λ i p lt h. ap₂ (λ a x. (a, x)) h.address h.index;
    below = λ i lt. omega (arith, lt, fits);
    advance = λ i s st lt h.
        let (q, run, on) = root_step ops f fd i s h (omega (arith, lt, fits)) in
        rw run (
          refl,
          Stands-set_desc laws f d fd q s st,
          λ j ne. put_desc_ne s.file_desc fd j q ne,
          λ _. subst (IsOnRootEntry f (suc i)) (sym (put_desc_self s.file_desc fd q)) on,
        );
  }

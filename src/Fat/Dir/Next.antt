-- ===== src/Fat/Dir/Next.antt =====
-- `fat_get_next_dir_entry` of lib/fat/fat.c.
use ccpu_libsys.Prelude.{ℕ, ◌+◌, ◌*◌, ◌^◌, ◌<◌, ◌≡◌, false, List}
use ccpu_libsys.Fat.Card.{Disk, CardOps, CardLaws, CardWorks}
use ccpu_libsys.Fat.Error
use ccpu_libsys.Fat.State.{Sys, FatInfo, FatDirEntry, FileDescriptor, invalid_block_addr}
use ccpu_libsys.Fat.Cache.Laws.{Stands}
use ccpu_libsys.Fat.Desc.{set_error}
use ccpu_libsys.Fat.Table.Entries.{IsLaidOut, fat_entry}
use ccpu_libsys.Fat.Action.Content.{chain_place, DataFits}
use ccpu_libsys.Fat.Action.Loop.{get_desc-open}
use ccpu_libsys.Fat.Dir.{fat_get_next_dir_entry}
use ccpu_libsys.Fat.Dir.Listing.{IsNext, Walks, Lists, next_entry_lem}
use ccpu_libsys.Fat.Dir.OnChain.{IsOnEntry, IsOnEntry-Walks, entries_of}
use ccpu_libsys.Fat.Dir.OnRoot.{IsOnRootEntry, IsOnRootEntry-Walks, root_place}

module _ {Card : Type 0} {ops : CardOps Card} (laws : CardLaws ops) (works : CardWorks ops) where
  next_of_walk :
      (f : FatInfo) (d : Disk) (fd total i n fuel mask : ℕ) (place : ℕ → ℕ × ℕ)
      (is_at : ℕ → FileDescriptor → Type 0) (dst : FatDirEntry) (s : Sys Card)
      → Walks laws works f d fd total place is_at
      → Stands laws f d s
      → (s.file_desc fd).is_free ≡ false
      → (s.file_desc fd).is_stale ≡ false
      → is_at i (s.file_desc fd)
      → IsNext d mask place i n
      → i + n < total
      → n < fuel
      → Lists laws works f d fd total place is_at s
          (i + n)
          (fat_get_next_dir_entry ops fuel fd dst mask s)
  unfolding fat_get_next_dir_entry set_error
  next_of_walk f d fd total i n fuel mask place is_at dst s w st taken fresh h next lt enough =
      let s0 = set_error Error.ok s in
      let st0 : Stands laws f d s0 = record {
        info = st.info;
        coherent = st.coherent;
        on_disk = st.on_disk;
      } in
      rw (get_desc-open fd s taken fresh) (
        next_entry_lem laws works f d fd total i n fuel mask place is_at dst s0 w st0 h next lt
          enough)

  -- On a card where no transfer fails, with a coherent cache, the tables laid out and the data area
  -- below the address 0xffffffff, for an open descriptor on the entry `i` of a directory in the
  -- clusters `ks`, of fewer than 2 ^ 32 bytes: if the `n` entries from there on are deleted, parts of
  -- a long name or with an attribute of the mask, and the one behind them, which the clusters still
  -- have, is not, then with more fuel than `n` `fat_get_next_dir_entry` returns that one, with true
  -- unless it is the mark that ends the directory, and the descriptor is on the entry behind it, if the
  -- clusters have one. The card and the other descriptors stay as they are.
  pub fat_get_next_dir_entry_lem :
      (f : FatInfo) (d : Disk) (fd i n fuel mask : ℕ) (ks : List ℕ) (dst : FatDirEntry)
      (s : Sys Card)
      → let t = fat_entry f.fat0_offset d in
        let place = λ (i : ℕ). chain_place f ks (32 * i) in
        IsLaidOut f
        → DataFits f
        → Stands laws f d s
        → (s.file_desc fd).is_free ≡ false
        → (s.file_desc fd).is_stale ≡ false
        → IsOnEntry f t ks i (s.file_desc fd)
        → IsNext d mask place i n
        → i + n < entries_of f ks
        → 32 * entries_of f ks < 2 ^ 32
        → n < fuel
        → Lists laws works f d fd
            (entries_of f ks)
            place
            (IsOnEntry f t ks)
            s
            (i + n)
            (fat_get_next_dir_entry ops fuel fd dst mask s)
  fat_get_next_dir_entry_lem f d fd i n fuel mask ks dst s g fit st taken fresh h next lt fits
        enough =
      next_of_walk f d fd (entries_of f ks) i n fuel mask (λ i. chain_place f ks (32 * i))
        (IsOnEntry f (fat_entry f.fat0_offset d) ks) dst s
        (IsOnEntry-Walks laws works f d fd ks g fit fits) st taken fresh h next lt enough

  -- The same for a descriptor on the entry `i` of the root directory, among its first `total` ones,
  -- which lie below the address 0xffffffff.
  pub fat_get_next_dir_entry_root :
      (f : FatInfo) (d : Disk) (fd i n total fuel mask : ℕ) (dst : FatDirEntry) (s : Sys Card)
      → Stands laws f d s
      → (s.file_desc fd).is_free ≡ false
      → (s.file_desc fd).is_stale ≡ false
      → IsOnRootEntry f i (s.file_desc fd)
      → IsNext d mask (root_place f) i n
      → i + n < total
      → f.root_dir_block + total < invalid_block_addr
      → n < fuel
      → Lists laws works f d fd total
          (root_place f)
          (IsOnRootEntry f)
          s
          (i + n)
          (fat_get_next_dir_entry ops fuel fd dst mask s)
  fat_get_next_dir_entry_root f d fd i n total fuel mask dst s st taken fresh h next lt fits
        enough =
      next_of_walk f d fd total i n fuel mask (root_place f) (IsOnRootEntry f) dst s
        (IsOnRootEntry-Walks laws works f d fd total fits) st taken fresh h next lt enough

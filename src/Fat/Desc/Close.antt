-- ===== src/Fat/Desc/Close.antt =====
-- `fat_close` of lib/fat/fat.c.
use ccpu_libsys.Prelude.{ℕ, ◌<◌, ◌≡◌, refl, ap, ◌∙◌, true, false, arith}
use ccpu_libsys.Fat.Card.{Block, Disk, update, update_self, CardOps, CardLaws, CardWorks}
use ccpu_libsys.Fat.Entry.{get_entry, put_entry}
use ccpu_libsys.Fat.Entry.RoundTrip.{IsFatDirEntry, get_entry-put_entry}
use ccpu_libsys.Fat.State.{Sys, FileDescriptor, FatInfo, invalid_block_addr, put_desc}
use ccpu_libsys.Fat.Cache.{cache}
use ccpu_libsys.Fat.Cache.Laws.{disk, SameTables, Stands}
use ccpu_libsys.Fat.Table.Steps.{cache_lem, flush_cache_lem}
use ccpu_libsys.Fat.Desc.{close_desc, set_desc, store_dir_entry, write_back, fat_close}

module _ {Card : Type 0} {ops : CardOps Card} (laws : CardLaws ops) (works : CardWorks ops) where
  write_back_lem :
      (f : FatInfo) (d : Disk) (p : FileDescriptor) (s : Sys Card)
      → Stands laws f d s
      → p.dir_entry_block_addr < invalid_block_addr
      → let a = p.dir_entry_block_addr in
        Stands laws f
          (update d a (put_entry (d a) p.dir_entry_index_in_block p.dir_entry))
          (write_back ops p s)
        × SameTables laws s (write_back ops p s)
  unfolding write_back store_dir_entry
  write_back_lem f d p s st lt =
      let a = p.dir_entry_block_addr in
      let h = λ (b : Block). put_entry b p.dir_entry_index_in_block p.dir_entry in
      let (ok, st1, eb, ea, same) = cache_lem laws works f d a s st lt in
      let (ok', st2, eb', same') =
        flush_cache_lem laws works f d a (h (d a)) (store_dir_entry p (cache ops a s).1) st1.info ea
          lt (ap h eb) st1.on_disk in
      (st2, record { info = same'.info ∙ same.info; desc = same'.desc ∙ same.desc })

  fat_close-eq :
      (fd : ℕ) (s : Sys Card)
      → (s.file_desc fd).dir_entry_modified ≡ true
      → (s.file_desc fd).is_stale ≡ false
      → let t = write_back ops (s.file_desc fd) s in
        fat_close ops fd s ≡ (true, set_desc fd (close_desc (t.file_desc fd)) t)
  unfolding fat_close
  fat_close-eq fd s em es = ground arith

  -- On a card where no transfer fails, with a coherent cache, `fat_close` of a descriptor that is
  -- not stale, with a modified entry whose fields fit their types and that belongs to a block below
  -- 0xffffffff, succeeds and puts the entry in its place on the card, where it is read back as it was; no other
  -- block changes, and the descriptor alone is freed.
  pub fat_close_modified :
      (d : Disk) (fd : ℕ) (s : Sys Card)
      → let p = s.file_desc fd in
        let a = p.dir_entry_block_addr in
        let o = p.dir_entry_index_in_block in
        let r = fat_close ops fd s in
        Stands laws s.fat_info d s
        → p.dir_entry_modified ≡ true
        → p.is_stale ≡ false
        → a < invalid_block_addr
        → IsFatDirEntry p.dir_entry
        → (r.0 ≡ true)
          × Stands laws s.fat_info (update d a (put_entry (d a) o p.dir_entry)) r.1
          × (get_entry (disk laws r.1 a) o ≡ p.dir_entry)
          × (r.1.file_desc ≡ put_desc s.file_desc fd (close_desc p))
  unfolding set_desc
  fat_close_modified d fd s st em es lt fits =
      let p = s.file_desc fd in
      let a = p.dir_entry_block_addr in
      let o = p.dir_entry_index_in_block in
      let b = put_entry (d a) o p.dir_entry in
      let (st1, same) = write_back_lem s.fat_info d p s st lt in
      rw (fat_close-eq fd s em es) (
        refl,
        record { info = st1.info; coherent = st1.coherent; on_disk = st1.on_disk },
        ap (λ (d : Disk). get_entry (d a) o) st1.on_disk
            ∙ ap (λ b. get_entry b o) (update_self d a b)
            ∙ get_entry-put_entry (d a) o p.dir_entry fits,
        ap (λ t. put_desc t fd (close_desc (t fd))) same.desc,
      )

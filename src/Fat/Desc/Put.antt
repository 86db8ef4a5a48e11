-- ===== src/Fat/Desc/Put.antt =====
-- A descriptor stored in the table of lib/fat/fat.c.
use ccpu_libsys.Prelude.{ℕ, ◌≡◌, ◌≢◌, arith}
use ccpu_libsys.Fat.Card.{Disk, CardOps, CardLaws}
use ccpu_libsys.Fat.State.{Sys, FatInfo, FileDescriptor, put_desc}
use ccpu_libsys.Fat.Cache.Laws.{Stands}
use ccpu_libsys.Fat.Desc.{set_desc}

pub put_desc_self : (t : ℕ → FileDescriptor) (fd : ℕ) (p : FileDescriptor) → put_desc t fd p fd ≡ p
put_desc_self t fd p = ground arith

pub put_desc_ne :
    (t : ℕ → FileDescriptor) (fd i : ℕ) (p : FileDescriptor) → i ≢ fd → put_desc t fd p i ≡ t i
put_desc_ne t fd i p ne = ground arith

module _ {Card : Type 0} {ops : CardOps Card} (laws : CardLaws ops) where
  pub Stands-set_desc :
      (f : FatInfo) (d : Disk) (fd : ℕ) (p : FileDescriptor) (s : Sys Card)
      → Stands laws f d s
      → Stands laws f d (set_desc fd p s)
  unfolding set_desc
  Stands-set_desc f d fd p s st = record {
    info = st.info;
    coherent = st.coherent;
    on_disk = st.on_disk;
  }

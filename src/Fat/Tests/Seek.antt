-- ===== src/Fat/Tests/Seek.antt =====
-- Runs of the functions of lib/fat/fat.c that move a descriptor.
use ccpu_libsys.Prelude.{refl, inl, [], ◌∷◌, arith}
use ccpu_libsys.Fat.State.{cluster_block}
use ccpu_libsys.Fat.Table.Entries.{fat_entry}
use ccpu_libsys.Fat.Seek.{fat_seek, fat_seek_end, seek_advance}
use ccpu_libsys.Fat.Seek.Position.{IsAt, Placed, fat_seek_lem, fat_seek_end_lem}
use ccpu_libsys.Fat.Seek.Moves.{IsInside}
use ccpu_libsys.Fat.Seek.Advance.{Advanced, seek_advance_lem}
use ccpu_libsys.Fat.Tests.{
  ram, ram_laws, ram_works, geometry, geometry-IsLaidOut, formatted, descs, system, system-Stands,
}
use ccpu_libsys.Fat.Tests.Table.{entry_2, entry_3, HasEntry-3, formatted-IsChain}

fat_seek_example :
    Placed ram_laws ram_works geometry formatted 0
      (IsAt geometry 3 (fat_entry 10 formatted 3) 88 600 (descs 0))
      system
      (fat_seek ram 2 0 600 system)
fat_seek_example =
    fat_seek_lem ram_laws ram_works geometry (2 ∷ []) 3 [] 2 0 88 formatted system
      geometry-IsLaidOut system-Stands refl refl (omega arith) formatted-IsChain (λ _. omega arith)
      (inl (omega arith)) (omega arith) (omega arith)

fat_seek_end_example :
    Placed ram_laws ram_works geometry formatted 0
      (IsAt geometry 3 (fat_entry 10 formatted 3) 188 700 (descs 0))
      system
      (fat_seek_end ram 2 0 system)
fat_seek_end_example =
    fat_seek_end_lem ram_laws ram_works geometry [] (2 ∷ []) 3 2 0 formatted system
      geometry-IsLaidOut system-Stands refl refl (omega (arith, entry_2)) formatted-IsChain
      formatted-IsChain (omega arith) (omega arith) refl (omega arith)

descs-IsInside : IsInside geometry (fat_entry 10 formatted) (descs 0)
unfolding cluster_block
descs-IsInside = record {
  not_root = refl;
  next = omega (arith, entry_2);
  follows = λ _. (HasEntry-3, λ e. omega (arith, entry_3));
  inside = omega arith;
  sectors = omega arith;
  address = omega arith;
}

seek_advance_example :
    Advanced ram_laws ram_works geometry formatted 0 512 system (seek_advance ram 0 512 system)
seek_advance_example =
    seek_advance_lem ram_laws ram_works geometry 0 512 formatted system geometry-IsLaidOut
      system-Stands descs-IsInside (omega arith) (omega arith)

-- ===== src/Exec/Tests.antt =====
-- Runs of `fat_exec_fd` of lib/fat/exec.c over a card in memory.
use ccpu_libsys.Prelude.{refl, [], ◌∷◌, arith}
use ccpu_libsys.Fat.Card.{Disk}
use ccpu_libsys.Fat.State.{FileDescriptor, cluster_block, put_desc}
use ccpu_libsys.Fat.Table.Entries.{fat_entry}
use ccpu_libsys.Fat.Action.Content.{IsReading}
use ccpu_libsys.Fat.Tests.{
  ram, ram_laws, ram_works, geometry, geometry-IsLaidOut, formatted, descs, entry_a, system,
}
use ccpu_libsys.Fat.Tests.Table.{entry_2, formatted-IsChain}
use ccpu_libsys.Fat.Tests.Action.{geometry-DataFits}
use ccpu_libsys.Fat.Error
use ccpu_libsys.Progressbar.{progressbar_init}
use ccpu_libsys.Exec.{Machine, is_app, extension, fat_exec_fd}
use ccpu_libsys.Exec.Loads.{StartsWith, fat_exec_fd_lem}
use ccpu_libsys.Exec.Refuses.{RefusedWith, fat_exec_fd_refused}

-- Descriptor 0 with the name "A.APP".
abbrev program : FileDescriptor
program = record (descs 0) {
  dir_entry = record entry_a {
    filename = b'A' ∷ 32 ∷ 32 ∷ 32 ∷ 32 ∷ 32 ∷ 32 ∷ 32 ∷ b'A' ∷ b'P' ∷ b'P' ∷ [];
  };
}

abbrev machine : Machine Disk
machine = record {
  sys = record system { file_desc = put_desc descs 0 program };
  loload_buf = λ i. 0;
  lo_ram = λ a. 0;
  bar = progressbar_init 1 (λ a. 0);
}

program-IsReading : IsReading geometry (fat_entry 10 formatted) 2 (3 ∷ []) program
unfolding cluster_block
program-IsReading = record {
  not_root = refl;
  cluster = refl;
  next = omega (arith, entry_2);
  chain = formatted-IsChain;
  index = omega arith;
  inside = λ lt. omega arith;
  at_most = omega arith;
  full = λ e. absurd (omega (arith, e));
  some_last = omega arith;
  last = omega arith;
  position = refl;
  before_end = omega arith;
  size = omega arith;
}

-- A program of 700 bytes, in three pages.
fat_exec_fd_example :
    StartsWith ram_laws ram_works geometry formatted
      (2 ∷ 3 ∷ [])
      0
      700
      0
      (fat_exec_fd ram 0xc000 0 machine)
unfolding is_app extension
fat_exec_fd_example =
    fat_exec_fd_lem ram_laws ram_works geometry formatted 2 (3 ∷ []) 0xc000 0 machine
      geometry-IsLaidOut geometry-DataFits
      (record { info = refl; coherent = λ ne. absurd (ne refl); on_disk = refl }) refl refl
      program-IsReading refl refl (omega arith) (omega arith) (omega arith)

-- The same program with less memory.
fat_exec_fd_refused_example :
    RefusedWith ram Error.file_too_large 0 machine (fat_exec_fd ram 0x200 0 machine)
unfolding is_app extension
fat_exec_fd_refused_example = fat_exec_fd_refused ram 0x200 0 machine refl refl refl

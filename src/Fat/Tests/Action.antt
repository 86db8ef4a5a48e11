-- ===== src/Fat/Tests/Action.antt =====
-- Runs of `fat_read` and `fat_write` of lib/fat/fat.c.
use ccpu_libsys.Prelude.{◌%◌, refl, [], ◌∷◌, arith}
use ccpu_libsys.Fat.Card.{Block}
use ccpu_libsys.Fat.State.{cluster_block}
use ccpu_libsys.Fat.Table.Entries.{fat_entry}
use ccpu_libsys.Fat.Action.{fat_read, fat_write}
use ccpu_libsys.Fat.Action.Content.{DataFits, IsReading}
use ccpu_libsys.Fat.Action.Total.{Ends, InFile, fat_read-Ends}
use ccpu_libsys.Fat.Action.Read.{ReadsSome, fat_read_lem}
use ccpu_libsys.Fat.Action.Writes.{IsBehind}
use ccpu_libsys.Fat.Action.Write.{WritesAll, fat_write_lem}
use ccpu_libsys.Fat.Action.WriteRead.{IsOpenAt, ReadsBack, fat_read-fat_write}
use ccpu_libsys.Fat.Tests.{
  ram, ram_laws, ram_works, geometry, geometry-IsLaidOut, formatted, descs, system, system-Stands,
}
use ccpu_libsys.Fat.Tests.Table.{entry_2, formatted-IsChain}

abbrev buffer : Block
buffer i = 0

descs-InFile : InFile (descs 0)
descs-InFile = record {
  not_root = refl;
  index = omega arith;
  in_last = λ le. absurd (omega (arith, le));
}

fat_read-Ends_example : Ends ram 600 buffer (fat_read ram 0 600 buffer system)
fat_read-Ends_example = fat_read-Ends ram 0 600 buffer system descs-InFile (omega arith)

pub geometry-DataFits : DataFits geometry
geometry-DataFits = record {
  power = refl;
  some_sectors = omega arith;
  sectors = omega arith;
  below = omega arith;
}

descs-IsReading : IsReading geometry (fat_entry 10 formatted) 2 (3 ∷ []) (descs 0)
unfolding cluster_block
descs-IsReading = record {
  not_root = refl;
  cluster = refl;
  next = omega (arith, entry_2);
  chain = formatted-IsChain;
  index = omega arith;
  inside = λ lt. omega arith;
  at_most = omega arith;
  full = λ e. absurd (omega (arith, e));
  some_last = omega arith;
  last = omega arith;
  position = refl;
  before_end = omega arith;
  size = omega arith;
}

-- The read goes through both clusters.
fat_read_example :
    ReadsSome ram_laws ram_works geometry formatted 2
      (3 ∷ [])
      0
      600
      0
      buffer
      (descs 0)
      system
      (fat_read ram 0 600 buffer system)
fat_read_example =
    fat_read_lem ram_laws ram_works geometry formatted 2 (3 ∷ []) 0 600 buffer system
      geometry-IsLaidOut geometry-DataFits system-Stands refl refl descs-IsReading (omega arith)

geometry-IsBehind : IsBehind geometry
geometry-IsBehind = omega arith

abbrev counting : Block
counting i = i % 256

-- The write goes through both clusters.
fat_write_example :
    WritesAll ram_laws ram_works geometry formatted 2
      (3 ∷ [])
      0
      600
      0
      counting
      (descs 0)
      system
      (fat_write ram 0 600 counting system)
fat_write_example =
    fat_write_lem ram_laws ram_works geometry formatted 2 (3 ∷ []) 0 600 counting system
      geometry-IsLaidOut geometry-DataFits geometry-IsBehind system-Stands refl refl descs-IsReading
      (λ e. omega (arith, e)) (omega arith) (omega arith)

-- Descriptor 3, on byte 100 of the first cluster.
descs-IsOpenAt : IsOpenAt geometry (fat_entry 10 formatted) [] 2 (3 ∷ []) (descs 3)
unfolding cluster_block
descs-IsOpenAt = record {
  taken = refl;
  fresh = refl;
  some_cluster = λ e. omega (arith, e);
  chain = formatted-IsChain;
  reading = record {
    not_root = refl;
    cluster = refl;
    next = omega (arith, entry_2);
    chain = formatted-IsChain;
    index = omega arith;
    inside = λ lt. omega arith;
    at_most = omega arith;
    full = λ e. absurd (omega (arith, e));
    some_last = omega arith;
    last = omega arith;
    position = refl;
    before_end = omega arith;
    size = omega arith;
  };
  inside = omega arith;
  not_first = λ lt. absurd (omega (arith, lt));
  offset = refl;
}

fat_read-fat_write_example : ReadsBack ram_laws ram_works 1 3 600 counting buffer system
fat_read-fat_write_example =
    fat_read-fat_write ram_laws ram_works geometry formatted [] 2 (3 ∷ []) 1 3 600 counting buffer
      system geometry-IsLaidOut geometry-DataFits geometry-IsBehind system-Stands descs-IsOpenAt
      (omega arith) (omega arith) (omega arith)

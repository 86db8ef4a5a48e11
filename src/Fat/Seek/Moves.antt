-- ===== src/Fat/Seek/Moves.antt =====
-- The moves that `seek_advance` of lib/fat/fat.c makes, as relations of two descriptors.
use ccpu_libsys.Prelude.{ℕ, ◌+◌, ◌*◌, ◌<◌, ◌≤◌, ◌≡◌, ◌≢◌, refl, false}
use ccpu_libsys.Fat.Bytes.{u32}
use ccpu_libsys.Fat.State.{FatInfo, FileDescriptor, fat_min_last_cluster, cluster_block}
use ccpu_libsys.Fat.Table.Entries.{HasEntry}

-- The position in the current cluster, in bytes.
abbrev pub in_cluster : FileDescriptor → ℕ
in_cluster p = 512 * p.block_in_cluster + p.index_in_block

-- A descriptor inside its cluster, with the block that it is in. `t` is the table: a cluster that
-- follows has an entry, which is not free.
pub record IsInside (f : FatInfo) (t : ℕ → ℕ) (p : FileDescriptor) : Type 0 where
  pub not_root : p.is_root ≡ false
  pub next : p.next_cluster ≡ t p.cur_cluster
  pub follows :
      p.next_cluster < fat_min_last_cluster → HasEntry f p.next_cluster × (t p.next_cluster ≢ 0)
  pub inside : p.block_in_cluster < f.sectors_per_cluster
  pub sectors : f.sectors_per_cluster < 256
  pub address : p.block_addr ≡ u32 (cluster_block f p.cur_cluster + p.block_in_cluster)

-- `q` is `advance` bytes behind `p` in the same cluster.
pub record IsFurther (f : FatInfo) (advance : ℕ) (p q : FileDescriptor) : Type 0 where
  pub cluster : q.cur_cluster ≡ p.cur_cluster
  pub next : q.next_cluster ≡ p.next_cluster
  pub position : in_cluster q ≡ in_cluster p + advance
  pub index : q.index_in_block < 512
  pub inside : q.block_in_cluster < f.sectors_per_cluster
  pub address : q.block_addr ≡ u32 (cluster_block f q.cur_cluster + q.block_in_cluster)

-- `p` reached the end of its cluster: `q` is at the end of the chain, or at the start of the
-- cluster that follows.
pub record IsLast (f : FatInfo) (advance : ℕ) (p q : FileDescriptor) : Type 0 where
  pub reached : in_cluster p + advance ≡ 512 * f.sectors_per_cluster
  pub last : fat_min_last_cluster ≤ p.next_cluster
  pub cluster : q.cur_cluster ≡ p.cur_cluster
  pub next : q.next_cluster ≡ p.next_cluster
  pub position : in_cluster q ≡ in_cluster p + advance
  pub index : q.index_in_block ≡ 0

pub record IsEntered (f : FatInfo) (t : ℕ → ℕ) (advance : ℕ) (p q : FileDescriptor) : Type 0 where
  pub reached : in_cluster p + advance ≡ 512 * f.sectors_per_cluster
  pub follows : p.next_cluster < fat_min_last_cluster
  pub cluster : q.cur_cluster ≡ p.next_cluster
  pub next : q.next_cluster ≡ t p.next_cluster
  pub position : in_cluster q ≡ 0
  pub address : q.block_addr ≡ cluster_block f p.next_cluster

-- What `seek_advance` leaves of a descriptor besides its position.
pub record SameFile (p q : FileDescriptor) : Type 0 where
  pub is_free : q.is_free ≡ p.is_free
  pub is_stale : q.is_stale ≡ p.is_stale
  pub is_root : q.is_root ≡ p.is_root
  pub last_cluster_len : q.last_cluster_len ≡ p.last_cluster_len
  pub entry : q.dir_entry ≡ p.dir_entry
  pub modified : q.dir_entry_modified ≡ p.dir_entry_modified

pub SameFile-reposition :
    (p : FileDescriptor) (block_addr block_in_cluster index next_cluster cur_cluster abs : ℕ)
    → SameFile p (record p {
      block_addr = block_addr;
      block_in_cluster = block_in_cluster;
      index_in_block = index;
      next_cluster = next_cluster;
      cur_cluster = cur_cluster;
      abs_offset = abs;
    })
SameFile-reposition p block_addr block_in_cluster index next_cluster cur_cluster abs = record {
  is_free = refl;
  is_stale = refl;
  is_root = refl;
  last_cluster_len = refl;
  entry = refl;
  modified = refl;
}

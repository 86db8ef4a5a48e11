-- ===== src/Fat/Mount.antt =====
-- `fat_mount` of lib/fat/fat.c: it reads the partition table and the BIOS parameter block.
pub mod Laws
pub mod Stale
use ccpu_libsys.Prelude.{
  ℕ, zero, suc, ◌+◌, ◌-◌, ◌*◌, ◌/◌, ◌^◌, Bool, true, false, not, ◌==◌, ltb, if◌then◌else◌,
}
use ccpu_libsys.Fat.Card.{Block, CardOps, card_block_size}
use ccpu_libsys.Fat.Bytes.{u16, u32, get_u16, get_u32}
use ccpu_libsys.Fat.Error
use ccpu_libsys.Fat.State.{Sys, FatInfo, FileDescriptor, invalid_block_addr}
use ccpu_libsys.Fat.Cache.{cache, set_fat_error, ◌&&>◌}
use ccpu_libsys.Fat.Desc.{each_desc, set_error}

-- The fields of `struct BPB` that are read.
pub record Bpb : Type 0 where
  pub bytes_per_sector : ℕ
  pub sectors_per_cluster : ℕ
  pub n_reserved_sectors : ℕ
  pub n_fats : ℕ
  pub n_dir_entries : ℕ
  pub total_sectors : ℕ
  pub sectors_per_fat : ℕ
  pub n_hidden_sectors : ℕ
  pub large_sectors : ℕ

unfoldable pub get_bpb : Block → Bpb
get_bpb b = record {
  bytes_per_sector = get_u16 b 11;
  sectors_per_cluster = b 13;
  n_reserved_sectors = get_u16 b 14;
  n_fats = b 16;
  n_dir_entries = get_u16 b 17;
  total_sectors = get_u16 b 19;
  sectors_per_fat = get_u16 b 22;
  n_hidden_sectors = get_u32 b 28;
  large_sectors = get_u32 b 32;
}

-- `rel_sector` of the first `struct Partition`, at `cache_block + 446`.
abbrev pub rel_sector : Block → ℕ
rel_sector b = get_u32 b (446 + 8)

-- `while (sectors_per_cluster > 1) { log += 1; sectors_per_cluster >>= 1; }`, with rounds.
unfoldable pub log_loop : ℕ → ℕ → ℕ → ℕ
log_loop zero sectors log = log
log_loop (suc n) sectors log =
    let rest = log_loop n (sectors / 2) (log + 1) in if ltb 1 sectors then rest else log

-- An 8-bit number takes at most 7 rounds.
unfoldable pub log_sectors : ℕ → ℕ
unfolding log_loop
log_sectors sectors = log_loop 8 sectors 0

-- What is assigned behind the test of `n_fats`, with `offset` behind the tables.
unfoldable pub place_data : Bpb → ℕ → FatInfo → FatInfo
place_data p offset f = record f {
  root_dir_block = offset;
  sectors_per_fat = p.sectors_per_fat;
  sectors_per_cluster = p.sectors_per_cluster;
  log_sectors_per_cluster = log_sectors p.sectors_per_cluster;
  n_dir_entries = p.n_dir_entries;
  data_offset = u32 (offset + u16 (p.n_dir_entries + 15) / 16);
}

-- `data_sectors >> log_sectors_per_cluster`
unfoldable pub count_clusters : Bpb → FatInfo → ℕ
count_clusters p f =
    let total = if p.total_sectors == 0 then p.large_sectors else p.total_sectors in
    u32 (total + 0x1_0000_0000 - f.data_offset) / 2 ^ f.log_sectors_per_cluster

module _ {Card : Type 0} where
  unfoldable pub set_info : FatInfo → Sys Card → Sys Card
  set_info f s = record s { fat_info = f }

  -- The test of the number of clusters at the end.
  unfoldable pub accept_clusters : ℕ → Sys Card → Bool × Sys Card
  accept_clusters n s =
      if ltb n 4085
      then (false, set_error Error.unsupported_fat_type s)
      else if ltb n 65525
      then (true, set_info (record (s.fat_info) { n_clusters = n }) s)
      else (false, set_error Error.unsupported_fat_type s)

  unfoldable pub finish_mount : Bpb → ℕ → FatInfo → Sys Card → Bool × Sys Card
  finish_mount p offset f s =
      let f' = place_data p offset f in accept_clusters (count_clusters p f') (set_info f' s)

  unfoldable pub mount_bpb : Bpb → Sys Card → Bool × Sys Card
  mount_bpb p s =
      let offset = u32 (p.n_hidden_sectors + p.n_reserved_sectors) in
      let f0 = record (s.fat_info) { fat0_offset = offset } in
      let behind = u32 (offset + p.sectors_per_fat) in
      if not (p.bytes_per_sector == card_block_size)
      then (false, set_error Error.unsupported_sector_size s)
      else if p.n_fats == 2
      then finish_mount p (u32 (behind + p.sectors_per_fat)) (record f0 { fat1_offset = behind }) s
      else if ltb 2 p.n_fats
      then (false, set_error Error.too_many_fats (set_info f0 s))
      else finish_mount p behind f0 s

  -- "an old open file descriptor becomes stale when the card is mounted"
  unfoldable pub begin_mount : Sys Card → Sys Card
  begin_mount s = record s {
    cache_block_addr = invalid_block_addr;
    file_desc = each_desc (λ d. if d.is_free then d else record d { is_stale = true }) s.file_desc;
  }

module _ {Card : Type 0} (ops : CardOps Card) where
  -- `if (!cache(partition->rel_sector)) …`, and what follows
  unfoldable pub read_bpb : Sys Card → Bool × Sys Card
  read_bpb s = mount_bpb (get_bpb s.cache_block) s

  unfoldable pub read_partition : Sys Card → Bool × Sys Card
  read_partition s = cache ops (rel_sector s.cache_block) s &&> read_bpb

  unfoldable pub fat_mount : Sys Card → Bool × Sys Card
  fat_mount s =
      let s0 = begin_mount s in
      let (r, c) = ops.init s0.card in
      let s1 = record s0 { card = c } in
      if r == 0 then cache ops 0 s1 &&> read_partition else (false, set_fat_error ops r s1)

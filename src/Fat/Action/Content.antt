-- ===== src/Fat/Action/Content.antt =====
-- The bytes of a chain of clusters on the card, and a descriptor that stands on one of them.
use ccpu_libsys.Prelude.{
  ℕ, ◌+◌, ◌-◌, ◌*◌, ◌/◌, ◌%◌, ◌^◌, ◌<◌, ◌≤◌, ◌≡◌, ◌≢◌, ap, false, List, [], ◌∷◌, arith, ltb, leb,
  if◌then◌else◌, length,
}
use native.Mathlib.Nat.{mul-le-mul_right}
use ccpu_libsys.Fat.Bytes.{u16, u32}
use ccpu_libsys.Fat.Card.{Disk}
use ccpu_libsys.Fat.State.{
  FatInfo, FileDescriptor, fat_min_last_cluster, cluster_block, invalid_block_addr,
}
use ccpu_libsys.Fat.Seek.Moves.{in_cluster}
use ccpu_libsys.Fat.Table.Chains.{IsChain}

abbrev pub cluster_size : FatInfo → ℕ
cluster_size f = 512 * f.sectors_per_cluster

-- Where the byte `i` of a chain is: a block's address and an index in the block.
unfoldable pub chain_place : FatInfo → List ℕ → ℕ → ℕ × ℕ
chain_place f [] i = (invalid_block_addr, 0)
chain_place f (k ∷ ks) i =
    let rest = chain_place f ks (i - cluster_size f) in
    if ltb i (cluster_size f) then (u32 (cluster_block f k + i / 512), i % 512) else rest

abbrev pub byte_at : Disk → ℕ × ℕ → ℕ
byte_at d (a, x) = d a x

-- The byte `i` of a chain.
abbrev pub chain_byte : FatInfo → Disk → List ℕ → ℕ → ℕ
chain_byte f d ks i = byte_at d (chain_place f ks i)

-- The data area lies below the address 0xffffffff, and `bytes_per_cluster` fits 16 bits.
pub record DataFits (f : FatInfo) : Type 0 where
  pub power : 2 ^ f.log_sectors_per_cluster ≡ f.sectors_per_cluster
  pub some_sectors : 0 < f.sectors_per_cluster
  pub sectors : f.sectors_per_cluster < 128
  pub below : f.data_offset + 65536 * f.sectors_per_cluster ≤ invalid_block_addr

pub address-valid :
    (f : FatInfo) (k j : ℕ)
    → DataFits f
    → j < f.sectors_per_cluster
    → u32 (cluster_block f k + j) ≢ invalid_block_addr
unfolding cluster_block
address-valid f k j h lt =
    let c = u16 (k + 65536 - 2) in
    let wide : c * f.sectors_per_cluster ≤ 65535 * f.sectors_per_cluster =
      mul-le-mul_right f.sectors_per_cluster (omega arith) in
    let e : c * 2 ^ f.log_sectors_per_cluster ≡ c * f.sectors_per_cluster =
      ap (λ x. c * x) h.power in
    omega (arith, wide, e, h.below)

-- The descriptor of a file in the cluster `k` of its chain, with the clusters `post` behind it. At
-- the end of the last cluster it keeps that cluster's last block.
pub record IsReading (f : FatInfo) (t : ℕ → ℕ) (k : ℕ) (post : List ℕ) (p : FileDescriptor)
    : Type 0 where
  pub not_root : p.is_root ≡ false
  pub cluster : p.cur_cluster ≡ k
  pub next : p.next_cluster ≡ t k
  pub chain : IsChain f t k (k ∷ post)
  pub index : p.index_in_block < 512
  pub inside :
      p.block_in_cluster < f.sectors_per_cluster
      → p.block_addr ≡ u32 (cluster_block f k + p.block_in_cluster)
  pub at_most : p.block_in_cluster ≤ f.sectors_per_cluster
  pub full :
      p.block_in_cluster ≡ f.sectors_per_cluster
      → (p.index_in_block ≡ 0) × (fat_min_last_cluster ≤ p.next_cluster)
  pub some_last : 0 < p.last_cluster_len
  pub last : p.last_cluster_len ≤ cluster_size f
  pub position :
      p.abs_offset + (cluster_size f * length post + p.last_cluster_len)
      ≡ p.dir_entry.size + in_cluster p
  pub before_end : p.abs_offset ≤ p.dir_entry.size
  pub size : p.dir_entry.size < 2 ^ 32

-- The bytes from the position to the end of the file.
abbrev pub left : FileDescriptor → ℕ
left p = p.dir_entry.size - p.abs_offset

abbrev pub smaller : ℕ → ℕ → ℕ
smaller a b = if leb a b then a else b

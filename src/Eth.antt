-- ===== src/Eth.antt =====
-- lib/eth.c: `eth_init` and `eth_transmit`. The table `bitmix` and the functions `bitmix_memcpy`,
-- `crc_update` and `crc_update_zeroes` are assembly (lib/bitmix.asm, lib/crc.asm): a parameter.
pub mod Frames
pub mod Tests
use ccpu_libsys.Prelude.{
  ℕ, ◌+◌, ◌-◌, ◌*◌, ◌/◌, ◌%◌, ◌<◌, ◌≤◌, ◌≡◌, ◌⊎◌, ◌&&◌, ltb, leb, ◌==◌, if◌then◌else◌, bit_xor,
}

-- Bytes from the start of a buffer.
abbrev pub Bytes : Type 0
Bytes = ℕ → ℕ

abbrev pub tx_buf_len : ℕ
tx_buf_len = 1024

abbrev pub preamble_len : ℕ
preamble_len = 12

abbrev pub fcs_len : ℕ
fcs_len = 4

-- `bitmix_memcpy i src n b` is the buffer `b` after `bitmix_memcpy(b + i, src, n)`, and
-- `crc_update c src n` is `crc_update(c, src, src + n)`.
pub record EthOps : Type 0 where
  pub bitmix : ℕ → ℕ
  pub bitmix_memcpy : ℕ → Bytes → ℕ → Bytes → Bytes
  pub crc_update : ℕ → Bytes → ℕ → ℕ
  pub crc_update_zeroes : ℕ → ℕ → ℕ

-- `bitmix_memcpy` copies through the table, and changes no other byte.
pub record EthLaws (ops : EthOps) : Type 0 where
  pub copied :
      (i : ℕ) (src : Bytes) (n : ℕ) (b : Bytes) (j : ℕ)
      → j < n
      → ops.bitmix_memcpy i src n b (i + j) ≡ ops.bitmix (src j)
  pub kept :
      (i : ℕ) (src : Bytes) (n : ℕ) (b : Bytes) (x : ℕ)
      → (x < i) ⊎ (i + n ≤ x)
      → ops.bitmix_memcpy i src n b x ≡ b x

-- ETH_BUF, `last_frame_len`, and how often ETH_TX_START was called.
pub record Eth : Type 0 where
  pub buf : Bytes
  pub last_frame_len : ℕ
  pub starts : ℕ

-- `memset(b + at, v, n)`
unfoldable pub memset : ℕ → ℕ → ℕ → Bytes → Bytes
memset at v n b x = if leb at x && ltb x (at + n) then v else b x

unfoldable pub put : ℕ → ℕ → Bytes → Bytes
put at v b x = if x == at then v else b x

module _ (ops : EthOps) where
  unfoldable pub eth_init : Eth → Eth
  eth_init s = record s {
    buf =
        memset preamble_len 0 (tx_buf_len - preamble_len - fcs_len)
          (put 11 (ops.bitmix 0xd5) (memset 0 (ops.bitmix 0x55) 11 s.buf));
    last_frame_len = 0;
  }

  -- `bitmix_memcpy`, and the zeroes over the rest of the last frame
  unfoldable pub put_frame : Bytes → ℕ → Eth → Bytes
  put_frame src size s =
      let b = ops.bitmix_memcpy preamble_len src size s.buf in
      if ltb size s.last_frame_len
      then memset (preamble_len + size) 0 (s.last_frame_len - size) b
      else b

  -- The last five bytes, for the sum `c` over what stands before them.
  unfoldable pub put_crc : ℕ → Bytes → Bytes
  put_crc c b =
      let adj = bit_xor 0xd9 (c % 256) in
      let c' = ops.crc_update c (λ i. adj) 1 in
      put 1023 0 (
        put 1022 (255 - ops.bitmix (c' / 65536 % 256)) (
          put 1021 (255 - ops.bitmix (c' / 256 % 256))
            (put 1020 (255 - ops.bitmix (c' % 256)) (put 1019 (ops.bitmix adj) b))))

  unfoldable pub eth_transmit : Bytes → ℕ → Eth → Eth
  eth_transmit src size s =
      let c = ops.crc_update 0xffff_ffff src size in
      let zeroes = (tx_buf_len - fcs_len - preamble_len - 1 + 65536 - size) % 65536 in
      record s {
        buf = put_crc (ops.crc_update_zeroes c zeroes) (put_frame src size s);
        last_frame_len = size;
        starts = s.starts + 1;
      }

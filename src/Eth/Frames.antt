-- ===== src/Eth/Frames.antt =====
-- What the transmit buffer holds between the calls of lib/eth.c.
use ccpu_libsys.Prelude.{ℕ, ◌+◌, ◌<◌, ◌≤◌, ◌≡◌, refl, arith, inl, inr, ◌∙◌, ◌-◌, ◌%◌}
use ccpu_libsys.Eth.{
  Bytes, EthOps, EthLaws, Eth, memset, put, eth_init, put_frame, put_crc, eth_transmit,
}

module _ {ops : EthOps} (laws : EthLaws ops) where
  -- The preamble, and zeroes between the last frame and the last five bytes.
  pub record IsReady (s : Eth) : Type 0 where
    pub short : s.last_frame_len ≤ 1007
    pub preamble : (i : ℕ) → i < 11 → s.buf i ≡ ops.bitmix 0x55
    pub start : s.buf 11 ≡ ops.bitmix 0xd5
    pub zeroes : (i : ℕ) → 12 + s.last_frame_len ≤ i → i < 1019 → s.buf i ≡ 0

  pub eth_init-IsReady : (s : Eth) → IsReady (eth_init ops s)
  unfolding eth_init memset put
  eth_init-IsReady s = record {
    short = omega arith;
    preamble = λ i lt. ground arith;
    start = refl;
    zeroes = λ i le lt. ground arith;
  }

  put_crc-before : (c : ℕ) (b : Bytes) (i : ℕ) → i < 1019 → put_crc ops c b i ≡ b i
  unfolding put_crc put
  put_crc-before c b i lt = ground arith

  put_frame-preamble :
      (src : Bytes) (size i : ℕ) (s : Eth) → i < 12 → put_frame ops src size s i ≡ s.buf i
  unfolding put_frame memset
  put_frame-preamble src size i s lt =
      let same = laws.kept 12 src size s.buf i (inl lt) in ground (arith, same)

  put_frame-inside :
      (src : Bytes) (size j : ℕ) (s : Eth)
      → j < size
      → put_frame ops src size s (12 + j) ≡ ops.bitmix (src j)
  unfolding put_frame memset
  put_frame-inside src size j s lt =
      let copied = laws.copied 12 src size s.buf j lt in ground (arith, copied)

  put_frame-zeroes :
      (src : Bytes) (size i : ℕ) (s : Eth)
      → IsReady s
      → 12 + size ≤ i
      → i < 1019
      → put_frame ops src size s i ≡ 0
  unfolding put_frame memset
  put_frame-zeroes src size i s h le lt =
      let same = laws.kept 12 src size s.buf i (inr le) in ground (arith, same, h.zeroes i)

  -- With the buffer ready, `eth_transmit` of at most 1007 bytes leaves it ready; behind the preamble
  -- stand the bytes of the frame, each through the table, and behind them zeroes up to the last five
  -- bytes, whatever the last frame was. The transmission is started once.
  pub eth_transmit-IsReady :
      (src : Bytes) (size : ℕ) (s : Eth)
      → IsReady s
      → size ≤ 1007
      → let s' = eth_transmit ops src size s in
        IsReady s'
        × (s'.last_frame_len ≡ size)
        × ((j : ℕ) → j < size → s'.buf (12 + j) ≡ ops.bitmix (src j))
        × (s'.starts ≡ s.starts + 1)
  unfolding eth_transmit
  eth_transmit-IsReady src size s h le =
      let b = put_frame ops src size s in
      let c =
        ops.crc_update_zeroes (ops.crc_update 0xffff_ffff src size)
          ((1024 - 4 - 12 - 1 + 65536 - size) % 65536) in
      (
        record {
          short = le;
          preamble = λ i lt.
              put_crc-before c b i (omega arith)
              ∙ put_frame-preamble src size i s (omega arith)
              ∙ h.preamble i lt;
          start =
              put_crc-before c b 11 (omega arith)
              ∙ put_frame-preamble src size 11 s (omega arith)
              ∙ h.start;
          zeroes = λ i lo lt. put_crc-before c b i lt ∙ put_frame-zeroes src size i s h lo lt;
        },
        refl,
        λ j lt. put_crc-before c b (12 + j) (omega arith) ∙ put_frame-inside src size j s lt,
        refl,
      )

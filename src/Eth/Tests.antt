-- ===== src/Eth/Tests.antt =====
-- A run of lib/eth.c with a table that leaves bytes as they are.
use ccpu_libsys.Prelude.{ℕ, ◌+◌, ◌-◌, ◌<◌, ◌≡◌, arith, ◌&&◌, ltb, leb, if◌then◌else◌}
use ccpu_libsys.Eth.{EthOps, EthLaws, Eth, eth_init, eth_transmit}
use ccpu_libsys.Eth.Frames.{IsReady, eth_init-IsReady, eth_transmit-IsReady}

abbrev plain : EthOps
plain = record {
  bitmix = λ x. x;
  bitmix_memcpy = λ i src n b x. if leb i x && ltb x (i + n) then src (x - i) else b x;
  crc_update = λ c src n. c;
  crc_update_zeroes = λ c n. c;
}

plain_laws : EthLaws plain
plain_laws = record {
  copied = λ i src n b j lt. let e : i + j - i ≡ j = omega arith in ground (arith, e);
  kept = λ i src n b x out. ground (arith, out);
}

abbrev ready : Eth
ready = eth_init plain (record { buf = λ i. 1; last_frame_len = 3; starts = 0 })

-- Sixty bytes.
eth_transmit-IsReady_example :
    let s' = eth_transmit plain (λ i. i) 60 ready in
    IsReady plain_laws s'
    × (s'.last_frame_len ≡ 60)
    × ((j : ℕ) → j < 60 → s'.buf (12 + j) ≡ j)
    × (s'.starts ≡ ready.starts + 1)
eth_transmit-IsReady_example =
    eth_transmit-IsReady plain_laws (λ i. i) 60 ready
      (eth_init-IsReady plain_laws (record { buf = λ i. 1; last_frame_len = 3; starts = 0 }))
      (omega arith)

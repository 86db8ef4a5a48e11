-- ===== src/Ps2/Exchanges.antt =====
-- What `send_byte` of lib/ps2.c exchanges with a keyboard, and that it ends.
use ccpu_libsys.Prelude.{
  ℕ, zero, suc, ◌+◌, ◌*◌, ◌<◌, ◌≡◌, refl, inl, inr, true, false, some, arith, ◌==◌, Bool-cases,
}
use ccpu_libsys.Ps2.{
  PortOps, state_wait_response, code_resend, code_ack, has_data, is_valid, send_loop, sent,
  send_byte,
}

module _ {Port : Type 0} (ops : PortOps Port) where
  -- The port after the status is read, and after the byte is read too.
  abbrev pub polled : Port → Port
  polled p = (ops.read_status p).1

  abbrev pub taken : Port → Port
  taken p = ops.write_status 0 (ops.read_data (polled p)).1

  abbrev pub asked_again : Port → Port
  asked_again p = ops.write_status 0 (ops.write_data code_resend (polled p))

  -- What a poll of the port shows.
  pub data Shows (p : Port) : Type 0 where
    quiet : has_data (ops.read_status p).0 ≡ false → Shows p
    garbled :
        has_data (ops.read_status p).0 ≡ true → is_valid (ops.read_status p).0 ≡ false → Shows p
    refusal :
        has_data (ops.read_status p).0 ≡ true
        → is_valid (ops.read_status p).0 ≡ true
        → ((ops.read_data (polled p)).0 == code_ack) ≡ false
        → Shows p
    ack :
        has_data (ops.read_status p).0 ≡ true
        → is_valid (ops.read_status p).0 ≡ true
        → ((ops.read_data (polled p)).0 == code_ack) ≡ true
        → Shows p

  pub shows : (p : Port) → Shows p
  shows p = elim (Bool-cases (has_data (ops.read_status p).0)) [
    | inr e ↦ quiet e
    | inl e ↦ elim (Bool-cases (is_valid (ops.read_status p).0)) [
      | inr e2 ↦ garbled e e2
      | inl e2 ↦ elim (Bool-cases ((ops.read_data (polled p)).0 == code_ack)) [
        | inr e3 ↦ refusal e e2 e3
        | inl e3 ↦ ack e e2 e3
      ]
    ]
  ]

  -- An exchange about `byte` from a port where it was written to another where it is acknowledged.
  pub data Acknowledges (byte : ℕ) : Port → Port → Type 0 where
    at_ack :
        (p : Port)
        → has_data (ops.read_status p).0 ≡ true
        → is_valid (ops.read_status p).0 ≡ true
        → ((ops.read_data (polled p)).0 == code_ack) ≡ true
        → Acknowledges byte p (taken p)
    after_quiet :
        {p q : Port}
        → has_data (ops.read_status p).0 ≡ false
        → Acknowledges byte (polled p) q
        → Acknowledges byte p q
    after_garbled :
        {p q : Port}
        → has_data (ops.read_status p).0 ≡ true
        → is_valid (ops.read_status p).0 ≡ false
        → Acknowledges byte (asked_again p) q
        → Acknowledges byte p q
    after_refusal :
        {p q : Port}
        → has_data (ops.read_status p).0 ≡ true
        → is_valid (ops.read_status p).0 ≡ true
        → ((ops.read_data (polled p)).0 == code_ack) ≡ false
        → Acknowledges byte (ops.write_data byte (taken p)) q
        → Acknowledges byte p q

  -- A keyboard that does not wait, garble its answers or refuse a byte for ever: each poll without
  -- an answer, each garbled answer and each refusal brings it nearer to an acknowledgement.
  pub record Answers : Type 0 where
    pub distance : Port → ℕ
    pub waits :
        (p : Port) → has_data (ops.read_status p).0 ≡ false → distance (polled p) < distance p
    pub garbles :
        (p : Port)
        → has_data (ops.read_status p).0 ≡ true
        → is_valid (ops.read_status p).0 ≡ false
        → distance (asked_again p) < distance p
    pub refuses :
        (byte : ℕ) (p : Port)
        → has_data (ops.read_status p).0 ≡ true
        → is_valid (ops.read_status p).0 ≡ true
        → ((ops.read_data (polled p)).0 == code_ack) ≡ false
        → distance (ops.write_data byte (taken p)) < distance p

  send_loop_lem :
      (answers : Answers) (fuel byte : ℕ) (p : Port)
      → 2 * answers.distance p < fuel
      → (q : Port) × (send_loop ops fuel byte state_wait_response p ≡ some q)
        × Acknowledges byte p q
  unfolding send_loop
  send_loop_lem answers zero byte p lt = absurd (omega arith)
  send_loop_lem answers (suc zero) byte p lt = elim (shows p) [
    | quiet e ↦ absurd (omega (arith, lt, answers.waits p e))
    | garbled e e2 ↦ absurd (omega (arith, lt, answers.garbles p e e2))
    | refusal e e2 e3 ↦ absurd (omega (arith, lt, answers.refuses byte p e e2 e3))
    | ack e e2 e3 ↦ (taken p, rw (e, e2, e3) refl, at_ack p e e2 e3)
  ]
  send_loop_lem answers (suc (suc fuel)) byte p lt = elim (shows p) [
    | ack e e2 e3 ↦ (taken p, rw (e, e2, e3) refl, at_ack p e e2 e3)
    | quiet e ↦
        let less = answers.waits p e in
        let (q, run, h) = send_loop_lem answers (suc fuel) byte (polled p) (omega (arith, less)) in
        (q, rw e run, after_quiet e h)
    | garbled e e2 ↦
        let less = answers.garbles p e e2 in
        let (q, run, h) =
          send_loop_lem answers (suc fuel) byte (asked_again p) (omega (arith, less)) in
        (q, rw (e, e2) run, after_garbled e e2 h)
    | refusal e e2 e3 ↦
        let less = answers.refuses byte p e e2 e3 in
        let (q, run, h) =
          send_loop_lem answers fuel byte (ops.write_data byte (taken p)) (omega (arith, less)) in
        (q, rw (e, e2, e3) run, after_refusal e e2 e3 h)
  ]

  -- With an unread byte in the port, `send_byte` returns false after one read of the status and
  -- writes nothing. Without one, and with a keyboard that does not wait, garble its answers or refuse
  -- for ever, it returns true: the byte is written, every garbled answer is followed by a request to
  -- repeat it and every refusal by the byte again, and the last byte read is the acknowledgement.
  -- Fuel of more than twice the keyboard's distance from an acknowledgement, and one, is enough.
  pub send_byte_lem :
      (answers : Answers) (fuel byte : ℕ) (p : Port)
      → let p1 = ops.write_data byte (polled p) in
        2 * answers.distance p1 + 1 < fuel
        → (has_data (ops.read_status p).0 ≡ true
            → send_byte ops fuel byte p ≡ some (false, polled p))
          × (has_data (ops.read_status p).0 ≡ false
              → (q : Port) × (send_byte ops fuel byte p ≡ some (true, q)) × Acknowledges byte p1 q)
  unfolding send_byte send_loop sent
  send_byte_lem answers zero byte p lt = absurd (omega arith)
  send_byte_lem answers (suc fuel) byte p lt = (
    λ e. rw e refl,
    λ e.
        let p1 = ops.write_data byte (polled p) in
        let (q, run, h) = send_loop_lem answers fuel byte p1 (omega (arith, lt)) in
        (q, rw (e, run) refl, h),
  )

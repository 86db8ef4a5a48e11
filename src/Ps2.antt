-- ===== src/Ps2.antt =====
-- lib/ps2.c: the PS/2 port. The registers PS2_DATA and PS2_STATUS belong to hardware, with the keyboard
-- behind it: they are a parameter, and a read of a register may change the port's state.
pub mod Exchanges
pub mod Tests
use ccpu_libsys.Prelude.{
  ℕ, zero, suc, Bool, true, false, not, Option, none, some, ◌==◌, if◌then◌else◌, bit_and,
}

pub record PortOps (Port : Type 0) : Type 0 where
  pub read_status : Port → ℕ × Port
  pub read_data : Port → ℕ × Port
  pub write_status : ℕ → Port → Port
  pub write_data : ℕ → Port → Port

abbrev pub status_has_data : ℕ
status_has_data = 1

abbrev pub status_recv_valid : ℕ
status_recv_valid = 2

abbrev pub code_resend : ℕ
code_resend = 0xfe

abbrev pub code_ack : ℕ
code_ack = 0xfa

abbrev pub nothing_read : ℕ
nothing_read = 0xff

-- `status & PS2_STATUS_HAS_DATA`, `status & PS2_STATUS_RECV_VALID`
abbrev pub has_data : ℕ → Bool
has_data status = not (bit_and status status_has_data == 0)

abbrev pub is_valid : ℕ → Bool
is_valid status = not (bit_and status status_recv_valid == 0)

-- STATE_START and STATE_WAIT_RESPONSE; with STATE_END the loop is left.
pub data SendState : Type 0 where
  state_start state_wait_response : SendState

unfoldable pub port_of : {Port : Type 0} → Option (Bool × Port) → Option Port
port_of none = none
port_of (some (ok, p)) = some p

module _ {Port : Type 0} (ops : PortOps Port) where
  unfoldable pub ps2_read : Port → ℕ × Port
  ps2_read p =
      let (status, p1) = ops.read_status p in
      let (byte, p2) = ops.read_data p1 in
      if has_data status
      then (if is_valid status
          then (byte, ops.write_status 0 p2)
          else (nothing_read, ops.write_status 0 (ops.write_data code_resend p1)))
      else (nothing_read, p1)

  -- `while (state != STATE_END)`; `none` if the fuel runs out.
  unfoldable pub send_loop : ℕ → ℕ → SendState → Port → Option Port
  send_loop zero byte state p = none
  send_loop (suc fuel) byte state_start p =
      send_loop fuel byte state_wait_response (ops.write_data byte p)
  send_loop (suc fuel) byte state_wait_response p =
      let (status, p1) = ops.read_status p in
      let (answer, p2) = ops.read_data p1 in
      let poll = send_loop fuel byte state_wait_response p1 in
      let again = send_loop fuel byte state_start (ops.write_status 0 p2) in
      let asked = ops.write_status 0 (ops.write_data code_resend p1) in
      let resend = send_loop fuel byte state_wait_response asked in
      if has_data status
      then (if is_valid status
          then (if answer == code_ack then some (ops.write_status 0 p2) else again)
          else resend)
      else poll

  -- The end of `send_byte`.
  unfoldable pub sent : Option Port → Option (Bool × Port)
  sent none = none
  sent (some p) = some (true, p)

  unfoldable pub send_byte : ℕ → ℕ → Port → Option (Bool × Port)
  send_byte fuel byte p =
      let (status, p1) = ops.read_status p in
      let run = send_loop fuel byte state_start p1 in
      if has_data status then some (false, p1) else sent run

  unfoldable pub ps2_reset : ℕ → Port → Option (Bool × Port)
  ps2_reset fuel p = send_byte fuel 0xff p

  -- A second byte is sent whatever came of the first.
  unfoldable pub send_second : ℕ → ℕ → Option (Bool × Port) → Option Port
  send_second fuel byte none = none
  send_second fuel byte (some (ok, p)) = port_of (send_byte fuel byte p)

  unfoldable pub ps2_set_led_mask : ℕ → ℕ → Port → Option Port
  ps2_set_led_mask fuel mask p = send_second fuel mask (send_byte fuel 0xed p)

  unfoldable pub ps2_set_rate : ℕ → ℕ → Port → Option Port
  ps2_set_rate fuel mask p = send_second fuel mask (send_byte fuel 0xf3 p)

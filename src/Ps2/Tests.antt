-- ===== src/Ps2/Tests.antt =====
-- A run of lib/ps2.c with a keyboard that follows a script.
use ccpu_libsys.Prelude.{ℕ, ◌<◌, ◌≡◌, ◌==◌, true, false, some, List, [], ◌∷◌, arith, length}
use ccpu_libsys.Ps2.{PortOps, code_ack, has_data, is_valid, send_byte}
use ccpu_libsys.Ps2.Exchanges.{Acknowledges, Answers, polled, send_byte_lem}

-- What the keyboard does next; with nothing left it acknowledges.
data Event : Type 0 where
  silence noise : Event
  answer : ℕ → Event

abbrev status_of : List Event → ℕ × List Event
status_of [] = (3, [])
status_of (silence ∷ es) = (0, es)
status_of (noise ∷ es) = (1, noise ∷ es)
status_of (answer n ∷ es) = (3, answer n ∷ es)

abbrev data_of : List Event → ℕ × List Event
data_of [] = (code_ack, [])
data_of (silence ∷ es) = (0, silence ∷ es)
data_of (noise ∷ es) = (0, noise ∷ es)
data_of (answer n ∷ es) = (n, answer n ∷ es)

abbrev next : ℕ → List Event → List Event
next v [] = []
next v (e ∷ es) = es

abbrev script : PortOps (List Event)
script = record {
  read_status = status_of;
  read_data = data_of;
  write_status = next;
  write_data = λ v es. es;
}

waits : (es : List Event) → has_data (status_of es).0 ≡ false → length (status_of es).1 < length es
waits [] e = absurd (cc e)
waits (silence ∷ es) e = omega arith
waits (noise ∷ es) e = absurd (cc e)
waits (answer n ∷ es) e = absurd (cc e)

garbles :
    (es : List Event)
    → has_data (status_of es).0 ≡ true
    → is_valid (status_of es).0 ≡ false
    → length (next 0 (status_of es).1) < length es
garbles [] e e2 = absurd (cc e2)
garbles (silence ∷ es) e e2 = absurd (cc e)
garbles (noise ∷ es) e e2 = omega arith
garbles (answer n ∷ es) e e2 = absurd (cc e2)

refuses :
    (es : List Event)
    → has_data (status_of es).0 ≡ true
    → is_valid (status_of es).0 ≡ true
    → ((data_of (status_of es).1).0 == code_ack) ≡ false
    → length (next 0 (data_of (status_of es).1).1) < length es
refuses [] e e2 e3 = absurd (cc e3)
refuses (silence ∷ es) e e2 e3 = absurd (cc e)
refuses (noise ∷ es) e e2 e3 = absurd (cc e2)
refuses (answer n ∷ es) e e2 e3 = omega arith

abbrev script_answers : Answers script
script_answers = record {
  distance = length;
  waits = waits;
  garbles = garbles;
  refuses = λ byte es e e2 e3. refuses es e e2 e3;
}

-- The port is empty first; then the keyboard waits, garbles an answer and refuses the byte.
abbrev events : List Event
events = silence ∷ silence ∷ noise ∷ answer 0xfe ∷ []

send_byte_example :
    (has_data (status_of events).0 ≡ true
      → send_byte script 8 0xed events ≡ some (false, polled script events))
    × (has_data (status_of events).0 ≡ false
        → (q : List Event) × (send_byte script 8 0xed events ≡ some (true, q))
          × Acknowledges script 0xed (polled script events) q)
send_byte_example = send_byte_lem script script_answers 8 0xed events (omega arith)

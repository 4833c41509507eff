-- ===== src/Bridge/Examples.antt =====
-- The sequence guard and the transfer manager of bridge.rs at work.
use neuman.Prelude.{
  ℕ, ◌≡◌, refl, arith, String, none, List, [], ◌∷◌, Bytes, codes, bytes_eq, length, replicate,
  if◌then◌else◌, Result, ok, err,
}
use neuman.Bridge.{BridgeError, replay_detected}
use neuman.Bridge.Sequence.{Envelope, SequenceGuard, fresh, duplicate, new_guard, check}
use neuman.Bridge.Sequence.Window.{IsWindow}
use neuman.Bridge.Sequence.Replay.{check_again}
use neuman.Bridge.Sequence.Order.{accepted, count_up, accepted-consecutive}

-- A stand-in for BLAKE3
abbrev toy_hash : Bytes → Bytes
toy_hash m = replicate 32 (length m)

abbrev value_or {ℓ} : {A : Type ℓ} → Result BridgeError A → A → A
value_or (ok a) b = a
value_or (err e) b = b

abbrev envelope : String → ℕ → Envelope
envelope id n = record {
  protocol_version = "1.0";
  kind = "ping";
  message_id = id;
  correlation_id = none;
  sequence = n;
  sent_at = "";
  session_id = "s";
}

new_guard-IsWindow : IsWindow new_guard
unfolding new_guard
new_guard-IsWindow = record { same = refl; once = tt; few = omega arith }

abbrev after_first : SequenceGuard
after_first =
    (value_or (check toy_hash new_guard (envelope "a" 1) (codes "x")) (new_guard, fresh)).0

check_again_example : check toy_hash after_first (envelope "a" 1) (codes "yy") ≡ (
    if bytes_eq (toy_hash (codes "x")) (toy_hash (codes "yy"))
    then ok (after_first, duplicate)
    else err replay_detected)
unfolding check new_guard
check_again_example =
    check_again toy_hash new_guard after_first (envelope "a" 1) (codes "x") (codes "yy")
      new_guard-IsWindow (omega arith) refl

abbrev messages : List (Envelope × Bytes)
messages =
    (envelope "a" 1, codes "x")
    ∷ (envelope "a" 1, codes "x")
    ∷ (envelope "c" 3, codes "z")
    ∷ (envelope "b" 2, codes "y")
    ∷ []

accepted-consecutive_example :
    accepted toy_hash new_guard messages
    ≡ count_up new_guard.expected (length (accepted toy_hash new_guard messages))
unfolding new_guard
accepted-consecutive_example = accepted-consecutive toy_hash new_guard messages (omega arith)

-- Two of the four messages are new.
accepted_two : accepted toy_hash new_guard messages ≡ 1 ∷ 2 ∷ []
unfolding accepted check new_guard bytes_eq
accepted_two = refl

-- ===== src/Bridge/Sequence.antt =====
-- The replay and gap check of the envelopes that a session of bridge.rs receives. BLAKE3 is a
-- parameter. A `HashMap` is the list of its entries, each key once, oldest first.
pub mod Window
pub mod Replay
pub mod Order
use Prim.Native.String
use neuman.Prelude.{
  ℕ, ◌+◌, ◌%◌, ◌^◌, String, Bool, true, false, not, ◌&&◌, ◌||◌, Option, some, none, List, [], ◌∷◌,
  ◌++◌, Bytes, bytes_eq, filter_by, length, ltb, ◌==◌, if◌then◌else◌, str_eq, Result, ok, err,
  reject_if, ◌>>◌, ◌>>=◌,
}
use neuman.Bridge.{BridgeError, replay_detected, sequence_gap}

-- `struct Envelope`, without the payload, which `check` does not read
pub record Envelope : Type 0 where
  pub protocol_version : String
  pub kind : String
  pub message_id : String
  pub correlation_id : Option String
  pub sequence : ℕ
  pub sent_at : String
  pub session_id : String

-- `enum SequenceDecision`
pub data SequenceDecision : Type 0 where
  fresh duplicate : SequenceDecision

-- `struct SequenceGuard`
pub record SequenceGuard : Type 0 where
  pub expected : ℕ
  pub seen : List (String × Bytes)
  pub order : List String

-- `SequenceGuard::new`
unfoldable pub new_guard : SequenceGuard
new_guard = record { expected = 1; seen = []; order = [] }

-- `HashMap::get`
unfoldable pub lookup : String → List (String × Bytes) → Option Bytes
lookup id [] = none
lookup id ((k, v) ∷ rest) = if str_eq k id then some v else lookup id rest

-- `HashMap::remove`
unfoldable pub remove : String → List (String × Bytes) → List (String × Bytes)
remove id = filter_by (λ (e : String × Bytes). not (str_eq e.0 id))

abbrev pub max_seen : ℕ
max_seen = 1024

abbrev pub tail : List String → List String
tail [] = []
tail (x ∷ xs) = xs

-- `if self.order.len() > 1024 && let Some(expired) = self.order.first().cloned()`
unfoldable pub expired : List String → Option String
expired [] = none
expired (first ∷ rest) = if ltb max_seen (length (first ∷ rest)) then some first else none

unfoldable pub drop_oldest : SequenceGuard → Option String → SequenceGuard
unfolding remove
drop_oldest guard none = guard
drop_oldest guard (some first) = record guard {
  seen = remove first guard.seen;
  order = tail guard.order;
}

unfoldable pub expire : SequenceGuard → SequenceGuard
unfolding drop_oldest expired
expire guard = drop_oldest guard (expired guard.order)

-- `self.expected += 1` on a u64, the insertion and the push
unfoldable pub advance : SequenceGuard → String → Bytes → SequenceGuard
advance guard id digest = record {
  expected = (guard.expected + 1) % 2 ^ 64;
  seen = guard.seen ++ ((id, digest) ∷ []);
  order = guard.order ++ (id ∷ []);
}

module _ (blake3 : Bytes → Bytes) where
  -- The two branches of `if let Some(previous) = self.seen.get(…)`
  unfoldable pub decide :
      SequenceGuard
      → Envelope
      → Bytes
      → Option Bytes
      → Result BridgeError (SequenceGuard × SequenceDecision)
  unfolding expire advance
  decide guard envelope digest (some previous) =
      if bytes_eq previous digest && ltb envelope.sequence guard.expected
      then ok (guard, duplicate)
      else err replay_detected
  decide guard envelope digest none = do
    reject_if (not (envelope.sequence == guard.expected))
        (sequence_gap guard.expected envelope.sequence)
    ok (expire (advance guard envelope.message_id digest), fresh)

  -- `SequenceGuard::check`
  unfoldable pub check :
      SequenceGuard → Envelope → Bytes → Result BridgeError (SequenceGuard × SequenceDecision)
  unfolding decide lookup
  check guard envelope raw = do
    reject_if (ltb 128 (String.len envelope.message_id) || String.len envelope.message_id == 0)
        replay_detected
    let digest = blake3 raw
    decide guard envelope digest (lookup envelope.message_id guard.seen)

-- ===== src/Bridge/Pairing.antt =====
-- The pairing of a Studio plugin in bridge.rs: challenges, approvals, credentials. Texts are byte
-- strings, times are nanoseconds. BLAKE3 is a parameter, and so are the random texts and the clock
-- readings, which each call takes. A `HashMap` is the list of its entries, each key once, and a
-- `HashSet` that of its elements. The studio identity is only passed on to the event, and left out.
pub mod Protocol
pub mod Complete
pub mod Runs
pub mod Sound
pub mod Once
pub mod Grants
use neuman.Prelude.{
  ℕ, ◌+◌, ◌*◌, ◌/◌, ◌%◌, Bool, true, false, not, ◌&&◌, ◌||◌, ◌==◌, Option, none, some, List, [],
  ◌∷◌, Bytes, codes, map, bytes_eq, any, find?, filter_by, update_where, length, leb, ltb,
  if◌then◌else◌, Result, ok, err, ok_or, reject_if, ◌>>=◌, ◌>>◌,
}
use neuman.Bridge.{BridgeError, pairing_denied, pairing_required, auth_invalid}
use neuman.Bridge.Transfer.{validate_scoped_id}
use neuman.Bridge.Pairing.Protocol.{negotiate_protocol}

-- `struct ChallengeRecord`
pub record ChallengeRecord : Type 0 where
  pub pairing_code : Bytes
  pub expires_at : ℕ
  pub attempts_by_plugin : List (Bytes × ℕ)
  pub approved_plugins : List Bytes
  pub used : Bool

-- `struct CredentialRecord`
pub record CredentialRecord : Type 0 where
  pub plugin_installation_id : Bytes
  pub digest : Bytes
  pub revoked : Bool
  pub expires_at : ℕ

-- `struct PairingRegistry`
pub record PairingRegistry : Type 0 where
  pub challenges : List (Bytes × ChallengeRecord)
  pub credentials : List (Bytes × CredentialRecord)

-- `struct PairRequest`
pub record PairRequest : Type 0 where
  pub challenge : Bytes
  pub pairing_code : Bytes
  pub plugin_installation_id : Bytes
  pub plugin_version : Bytes
  pub protocol_version : Bytes

-- `struct PairSuccess`
pub record PairSuccess : Type 0 where
  pub credential : Bytes
  pub expires_at : ℕ

-- The events of `enum BridgeEvent` that pairing sends
pub data BridgeEvent : Type 0 where
  pairing_challenge_issued : Bytes → Bytes → ℕ → BridgeEvent
  pairing_requested : Bytes → Bytes → BridgeEvent
  paired : Bytes → BridgeEvent

-- What one call draws and reads: `now` and then `later` from the clock
pub record Draw : Type 0 where
  pub text : Bytes
  pub key : Bytes
  pub code_number : ℕ
  pub now : ℕ
  pub later : ℕ

module _ {ℓ} {A : Type ℓ} where
  abbrev pub has_name : Bytes → Bytes × A → Bool
  has_name k e = bytes_eq e.0 k

  -- `HashMap::insert`
  abbrev pub insert : Bytes → A → List (Bytes × A) → List (Bytes × A)
  insert k v entries = (k, v) ∷ filter_by (λ e. not (has_name k e)) entries

-- `format!("{code_number:06}")` of a number below 1,000,000
abbrev pub six_digits : ℕ → Bytes
six_digits n =
    map (λ d. b'0' + d % 10) (n / 100000 ∷ n / 10000 ∷ n / 1000 ∷ n / 100 ∷ n / 10 ∷ n ∷ [])

abbrev pub new_challenge : ℕ → Draw → ChallengeRecord
new_challenge ttl draw = record {
  pairing_code = six_digits (draw.code_number % 1000000);
  expires_at = draw.now + ttl;
  attempts_by_plugin = [];
  approved_plugins = [];
  used = false;
}

-- `issue_challenge`; the result is the challenge's text and when it expires.
unfoldable pub issue_challenge :
    ℕ → Draw → PairingRegistry → PairingRegistry × BridgeEvent × Bytes × ℕ
issue_challenge ttl draw s = (
  record s {
    challenges = insert draw.text (new_challenge ttl draw) (
        filter_by (λ (e : Bytes × ChallengeRecord). not e.1.used && ltb draw.later e.1.expires_at)
          s.challenges);
  },
  pairing_challenge_issued draw.text (six_digits (draw.code_number % 1000000)) (draw.now + ttl),
  draw.text,
  draw.now + ttl,
)

-- `HashSet::contains`
abbrev pub contains : Bytes → List Bytes → Bool
contains x = any (λ y. bytes_eq y x)

unfoldable pub approve : Bytes → Bytes × ChallengeRecord → Bytes × ChallengeRecord
approve plugin (k, r) = (
  k,
  record r {
    approved_plugins =
        if contains plugin r.approved_plugins
        then r.approved_plugins
        else plugin ∷ r.approved_plugins;
  },
)

-- `record.used || record.expires_at <= OffsetDateTime::now_utc()`
abbrev pub is_over : ℕ → ChallengeRecord → Bool
is_over now r = r.used || leb r.expires_at now

-- `approve_pairing`
unfoldable pub approve_pairing :
    ℕ → Bytes → Bytes → PairingRegistry → Result BridgeError PairingRegistry
unfolding approve
approve_pairing now challenge plugin s = do
  validate_scoped_id plugin (codes "plg_")
  entry ← ok_or (find? (has_name challenge) s.challenges) (pairing_denied "unknown challenge")
  reject_if (is_over now entry.1) (pairing_denied "expired challenge")
  ok (record s { challenges = update_where (has_name challenge) (approve plugin) s.challenges })

unfoldable pub revoke : Bytes × CredentialRecord → Bytes × CredentialRecord
revoke (k, r) = (k, record r { revoked = true })

-- `revoke_plugin`
unfoldable pub revoke_plugin : Bytes → PairingRegistry → PairingRegistry
unfolding revoke
revoke_plugin plugin s = record s {
  credentials =
      update_where (λ (e : Bytes × CredentialRecord). bytes_eq e.1.plugin_installation_id plugin)
        revoke s.credentials;
}

-- `*attempts` after `or_default`
abbrev pub attempts_of : Bytes → ChallengeRecord → ℕ
attempts_of plugin r = elim (find? (has_name plugin) r.attempts_by_plugin) [
  | none ↦ 0
  | some e ↦ e.1
]

unfoldable pub attempted : Bytes → Bytes × ChallengeRecord → Bytes × ChallengeRecord
attempted plugin (k, r) = (
  k,
  record r { attempts_by_plugin = insert plugin (attempts_of plugin r + 1) r.attempts_by_plugin },
)

unfoldable pub used_up : Bytes × ChallengeRecord → Bytes × ChallengeRecord
used_up (k, r) = (k, record r { used = true })

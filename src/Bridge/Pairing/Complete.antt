-- ===== src/Bridge/Pairing/Complete.antt =====
-- `authenticate_credential` and `complete_pairing` of bridge.rs. BLAKE3 is a parameter.
use neuman.Prelude.{
  ℕ, ◌+◌, ◌*◌, Bool, false, not, ◌&&◌, ◌||◌, ◌==◌, List, [], ◌∷◌, Bytes, codes, bytes_eq, any,
  find?, update_where, length, leb, ltb, if◌then◌else◌, Result, ok, err, ok_or, reject_if, ◌>>=◌,
  ◌>>◌,
}
use neuman.Bridge.{BridgeError, pairing_denied, pairing_required, auth_invalid}
use neuman.Bridge.Transfer.{validate_scoped_id}
use neuman.Bridge.Pairing.Protocol.{negotiate_protocol}
use neuman.Bridge.Pairing.{
  pairing_requested, paired, BridgeEvent, ChallengeRecord, CredentialRecord, Draw, PairRequest,
  PairSuccess, PairingRegistry, attempted, attempts_of, contains, has_name, insert, is_over,
  used_up,
}

module _ (blake3 : Bytes → Bytes) where
  abbrev pub is_valid_credential : ℕ → Bytes → Bytes → Bytes × CredentialRecord → Bool
  is_valid_credential now plugin digest e =
      bytes_eq e.1.plugin_installation_id plugin
      && not e.1.revoked
      && ltb now e.1.expires_at
      && bytes_eq e.1.digest digest

  -- `.map_err(|_| BridgeError::AuthInvalid)`
  abbrev pub as_auth : Result BridgeError (Unit {0}) → Result BridgeError (Unit {0})
  as_auth (ok _) = ok tt
  as_auth (err _) = err auth_invalid

  -- `authenticate_credential`, with one reading of the clock
  unfoldable pub authenticate_credential :
      ℕ → Bytes → Bytes → PairingRegistry → Result BridgeError (Unit {0})
  authenticate_credential now plugin credential s = do
    as_auth (validate_scoped_id plugin (codes "plg_"))
    reject_if (ltb (length credential) 32 || ltb 256 (length credential)) auth_invalid
    reject_if (not (any (is_valid_credential now plugin (blake3 credential)) s.credentials))
        auth_invalid

  abbrev pub credential_lifetime : ℕ
  credential_lifetime = 30 * 24 * 60 * 60 * 1000000000

  abbrev pub new_credential : Draw → Bytes → CredentialRecord
  new_credential draw plugin = record {
    plugin_installation_id = plugin;
    digest = blake3 draw.text;
    revoked = false;
    expires_at = draw.later + credential_lifetime;
  }

  -- `complete_pairing` once the attempt is counted in `s`
  unfoldable pub complete_attempt :
      Draw
      → PairRequest
      → ChallengeRecord
      → PairingRegistry
      → PairingRegistry × List BridgeEvent × Result BridgeError PairSuccess
  unfolding used_up
  complete_attempt draw request r s =
      if not (bytes_eq r.pairing_code request.pairing_code)
      then (s, [], err (pairing_denied "code mismatch"))
      else if not (contains request.plugin_installation_id r.approved_plugins)
      then (
        s,
        pairing_requested request.challenge request.plugin_installation_id ∷ [],
        err pairing_required,
      )
      else (
        record {
          challenges = update_where (has_name request.challenge) used_up s.challenges;
          credentials =
              insert draw.key (new_credential draw request.plugin_installation_id) s.credentials;
        },
        paired request.plugin_installation_id ∷ [],
        ok (record { credential = draw.text; expires_at = draw.later + credential_lifetime }),
      )

  -- The checks of `complete_pairing` before it counts the attempt, which change nothing
  unfoldable pub admit_attempt :
      ℕ → PairRequest → PairingRegistry → Result BridgeError ChallengeRecord
  admit_attempt now request s = do
    validate_scoped_id request.plugin_installation_id (codes "plg_")
    reject_if (ltb 64 (length request.plugin_version) || not (length request.pairing_code == 6))
        (pairing_denied "invalid pairing request")
    negotiate_protocol request.protocol_version request.protocol_version
    entry ←
        ok_or (find? (has_name request.challenge) s.challenges) (pairing_denied "unknown challenge")
    reject_if (is_over now entry.1) (pairing_denied "expired challenge")
    reject_if (leb 5 (attempts_of request.plugin_installation_id entry.1))
        (pairing_denied "attempt limit exceeded")
    ok entry.1

  -- `complete_pairing`: the registry, the events sent and the result
  unfoldable pub complete_pairing :
      Draw
      → PairRequest
      → PairingRegistry
      → PairingRegistry × List BridgeEvent × Result BridgeError PairSuccess
  unfolding complete_attempt admit_attempt attempted
  complete_pairing draw request s = elim (admit_attempt draw.now request s) [
    | err e ↦ (s, [], err e)
    | ok r ↦ complete_attempt draw request r (record s {
      challenges =
          update_where (has_name request.challenge) (attempted request.plugin_installation_id)
            s.challenges;
    })
  ]

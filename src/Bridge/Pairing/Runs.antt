-- ===== src/Bridge/Pairing/Runs.antt =====
-- Runs of the pairing operations of bridge.rs, with a log of approvals, grants and revocations.
use neuman.Prelude.{
  ℕ, suc, ◌≡◌, Bool, false, not, ◌&&◌, ◌||◌, List, [], ◌∷◌, ◌++◌, Bytes, bytes_eq, any,
  if◌then◌else◌, Result, ok, err,
}
use neuman.Bridge.{BridgeError}
use neuman.Bridge.Pairing.{
  PairingRegistry, PairRequest, PairSuccess, Draw, issue_challenge, approve_pairing, revoke_plugin,
}
use neuman.Bridge.Pairing.Complete.{complete_pairing}

-- What happened, as far as a credential's right depends on it: a challenge was issued, a plugin was
-- approved for it, a credential with a digest was granted to a plugin for a challenge, a plugin was revoked.
pub data Happening : Type 0 where
  issued : Bytes → Happening
  approved : Bytes → Bytes → Happening
  granted : Bytes → Bytes → Bytes → Happening
  revoked : Bytes → Happening

-- A call of `complete_pairing` grants something where it succeeds.
abbrev pub grant_of :
    (Bytes → Bytes) → PairRequest → Result BridgeError PairSuccess → List Happening
grant_of blake3 request (err _) = []
grant_of blake3 request (ok success) =
    granted request.challenge request.plugin_installation_id (blake3 success.credential) ∷ []

-- A run of the operations from a registry, with what happened, the latest first.
pub data Run (blake3 : Bytes → Bytes) (ttl : ℕ) : PairingRegistry → List Happening → Type 0 where
  start : Run blake3 ttl (record { challenges = []; credentials = [] }) []
  issuing :
      {s : PairingRegistry} {log : List Happening}
      → Run blake3 ttl s log
      → (draw : Draw) → Run blake3 ttl (issue_challenge ttl draw s).0 (issued draw.text ∷ log)
  approving :
      {s s' : PairingRegistry} {log : List Happening}
      → Run blake3 ttl s log
      → (now : ℕ) (challenge plugin : Bytes) → approve_pairing now challenge plugin s ≡ ok s'
      → Run blake3 ttl s' (approved challenge plugin ∷ log)
  revoking :
      {s : PairingRegistry} {log : List Happening}
      → Run blake3 ttl s log
      → (plugin : Bytes) → Run blake3 ttl (revoke_plugin plugin s) (revoked plugin ∷ log)
  completing :
      {s : PairingRegistry} {log : List Happening}
      → Run blake3 ttl s log
      → (draw : Draw) (request : PairRequest)
      → Run blake3 ttl
          (complete_pairing blake3 draw request s).0
          (grant_of blake3 request (complete_pairing blake3 draw request s).2 ++ log)

abbrev pub is_approval : Bytes → Bytes → Happening → Bool
is_approval challenge plugin (approved c p) = bytes_eq c challenge && bytes_eq p plugin
is_approval challenge plugin (issued _) = false
is_approval challenge plugin (granted _ _ _) = false
is_approval challenge plugin (revoked _) = false

-- The plugin was granted the digest for a challenge it had been approved for, and not revoked since.
abbrev pub is_granted : Bytes → Bytes → List Happening → Bool
is_granted plugin digest [] = false
is_granted plugin digest (issued _ ∷ log) = is_granted plugin digest log
is_granted plugin digest (approved _ _ ∷ log) = is_granted plugin digest log
is_granted plugin digest (revoked p ∷ log) = not (bytes_eq p plugin) && is_granted plugin digest log
is_granted plugin digest (granted c p d ∷ log) =
    bytes_eq p plugin && bytes_eq d digest && any (is_approval c p) log
    || is_granted plugin digest log

-- How often a challenge was used to grant something since it was issued last
abbrev pub grants_of : Bytes → List Happening → ℕ
grants_of challenge [] = 0
grants_of challenge (issued c ∷ log) = if bytes_eq c challenge then 0 else grants_of challenge log
grants_of challenge (approved _ _ ∷ log) = grants_of challenge log
grants_of challenge (revoked _ ∷ log) = grants_of challenge log
grants_of challenge (granted c _ _ ∷ log) =
    if bytes_eq c challenge then suc (grants_of challenge log) else grants_of challenge log

-- ===== src/Bridge/Pairing/Grants.antt =====
-- What a credential of bridge.rs that authenticates goes back to, along any run of the pairing operations.
use neuman.Prelude.{
  ℕ, ◌≡◌, refl, sym, true, ◌||◌, List, [], ◌∷◌, ◌++◌, Bytes, codes, bytes_eq, bytes_eq_sound,
  bytes_eq_refl, any, find?-All, find?-eq-some, update_where, length, ltb, Result, ok, err,
  >>=-eq-ok, reject_if-then-eq-ok, All, All-filter_by, All-map, All-update_where, Bool-cases, inl,
  inr, arith,
}
use neuman.Bridge.{BridgeError}
use neuman.Bridge.Transfer.{validate_scoped_id}
use neuman.Bridge.Pairing.{
  ChallengeRecord, CredentialRecord, PairingRegistry, PairRequest, Draw, has_name, contains,
  attempted, used_up,
}
use neuman.Bridge.Pairing.Complete.{
  is_valid_credential, authenticate_credential, complete_attempt, admit_attempt, complete_pairing,
  as_auth,
}
use neuman.Bridge.Pairing.Runs.{
  Happening, granted, grant_of, Run, start, issuing, approving, revoking, completing, is_approval,
  is_granted,
}
use neuman.Bridge.Pairing.Sound.{
  IsBacked, IsApproved, IsSound, IsApproved-later, issue-IsSound, approve_pairing-IsSound,
  revoke_plugin-IsSound, admit_attempt-eq-ok,
}

approved_for :
    (plugin k : Bytes) (log : List Happening) (ps : List Bytes)
    → contains plugin ps ≡ true
    → All (λ p. any (is_approval k p) log ≡ true) ps
    → any (is_approval k plugin) log ≡ true
approved_for plugin k log [] c a = cc
approved_for plugin k log (p ∷ ps) c a = elim (Bool-cases (bytes_eq p plugin)) [
  | inl same ↦ rw (sym (bytes_eq_sound p plugin same)) a.0
  | inr other ↦ approved_for plugin k log ps (ground (arith, other, c)) a.1
]

IsBacked-later :
    (c p d : Bytes) (log : List Happening) (e : Bytes × CredentialRecord)
    → IsBacked log e
    → IsBacked (granted c p d ∷ log) e
IsBacked-later c p d log e b live = ground (arith, b live)

module _ (blake3 : Bytes → Bytes) (draw : Draw) (request : PairRequest) (log : List Happening) where
  attempted-IsApproved :
      (plugin : Bytes) (e : Bytes × ChallengeRecord)
      → IsApproved log e
      → IsApproved log (attempted plugin e)
  unfolding attempted
  attempted-IsApproved plugin (k, r) a = a

  used_up-IsApproved : (e : Bytes × ChallengeRecord) → IsApproved log e → IsApproved log (used_up e)
  unfolding used_up
  used_up-IsApproved (k, r) a = a

  complete_attempt-IsSound :
      (r : ChallengeRecord) (s : PairingRegistry)
      → IsSound log s
      → IsApproved log (request.challenge, r)
      → IsSound
          (grant_of blake3 request (complete_attempt blake3 draw request r s).2 ++ log)
          (complete_attempt blake3 draw request r s).0
  unfolding complete_attempt
  complete_attempt-IsSound r s h a =
      elim (Bool-cases (bytes_eq r.pairing_code request.pairing_code)) [
        | inr wrong ↦ rw wrong h
        | inl right ↦
            elim (Bool-cases (contains request.plugin_installation_id r.approved_plugins)) [
              | inr unknown ↦ rw right (rw unknown h)
              | inl known ↦ rw right (
                  rw known (record {
                    credentials = (
                      (λ _. fresh (
                          approved_for request.plugin_installation_id request.challenge log
                            r.approved_plugins known a)),
                      All-map (IsBacked log) _ (λ e b. IsBacked-later _ _ _ log e b) _
                          (All-filter_by (IsBacked log) _ s.credentials h.credentials),
                    );
                    challenges =
                        All-map (IsApproved log) _
                          (λ e b. IsApproved-later grant log e.0 e.1.approved_plugins b) _
                          (All-update_where (IsApproved log) (IsApproved log) _ _
                            (λ e b _. used_up-IsApproved e b) (λ e b _. b) s.challenges
                            h.challenges);
                  }))
            ]
      ]
    where
      grant : Happening
      grant = granted request.challenge request.plugin_installation_id (blake3 draw.text)

      fresh :
          any (is_approval request.challenge request.plugin_installation_id) log ≡ true
          → is_granted request.plugin_installation_id
              (blake3 draw.text)
              (granted request.challenge request.plugin_installation_id (blake3 draw.text) ∷ log)
            ≡ true
      fresh e =
          rw (bytes_eq_refl request.plugin_installation_id)
            (rw (bytes_eq_refl (blake3 draw.text)) (rw e refl))

  admitted-IsApproved :
      (s : PairingRegistry) (r : ChallengeRecord)
      → All (IsApproved log) s.challenges
      → admit_attempt blake3 draw.now request s ≡ ok r
      → IsApproved log (request.challenge, r)
  admitted-IsApproved s r a e =
      let (entry, hit, _, same) = admit_attempt-eq-ok blake3 draw.now request s r e in
      let named = bytes_eq_sound entry.0 request.challenge (find?-eq-some _ s.challenges hit) in
      let its = find?-All (IsApproved log) _ s.challenges a hit in
      rw (sym same) (rw (sym named) its)

  complete_pairing-IsSound :
      (s : PairingRegistry)
      → IsSound log s
      → IsSound
          (grant_of blake3 request (complete_pairing blake3 draw request s).2 ++ log)
          (complete_pairing blake3 draw request s).0
  unfolding complete_pairing
  complete_pairing-IsSound s h = pick (admit_attempt blake3 draw.now request s) refl
    where
      counted : PairingRegistry
      counted = record s {
        challenges =
            update_where (has_name request.challenge) (attempted request.plugin_installation_id)
              s.challenges;
      }

      counted-IsSound : IsSound log counted
      counted-IsSound = record {
        credentials = h.credentials;
        challenges =
            All-update_where (IsApproved log) (IsApproved log) _ _
              (λ e b _. attempted-IsApproved request.plugin_installation_id e b) (λ e b _. b)
              s.challenges h.challenges;
      }

      pick :
          (o : Result BridgeError ChallengeRecord)
          → admit_attempt blake3 draw.now request s ≡ o
          → IsSound
              (grant_of blake3 request (complete_pairing blake3 draw request s).2 ++ log)
              (complete_pairing blake3 draw request s).0
      pick (err e) refused = rw (refused, complete_pairing) h
      pick (ok r) admitted =
          rw (admitted, complete_pairing)
            (complete_attempt-IsSound r counted counted-IsSound
              (admitted-IsApproved s r h.challenges admitted))

Run-IsSound :
    (blake3 : Bytes → Bytes) (ttl : ℕ) {s : PairingRegistry} {log : List Happening}
    → Run blake3 ttl s log
    → IsSound log s
Run-IsSound blake3 ttl start = record { credentials = tt; challenges = tt }
Run-IsSound blake3 ttl (issuing run draw) = issue-IsSound ttl draw _ _ (Run-IsSound blake3 ttl run)
Run-IsSound blake3 ttl (approving run now challenge plugin e) =
    approve_pairing-IsSound now challenge plugin _ _ _ (Run-IsSound blake3 ttl run) e
Run-IsSound blake3 ttl (revoking run plugin) =
    revoke_plugin-IsSound plugin _ _ (Run-IsSound blake3 ttl run)
Run-IsSound blake3 ttl (completing run draw request) =
    complete_pairing-IsSound blake3 draw request _ _ (Run-IsSound blake3 ttl run)

valid-is_granted :
    (blake3 : Bytes → Bytes) (now : ℕ) (plugin digest : Bytes) (log : List Happening)
    (es : List (Bytes × CredentialRecord))
    → All (IsBacked log) es
    → any (is_valid_credential blake3 now plugin digest) es ≡ true
    → is_granted plugin digest log ≡ true
valid-is_granted blake3 now plugin digest log [] a h = cc
valid-is_granted blake3 now plugin digest log (e ∷ es) a h =
    elim (Bool-cases (is_valid_credential blake3 now plugin digest e)) [
      | inr miss ↦ valid-is_granted blake3 now plugin digest log es a.1 (ground (arith, miss, h))
      | inl hit ↦
          rw (sym (bytes_eq_sound e.1.plugin_installation_id plugin (ground (arith, hit)))) (
            rw (sym (bytes_eq_sound e.1.digest digest (ground (arith, hit))))
              (a.0 (ground (arith, hit))))
    ]

-- Along any run of the pairing operations from an empty registry, a credential authenticates a plugin
-- only if its digest was granted to that plugin by a `complete_pairing` for a challenge, the plugin
-- had been approved for that challenge before, and the plugin was not revoked since.
pub authenticated_was_paired :
    (blake3 : Bytes → Bytes) (ttl now : ℕ) (plugin credential : Bytes) {s : PairingRegistry}
    {log : List Happening}
    → Run blake3 ttl s log
    → authenticate_credential blake3 now plugin credential s ≡ ok tt
    → is_granted plugin (blake3 credential) log ≡ true
unfolding authenticate_credential
authenticated_was_paired blake3 ttl now plugin credential {s} {log} run e =
    let (_, _, e1) = >>=-eq-ok (as_auth blake3 (validate_scoped_id plugin (codes "plg_"))) _ e in
    let (_, e2) =
      reject_if-then-eq-ok (ltb (length credential) 32 || ltb 256 (length credential)) _ _ e1 in
    valid-is_granted blake3 now plugin (blake3 credential) log s.credentials
      (Run-IsSound blake3 ttl run).credentials (ground (arith, e2))

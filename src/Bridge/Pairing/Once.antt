-- ===== src/Bridge/Pairing/Once.antt =====
-- How often a challenge of bridge.rs pairs a plugin.
use neuman.Prelude.{
  ℕ, suc, ◌≤◌, ◌≡◌, refl, sym, ap, ◌∙◌, Bool, true, false, List, [], ◌∷◌, ◌++◌, Bytes, codes,
  bytes_eq, bytes_eq_sound, find?, find?-All, find?-eq-some, update_where, Result, ok, err, ok_or,
  ok-injective, ◌⊎◌, >>=-eq-ok, reject_if-then-eq-ok, All, All-filter_by, All-update_where,
  Bool-cases, inl, inr, arith,
}
use neuman.Bridge.{BridgeError}
use neuman.Bridge.Transfer.{validate_scoped_id}
use neuman.Bridge.Pairing.{
  ChallengeRecord, CredentialRecord, PairingRegistry, PairRequest, Draw, has_name, issue_challenge,
  contains, approve, approve_pairing, is_over, revoke_plugin, attempted, used_up,
}
use neuman.Bridge.Pairing.Complete.{complete_attempt, admit_attempt, complete_pairing}
use neuman.Bridge.Pairing.Runs.{
  Happening, issued, approved, granted, revoked, grant_of, Run, start, issuing, approving, revoking,
  completing, grants_of,
}
use neuman.Bridge.Pairing.Sound.{admit_attempt-eq-ok}

-- A challenge with this text, if there is one, is used.
abbrev IsUsed : Bytes → Bytes × ChallengeRecord → Type 0
IsUsed c e = has_name c e ≡ true → e.1.used ≡ true

-- The challenge has granted nothing since it was issued, or it has once, and is used.
abbrev IsOnce : Bytes → List Happening → PairingRegistry → Type 0
IsOnce c log s = (grants_of c log ≡ 0) ⊎ ((grants_of c log ≡ 1) × All (IsUsed c) s.challenges)

issue-IsOnce :
    (c : Bytes) (ttl : ℕ) (draw : Draw) (s : PairingRegistry) (log : List Happening)
    → IsOnce c log s
    → IsOnce c (issued draw.text ∷ log) (issue_challenge ttl draw s).0
unfolding issue_challenge
issue-IsOnce c ttl draw s log h = elim (Bool-cases (bytes_eq draw.text c)) [
  | inl same ↦ inl (rw same refl)
  | inr other ↦ elim h [
    | inl never ↦ inl (rw other never)
    | inr (once, used) ↦ inr (
      rw other once,
      (
        (λ same. absurd (clash other same)),
        All-filter_by (IsUsed c) _ _ (All-filter_by (IsUsed c) _ s.challenges used),
      ),
    )
  ]
]
  where
    clash : {b : Bool} → b ≡ false → b ≡ true → ⊥
    clash e f = cc

approve_pairing-IsOnce :
    (c : Bytes) (now : ℕ) (challenge plugin : Bytes) (s s' : PairingRegistry) (log : List Happening)
    → IsOnce c log s
    → approve_pairing now challenge plugin s ≡ ok s'
    → IsOnce c (approved challenge plugin ∷ log) s'
unfolding approve_pairing approve
approve_pairing-IsOnce c now challenge plugin s s' log h e =
    let (_, _, e1) = >>=-eq-ok (validate_scoped_id plugin (codes "plg_")) _ e in
    let (entry, _, e2) = >>=-eq-ok (ok_or (find? (has_name challenge) s.challenges) _) _ e1 in
    let (_, e3) = reject_if-then-eq-ok (is_over now entry.1) _ _ e2 in
    rw (sym (ok-injective e3)) (elim h [
      | inl never ↦ inl never
      | inr (once, used) ↦ inr (
        once,
        All-update_where (IsUsed c) (IsUsed c) _ _ (λ x a _. keeps x a) (λ x a _. a) s.challenges
            used,
      )
    ])
  where
    keeps : (x : Bytes × ChallengeRecord) → IsUsed c x → IsUsed c (approve plugin x)
    keeps (k, r) a = a

revoke_plugin-IsOnce :
    (c plugin : Bytes) (s : PairingRegistry) (log : List Happening)
    → IsOnce c log s
    → IsOnce c (revoked plugin ∷ log) (revoke_plugin plugin s)
unfolding revoke_plugin
revoke_plugin-IsOnce c plugin s log h = h

module _ (blake3 : Bytes → Bytes) (draw : Draw) (request : PairRequest) (c : Bytes)
    (log : List Happening) where
  keeps-attempted :
      (plugin : Bytes) (e : Bytes × ChallengeRecord) → IsUsed c e → IsUsed c (attempted plugin e)
  unfolding attempted
  keeps-attempted plugin (k, r) a = a

  keeps-used_up : (e : Bytes × ChallengeRecord) → IsUsed c e → IsUsed c (used_up e)
  unfolding used_up
  keeps-used_up (k, r) a _ = refl

  other_name :
      bytes_eq request.challenge c ≡ true
      → (e : Bytes × ChallengeRecord) → has_name request.challenge e ≡ false
      → IsUsed c e
  other_name same e miss named =
      absurd (clash miss (rw (bytes_eq_sound request.challenge c same) named))
    where
      clash : {b : Bool} → b ≡ false → b ≡ true → ⊥
      clash e f = cc

  any_challenge : (es : List (Bytes × ChallengeRecord)) → All (λ _. Unit {0}) es
  any_challenge [] = tt
  any_challenge (e ∷ es) = (tt, any_challenge es)

  -- An attempt that is counted for the challenge itself is not one on a used challenge.
  complete_attempt-IsOnce :
      (r : ChallengeRecord) (s : PairingRegistry)
      → (bytes_eq request.challenge c ≡ true → grants_of c log ≡ 0)
      → IsOnce c log s
      → IsOnce c
          (grant_of blake3 request (complete_attempt blake3 draw request r s).2 ++ log)
          (complete_attempt blake3 draw request r s).0
  unfolding complete_attempt used_up
  complete_attempt-IsOnce r s never h =
      elim (Bool-cases (bytes_eq r.pairing_code request.pairing_code)) [
        | inr wrong ↦ rw wrong h
        | inl right ↦
            elim (Bool-cases (contains request.plugin_installation_id r.approved_plugins)) [
              | inr unknown ↦ rw right (rw unknown h)
              | inl known ↦
                  rw right
                    (rw known (granted_once [] (Bool-cases (bytes_eq request.challenge c)) h))
            ]
      ]
    where
      granted_once :
          (credentials : List (Bytes × CredentialRecord))
          → (bytes_eq request.challenge c ≡ true) ⊎ (bytes_eq request.challenge c ≡ false)
          → IsOnce c log s
          → IsOnce c
              (granted request.challenge request.plugin_installation_id (blake3 draw.text) ∷ log)
              (record {
                challenges = update_where (has_name request.challenge) used_up s.challenges;
                credentials = credentials;
              })
      granted_once _ (inl same) _ = inr (
        rw same (ap suc (never same)),
        All-update_where (λ _. Unit {0}) (IsUsed c) _ _ (λ e _ _. spent_used e)
            (λ e _ miss. other_name same e miss) s.challenges (any_challenge s.challenges),
      )
        where
          spent_used : (e : Bytes × ChallengeRecord) → IsUsed c (used_up e)
          spent_used (k, r') _ = refl
      granted_once _ (inr other) (inl none_yet) = inl (rw other none_yet)
      granted_once _ (inr other) (inr (once, used)) = inr (
        rw other once,
        All-update_where (IsUsed c) (IsUsed c) _ _ (λ e a _. keeps-used_up e a) (λ e a _. a)
            s.challenges used,
      )

  complete_pairing-IsOnce :
      (s : PairingRegistry)
      → IsOnce c log s
      → IsOnce c
          (grant_of blake3 request (complete_pairing blake3 draw request s).2 ++ log)
          (complete_pairing blake3 draw request s).0
  unfolding complete_pairing
  complete_pairing-IsOnce s h = pick (admit_attempt blake3 draw.now request s) refl
    where
      counted : PairingRegistry
      counted = record s {
        challenges =
            update_where (has_name request.challenge) (attempted request.plugin_installation_id)
              s.challenges;
      }

      counted-IsOnce : IsOnce c log s → IsOnce c log counted
      counted-IsOnce (inl never) = inl never
      counted-IsOnce (inr (once, used)) = inr (
        once,
        All-update_where (IsUsed c) (IsUsed c) _ _
            (λ e a _. keeps-attempted request.plugin_installation_id e a) (λ e a _. a) s.challenges
            used,
      )

      unused :
          IsOnce c log s
          → (r : ChallengeRecord) → admit_attempt blake3 draw.now request s ≡ ok r
          → bytes_eq request.challenge c ≡ true
          → grants_of c log ≡ 0
      unused (inl never) r e same = never
      unused (inr (_, used)) r e same =
          let (entry, hit, live, _) = admit_attempt-eq-ok blake3 draw.now request s r e in
          let named = find?-eq-some _ s.challenges hit in
          let its : has_name c entry ≡ true =
            ap (bytes_eq entry.0) (sym (bytes_eq_sound request.challenge c same)) ∙ named in
          let spent_before = find?-All (IsUsed c) _ s.challenges used hit its in
          absurd (ground (arith, spent_before, live))

      pick :
          (o : Result BridgeError ChallengeRecord)
          → admit_attempt blake3 draw.now request s ≡ o
          → IsOnce c
              (grant_of blake3 request (complete_pairing blake3 draw request s).2 ++ log)
              (complete_pairing blake3 draw request s).0
      pick (err e) refused = rw (refused, complete_pairing) h
      pick (ok r) admitted =
          rw (admitted, complete_pairing)
            (complete_attempt-IsOnce r counted (unused h r admitted) (counted-IsOnce h))

Run-IsOnce :
    (blake3 : Bytes → Bytes) (ttl : ℕ) (c : Bytes) {s : PairingRegistry} {log : List Happening}
    → Run blake3 ttl s log
    → IsOnce c log s
Run-IsOnce blake3 ttl c start = inl refl
Run-IsOnce blake3 ttl c (issuing {s = s} {log = log} run draw) =
    issue-IsOnce c ttl draw s log (Run-IsOnce blake3 ttl c run)
Run-IsOnce blake3 ttl c (approving {s = s} {s' = s'} {log = log} run now challenge plugin e) =
    approve_pairing-IsOnce c now challenge plugin s s' log (Run-IsOnce blake3 ttl c run) e
Run-IsOnce blake3 ttl c (revoking {s = s} {log = log} run plugin) =
    revoke_plugin-IsOnce c plugin s log (Run-IsOnce blake3 ttl c run)
Run-IsOnce blake3 ttl c (completing {s = s} {log = log} run draw request) =
    complete_pairing-IsOnce blake3 draw request c log s (Run-IsOnce blake3 ttl c run)

-- Along any run of the pairing operations from an empty registry, a challenge grants at most one
-- credential from one issue of it to the next.
pub challenge_pairs_once :
    (blake3 : Bytes → Bytes) (ttl : ℕ) (challenge : Bytes) {s : PairingRegistry}
    {log : List Happening}
    → Run blake3 ttl s log
    → grants_of challenge log ≤ 1
challenge_pairs_once blake3 ttl challenge run = elim (Run-IsOnce blake3 ttl challenge run) [
  | inl never ↦ omega (arith, never)
  | inr (once, _) ↦ omega (arith, once)
]

-- ===== src/Bridge/Pairing/Sound.antt =====
-- What stands behind the credentials and approvals in the registry of bridge.rs.
use neuman.Prelude.{
  ℕ, ◌≡◌, refl, sym, Bool, true, false, not, ◌||◌, ◌==◌, some, List, [], ◌∷◌, Bytes, codes,
  bytes_eq, bytes_eq_sound, bytes_eq_refl, any, find?, length, leb, ltb, if◌then◌else◌, ok, ok_or,
  ok_or-eq-ok, ok-injective, >>=-eq-ok, reject_if-then-eq-ok, All, All-filter_by, All-map,
  All-update_where, arith,
}
use neuman.Bridge.Transfer.{validate_scoped_id}
use neuman.Bridge.Pairing.{
  ChallengeRecord, CredentialRecord, PairingRegistry, PairRequest, Draw, has_name, issue_challenge,
  contains, approve, approve_pairing, is_over, revoke, revoke_plugin, attempts_of,
}
use neuman.Bridge.Pairing.Complete.{admit_attempt}
use neuman.Bridge.Pairing.Protocol.{negotiate_protocol}
use neuman.Bridge.Pairing.Runs.{Happening, issued, approved, revoked, is_approval, is_granted}

abbrev pub IsBacked : List Happening → Bytes × CredentialRecord → Type 0
IsBacked log e = e.1.revoked ≡ false → is_granted e.1.plugin_installation_id e.1.digest log ≡ true

abbrev pub IsApproved : List Happening → Bytes × ChallengeRecord → Type 0
IsApproved log e = All (λ p. any (is_approval e.0 p) log ≡ true) e.1.approved_plugins

pub record IsSound (log : List Happening) (s : PairingRegistry) : Type 0 where
  pub credentials : All (IsBacked log) s.credentials
  pub challenges : All (IsApproved log) s.challenges

pub IsApproved-later :
    (h : Happening) (log : List Happening) (k : Bytes) (ps : List Bytes)
    → All (λ p. any (is_approval k p) log ≡ true) ps
    → All (λ p. any (is_approval k p) (h ∷ log) ≡ true) ps
IsApproved-later h log k [] a = tt
IsApproved-later h log k (p ∷ ps) a = (ground (arith, a.0), IsApproved-later h log k ps a.1)

bytes_eq-sym : (xs ys : Bytes) → bytes_eq xs ys ≡ bytes_eq ys xs
unfolding bytes_eq
bytes_eq-sym [] [] = refl
bytes_eq-sym [] (y ∷ ys) = refl
bytes_eq-sym (x ∷ xs) [] = refl
bytes_eq-sym (x ∷ xs) (y ∷ ys) = ground (arith, bytes_eq-sym xs ys)

pub issue-IsSound :
    (ttl : ℕ) (draw : Draw) (s : PairingRegistry) (log : List Happening)
    → IsSound log s
    → IsSound (issued draw.text ∷ log) (issue_challenge ttl draw s).0
unfolding issue_challenge
issue-IsSound ttl draw s log h = record {
  credentials = h.credentials;
  challenges = (
    tt,
    All-map (IsApproved log) (IsApproved (issued draw.text ∷ log))
        (λ e a. IsApproved-later (issued draw.text) log e.0 e.1.approved_plugins a) _
        (All-filter_by (IsApproved log) _ _ (All-filter_by (IsApproved log) _ _ h.challenges)),
  );
}

approve-IsApproved :
    (challenge plugin : Bytes) (log : List Happening) (e : Bytes × ChallengeRecord)
    → IsApproved log e
    → has_name challenge e ≡ true
    → IsApproved (approved challenge plugin ∷ log) (approve plugin e)
unfolding approve
approve-IsApproved challenge plugin log (k, r) h named = pick (contains plugin r.approved_plugins)
  where
    older : IsApproved (approved challenge plugin ∷ log) (k, r)
    older = IsApproved-later (approved challenge plugin) log k r.approved_plugins h

    same : bytes_eq challenge k ≡ true
    same = rw (bytes_eq_sound k challenge named) (bytes_eq_refl challenge)

    pick :
        (b : Bool)
        → All
            (λ p. any (is_approval k p) (approved challenge plugin ∷ log) ≡ true)
            (if b then r.approved_plugins else plugin ∷ r.approved_plugins)
    pick true = older
    pick false = (rw same (rw (bytes_eq_refl plugin) refl), older)

pub approve_pairing-IsSound :
    (now : ℕ) (challenge plugin : Bytes) (s s' : PairingRegistry) (log : List Happening)
    → IsSound log s
    → approve_pairing now challenge plugin s ≡ ok s'
    → IsSound (approved challenge plugin ∷ log) s'
unfolding approve_pairing
approve_pairing-IsSound now challenge plugin s s' log h e =
    let (_, _, e1) = >>=-eq-ok (validate_scoped_id plugin (codes "plg_")) _ e in
    let (entry, _, e2) = >>=-eq-ok (ok_or (find? (has_name challenge) s.challenges) _) _ e1 in
    let (_, e3) = reject_if-then-eq-ok (is_over now entry.1) _ _ e2 in
    rw (sym (ok-injective e3)) (record {
      credentials = h.credentials;
      challenges =
          All-update_where (IsApproved log) (IsApproved (approved challenge plugin ∷ log)) _ _
            (λ x a named. approve-IsApproved challenge plugin log x a named)
            (λ x a _. IsApproved-later (approved challenge plugin) log x.0 x.1.approved_plugins a)
            s.challenges h.challenges;
    })

pub revoke_plugin-IsSound :
    (plugin : Bytes) (s : PairingRegistry) (log : List Happening)
    → IsSound log s
    → IsSound (revoked plugin ∷ log) (revoke_plugin plugin s)
unfolding revoke_plugin revoke
revoke_plugin-IsSound plugin s log h = record {
  credentials =
      All-update_where (IsBacked log) (IsBacked (revoked plugin ∷ log)) _ _ (λ x a hit live. cc)
        (λ x a miss live. other x (a live) miss) s.credentials h.credentials;
  challenges =
      All-map (IsApproved log) (IsApproved (revoked plugin ∷ log))
        (λ x a. IsApproved-later (revoked plugin) log x.0 x.1.approved_plugins a) s.challenges
        h.challenges;
}
  where
    other :
        (x : Bytes × CredentialRecord)
        → is_granted x.1.plugin_installation_id x.1.digest log ≡ true
        → bytes_eq x.1.plugin_installation_id plugin ≡ false
        → is_granted x.1.plugin_installation_id x.1.digest (revoked plugin ∷ log) ≡ true
    other x g miss = rw (bytes_eq-sym plugin x.1.plugin_installation_id) (rw miss g)

-- What `complete_pairing` has tested of the challenge when it counts the attempt.
pub admit_attempt-eq-ok :
    (blake3 : Bytes → Bytes) (now : ℕ) (request : PairRequest) (s : PairingRegistry)
    (r : ChallengeRecord)
    → admit_attempt blake3 now request s ≡ ok r
    → (entry : Bytes × ChallengeRecord) × (find? (has_name request.challenge) s.challenges
        ≡ some entry)
      × (is_over now entry.1 ≡ false)
      × (entry.1 ≡ r)
unfolding admit_attempt
admit_attempt-eq-ok blake3 now request s r e =
    let (_, _, e1) =
      >>=-eq-ok (validate_scoped_id request.plugin_installation_id (codes "plg_")) _ e in
    let (_, e2) =
      reject_if-then-eq-ok
        (ltb 64 (length request.plugin_version) || not (length request.pairing_code == 6)) _ _ e1 in
    let (_, _, e3) =
      >>=-eq-ok (negotiate_protocol request.protocol_version request.protocol_version) _ e2 in
    let (entry, found, e4) =
      >>=-eq-ok (ok_or (find? (has_name request.challenge) s.challenges) _) _ e3 in
    let (live, e5) = reject_if-then-eq-ok (is_over now entry.1) _ _ e4 in
    let (_, e6) =
      reject_if-then-eq-ok (leb 5 (attempts_of request.plugin_installation_id entry.1)) _ _ e5 in
    (entry, ok_or-eq-ok _ _ found, live, ok-injective e6)

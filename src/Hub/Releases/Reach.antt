-- ===== src/Hub/Releases/Reach.antt =====
-- Runs of the release handlers of hub.rs from a database without releases.
use neuman.Prelude.{
  ◌≡◌, refl, String, false, not, ◌||◌, [], ◌∷◌, any, find?, str_eq, arith, find?-All, inl, inr, ◌⊎◌,
  ◌∙◌, ap, Result-cases, ok, err, ok_or-eq-ok, >>=-eq-ok, reject_if-then-eq-ok,
}
use neuman.Hub.{HubError, hub_error, not_found}
use neuman.Hub.Access.{Actor, membership_role}
use neuman.Hub.Database.{Db, Call, Libs}
use neuman.Hub.Records.{ReleaseRecord, ReleaseApproval}
use neuman.Hub.Releases.{
  CreateReleaseRequest, ApproveReleaseRequest, ReleaseActionRequest, is_release, create_release,
  get_release, read_release,
}
use neuman.Hub.Releases.Approval.{approve_release_call}
use neuman.Hub.Releases.Action.{
  action_plan, find_release, action_allowed, act_new, release_action, route_of,
}
use neuman.Hub.Releases.Approved.{
  IsKnown, IsBacked, IsSound, approve_release_call-Sound, create_release-Sound,
}
use neuman.Hub.Journal.{check_idempotency}
use neuman.Hub.Journal.Replay.{or_replay-eq-ok}
use neuman.Hub.Releases.Lifecycle.{release_action-Sound}

-- One committed call of a release handler
pub data Step (db : Db) : Db → Type 0 where
  create :
      (libs : Libs) (call : Call) (actor : Actor) (project_id key : String)
      (request : CreateReleaseRequest) (hash : String) (out : Db × ReleaseRecord)
      → create_release libs call db actor project_id key request hash ≡ ok out
      → Step db out.0
  approve :
      (libs : Libs) (call : Call) (actor : Actor) (project_id release_id key : String)
      (request : ApproveReleaseRequest) (hash : String) (out : Db × ReleaseApproval)
      → approve_release_call libs call db actor project_id release_id key request hash ≡ ok out
      → Step db out.0
  act :
      (libs : Libs) (call : Call) (actor : Actor) (project_id release_id action key : String)
      (request : ReleaseActionRequest) (hash : String) (out : Db × ReleaseRecord)
      → release_action libs call db actor project_id release_id action key request hash ≡ ok out
      → Step db out.0

pub data Reach (db : Db) : Db → Type 0 where
  here : Reach db db
  next : {db' db'' : Db} → Reach db db' → Step db' db'' → Reach db db''

Step-IsSound : {db db' : Db} → Step db db' → IsSound db → IsSound db'
Step-IsSound {db} (create libs call actor p key request hash out h) s =
    create_release-Sound libs call db actor p key request hash s h
Step-IsSound {db} (approve libs call actor p id key request hash out h) s =
    approve_release_call-Sound libs call db actor p id key request hash s h
Step-IsSound {db} (act libs call actor p id action key request hash out h) s =
    release_action-Sound libs call db actor p id action key request hash s h

pub Reach-IsSound : {db db' : Db} → IsSound db → Reach db db' → IsSound db'
Reach-IsSound s here = s
Reach-IsSound s (next r t) = Step-IsSound t (Reach-IsSound s r)

no_releases-IsSound : (db : Db) → db.releases ≡ [] → IsSound db
no_releases-IsSound db empty = (rw empty tt, (rw empty tt, rw empty tt))

-- Whatever committed calls of `create_release`, `approve_release` and `release_action` follow on a
-- database without releases, a release that `get_release` then returns is a draft, approved,
-- running or rolled back, and unless it is a draft an approval of its id and request hash is stored.
pub reached_release :
    (db db' : Db) (actor : Actor) (project_id release_id : String) (r : ReleaseRecord)
    → db.releases ≡ []
    → Reach db db'
    → get_release db' actor project_id release_id ≡ ok r
    → IsKnown r.state × IsBacked db'.approvals r
unfolding get_release
reached_release db db' actor p id r empty run h =
    let s = Reach-IsSound (no_releases-IsSound db empty) run in
    let (_, _, h1) = >>=-eq-ok (membership_role _ _ _ _ _) _ h in
    let hit =
      ok_or-eq-ok (find? (is_release id p) db'.releases) (not_found "HUB_RELEASE_NOT_FOUND") h1 in
    (
      find?-All (λ (x : ReleaseRecord). IsKnown x.state) (is_release id p) db'.releases s.1.0 hit,
      find?-All (IsBacked db'.approvals) (is_release id p) db'.releases s.1.1 hit,
    )

no_resume :
    (state : String)
    → IsKnown state
    → any (λ (s : String). str_eq s state) ("failed" ∷ "rollback_required" ∷ []) ≡ false
no_resume state (inl e) = rw e refl
no_resume state (inr (inl e)) = rw e refl
no_resume state (inr (inr (inl e))) = rw e refl
no_resume state (inr (inr (inr e))) = rw e refl

resume_refused :
    (db : Db) (libs : Libs) (call : Call) (actor : Actor) (project_id release_id key : String)
    (request : ReleaseActionRequest) (hash : String) {out : Db × ReleaseRecord}
    → IsSound db
    → act_new libs call db actor project_id release_id "resume"
        ("failed" ∷ "rollback_required" ∷ [], "running")
        key
        request
        hash
      ≡ ok out
    → ⊥
unfolding act_new action_allowed
resume_refused db libs call actor p id key request hash s h =
    let required = "failed" ∷ "rollback_required" ∷ [] in
    let (r, found, h1) = >>=-eq-ok (find_release db id p) _ h in
    let (_, allowed, _) = >>=-eq-ok (action_allowed db "resume" required request r) _ h1 in
    let (guard, _) =
      reject_if-then-eq-ok
        (not (str_eq r.request_hash request.expected_request_hash)
          || not (any (λ (s : String). str_eq s r.state) required))
        (hub_error 409 "HUB_VERSION_CONFLICT"
          "Release state or immutable request hash does not permit this action.")
        _ allowed in
    let hit =
      ok_or-eq-ok (find? (is_release id p) db.releases) (not_found "HUB_RELEASE_NOT_FOUND") found in
    let known =
      find?-All (λ (x : ReleaseRecord). IsKnown x.state) (is_release id p) db.releases s.1.0 hit in
    let none_of = no_resume r.state known in ground (arith, guard, none_of)

resume_keeps :
    (db : Db) (libs : Libs) (call : Call) (actor : Actor) (project_id release_id key : String)
    (request : ReleaseActionRequest) (hash : String) {out : Db × ReleaseRecord}
    → IsSound db
    → release_action libs call db actor project_id release_id "resume" key request hash ≡ ok out
    → out.0 ≡ db
unfolding release_action action_plan
resume_keeps db libs call actor p id key request hash s h =
    let (_, _, h1) = >>=-eq-ok (membership_role _ _ _ _ _) _ h in
    let (_, _, h2) = >>=-eq-ok (membership_role _ _ _ _ _) _ h1 in
    let (o, _, h3) =
      >>=-eq-ok (check_idempotency read_release db actor p (route_of "resume") key hash) _ h2 in
    elim (or_replay-eq-ok db o _ h3) [
      | inl same ↦ same.1
      | inr ran ↦ absurd (resume_refused db libs call actor p id key request hash s ran.1)
    ]

-- Whatever committed calls of `create_release`, `approve_release` and `release_action` follow on a
-- database without releases, a call of `release_action` with the action `resume` then fails, or
-- replays a stored response and leaves the database as it is: no release is ever resumed.
pub resume_changes_nothing :
    (db db' : Db) (libs : Libs) (call : Call) (actor : Actor) (project_id release_id key : String)
    (request : ReleaseActionRequest) (hash : String)
    → db.releases ≡ []
    → Reach db db'
    → ((e : HubError) × (release_action libs call db' actor project_id release_id "resume" key
            request hash
          ≡ err e))
      ⊎ ((r : ReleaseRecord) × (release_action libs call db' actor project_id release_id "resume"
              key request hash
            ≡ ok (db', r)))
resume_changes_nothing db db' libs call actor p id key request hash empty run =
    let s = Reach-IsSound (no_releases-IsSound db empty) run in
    elim (Result-cases (release_action libs call db' actor p id "resume" key request hash)) [
      | inl done ↦ inr (
        done.0.1,
        done.1
            ∙ ap (λ d. ok (d, done.0.1))
                (resume_keeps db' libs call actor p id key request hash s done.1),
      )
      | inr failed ↦ inl failed
    ]

-- ===== src/Hub/Runs/ReleaseLog.antt =====
-- The release handlers of hub.rs, the evidence, and the tables of the art.
use neuman.Prelude.{
  ◌≡◌, refl, ap, String, not, ◌||◌, ◌∷◌, any, find?, update_where, str_eq, ok, ok_or, >>=-eq-ok,
  reject_if-then-eq-ok, ok-injective, inl, inr,
}
use neuman.Hub.{internal}
use neuman.Hub.Access.{Actor, membership_role}
use neuman.Hub.Records.{ReleaseRecord, ReleaseApproval}
use neuman.Hub.Database.{Db, Call, Libs}
use neuman.Hub.Journal.{store_idempotency, check_idempotency}
use neuman.Hub.Journal.Replay.{or_replay-eq-ok}
use neuman.Hub.Validation.{validate_name, validate_hash_label}
use neuman.Hub.Releases.{
  CreateReleaseRequest, ApproveReleaseRequest, ReleaseActionRequest, has_id, create_new,
  create_release, read_release, read_approval, new_release,
}
use neuman.Hub.Releases.Approval.{
  same_approval, is_draft, approved, new_approval, insert_approval, find_approvable, approve_new,
  approve_release_call,
}
use neuman.Hub.Releases.Action.{
  moved, action_plan, find_release, action_allowed, move_release, act_new, release_action, route_of,
}
use neuman.Hub.Proposals.Effects.{art_of}
use neuman.Hub.Runs.Logged.{IsLogged, same-IsLogged, stored-IsLogged}

abbrev pub IsReleasing : Libs → Db → Db → Type 0
IsReleasing libs db db' = IsLogged libs db db' × (art_of db' ≡ art_of db)

same-IsReleasing : (libs : Libs) (db db' : Db) → db' ≡ db → IsReleasing libs db db'
same-IsReleasing libs db db' e = (same-IsLogged libs db db' e, ap art_of e)

create_new-IsReleasing :
    (libs : Libs) (call : Call) (db : Db) (actor : Actor) (p key : String)
    (request : CreateReleaseRequest) (hash : String) {out : Db × ReleaseRecord}
    → create_new libs call db actor p key request hash ≡ ok out
    → IsReleasing libs db out.0
unfolding create_new
create_new-IsReleasing libs call db actor p key request hash h =
    let r = new_release call actor p request hash in
    let (_, h1) = reject_if-then-eq-ok (any (has_id r.id) db.releases) internal _ h in
    let (db2, stored, h2) = >>=-eq-ok (store_idempotency _ _ _ _ _ _ _ _) _ h1 in
    rw (← ok-injective h2) (
      stored-IsLogged libs call db (record db { releases = r ∷ db.releases }) _ _ _ _ _ _ _ _ _ _ _
        _ _ _ refl refl refl refl stored)

pub create_release-IsReleasing :
    (libs : Libs) (call : Call) (db : Db) (actor : Actor) (p key : String)
    (request : CreateReleaseRequest) (hash : String) {out : Db × ReleaseRecord}
    → create_release libs call db actor p key request hash ≡ ok out
    → IsReleasing libs db out.0
unfolding create_release
create_release-IsReleasing libs call db actor p key request hash {out} h =
    let (_, _, h1) = >>=-eq-ok (membership_role _ _ _ _ _) _ h in
    let (_, _, h2) = >>=-eq-ok (validate_hash_label request.bundle_hash "bundleHash") _ h1 in
    let (_, _, h3) = >>=-eq-ok (validate_name request.environment 1 64 "environment") _ h2 in
    let (_, _, h4) = >>=-eq-ok (membership_role _ _ _ _ _) _ h3 in
    let (o, _, h5) =
      >>=-eq-ok (check_idempotency read_release db actor p "releases.create" key hash) _ h4 in
    elim (or_replay-eq-ok db o _ h5) [
      | inl same ↦ same-IsReleasing libs db out.0 same.1
      | inr run ↦ create_new-IsReleasing libs call db actor p key request hash run.1
    ]

insert_approval-IsReleasing :
    (libs : Libs) (call : Call) (db : Db) (actor : Actor) (p id key : String) (a : ReleaseApproval)
    (hash : String) {out : Db × ReleaseApproval}
    → insert_approval libs call db actor p id key a hash ≡ ok out
    → IsReleasing libs db out.0
unfolding insert_approval
insert_approval-IsReleasing libs call db actor p id key a hash h =
    let (_, h1) =
      reject_if-then-eq-ok
        (any (λ (b : ReleaseApproval). str_eq b.id a.id || same_approval b a) db.approvals) internal
        _ h in
    let (db2, stored, h2) = >>=-eq-ok (store_idempotency _ _ _ _ _ _ _ _) _ h1 in
    rw (← ok-injective h2) (
      stored-IsLogged libs call db
        (record db {
          approvals = a ∷ db.approvals;
          releases = update_where (is_draft id) (approved call) db.releases;
        })
        _ _ _ _ _ _ _ _ _ _ _ _ _ _ refl refl refl refl stored)

pub approve_release_call-IsReleasing :
    (libs : Libs) (call : Call) (db : Db) (actor : Actor) (p id key : String)
    (request : ApproveReleaseRequest) (hash : String) {out : Db × ReleaseApproval}
    → approve_release_call libs call db actor p id key request hash ≡ ok out
    → IsReleasing libs db out.0
unfolding approve_release_call approve_new
approve_release_call-IsReleasing libs call db actor p id key request hash {out} h =
    let (_, _, h1) = >>=-eq-ok (membership_role _ _ _ _ _) _ h in
    let (_, _, h2) = >>=-eq-ok (membership_role _ _ _ _ _) _ h1 in
    let (o, _, h3) =
      >>=-eq-ok (check_idempotency read_approval db actor p "releases.approve" key hash) _ h2 in
    elim (or_replay-eq-ok db o _ h3) [
      | inl same ↦ same-IsReleasing libs db out.0 same.1
      | inr run ↦
          let (r, _, h4) = >>=-eq-ok (find_approvable db id p) _ run.1 in
          let (_, h5) =
            reject_if-then-eq-ok (not (str_eq r.request_hash request.request_hash)) _ _ h4 in
          insert_approval-IsReleasing libs call db actor p id key
            (new_approval call actor id r.request_hash request.evidence) hash h5
    ]

move_release-IsReleasing :
    (libs : Libs) (call : Call) (db : Db) (actor : Actor) (p id action next_state key : String)
    (request : ReleaseActionRequest) (bound hash : String) {out : Db × ReleaseRecord}
    → move_release libs call db actor p id action next_state key request.evidence bound hash
      ≡ ok out
    → IsReleasing libs db out.0
unfolding move_release
move_release-IsReleasing libs call db actor p id action next_state key request bound hash h =
    let table = update_where (has_id id) (moved call next_state request.evidence) db.releases in
    let (_, _, h1) = >>=-eq-ok (ok_or (find? (has_id id) table) internal) _ h in
    let (db2, stored, h2) = >>=-eq-ok (store_idempotency _ _ _ _ _ _ _ _) _ h1 in
    rw (← ok-injective h2) (
      stored-IsLogged libs call db (record db { releases = table }) _ _ _ _ _ _ _ _ _ _ _ _ _ _ refl
        refl refl refl stored)

pub release_action-IsReleasing :
    (libs : Libs) (call : Call) (db : Db) (actor : Actor) (p id action key : String)
    (request : ReleaseActionRequest) (hash : String) {out : Db × ReleaseRecord}
    → release_action libs call db actor p id action key request hash ≡ ok out
    → IsReleasing libs db out.0
unfolding release_action act_new
release_action-IsReleasing libs call db actor p id action key request hash {out} h =
    let (_, _, h1) = >>=-eq-ok (membership_role _ _ _ _ _) _ h in
    let (plan, _, h2) = >>=-eq-ok (action_plan action) _ h1 in
    let (_, _, h3) = >>=-eq-ok (membership_role _ _ _ _ _) _ h2 in
    let (o, _, h4) =
      >>=-eq-ok (check_idempotency read_release db actor p (route_of action) key hash) _ h3 in
    elim (or_replay-eq-ok db o _ h4) [
      | inl same ↦ same-IsReleasing libs db out.0 same.1
      | inr run ↦
          let (r, _, h5) = >>=-eq-ok (find_release db id p) _ run.1 in
          let (_, _, h6) = >>=-eq-ok (action_allowed db action plan.0 request r) _ h5 in
          move_release-IsReleasing libs call db actor p id action plan.1 key request r.request_hash
            hash h6
    ]

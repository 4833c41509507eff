-- ===== src/Hub/Releases/Approval.antt =====
-- `approve_release` of hub.rs.
use neuman.Prelude.{
  String, Bool, not, ◌&&◌, ◌||◌, ◌∷◌, any, find?, update_where, str_eq, Result, ok, ok_or,
  reject_if, ◌>>=◌, ◌>>◌,
}
use neuman.Hub.{HubError, Json, text, object, close, field, hub_error, not_found, internal}
use neuman.Hub.Access.{Actor, approve_release, membership_role}
use neuman.Hub.Records.{ReleaseRecord, ReleaseApproval}
use neuman.Hub.Database.{approval, Db, Call, Libs}
use neuman.Hub.Journal.{check_idempotency, or_replay, store_idempotency, append_evidence}
use neuman.Hub.Releases.{read_approval, has_id, is_release, ApproveReleaseRequest}

-- `state IN ('draft','approved')`
unfoldable pub is_approvable : String → String → ReleaseRecord → Bool
unfolding is_release
is_approvable release_id project_id r =
    is_release release_id project_id r && (str_eq r.state "draft" || str_eq r.state "approved")

-- `UNIQUE(release_id, principal_id, request_hash)` of the table of approvals
unfoldable pub same_approval : ReleaseApproval → ReleaseApproval → Bool
same_approval a b =
    str_eq a.release_id b.release_id
    && str_eq a.principal_id b.principal_id
    && str_eq a.request_hash b.request_hash

-- `UPDATE releases SET state='approved' … WHERE id=?2 AND state='draft'`
unfoldable pub is_draft : String → ReleaseRecord → Bool
unfolding has_id
is_draft release_id r = has_id release_id r && str_eq r.state "draft"

unfoldable pub approved : Call → ReleaseRecord → ReleaseRecord
approved call r = record r { state = "approved"; updated_at_ms = call.now }

abbrev pub new_approval : Call → Actor → String → String → Json → ReleaseApproval
new_approval call actor release_id request_hash evidence = record {
  id = call.new_id 0;
  release_id = release_id;
  principal_id = actor.principal_id;
  request_hash = request_hash;
  evidence = evidence;
  created_at_ms = call.now;
}

-- The writes of `approve_release`, for the release that the query found
unfoldable pub insert_approval :
    Libs
    → Call
    → Db
    → Actor
    → String
    → String
    → String
    → ReleaseApproval
    → String
    → Result HubError (Db × ReleaseApproval)
unfolding same_approval is_draft approved
insert_approval libs call db actor project_id release_id key a request_body_hash = do
  reject_if (any (λ (b : ReleaseApproval). str_eq b.id a.id || same_approval b a) db.approvals)
      internal
  let db1 =
      append_evidence libs call
        (record db {
          approvals = a ∷ db.approvals;
          releases = update_where (is_draft release_id) (approved call) db.releases;
        })
        actor project_id "release.approved" "release" release_id "release" "release.approved"
        (object (
          field "releaseId" (text release_id)
            (field "approvalId" (text a.id) (field "requestHash" (text a.request_hash) close))))
  db2 ←
      store_idempotency call db1 actor project_id "releases.approve" key request_body_hash
        (approval a)
  ok (db2, a)

abbrev pub find_approvable : Db → String → String → Result HubError ReleaseRecord
find_approvable db release_id project_id =
    ok_or (find? (is_approvable release_id project_id) db.releases)
      (not_found "HUB_RELEASE_NOT_FOUND")

-- `approve_release` once the key is known to be new
unfoldable pub approve_new :
    Libs
    → Call
    → Db
    → Actor
    → String
    → String
    → String
    → ApproveReleaseRequest
    → String
    → Result HubError (Db × ReleaseApproval)
unfolding is_approvable insert_approval
approve_new libs call db actor project_id release_id key request request_body_hash = do
  r ← find_approvable db release_id project_id
  reject_if (not (str_eq r.request_hash request.request_hash)) (
      hub_error 409 "HUB_VERSION_CONFLICT"
        "Approval does not bind the release's immutable request hash.")
  insert_approval libs call db actor project_id release_id key
      (new_approval call actor release_id r.request_hash request.evidence) request_body_hash

-- `approve_release`
unfoldable pub approve_release_call :
    Libs
    → Call
    → Db
    → Actor
    → String
    → String
    → String
    → ApproveReleaseRequest
    → String
    → Result HubError (Db × ReleaseApproval)
unfolding approve_new or_replay
approve_release_call libs call db actor project_id release_id key request request_body_hash = do
  membership_role db.projects db.members actor project_id approve_release
  membership_role db.projects db.members actor project_id approve_release
  replay ←
      check_idempotency read_approval db actor project_id "releases.approve" key request_body_hash
  or_replay db replay
      (approve_new libs call db actor project_id release_id key request request_body_hash)

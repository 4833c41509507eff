-- ===== src/Hub/Releases.antt =====
-- The release handlers of hub.rs. As for leases, `ok` carries the committed database, and `err`
-- leaves it as it was. `request_hash` is `canonical_request_hash` of the request.
pub mod Approval
pub mod Action
pub mod Approved
pub mod Lifecycle
pub mod Reach
use neuman.Prelude.{
  ℕ, ◌+◌, String, Bool, true, false, not, ◌&&◌, ◌||◌, Option, some, none, List, [], ◌∷◌, any, find?,
  count_where, update_where, ltb, if◌then◌else◌, str_eq, Result, ok, err, ok_or, reject_if, ◌>>=◌,
  ◌>>◌,
}
use neuman.Hub.{HubError, Json, text, object, close, field, hub_error, not_found, invalid, internal}
use neuman.Hub.Access.{Actor, read, approve_release, execute_release, membership_role}
use neuman.Hub.Records.{ReleaseRecord, ReleaseApproval}
use neuman.Hub.Database.{Response, release, approval, Db, Call, Libs}
use neuman.Hub.Journal.{check_idempotency, or_replay, store_idempotency, append_evidence}
use neuman.Hub.Validation.{validate_name, validate_hash_label}

-- `struct CreateReleaseRequest`
pub record CreateReleaseRequest : Type 0 where
  pub bundle_hash : String
  pub environment : String
  pub target : Json
  pub evidence : Json

-- `struct ApproveReleaseRequest`
pub record ApproveReleaseRequest : Type 0 where
  pub request_hash : String
  pub evidence : Json

-- `struct ReleaseActionRequest`
pub record ReleaseActionRequest : Type 0 where
  pub expected_request_hash : String
  pub evidence : Json

abbrev pub read_release : Response → Option ReleaseRecord
read_release (release r) = some r
read_release _ = none

abbrev pub read_approval : Response → Option ReleaseApproval
read_approval (approval a) = some a
read_approval _ = none

-- The primary key, and `WHERE id=?1 AND project_id=?2`
unfoldable pub has_id : String → ReleaseRecord → Bool
has_id release_id r = str_eq r.id release_id

unfoldable pub is_release : String → String → ReleaseRecord → Bool
unfolding has_id
is_release release_id project_id r = has_id release_id r && str_eq r.project_id project_id

-- The record that `create_release` builds
unfoldable pub new_release : Call → Actor → String → CreateReleaseRequest → String → ReleaseRecord
new_release call actor project_id request immutable_hash = record {
  id = call.new_id 0;
  project_id = project_id;
  bundle_hash = request.bundle_hash;
  environment = request.environment;
  target = request.target;
  evidence = request.evidence;
  request_hash = immutable_hash;
  state = "draft";
  created_by = actor.principal_id;
  created_at_ms = call.now;
  updated_at_ms = call.now;
}

-- `create_release` once the key is known to be new
unfoldable pub create_new :
    Libs
    → Call
    → Db
    → Actor
    → String
    → String
    → CreateReleaseRequest
    → String
    → Result HubError (Db × ReleaseRecord)
unfolding new_release has_id
create_new libs call db actor project_id key request immutable_hash = do
  let r = new_release call actor project_id request immutable_hash
  reject_if (any (has_id r.id) db.releases) internal
  let db1 =
      append_evidence libs call (record db { releases = r ∷ db.releases }) actor project_id
        "release.created" "release" r.id "release" "release.created"
        (object (
          field "releaseId" (text r.id) (
            field "requestHash" (text r.request_hash)
              (field "environment" (text r.environment) close))))
  db2 ← store_idempotency call db1 actor project_id "releases.create" key immutable_hash (release r)
  ok (db2, r)

-- `create_release`
unfoldable pub create_release :
    Libs
    → Call
    → Db
    → Actor
    → String
    → String
    → CreateReleaseRequest
    → String
    → Result HubError (Db × ReleaseRecord)
unfolding create_new or_replay
create_release libs call db actor project_id key request immutable_hash = do
  membership_role db.projects db.members actor project_id execute_release
  validate_hash_label request.bundle_hash "bundleHash"
  validate_name request.environment 1 64 "environment"
  membership_role db.projects db.members actor project_id execute_release
  replay ← check_idempotency read_release db actor project_id "releases.create" key immutable_hash
  or_replay db replay (create_new libs call db actor project_id key request immutable_hash)

-- `get_release`
unfoldable pub get_release : Db → Actor → String → String → Result HubError ReleaseRecord
unfolding is_release
get_release db actor project_id release_id = do
  membership_role db.projects db.members actor project_id read
  ok_or (find? (is_release release_id project_id) db.releases) (not_found "HUB_RELEASE_NOT_FOUND")

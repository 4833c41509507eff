-- ===== src/Hub/Releases/Action.antt =====
-- `release_action` of hub.rs: start, resume and rollback of a release.
use neuman.Prelude.{
  String, Bool, not, ◌&&◌, ◌||◌, List, [], ◌∷◌, any, find?, count_where, update_where, ltb,
  if◌then◌else◌, str_eq, Result, ok, err, ok_or, reject_if, ◌>>=◌, ◌>>◌, text_append,
}
use neuman.Hub.{HubError, Json, text, object, close, field, hub_error, not_found, invalid, internal}
use neuman.Hub.Access.{Actor, execute_release, membership_role}
use neuman.Hub.Records.{ReleaseRecord, ReleaseApproval}
use neuman.Hub.Database.{release, Db, Call, Libs}
use neuman.Hub.Journal.{check_idempotency, or_replay, store_idempotency, append_evidence}
use neuman.Hub.Releases.{ReleaseActionRequest, has_id, is_release, read_release}

-- `match action`: the states that the action requires, and the one that it leads to
unfoldable pub action_plan : String → Result HubError (List String × String)
action_plan action =
    if str_eq action "start"
    then ok ("approved" ∷ [], "running")
    else if str_eq action "resume"
    then ok ("failed" ∷ "rollback_required" ∷ [], "running")
    else if str_eq action "rollback"
    then ok ("running" ∷ "failed" ∷ "rollback_required" ∷ "succeeded" ∷ [], "rolled_back")
    else err (invalid "Unknown release action.")

-- `WHERE release_id=?1 AND request_hash=?2`
unfoldable pub approves : ReleaseRecord → ReleaseApproval → Bool
approves r a = str_eq a.release_id r.id && str_eq a.request_hash r.request_hash

-- `UPDATE releases SET state=?1,updated_at_ms=?2,evidence_json=?3`
unfoldable pub moved : Call → String → Json → ReleaseRecord → ReleaseRecord
moved call next_state evidence r = record r {
  state = next_state;
  updated_at_ms = call.now;
  evidence = evidence;
}

-- `format!("releases.{action}")`, `format!("release.{action}")`
abbrev pub route_of : String → String
route_of action = text_append "releases." action

abbrev pub find_release : Db → String → String → Result HubError ReleaseRecord
find_release db release_id project_id =
    ok_or (find? (is_release release_id project_id) db.releases) (not_found "HUB_RELEASE_NOT_FOUND")

-- The guards on the release that was found
unfoldable pub action_allowed :
    Db → String → List String → ReleaseActionRequest → ReleaseRecord → Result HubError (Unit {0})
unfolding approves
action_allowed db action required_states request r = do
  reject_if
      (not (str_eq r.request_hash request.expected_request_hash)
        || not (any (λ (s : String). str_eq s r.state) required_states))
      (hub_error 409 "HUB_VERSION_CONFLICT"
        "Release state or immutable request hash does not permit this action.")
  reject_if (str_eq action "start" && ltb (count_where (approves r) db.approvals) 1) (
      hub_error 412 "HUB_APPROVAL_REQUIRED"
        "Release start requires approval bound to the immutable request hash.")

-- The writes
unfoldable pub move_release :
    Libs
    → Call
    → Db
    → Actor
    → String
    → String
    → String
    → String
    → String
    → Json
    → String
    → String
    → Result HubError (Db × ReleaseRecord)
unfolding has_id moved
move_release libs call db actor project_id release_id action next_state key evidence request_hash
      request_body_hash =
    do
      let table = update_where (has_id release_id) (moved call next_state evidence) db.releases
      updated ← ok_or (find? (has_id release_id) table) internal
      let db1 =
          append_evidence libs call (record db { releases = table }) actor project_id
            (text_append "release." action) "release" release_id "release"
            (text_append "release." action)
            (object (
              field "releaseId" (text release_id)
                (field "state" (text next_state) (field "requestHash" (text request_hash) close))))
      db2 ←
          store_idempotency call db1 actor project_id (route_of action) key request_body_hash
            (release updated)
      ok (db2, updated)

-- `release_action` once the key is known to be new
unfoldable pub act_new :
    Libs
    → Call
    → Db
    → Actor
    → String
    → String
    → String
    → List String × String
    → String
    → ReleaseActionRequest
    → String
    → Result HubError (Db × ReleaseRecord)
unfolding action_allowed move_release
act_new libs call db actor project_id release_id action (required_states, next_state) key request
      request_body_hash =
    do
      r ← find_release db release_id project_id
      action_allowed db action required_states request r
      move_release libs call db actor project_id release_id action next_state key request.evidence
          r.request_hash request_body_hash

-- `release_action`
unfoldable pub release_action :
    Libs
    → Call
    → Db
    → Actor
    → String
    → String
    → String
    → String
    → ReleaseActionRequest
    → String
    → Result HubError (Db × ReleaseRecord)
unfolding action_plan act_new or_replay
release_action libs call db actor project_id release_id action key request request_body_hash = do
  membership_role db.projects db.members actor project_id execute_release
  plan ← action_plan action
  membership_role db.projects db.members actor project_id execute_release
  replay ←
      check_idempotency read_release db actor project_id (route_of action) key request_body_hash
  or_replay db replay
      (act_new libs call db actor project_id release_id action plan key request request_body_hash)

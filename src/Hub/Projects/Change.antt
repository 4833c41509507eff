-- ===== src/Hub/Projects/Change.antt =====
-- Renaming and archiving a project of hub.rs.
use neuman.Prelude.{
  ℕ, suc, String, Bool, true, false, not, ◌&&◌, ◌==◌, Option, some, none, count_where, update_where,
  str_eq, Result, ok, reject_if, ◌>>=◌, ◌>>◌,
}
use neuman.Hub.{HubError, hub_error, internal, text, number, object, field, close}
use neuman.Hub.Access.{ProjectRow, Actor, manage_members, membership_role}
use neuman.Hub.Database.{project, Db, Call, Libs}
use neuman.Hub.Journal.{check_idempotency, or_replay, store_idempotency, append_evidence}
use neuman.Hub.Validation.{validate_name}
use neuman.Hub.Proposals.Create.{trim_text}
use neuman.Hub.Projects.{PatchProjectRequest, find_project, read_project}

abbrev pub is_unarchived : Option ℕ → Bool
is_unarchived none = true
is_unarchived (some _) = false

-- `WHERE id=?3 AND version=?4 AND archived_at_ms IS NULL`
unfoldable pub is_current : String → ℕ → ProjectRow → Bool
is_current project_id version p =
    str_eq p.id project_id && p.version == version && is_unarchived p.archived_at_ms

unfoldable pub renamed : Call → String → ProjectRow → ProjectRow
renamed call name p = record p {
  name = trim_text name;
  version = suc p.version;
  updated_at_ms = call.now;
}

-- `patch_project` once the key is known to be new
unfoldable pub patch_new :
    Libs
    → Call
    → Db
    → Actor
    → String
    → String
    → PatchProjectRequest
    → String
    → Result HubError (Db × ProjectRow)
unfolding is_current renamed find_project
patch_new libs call db actor project_id key request request_hash = do
  let matches = is_current project_id request.expected_version
  reject_if (not (count_where matches db.projects == 1))
      (hub_error 409 "HUB_VERSION_CONFLICT" "Project version did not match.")
  let table = update_where matches (renamed call request.name) db.projects
  p ← find_project table project_id internal
  let db1 =
      append_evidence libs call (record db { projects = table }) actor project_id "project.updated"
        "project" project_id "project" "project.updated"
        (object (field "name" (text p.name) (field "version" (number p.version) close)))
  db2 ← store_idempotency call db1 actor project_id "projects.patch" key request_hash (project p)
  ok (db2, p)

-- `patch_project`
unfoldable pub patch_project :
    Libs
    → Call
    → Db
    → Actor
    → String
    → String
    → PatchProjectRequest
    → String
    → Result HubError (Db × ProjectRow)
unfolding patch_new or_replay
patch_project libs call db actor project_id key request request_hash = do
  membership_role db.projects db.members actor project_id manage_members
  validate_name request.name 1 120 "Project name"
  membership_role db.projects db.members actor project_id manage_members
  replay ← check_idempotency read_project db actor project_id "projects.patch" key request_hash
  or_replay db replay (patch_new libs call db actor project_id key request request_hash)

-- `WHERE id=?2 AND archived_at_ms IS NULL`
unfoldable pub is_live : String → ProjectRow → Bool
is_live project_id p = str_eq p.id project_id && is_unarchived p.archived_at_ms

unfoldable pub archived : Call → ProjectRow → ProjectRow
archived call p = record p {
  archived_at_ms = some call.now;
  version = suc p.version;
  updated_at_ms = call.now;
}

-- `archive_project` once the key is known to be new
unfoldable pub archive_new :
    Libs → Call → Db → Actor → String → String → String → Result HubError (Db × ProjectRow)
unfolding is_live archived find_project
archive_new libs call db actor project_id key request_hash = do
  reject_if (not (count_where (is_live project_id) db.projects == 1))
      (hub_error 409 "HUB_VERSION_CONFLICT" "Project is already archived.")
  let table = update_where (is_live project_id) (archived call) db.projects
  p ← find_project table project_id internal
  let db1 =
      append_evidence libs call (record db { projects = table }) actor project_id "project.archived"
        "project" project_id "project" "project.archived"
        (object (field "archivedAtMs" (number call.now) close))
  db2 ← store_idempotency call db1 actor project_id "projects.archive" key request_hash (project p)
  ok (db2, p)

-- `archive_project`
unfoldable pub archive_project :
    Libs → Call → Db → Actor → String → String → String → Result HubError (Db × ProjectRow)
unfolding archive_new or_replay
archive_project libs call db actor project_id key request_hash = do
  membership_role db.projects db.members actor project_id manage_members
  membership_role db.projects db.members actor project_id manage_members
  replay ← check_idempotency read_project db actor project_id "projects.archive" key request_hash
  or_replay db replay (archive_new libs call db actor project_id key request_hash)

-- ===== src/Hub/Projects.antt =====
-- The projects of hub.rs: their creation and reading; the members, renaming and archiving are in
-- children. `request_hash` is `canonical_request_hash` of the request. Each project has one channel,
-- whose name `accepted` is left out.
pub mod Members
pub mod Change
pub mod Admins
pub mod Lifecycle
use neuman.Prelude.{
  ℕ, suc, String, Bool, true, false, not, ◌&&◌, ◌||◌, ◌==◌, Option, some, none, List, [], ◌∷◌,
  Bytes, codes, any, all, find?, filter_by, count_where, update_where, get_or, length, leb,
  is_ascii_lowercase, str_eq, reverse, Result, ok, err, ok_or, reject_if, ◌>>=◌, ◌>>◌,
}
use neuman.Hub.{
  HubError, hub_error, invalid, internal, not_found, Json, text, number, object, field, close,
}
use neuman.Hub.Access.{
  ProjectRow, MembershipRow, Actor, Permission, read, manage_members, membership_role,
}
use neuman.Hub.Records.{Channel}
use neuman.Hub.Database.{Response, project, Db, Call, Libs}
use neuman.Hub.Journal.{check_idempotency, or_replay, store_idempotency, append_evidence}
use neuman.Hub.Validation.{byte_len, validate_name}
use neuman.Hub.Proposals.Create.{trim_text}

-- `struct CreateProjectRequest`
pub record CreateProjectRequest : Type 0 where
  pub name : String
  pub slug : String

-- `struct PatchProjectRequest`
pub record PatchProjectRequest : Type 0 where
  pub name : String
  pub expected_version : ℕ

abbrev pub read_project : Response → Option ProjectRow
read_project (project p) = some p
read_project _ = none

abbrev pub is_slug_byte : ℕ → Bool
is_slug_byte b = is_ascii_lowercase b || (leb b'0' b && leb b b'9') || b == b'-'

-- `validate_slug`
unfoldable pub validate_slug : String → Result HubError (Unit {0})
validate_slug value =
    reject_if
      (not (leb 3 (byte_len value) && leb (byte_len value) 64)
        || get_or (codes value) 0 0 == b'-'
        || get_or (reverse (codes value)) 0 0 == b'-'
        || not (all is_slug_byte (codes value)))
      (invalid "Project slug must be 3-64 lowercase letters, digits, or interior hyphens.")

abbrev pub new_project : Call → CreateProjectRequest → ProjectRow
new_project call request = record {
  id = call.new_id 0;
  name = trim_text request.name;
  slug = request.slug;
  default_channel_id = call.new_id 1;
  archived_at_ms = none;
  version = 1;
  created_at_ms = call.now;
  updated_at_ms = call.now;
}

-- The unique columns of `projects`
unfoldable pub same_project : ProjectRow → ProjectRow → Bool
same_project p q =
    str_eq q.id p.id || str_eq q.slug p.slug || str_eq q.default_channel_id p.default_channel_id

abbrev pub new_channel : ProjectRow → Channel
new_channel p = record {
  id = p.default_channel_id;
  project_id = p.id;
  head_revision_id = none;
  version = 1;
}

abbrev pub new_member : ℕ → String → String → String → MembershipRow
new_member now project_id principal_id role = record {
  project_id = project_id;
  principal_id = principal_id;
  role = role;
  version = 1;
  created_at_ms = now;
  updated_at_ms = now;
}

-- `WHERE project_id=?1 AND principal_id=?2`
unfoldable pub is_member : String → String → MembershipRow → Bool
is_member project_id principal_id m =
    str_eq m.project_id project_id && str_eq m.principal_id principal_id

-- `create_project` once the key is known to be new
unfoldable pub create_new :
    Libs
    → Call
    → Db
    → Actor
    → String
    → CreateProjectRequest
    → String
    → Result HubError (Db × ProjectRow)
unfolding same_project is_member
create_new libs call db actor key request request_hash = do
  let p = new_project call request
  reject_if (any (same_project p) db.projects)
      (hub_error 409 "HUB_VERSION_CONFLICT" "A project already uses this slug.")
  reject_if (any (λ (c : Channel). str_eq c.id p.default_channel_id) db.channels) internal
  reject_if (any (is_member p.id actor.principal_id) db.members) internal
  let db1 =
      append_evidence libs call
        (record db {
          projects = p ∷ db.projects;
          channels = new_channel p ∷ db.channels;
          members = new_member call.now p.id actor.principal_id "admin" ∷ db.members;
        })
        actor p.id "project.created" "project" p.id "project" "project.created"
        (object (field "name" (text p.name) (field "slug" (text p.slug) close)))
  db2 ← store_idempotency call db1 actor "_global" "projects.create" key request_hash (project p)
  ok (db2, p)

-- `create_project`
unfoldable pub create_project :
    Libs
    → Call
    → Db
    → Actor
    → String
    → CreateProjectRequest
    → String
    → Result HubError (Db × ProjectRow)
unfolding validate_slug create_new or_replay
create_project libs call db actor key request request_hash = do
  validate_name request.name 1 120 "Project name"
  validate_slug request.slug
  replay ← check_idempotency read_project db actor "_global" "projects.create" key request_hash
  or_replay db replay (create_new libs call db actor key request request_hash)

-- The row that the handlers read back, and that `get_project` reads
unfoldable pub find_project : List ProjectRow → String → HubError → Result HubError ProjectRow
find_project table project_id e = ok_or (find? (λ (p : ProjectRow). str_eq p.id project_id) table) e

-- `get_project`
unfoldable pub get_project : Db → Actor → String → Result HubError ProjectRow
unfolding find_project
get_project db actor project_id = do
  membership_role db.projects db.members actor project_id read
  find_project db.projects project_id (not_found "HUB_PROJECT_NOT_FOUND")

-- `list_projects`, up to the order of the rows and the limit of 201
unfoldable pub list_projects : Db → Actor → List ProjectRow
unfolding is_member
list_projects db actor =
    filter_by (λ (p : ProjectRow). any (is_member p.id actor.principal_id) db.members) db.projects

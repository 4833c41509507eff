-- ===== src/Hub/Projects/Members.antt =====
-- The members of a project of hub.rs: list, add or change, and remove.
use neuman.Prelude.{
  ℕ, suc, String, Bool, not, ◌&&◌, Option, some, none, List, [], ◌∷◌, any, find?, filter_by,
  count_where, update_where, leb, str_eq, if◌then◌else◌, Result, ok, ok_or, reject_if, ◌>>=◌, ◌>>◌,
}
use neuman.Hub.{
  HubError, hub_error, internal, not_found, Json, boolean, text, number, object, field, close,
}
use neuman.Hub.Access.{
  MembershipRow, Actor, Role, parse, as_str, read, manage_members, membership_role,
}
use neuman.Hub.Records.{Membership}
use neuman.Hub.Database.{Response, membership, value, PrincipalRow, Db, Call, Libs}
use neuman.Hub.Journal.{check_idempotency, or_replay, store_idempotency, append_evidence}
use neuman.Hub.Leases.{quota_error}
use neuman.Hub.Projects.{is_member, new_member}

-- `struct UpsertMemberRequest`
pub record UpsertMemberRequest : Type 0 where
  pub principal_id : String
  pub role : Role

abbrev pub read_membership : Response → Option Membership
read_membership (membership m) = some m
read_membership _ = none

abbrev pub read_value : Response → Option Json
read_value (value v) = some v
read_value _ = none

-- `SELECT display_name FROM principals`
unfoldable pub display_name_of : Db → String → Option PrincipalRow
display_name_of db principal_id =
    find? (λ (p : PrincipalRow). str_eq p.id principal_id) db.principals

-- The rows of `list_members`, which leaves out memberships without a principal, in table order
unfoldable pub member_rows : Db → String → List MembershipRow → Result HubError (List Membership)
unfolding display_name_of
member_rows db project_id [] = ok []
member_rows db project_id (m ∷ ms) = elim (str_eq m.project_id project_id) [
  | Bool.false ↦ member_rows db project_id ms
  | Bool.true ↦ elim (display_name_of db m.principal_id) [
    | none ↦ member_rows db project_id ms
    | some p ↦ do
      role ← parse m.role
      rest ← member_rows db project_id ms
      ok (
          record {
            project_id = m.project_id;
            principal_id = m.principal_id;
            display_name = p.display_name;
            role = role;
            version = m.version;
          }
          ∷ rest)
  ]
]

-- `list_members`, up to the order of the rows
unfoldable pub list_members : Db → Actor → String → Result HubError (List Membership)
unfolding member_rows
list_members db actor project_id = do
  membership_role db.projects db.members actor project_id read
  member_rows db project_id db.members

unfoldable pub promoted : Call → Role → MembershipRow → MembershipRow
promoted call role m = record m {
  role = as_str role;
  version = suc m.version;
  updated_at_ms = call.now;
}

-- `INSERT … ON CONFLICT(project_id,principal_id) DO UPDATE`
unfoldable pub upserted :
    Call → String → UpsertMemberRequest → List MembershipRow → List MembershipRow
unfolding promoted
upserted call project_id request members =
    if any (is_member project_id request.principal_id) members
    then update_where (is_member project_id request.principal_id) (promoted call request.role)
        members
    else new_member call.now project_id request.principal_id (as_str request.role) ∷ members

abbrev pub members_of : String → List MembershipRow → ℕ
members_of project_id members =
    count_where (λ (m : MembershipRow). str_eq m.project_id project_id) members

abbrev pub membership_json : Membership → Json
membership_json m = object (
    field "projectId" (text m.project_id) (
      field "principalId" (text m.principal_id) (
        field "displayName" (text m.display_name)
          (field "role" (text (as_str m.role)) (field "version" (number m.version) close)))))

-- `upsert_member` once the key is known to be new; `quota` is the configured `max_members`
unfoldable pub upsert_new :
    Libs
    → ℕ
    → Call
    → Db
    → Actor
    → String
    → String
    → UpsertMemberRequest
    → String
    → Result HubError (Db × Membership)
unfolding display_name_of upserted is_member
upsert_new libs quota call db actor project_id key request request_hash = do
  let member_count = members_of project_id db.members
  reject_if
      (not (any (is_member project_id request.principal_id) db.members) && leb quota member_count)
      (quota_error "members" member_count quota)
  p ← ok_or (display_name_of db request.principal_id) (not_found "HUB_PRINCIPAL_NOT_FOUND")
  let table = upserted call project_id request db.members
  row ← ok_or (find? (is_member project_id request.principal_id) table) internal
  let m : Membership = record {
    project_id = project_id;
    principal_id = request.principal_id;
    display_name = p.display_name;
    role = request.role;
    version = row.version;
  }
  let db1 =
      append_evidence libs call (record db { members = table }) actor project_id
        "membership.upserted" "membership" request.principal_id "membership" "membership.changed"
        (membership_json m)
  db2 ← store_idempotency call db1 actor project_id "members.upsert" key request_hash (membership m)
  ok (db2, m)

-- `upsert_member`
unfoldable pub upsert_member :
    Libs
    → ℕ
    → Call
    → Db
    → Actor
    → String
    → String
    → UpsertMemberRequest
    → String
    → Result HubError (Db × Membership)
unfolding upsert_new or_replay
upsert_member libs quota call db actor project_id key request request_hash = do
  membership_role db.projects db.members actor project_id manage_members
  membership_role db.projects db.members actor project_id manage_members
  replay ← check_idempotency read_membership db actor project_id "members.upsert" key request_hash
  or_replay db replay (upsert_new libs quota call db actor project_id key request request_hash)

-- `WHERE project_id=?1 AND role='admin'`
unfoldable pub is_project_admin : String → MembershipRow → Bool
is_project_admin project_id m = str_eq m.project_id project_id && str_eq m.role "admin"

abbrev pub removal : String → String → Json
removal project_id principal_id = object (
    field "projectId" (text project_id)
      (field "principalId" (text principal_id) (field "removed" (boolean Bool.true) close)))

-- `remove_member` once the key is known to be new
unfoldable pub remove_new :
    Libs → Call → Db → Actor → String → String → String → String → Result HubError (Db × Json)
unfolding is_member is_project_admin
remove_new libs call db actor project_id principal_id key request_hash = do
  row ←
      ok_or (find? (is_member project_id principal_id) db.members)
        (not_found "HUB_MEMBERSHIP_NOT_FOUND")
  reject_if
      (str_eq row.role "admin" && leb (count_where (is_project_admin project_id) db.members) 1)
      (hub_error 409 "HUB_LAST_ADMIN" "A project must retain at least one administrator.")
  let result = removal project_id principal_id
  let db1 =
      append_evidence libs call
        (record db {
          members =
              filter_by (λ (m : MembershipRow). not (is_member project_id principal_id m))
                db.members;
        })
        actor project_id "membership.removed" "membership" principal_id "membership"
        "membership.removed" result
  db2 ← store_idempotency call db1 actor project_id "members.remove" key request_hash (value result)
  ok (db2, result)

-- `remove_member`
unfoldable pub remove_member :
    Libs → Call → Db → Actor → String → String → String → String → Result HubError (Db × Json)
unfolding remove_new or_replay
remove_member libs call db actor project_id principal_id key request_hash = do
  membership_role db.projects db.members actor project_id manage_members
  membership_role db.projects db.members actor project_id manage_members
  replay ← check_idempotency read_value db actor project_id "members.remove" key request_hash
  or_replay db replay (remove_new libs call db actor project_id principal_id key request_hash)

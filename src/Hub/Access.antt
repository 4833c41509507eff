-- ===== src/Hub/Access.antt =====
-- The roles and permissions of hub.rs, and the membership test of the handlers.
pub mod Matrix
use neuman.Prelude.{
  ℕ, String, Bool, true, false, ◌&&◌, ◌||◌, Option, some, none, List, find?, if◌then◌else◌, str_eq,
  Result, ok, err, ok_or, reject_if, ◌>>=◌, ◌>>◌, not,
}
use neuman.Hub.{HubError, forbidden, invalid}

-- `enum Role`
pub data Role : Type 0 where
  viewer artist developer approver release_manager admin : Role

-- `enum Permission`
pub data Permission : Type 0 where
  read propose_art accept_art build approve_release execute_release manage_members : Permission

-- `Role::parse`: the snake_case names of serde
unfoldable pub parse : String → Result HubError Role
parse value =
    if str_eq value "viewer"
    then ok viewer
    else if str_eq value "artist"
    then ok artist
    else if str_eq value "developer"
    then ok developer
    else if str_eq value "approver"
    then ok approver
    else if str_eq value "release_manager"
    then ok release_manager
    else if str_eq value "admin"
    then ok admin
    else err (invalid "Unknown project role.")

-- `Role::as_str`
unfoldable pub as_str : Role → String
as_str viewer = "viewer"
as_str artist = "artist"
as_str developer = "developer"
as_str approver = "approver"
as_str release_manager = "release_manager"
as_str admin = "admin"

-- `Role::allows`, permission by permission
unfoldable pub allows : Role → Permission → Bool
allows _ read = true
allows artist propose_art = true
allows developer propose_art = true
allows admin propose_art = true
allows _ propose_art = false
allows approver accept_art = true
allows admin accept_art = true
allows _ accept_art = false
allows developer build = true
allows admin build = true
allows _ build = false
allows approver approve_release = true
allows admin approve_release = true
allows _ approve_release = false
allows release_manager execute_release = true
allows admin execute_release = true
allows _ execute_release = false
allows admin manage_members = true
allows _ manage_members = false

-- `role == Role::Admin`
unfoldable pub is_admin : Role → Bool
is_admin admin = true
is_admin _ = false

-- `struct Project`, a row of `projects`
pub record ProjectRow : Type 0 where
  pub id : String
  pub name : String
  pub slug : String
  pub default_channel_id : String
  pub archived_at_ms : Option ℕ
  pub version : ℕ
  pub created_at_ms : ℕ
  pub updated_at_ms : ℕ

-- A row of `project_memberships`
pub record MembershipRow : Type 0 where
  pub project_id : String
  pub principal_id : String
  pub role : String
  pub version : ℕ
  pub created_at_ms : ℕ
  pub updated_at_ms : ℕ

-- `struct Actor`: what the handlers read of it
pub record Actor : Type 0 where
  pub principal_id : String
  pub session_id : String

abbrev is_null : Option ℕ → Bool
is_null none = true
is_null (some _) = false

-- The join of the two tables in `membership_role`, for one membership
unfoldable pub is_open_project : List ProjectRow → String → Bool
is_open_project projects project_id =
    elim (find? (λ (p : ProjectRow). str_eq p.id project_id) projects) [
      | none ↦ false
      | some p ↦ is_null p.archived_at_ms
    ]

-- `membership_role`, which `authorize_project` runs in a transaction of its own
unfoldable pub membership_role :
    List ProjectRow → List MembershipRow → Actor → String → Permission → Result HubError Role
unfolding is_open_project parse
membership_role projects members actor project_id permission = do
  row ←
      ok_or
        (find?
          (λ (m : MembershipRow).
            str_eq m.project_id project_id
            && str_eq m.principal_id actor.principal_id
            && is_open_project projects m.project_id)
          members)
        forbidden
  role ← parse row.role
  reject_if (not (allows role permission)) forbidden
  ok role

-- ===== src/Hub/Projects/Lifecycle.antt =====
-- The creation, renaming and archiving of a project of hub.rs, and what they leave.
use mathlib.Core.Path.{subst}
use neuman.Prelude.{
  ◌>>=◌, ◌>>◌, ℕ, ◌≡◌, refl, sym, ap, ◌∙◌, String, Bool, true, false, not, ◌&&◌, ◌==◌, Option, some,
  none, List, [], ◌∷◌, any, find?, count_where, update_where, str_eq, str_eq_iff, ok, err,
  >>=-eq-ok, reject_if-then-eq-ok, ok-injective, All, All-update_where, find?-All, find?-eq-some,
  ◌⊎◌, Bool-cases, inl, inr, arith,
}
use neuman.Hub.{hub_error, internal, forbidden}
use neuman.Hub.Access.{
  ProjectRow, MembershipRow, Actor, admin, Permission, read, propose_art, accept_art, build,
  approve_release, execute_release, manage_members, allows, parse, is_open_project, membership_role,
}
use neuman.Hub.Records.{Channel}
use neuman.Hub.Database.{Db, Call, Libs}
use neuman.Hub.Journal.{append_evidence, store_idempotency}
use neuman.Hub.Validation.{validate_name}
use neuman.Hub.Journal.{check_idempotency, or_replay}
use neuman.Hub.Projects.{read_project}
use neuman.Hub.Projects.Change.{patch_project}
use neuman.Hub.Journal.Answers.{Answer, after_checks}
use neuman.Hub.Journal.Replay.{store_idempotency-eq-ok}
use neuman.Hub.Leases.Acquire.{find_channel}
use neuman.Hub.Projects.{
  CreateProjectRequest, PatchProjectRequest, new_project, same_project, new_channel, new_member,
  is_member, create_new, find_project,
}
use neuman.Hub.Projects.Change.{
  is_unarchived, is_current, renamed, patch_new, is_live, archived, archive_new, archive_project,
}

admin_allows : (perm : Permission) → allows admin perm ≡ true
unfolding allows
admin_allows read = refl
admin_allows propose_art = refl
admin_allows accept_art = refl
admin_allows build = refl
admin_allows approve_release = refl
admin_allows execute_release = refl
admin_allows manage_members = refl

is_open_project-front :
    (p : ProjectRow) (ps : List ProjectRow)
    → p.archived_at_ms ≡ none
    → is_open_project (p ∷ ps) p.id ≡ true
unfolding is_open_project
is_open_project-front p ps e = rw ((str_eq_iff p.id p.id).1 refl, is_open_project) (rw e refl)

parse-admin : parse "admin" ≡ ok admin
unfolding parse
parse-admin = refl

founder_role :
    (p : ProjectRow) (ps : List ProjectRow) (ms : List MembershipRow) (actor : Actor) (now : ℕ)
    (perm : Permission)
    → p.archived_at_ms ≡ none
    → membership_role (p ∷ ps) (new_member now p.id actor.principal_id "admin" ∷ ms) actor p.id perm
      ≡ ok admin
unfolding membership_role
founder_role p ps ms actor now perm e = rw ((str_eq_iff p.id p.id).1 refl) (
    rw ((str_eq_iff actor.principal_id actor.principal_id).1 refl)
      (rw (is_open_project-front p ps e) (rw parse-admin (rw (admin_allows perm) refl))))

find_channel-front :
    (db : Db) (p : ProjectRow) (cs : List Channel)
    → db.channels ≡ new_channel p ∷ cs
    → find_channel db p.default_channel_id p.id ≡ ok (new_channel p)
unfolding find_channel
find_channel-front db p cs e = rw e (
    rw ((str_eq_iff p.default_channel_id p.default_channel_id).1 refl)
      (rw ((str_eq_iff p.id p.id).1 refl) refl))

-- Once `create_project` has committed under a new key, its caller is an administrator of the project for
-- every permission, and the project has its channel, at version 1 and without a head.
pub created_project :
    (libs : Libs) (call : Call) (db db' : Db) (actor : Actor) (key : String)
    (request : CreateProjectRequest) (hash : String) (p : ProjectRow) (perm : Permission)
    → create_new libs call db actor key request hash ≡ ok (db', p)
    → (membership_role db'.projects db'.members actor p.id perm ≡ ok admin)
      × (find_channel db' p.default_channel_id p.id ≡ ok (new_channel p))
unfolding create_new append_evidence
created_project libs call db db' actor key request hash p perm h =
    let q = new_project call request in
    let (_, h1) = reject_if-then-eq-ok (any (same_project q) db.projects) _ _ h in
    let (_, h2) =
      reject_if-then-eq-ok (any (λ (c : Channel). str_eq c.id q.default_channel_id) db.channels)
        internal _ h1 in
    let (_, h3) =
      reject_if-then-eq-ok (any (is_member q.id actor.principal_id) db.members) internal _ h2 in
    let (db2, stored, h4) = >>=-eq-ok (store_idempotency _ _ _ _ _ _ _ _) _ h3 in
    let e = store_idempotency-eq-ok _ _ _ _ _ _ _ _ stored in
    let same : p ≡ q = ap (λ (x : Db × ProjectRow). x.1) (sym (ok-injective h4)) in
    let after = ap (λ (x : Db × ProjectRow). x.0) (sym (ok-injective h4)) ∙ e in
    rw same (
      rw (ap (λ (d : Db). d.projects) after, ap (λ (d : Db). d.members) after)
          (founder_role q db.projects db.members actor call.now perm refl),
      find_channel-front db' q db.channels (ap (λ (d : Db). d.channels) after),
    )

-- Every row of the project is archived.
abbrev IsShut : String → ProjectRow → Type 0
IsShut id p = str_eq p.id id ≡ true → is_unarchived p.archived_at_ms ≡ false

anything : (ps : List ProjectRow) → All (λ _. Unit {0}) ps
anything [] = tt
anything (p ∷ ps) = (tt, anything ps)

archived-IsShut :
    (call : Call) (id : String) (ps : List ProjectRow)
    → All (IsShut id) (update_where (is_live id) (archived call) ps)
unfolding is_live archived
archived-IsShut call id ps =
    All-update_where (λ _. Unit {0}) (IsShut id) (is_live id) (archived call) (λ _ _ _ _. refl)
      (λ p _ miss same. ground (arith, miss, same)) ps (anything ps)

is_open_project-archived :
    (call : Call) (id : String) (ps : List ProjectRow)
    → is_open_project (update_where (is_live id) (archived call) ps) id ≡ false
unfolding is_open_project
is_open_project-archived call id ps = pick (find? its table) refl
  where
    table : List ProjectRow
    table = update_where (is_live id) (archived call) ps

    its : ProjectRow → Bool
    its p = str_eq p.id id

    pick : (o : Option ProjectRow) → find? its table ≡ o → is_open_project table id ≡ false
    pick none missing = rw (missing, is_open_project) refl
    pick (some p) hit =
        rw (hit, is_open_project)
          (find?-All (IsShut id) its table (archived-IsShut call id ps) hit
            (find?-eq-some its table hit))

-- Where no row passes, the query finds nothing.
find?-none :
    (q : MembershipRow → Bool) (ms : List MembershipRow)
    → ((m : MembershipRow) → q m ≡ false)
    → find? q ms ≡ none
find?-none q [] h = refl
find?-none q (m ∷ ms) h = rw (h m) (find?-none q ms h)

shut_out :
    (ps : List ProjectRow) (ms : List MembershipRow) (who : Actor) (id : String) (perm : Permission)
    → is_open_project ps id ≡ false
    → membership_role ps ms who id perm ≡ err forbidden
unfolding membership_role
shut_out ps ms who id perm shut =
    rw
      (find?-none
        (λ (m : MembershipRow).
          str_eq m.project_id id
          && str_eq m.principal_id who.principal_id
          && is_open_project ps m.project_id)
        ms (λ m. row m (Bool-cases (str_eq m.project_id id))))
      refl
  where
    row :
        (m : MembershipRow)
        → (str_eq m.project_id id ≡ true) ⊎ (str_eq m.project_id id ≡ false)
        → (str_eq m.project_id id
            && str_eq m.principal_id who.principal_id
            && is_open_project ps m.project_id)
          ≡ false
    row m (inl same) =
        let closed = ap (is_open_project ps) ((str_eq_iff m.project_id id).0 same) ∙ shut in
        ground (arith, closed)
    row m (inr other) = rw other refl

-- Once `archive_project` has committed under a new key, nobody has any permission on the project any
-- more; so that the same call again, or any other archiving of the project, under whatever key, is
-- forbidden and replays nothing.
pub archived_project :
    (libs libs' : Libs) (call call' : Call) (db db' : Db) (actor who : Actor)
    (project_id key key' hash hash' : String) (p : ProjectRow) (perm : Permission)
    → archive_new libs call db actor project_id key hash ≡ ok (db', p)
    → (membership_role db'.projects db'.members who project_id perm ≡ err forbidden)
      × (archive_project libs' call' db' who project_id key' hash' ≡ err forbidden)
unfolding archive_new archive_project append_evidence
archived_project libs libs' call call' db db' actor who id key key' hash hash' p perm h =
    let table = update_where (is_live id) (archived call) db.projects in
    let (_, h1) = reject_if-then-eq-ok (not (count_where (is_live id) db.projects == 1)) _ _ h in
    let (_, _, h2) = >>=-eq-ok (find_project table id internal) _ h1 in
    let (db2, stored, h3) = >>=-eq-ok (store_idempotency _ _ _ _ _ _ _ _) _ h2 in
    let e = store_idempotency-eq-ok _ _ _ _ _ _ _ _ stored in
    let projects : db'.projects ≡ table =
      ap (λ (x : Db × ProjectRow). x.0.projects) (sym (ok-injective h3))
      ∙ ap (λ (d : Db). d.projects) e in
    let shut =
      ap (λ ps. is_open_project ps id) projects ∙ is_open_project-archived call id db.projects in
    (
      shut_out db'.projects db'.members who id perm shut,
      rw (shut_out db'.projects db'.members who id manage_members shut) refl,
    )

patched :
    (call : Call) (id name : String) (v : ℕ) (ps : List ProjectRow)
    → count_where (is_current id v) (update_where (is_current id v) (renamed call name) ps) ≡ 0
unfolding is_current renamed
patched call id name v [] = refl
patched call id name v (p ∷ ps) = elim (Bool-cases (is_current id v p)) [
  | inl hit ↦ ground (arith, hit, patched call id name v ps)
  | inr miss ↦ ground (arith, miss, patched call id name v ps)
]

-- The second rename fails once the key is known to be new.
patch_new-again :
    (libs libs' : Libs) (call call' : Call) (db db' : Db) (actor actor' : Actor)
    (project_id key key' hash hash' : String) (request request' : PatchProjectRequest)
    (p : ProjectRow)
    → patch_new libs call db actor project_id key request hash ≡ ok (db', p)
    → request'.expected_version ≡ request.expected_version
    → patch_new libs' call' db' actor' project_id key' request' hash'
      ≡ err (hub_error 409 "HUB_VERSION_CONFLICT" "Project version did not match.")
unfolding patch_new append_evidence
patch_new-again libs libs' call call' db db' actor actor' id key key' hash hash' request request' p
      h same =
    let v = request.expected_version in
    let table = update_where (is_current id v) (renamed call request.name) db.projects in
    let (_, h1) =
      reject_if-then-eq-ok (not (count_where (is_current id v) db.projects == 1)) _ _ h in
    let (_, _, h2) = >>=-eq-ok (find_project table id internal) _ h1 in
    let (db2, stored, h3) = >>=-eq-ok (store_idempotency _ _ _ _ _ _ _ _) _ h2 in
    let e = store_idempotency-eq-ok _ _ _ _ _ _ _ _ stored in
    let projects : db'.projects ≡ table =
      ap (λ (x : Db × ProjectRow). x.0.projects) (sym (ok-injective h3))
      ∙ ap (λ (d : Db). d.projects) e in
    let none_left : count_where (is_current id request'.expected_version) db'.projects ≡ 0 =
      ap (λ w. count_where (is_current id w) db'.projects) same
      ∙ ap (count_where (is_current id v)) projects
      ∙ patched call id request.name v db.projects in
    rw none_left refl

-- Two renames that expect one version exclude one another. Once the first has committed under a new
-- key, the second, by whomever, under whatever key and to whatever name, commits nothing. A caller who
-- may not manage members, or a name that is refused, is turned away; a key that the caller has used
-- gives the error of the look-up, or the stored response; and else the rename fails with the version
-- conflict.
pub patch_once :
    (libs libs' : Libs) (call call' : Call) (db db' : Db) (actor actor' : Actor)
    (project_id key key' hash hash' : String) (request request' : PatchProjectRequest)
    (p : ProjectRow)
    → patch_new libs call db actor project_id key request hash ≡ ok (db', p)
    → request'.expected_version ≡ request.expected_version
    → Answer db'
        (membership_role db'.projects db'.members actor' project_id manage_members
          >> validate_name request'.name 1 120 "Project name")
        (check_idempotency read_project db' actor' project_id "projects.patch" key' hash')
        (hub_error 409 "HUB_VERSION_CONFLICT" "Project version did not match.")
        (patch_project libs' call' db' actor' project_id key' request' hash')
unfolding patch_project
patch_once libs libs' call call' db db' actor actor' id key key' hash hash' request request' p h
      same =
    let role = membership_role db'.projects db'.members actor' id manage_members in
    let named = validate_name request'.name 1 120 "Project name" in
    let stored = check_idempotency read_project db' actor' id "projects.patch" key' hash' in
    let error = hub_error 409 "HUB_VERSION_CONFLICT" "Project version did not match." in
    subst
      (λ rest.
        Answer db' (role >> named) stored error
          (do role; named; role; replay ← stored; or_replay db' replay rest))
      (sym (
        patch_new-again libs libs' call call' db db' actor actor' id key key' hash hash' request
          request' p h same))
      (after_checks db' error role named stored)

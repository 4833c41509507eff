-- ===== src/Hub/Examples/ProjectRuns.antt =====
-- Runs of the project and member handlers of hub.rs.
use neuman.Prelude.{◌≡◌, refl, arith, ok, err, count_where, ◌≤◌, All}
use neuman.Hub.{HubError, Json, hub_error, forbidden}
use neuman.Hub.Access.{ProjectRow, artist, admin, execute_release, read, membership_role}
use neuman.Hub.Records.{Membership}
use neuman.Hub.Database.{Db}
use neuman.Hub.Leases.Acquire.{find_channel}
use neuman.Prelude.{◌>>◌}
use neuman.Hub.Access.{manage_members}
use neuman.Hub.Validation.{validate_name}
use neuman.Hub.Journal.{check_idempotency}
use neuman.Hub.Journal.Answers.{Answer}
use neuman.Hub.Projects.{read_project}
use neuman.Hub.Projects.Change.{patch_project}
use neuman.Hub.Examples.{value_or, libs, call_at, ana, ben, start_db}
use neuman.Hub.Projects.{
  CreateProjectRequest, PatchProjectRequest, new_project, new_channel, create_new, validate_slug,
}
use neuman.Hub.Projects.Change.{patch_new, archive_new, archive_project}
use neuman.Hub.Projects.Members.{
  UpsertMemberRequest, upsert_new, remove_new, removal, is_project_admin,
}
use neuman.Hub.Projects.Lifecycle.{created_project, archived_project, patch_once}
use neuman.Hub.Projects.Admins.{IsTheirs, remaining_admin, demoted_last_admin}

abbrev plaza : CreateProjectRequest
plaza = record { name = " Plaza "; slug = "plaza-2" }

slug-plaza : validate_slug plaza.slug ≡ ok tt
unfolding validate_slug
slug-plaza = refl

abbrev created : Db × ProjectRow
created =
    value_or (create_new libs (call_at 2000 "a") start_db ben "k1" plaza "h1")
      (start_db, new_project (call_at 0 "") plaza)

created-ok : create_new libs (call_at 2000 "a") start_db ben "k1" plaza "h1" ≡ ok created
unfolding create_new neuman.Hub.Projects.same_project neuman.Hub.Projects.is_member
    neuman.Hub.Journal.append_evidence neuman.Hub.Journal.store_idempotency
created-ok = refl

created_project_example :
    (membership_role created.0.projects created.0.members ben "a_0" execute_release ≡ ok admin)
    × (find_channel created.0 "a_1" "a_0" ≡ ok (new_channel created.1))
unfolding create_new neuman.Hub.Journal.store_idempotency neuman.Hub.Journal.append_evidence
created_project_example =
    created_project libs (call_at 2000 "a") start_db created.0 ben "k1" plaza "h1" created.1
      execute_release created-ok

abbrev closed : Db × ProjectRow
closed =
    value_or (archive_new libs (call_at 2000 "b") start_db ana "p" "k2" "h2")
      (start_db, new_project (call_at 0 "") plaza)

closed-ok : archive_new libs (call_at 2000 "b") start_db ana "p" "k2" "h2" ≡ ok closed
unfolding archive_new neuman.Hub.Projects.Change.is_live neuman.Hub.Projects.Change.archived
    neuman.Hub.Projects.find_project neuman.Hub.Journal.append_evidence
    neuman.Hub.Journal.store_idempotency
closed-ok = refl

archived_project_example :
    (membership_role closed.0.projects closed.0.members ana "p" read ≡ err forbidden)
    × (archive_project libs (call_at 3000 "c") closed.0 ana "p" "k2" "h2" ≡ err forbidden)
archived_project_example =
    archived_project libs libs (call_at 2000 "b") (call_at 3000 "c") start_db closed.0 ana ana "p"
      "k2" "k2" "h2" "h2" closed.1 read closed-ok

abbrev foyer : PatchProjectRequest
foyer = record { name = "Foyer"; expected_version = 1 }

abbrev hall : PatchProjectRequest
hall = record { name = "Hall"; expected_version = 1 }

abbrev renamed_once : Db × ProjectRow
renamed_once =
    value_or (patch_new libs (call_at 2000 "d") start_db ana "p" "k3" foyer "h3")
      (start_db, new_project (call_at 0 "") plaza)

renamed-ok : patch_new libs (call_at 2000 "d") start_db ana "p" "k3" foyer "h3" ≡ ok renamed_once
unfolding patch_new neuman.Hub.Projects.Change.is_current neuman.Hub.Projects.Change.renamed
    neuman.Hub.Projects.find_project neuman.Hub.Journal.append_evidence
    neuman.Hub.Journal.store_idempotency
renamed-ok = refl

patch_once_example :
    Answer renamed_once.0
      (membership_role renamed_once.0.projects renamed_once.0.members ana "p" manage_members
        >> validate_name hall.name 1 120 "Project name")
      (check_idempotency read_project renamed_once.0 ana "p" "projects.patch" "k4" "h4")
      (hub_error 409 "HUB_VERSION_CONFLICT" "Project version did not match.")
      (patch_project libs (call_at 2001 "e") renamed_once.0 ana "p" "k4" hall "h4")
patch_once_example =
    patch_once libs libs (call_at 2000 "d") (call_at 2001 "e") start_db renamed_once.0 ana ana "p"
      "k3" "k4" "h3" "h4" foyer hall renamed_once.1 renamed-ok refl

abbrev removed : Db × Json
removed =
    value_or (remove_new libs (call_at 2000 "f") start_db ana "p" "ben" "k5" "h5")
      (start_db, removal "" "")

removed-ok : remove_new libs (call_at 2000 "f") start_db ana "p" "ben" "k5" "h5" ≡ ok removed
unfolding remove_new neuman.Hub.Projects.is_member is_project_admin
    neuman.Hub.Journal.append_evidence neuman.Hub.Journal.store_idempotency
removed-ok = refl

one_row : count_where (neuman.Hub.Projects.is_member "p" "ben") start_db.members ≤ 1
unfolding neuman.Hub.Projects.is_member
one_row = omega arith

one_admin : 1 ≤ count_where (is_project_admin "p") start_db.members
unfolding is_project_admin
one_admin = omega arith

remaining_admin_example : 1 ≤ count_where (is_project_admin "p") removed.0.members
remaining_admin_example =
    remaining_admin libs (call_at 2000 "f") start_db removed.0 ana "p" "ben" "k5" "h5" removed.1
      one_row one_admin removed-ok

abbrev lesser_ana : UpsertMemberRequest
lesser_ana = record { principal_id = "ana"; role = artist }

abbrev demoted : Db × Membership
demoted = value_or (upsert_new libs 50 (call_at 2000 "g") start_db ana "p" "k6" lesser_ana "h6") (
  start_db,
  record { project_id = ""; principal_id = ""; display_name = ""; role = artist; version = 0 },
)

demoted-ok :
    upsert_new libs 50 (call_at 2000 "g") start_db ana "p" "k6" lesser_ana "h6" ≡ ok demoted
unfolding upsert_new neuman.Hub.Journal.store_idempotency neuman.Hub.Journal.append_evidence
demoted-ok = refl

only_ana : All (IsTheirs "p" "ana") start_db.members
unfolding is_project_admin neuman.Hub.Projects.is_member
only_ana = ((λ _. refl), ((λ h. cc), tt))

demoted_last_admin_example : count_where (is_project_admin "p") demoted.0.members ≡ 0
unfolding neuman.Hub.Access.is_admin
demoted_last_admin_example =
    demoted_last_admin libs 50 (call_at 2000 "g") start_db demoted.0 ana "p" "k6" "h6" lesser_ana
      demoted.1 refl only_ana demoted-ok

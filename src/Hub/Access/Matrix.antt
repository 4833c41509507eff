-- ===== src/Hub/Access/Matrix.antt =====
-- The permission matrix of hub.rs, and `membership_role`.
use neuman.Prelude.{
  ◌≡◌, refl, ok, ◌&&◌, ◌||◌, ap, ◌∙◌, String, true, not, List, find?, str_eq, str_eq_iff, ok_or,
  ok_or-eq-ok, >>=-eq-ok, reject_if-then-eq-ok, ok-injective, find?-eq-some, arith,
}
use neuman.Hub.{forbidden}
use neuman.Hub.Access.{
  Permission, ProjectRow, MembershipRow, Actor, is_open_project, membership_role, Role, viewer,
  artist, developer, approver, release_manager, admin, parse, as_str, propose_art, accept_art,
  approve_release, execute_release, allows, is_admin,
}

-- Reading the name that is stored for a role gives the role back.
pub parse-as_str : (r : Role) → parse (as_str r) ≡ ok r
unfolding parse as_str
parse-as_str viewer = refl
parse-as_str _ = refl

-- Separation of duties: a role may both propose and accept art, or both approve and execute
-- releases, exactly if it is the administrator's.
pub separation_of_duties :
    (r : Role)
    → ((allows r propose_art && allows r accept_art)
        || (allows r approve_release && allows r execute_release))
      ≡ is_admin r
unfolding allows is_admin
separation_of_duties viewer = refl
separation_of_duties artist = refl
separation_of_duties developer = refl
separation_of_duties approver = refl
separation_of_duties release_manager = refl
separation_of_duties admin = refl

-- A membership that grants a role in a project that is not archived
pub record IsGranted (projects : List ProjectRow) (actor : Actor) (project_id : String) (r : Role)
    (m : MembershipRow) : Type 0 where
  pub of_project : m.project_id ≡ project_id
  pub of_actor : m.principal_id ≡ actor.principal_id
  pub is_open : is_open_project projects m.project_id ≡ true
  pub of_role : parse m.role ≡ ok r

-- Where `membership_role` gives a role, the role allows the permission, and a membership of the
-- actor in that project, which is not archived, grants the role.
pub membership_role-IsGranted :
    (projects : List ProjectRow) (members : List MembershipRow) (actor : Actor)
    (project_id : String) (permission : Permission) (r : Role)
    → membership_role projects members actor project_id permission ≡ ok r
    → (allows r permission ≡ true) × ((m : MembershipRow) × IsGranted projects actor project_id r m)
unfolding membership_role
membership_role-IsGranted projects members actor p permission r h =
    let matches = λ (m : MembershipRow).
      str_eq m.project_id p
      && str_eq m.principal_id actor.principal_id
      && is_open_project projects m.project_id in
    let (m, found, h1) = >>=-eq-ok (ok_or (find? matches members) forbidden) _ h in
    let hit = find?-eq-some matches members (ok_or-eq-ok (find? matches members) forbidden found) in
    let (role, parsed, h2) = >>=-eq-ok (parse m.role) _ h1 in
    let (allowed, h3) = reject_if-then-eq-ok (not (allows role permission)) forbidden _ h2 in
    let same : role ≡ r = ok-injective h3 in
    (
      ground (arith, allowed, ap (λ x. allows x permission) same),
      (
        m,
        record {
          of_project = (str_eq_iff m.project_id p).0 (ground (arith, hit));
          of_actor = (str_eq_iff m.principal_id actor.principal_id).0 (ground (arith, hit));
          is_open = ground (arith, hit);
          of_role = parsed ∙ ap ok same;
        },
      ),
    )

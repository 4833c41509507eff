-- ===== src/Hub/Projects/Admins.antt =====
-- The administrators of a project of hub.rs, under the two handlers that can take one away.
use neuman.Prelude.{
  ℕ, ◌+◌, ◌≤◌, ◌≡◌, refl, sym, ap, ◌∙◌, String, Bool, true, false, not, ◌&&◌, some, List, [], ◌∷◌,
  any, find?, filter_by, count_where, update_where, leb, str_eq, ok, ok_or, >>=-eq-ok,
  reject_if-then-eq-ok, ok_or-eq-ok, ok-injective, All, Bool-cases, inl, inr, arith,
}
use neuman.Hub.{Json, internal}
use neuman.Hub.Access.{
  MembershipRow, Actor, Role, viewer, artist, developer, approver, release_manager, admin, is_admin,
  as_str,
}
use neuman.Hub.Database.{Db, Call, Libs}
use neuman.Hub.Records.{Membership}
use neuman.Hub.Journal.{append_evidence, store_idempotency}
use neuman.Hub.Journal.Replay.{store_idempotency-eq-ok}
use neuman.Hub.Projects.{is_member, new_member}
use neuman.Hub.Projects.Members.{
  UpsertMemberRequest, display_name_of, promoted, upserted, members_of, upsert_new,
  is_project_admin, remove_new,
}

-- Rows that a table loses when one of its queries is deleted.
module _ (gone counts : MembershipRow → Bool) where
  abbrev lost : MembershipRow → Bool
  lost m = gone m && counts m

  abbrev kept : List MembershipRow → List MembershipRow
  kept = filter_by (λ m. not (gone m))

  count-kept :
      (ms : List MembershipRow)
      → count_where counts ms ≡ count_where counts (kept ms) + count_where lost ms
  count-kept [] = refl
  count-kept (m ∷ ms) = elim (Bool-cases (gone m)) [
    | inl hit ↦ elim (Bool-cases (counts m)) [
      | inl counted ↦ ground (arith, hit, counted, count-kept ms)
      | inr ignored ↦ ground (arith, hit, ignored, count-kept ms)
    ]
    | inr miss ↦ elim (Bool-cases (counts m)) [
      | inl counted ↦ ground (arith, miss, counted, count-kept ms)
      | inr ignored ↦ ground (arith, miss, ignored, count-kept ms)
    ]
  ]

  count-lost : (ms : List MembershipRow) → count_where lost ms ≤ count_where gone ms
  count-lost [] = omega arith
  count-lost (m ∷ ms) = elim (Bool-cases (gone m)) [
    | inl hit ↦ elim (Bool-cases (counts m)) [
      | inl counted ↦ ground (arith, hit, counted, count-lost ms)
      | inr ignored ↦ ground (arith, hit, ignored, count-lost ms)
    ]
    | inr miss ↦ ground (arith, miss, count-lost ms)
  ]

  -- The one row deleted is the one found.
  none_lost :
      (ms : List MembershipRow) {m : MembershipRow}
      → find? gone ms ≡ some m
      → count_where gone ms ≤ 1
      → counts m ≡ false
      → count_where lost ms ≡ 0
  none_lost [] h one out = refl
  none_lost (x ∷ ms) {m} h one out = elim (Bool-cases (gone x)) [
    | inl hit ↦
        let same : some x ≡ some m = sym (rw hit refl) ∙ h in
        let miss : counts x ≡ false = ap counts (injective same) ∙ out in
        ground (arith, hit, miss, count-lost ms)
    | inr miss ↦ ground (arith, miss, none_lost ms {m = m})
  ]
    where
      injective : {u v : MembershipRow} → some u ≡ some v → u ≡ v
      injective e = cc

role-clears :
    (project_id : String) (m : MembershipRow)
    → str_eq m.role "admin" ≡ false
    → is_project_admin project_id m ≡ false
unfolding is_project_admin
role-clears project_id m e = elim (Bool-cases (str_eq m.project_id project_id)) [
  | inl same ↦ rw same e
  | inr other ↦ rw other refl
]

-- Where the membership table has one row for the project and the member, as its key says, and the
-- project has an administrator, a removal that commits under a new key leaves it one.
pub remaining_admin :
    (libs : Libs) (call : Call) (db db' : Db) (actor : Actor)
    (project_id principal_id key hash : String) (out : Json)
    → count_where (is_member project_id principal_id) db.members ≤ 1
    → 1 ≤ count_where (is_project_admin project_id) db.members
    → remove_new libs call db actor project_id principal_id key hash ≡ ok (db', out)
    → 1 ≤ count_where (is_project_admin project_id) db'.members
unfolding remove_new append_evidence
remaining_admin libs call db db' actor project_id principal_id key hash out keyed some_admin h =
    let gone = is_member project_id principal_id in
    let counts = is_project_admin project_id in
    let (row, found, h1) = >>=-eq-ok (ok_or (find? gone db.members) _) _ h in
    let (guard, h2) =
      reject_if-then-eq-ok (str_eq row.role "admin" && leb (count_where counts db.members) 1) _ _
        h1 in
    let (_, stored, h3) = >>=-eq-ok (store_idempotency _ _ _ _ _ _ _ _) _ h2 in
    let after : db'.members ≡ kept gone counts db.members =
      ap (λ (x : Db × Json). x.0.members) (sym (ok-injective h3))
      ∙ ap (λ (d : Db). d.members) (store_idempotency-eq-ok _ _ _ _ _ _ _ _ stored) in
    let total = count-kept gone counts db.members in
    rw after (elim (Bool-cases (str_eq row.role "admin")) [
      | inl one ↦ ground (arith, guard, one, total, count-lost gone counts db.members)
      | inr other ↦
          let none_gone =
            none_lost gone counts db.members (ok_or-eq-ok _ _ found) keyed
              (role-clears project_id row other) in
          omega (arith, total, none_gone, some_admin)
    ])

-- Every administrator of the project is the member.
abbrev pub IsTheirs : String → String → MembershipRow → Type 0
IsTheirs project_id principal_id m =
    is_project_admin project_id m ≡ true → is_member project_id principal_id m ≡ true

as_str-not-admin : (role : Role) → is_admin role ≡ false → str_eq (as_str role) "admin" ≡ false
unfolding is_admin as_str
as_str-not-admin viewer h = refl
as_str-not-admin artist h = refl
as_str-not-admin developer h = refl
as_str-not-admin approver h = refl
as_str-not-admin release_manager h = refl
as_str-not-admin admin h = cc

module _ (call : Call) (project_id principal_id : String) (role : Role)
    (lesser : is_admin role ≡ false) where
  demoted-clears : (m : MembershipRow) → is_project_admin project_id (promoted call role m) ≡ false
  unfolding promoted
  demoted-clears m = role-clears project_id (promoted call role m) (as_str-not-admin role lesser)

  no_admin_updated :
      (ms : List MembershipRow)
      → All (IsTheirs project_id principal_id) ms
      → count_where
          (is_project_admin project_id)
          (update_where (is_member project_id principal_id) (promoted call role) ms)
        ≡ 0
  no_admin_updated [] theirs = refl
  no_admin_updated (m ∷ ms) theirs = elim (Bool-cases (is_member project_id principal_id m)) [
    | inl hit ↦ rw hit (rw (demoted-clears m) (no_admin_updated ms theirs.1))
    | inr miss ↦ rw miss (rw (other theirs.0 miss) (no_admin_updated ms theirs.1))
  ]
    where
      other :
          IsTheirs project_id principal_id m
          → is_member project_id principal_id m ≡ false
          → is_project_admin project_id m ≡ false
      other h miss = elim (Bool-cases (is_project_admin project_id m)) [
        | inl yes_it ↦ absurd (true-ne-false (sym (h yes_it) ∙ miss))
        | inr no_it ↦ no_it
      ]
        where
          true-ne-false : true ≡ false → ⊥
          true-ne-false e = cc

  no_admin_elsewhere :
      (ms : List MembershipRow)
      → All (IsTheirs project_id principal_id) ms
      → any (is_member project_id principal_id) ms ≡ false
      → count_where (is_project_admin project_id) ms ≡ 0
  no_admin_elsewhere [] theirs none_here = refl
  no_admin_elsewhere (m ∷ ms) theirs none_here =
      ground (arith, theirs.0, no_admin_elsewhere ms theirs.1)

  no_admin_upserted :
      (request : UpsertMemberRequest) (ms : List MembershipRow)
      → request.role ≡ role
      → request.principal_id ≡ principal_id
      → All (IsTheirs project_id principal_id) ms
      → count_where (is_project_admin project_id) (upserted call project_id request ms) ≡ 0
  unfolding upserted
  no_admin_upserted request ms same who theirs = rw same (
      rw who (elim (Bool-cases (any (is_member project_id principal_id) ms)) [
        | inl known ↦ rw known (no_admin_updated ms theirs)
        | inr unknown ↦ rw unknown (
            rw
              (role-clears project_id (new_member call.now project_id principal_id (as_str role))
                (as_str-not-admin role lesser))
              (no_admin_elsewhere ms theirs unknown))
      ]))

-- Unlike `remove_member`, `upsert_member` keeps no administrator behind: where all administrators of the
-- project are the member in question, giving them a lesser role under a new key leaves the project none.
pub demoted_last_admin :
    (libs : Libs) (quota : ℕ) (call : Call) (db db' : Db) (actor : Actor)
    (project_id key hash : String) (request : UpsertMemberRequest) (m : Membership)
    → is_admin request.role ≡ false
    → All (IsTheirs project_id request.principal_id) db.members
    → upsert_new libs quota call db actor project_id key request hash ≡ ok (db', m)
    → count_where (is_project_admin project_id) db'.members ≡ 0
unfolding upsert_new append_evidence
demoted_last_admin libs quota call db db' actor project_id key hash request m lesser theirs h =
    let (_, h1) =
      reject_if-then-eq-ok
        (not (any (is_member project_id request.principal_id) db.members)
          && leb quota (members_of project_id db.members))
        _ _ h in
    let (_, _, h2) = >>=-eq-ok (ok_or (display_name_of db request.principal_id) _) _ h1 in
    let (_, _, h3) =
      >>=-eq-ok (ok_or (find? (is_member project_id request.principal_id) _) internal) _ h2 in
    let (db2, stored, h4) = >>=-eq-ok (store_idempotency _ _ _ _ _ _ _ _) _ h3 in
    let after : db'.members ≡ upserted call project_id request db.members =
      ap (λ (x : Db × Membership). x.0.members) (sym (ok-injective h4))
      ∙ ap (λ (d : Db). d.members) (store_idempotency-eq-ok _ _ _ _ _ _ _ _ stored) in
    rw after (
      no_admin_upserted call project_id request.principal_id request.role lesser request db.members
        refl refl theirs)

-- ===== src/Hub/Releases/Approved.antt =====
-- Which releases of hub.rs may have left the state `draft`.
use neuman.Prelude.{
  IsKeyed, IsKeyed-update, keyed_unique, ◌≡◌, refl, ap, sym, String, true, not, ◌||◌, List, ◌∷◌,
  All, any, find?, str_eq, str_eq_iff, arith, All-map, All-zip, All-update_where, inl, inr, ◌⊎◌, ok,
  >>=-eq-ok, reject_if-then-eq-ok, ok_or-eq-ok, ok-injective,
}
use neuman.Hub.{Json, internal, hub_error}
use neuman.Hub.Access.{Actor}
use neuman.Hub.Database.{Db, Call, Libs}
use neuman.Hub.Records.{ReleaseRecord, ReleaseApproval}
use neuman.Hub.Releases.{
  CreateReleaseRequest, ApproveReleaseRequest, has_id, is_release, new_release, create_new,
  create_release, read_release, read_approval,
}
use neuman.Hub.Releases.Approval.{
  is_approvable, same_approval, is_draft, approved, new_approval, insert_approval, find_approvable,
  approve_new, approve_release_call,
}
use neuman.Hub.Releases.Action.{approves}
use neuman.Hub.Journal.{append_evidence, store_idempotency, check_idempotency}
use neuman.Hub.Journal.Replay.{store_idempotency-eq-ok, or_replay-eq-ok}
use neuman.Hub.Access.{membership_role}
use neuman.Hub.Validation.{validate_name, validate_hash_label}

-- The states that the handlers of hub.rs give a release
abbrev pub IsKnown : String → Type 0
IsKnown s = (s ≡ "draft") ⊎ ((s ≡ "approved") ⊎ ((s ≡ "running") ⊎ (s ≡ "rolled_back")))

-- A release that is not a draft has an approval for its id and its request hash.
abbrev pub IsBacked : List ReleaseApproval → ReleaseRecord → Type 0
IsBacked approvals r = (r.state ≡ "draft") ⊎ (any (approves r) approvals ≡ true)

abbrev pub IsSound : Db → Type 0
IsSound db =
    IsKeyed (λ (x : ReleaseRecord). x.id) db.releases
    × (All (λ r. IsKnown r.state) db.releases × All (IsBacked db.approvals) db.releases)

IsBacked-weaken :
    (a : ReleaseApproval) (approvals : List ReleaseApproval) (r : ReleaseRecord)
    → IsBacked approvals r
    → IsBacked (a ∷ approvals) r
IsBacked-weaken a approvals r (inl d) = inl d
IsBacked-weaken a approvals r (inr h) = inr (ground (arith))

create_new-releases :
    (libs : Libs) (call : Call) (db : Db) (actor : Actor) (p key : String)
    (request : CreateReleaseRequest) (hash : String) {out : Db × ReleaseRecord}
    → IsSound db
    → create_new libs call db actor p key request hash ≡ ok out
    → IsSound out.0
unfolding create_new new_release append_evidence
create_new-releases libs call db actor p key request hash {out} s h =
    let (fresh, h1) =
      reject_if-then-eq-ok (any (has_id (call.new_id 0)) db.releases) internal _ h in
    let (db2, stored, h2) = >>=-eq-ok (store_idempotency _ _ _ _ _ _ _ _) _ h1 in
    let e = store_idempotency-eq-ok _ _ _ _ _ _ _ _ stored in
    rw (← ok-injective h2) (rw e ((fresh, s.0), ((inl refl, s.1.0), (inl refl, s.1.1))))

find_approvable-id :
    (release_id project_id : String) (x : ReleaseRecord)
    → is_approvable release_id project_id x ≡ true
    → x.id ≡ release_id
unfolding is_approvable is_release has_id
find_approvable-id release_id project_id x h = (str_eq_iff x.id release_id).0 (ground arith)

approved-backed :
    (id : String) (call : Call) (a : ReleaseApproval) (approvals : List ReleaseApproval)
    (x : ReleaseRecord)
    → (x.id ≡ id → approves x a ≡ true)
    → is_draft id x ≡ true
    → any (approves (approved call x)) (a ∷ approvals) ≡ true
unfolding approved is_draft has_id approves
approved-backed id call a approvals x k t =
    let e = k ((str_eq_iff x.id id).0 (ground arith)) in ground (arith, e)

insert_approval-Sound :
    (libs : Libs) (call : Call) (db : Db) (actor : Actor) (p id key : String) (a : ReleaseApproval)
    (hash : String) {out : Db × ReleaseApproval}
    → All (λ x. x.id ≡ id → approves x a ≡ true) db.releases
    → IsSound db
    → insert_approval libs call db actor p id key a hash ≡ ok out
    → IsSound out.0
unfolding insert_approval approved append_evidence is_draft has_id approves
insert_approval-Sound libs call db actor p id key a hash only s h =
    let (_, h1) =
      reject_if-then-eq-ok
        (any (λ (b : ReleaseApproval). str_eq b.id a.id || same_approval b a) db.approvals) internal
        _ h in
    let (db2, stored, h2) = >>=-eq-ok (store_idempotency _ _ _ _ _ _ _ _) _ h1 in
    let e = store_idempotency-eq-ok _ _ _ _ _ _ _ _ stored in
    rw (← ok-injective h2) (
      rw e (
        IsKeyed-update (λ (x : ReleaseRecord). x.id) (is_draft id) (approved call) (λ _. refl)
            db.releases s.0,
        (
          All-update_where (λ r. IsKnown r.state) (λ r. IsKnown r.state) (is_draft id)
              (approved call) (λ _ _ _. inr (inl refl)) (λ _ k _. k) db.releases s.1.0,
          All-update_where (λ r. IsBacked db.approvals r × (r.id ≡ id → approves r a ≡ true))
              (IsBacked (a ∷ db.approvals)) (is_draft id) (approved call)
              (λ x k t. inr (approved-backed id call a db.approvals x k.1 t))
              (λ x k _. IsBacked-weaken a db.approvals x k.0) db.releases
              (All-zip _ _ db.releases s.1.1 only),
        ),
      ))

approves-new :
    (call : Call) (actor : Actor) (id : String) (evidence : Json) (x r : ReleaseRecord)
    → x.id ≡ id
    → x ≡ r
    → approves x (new_approval call actor id r.request_hash evidence) ≡ true
unfolding approves
approves-new call actor id evidence x r e same = ground (
  arith,
  (str_eq_iff id x.id).1 (sym e),
  (str_eq_iff r.request_hash x.request_hash).1
      (ap (λ (y : ReleaseRecord). y.request_hash) (sym same)),
)

approve_new-Sound :
    (libs : Libs) (call : Call) (db : Db) (actor : Actor) (p id key : String)
    (request : ApproveReleaseRequest) (hash : String) {out : Db × ReleaseApproval}
    → IsSound db
    → approve_new libs call db actor p id key request hash ≡ ok out
    → IsSound out.0
unfolding approve_new
approve_new-Sound libs call db actor p id key request hash s h =
    let (r, found, h1) = >>=-eq-ok (find_approvable db id p) _ h in
    let (_, h2) =
      reject_if-then-eq-ok (not (str_eq r.request_hash request.request_hash))
        (hub_error 409 "HUB_VERSION_CONFLICT"
          "Approval does not bind the release's immutable request hash.")
        _ h1 in
    let a = new_approval call actor id r.request_hash request.evidence in
    let only =
      keyed_unique (λ (x : ReleaseRecord). x.id) (is_approvable id p) id db.releases
        (find_approvable-id id p) s.0
        (ok_or-eq-ok (find? (is_approvable id p) db.releases) _ found) in
    insert_approval-Sound libs call db actor p id key a hash
      (All-map (λ x. x.id ≡ id → x ≡ r) (λ x. x.id ≡ id → approves x a ≡ true)
        (λ x same e. approves-new call actor id request.evidence x r e (same e)) db.releases only)
      s h2

pub approve_release_call-Sound :
    (libs : Libs) (call : Call) (db : Db) (actor : Actor) (p id key : String)
    (request : ApproveReleaseRequest) (hash : String) {out : Db × ReleaseApproval}
    → IsSound db
    → approve_release_call libs call db actor p id key request hash ≡ ok out
    → IsSound out.0
unfolding approve_release_call
approve_release_call-Sound libs call db actor p id key request hash s h =
    let (_, _, h1) = >>=-eq-ok (membership_role _ _ _ _ _) _ h in
    let (_, _, h2) = >>=-eq-ok (membership_role _ _ _ _ _) _ h1 in
    let (o, _, h3) =
      >>=-eq-ok (check_idempotency read_approval db actor p "releases.approve" key hash) _ h2 in
    elim (or_replay-eq-ok db o _ h3) [
      | inl same ↦ rw same.1 s
      | inr run ↦ approve_new-Sound libs call db actor p id key request hash s run.1
    ]

pub create_release-Sound :
    (libs : Libs) (call : Call) (db : Db) (actor : Actor) (p key : String)
    (request : CreateReleaseRequest) (hash : String) {out : Db × ReleaseRecord}
    → IsSound db
    → create_release libs call db actor p key request hash ≡ ok out
    → IsSound out.0
unfolding create_release
create_release-Sound libs call db actor p key request hash s h =
    let (_, _, h1) = >>=-eq-ok (membership_role _ _ _ _ _) _ h in
    let (_, _, h2) = >>=-eq-ok (validate_hash_label _ _) _ h1 in
    let (_, _, h3) = >>=-eq-ok (validate_name _ _ _ _) _ h2 in
    let (_, _, h4) = >>=-eq-ok (membership_role _ _ _ _ _) _ h3 in
    let (o, _, h5) =
      >>=-eq-ok (check_idempotency read_release db actor p "releases.create" key hash) _ h4 in
    elim (or_replay-eq-ok db o _ h5) [
      | inl same ↦ rw same.1 s
      | inr run ↦ create_new-releases libs call db actor p key request hash s run.1
    ]

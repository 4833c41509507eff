-- ===== src/Hub/Releases/Lifecycle.antt =====
-- Runs of the release handlers of hub.rs, and what every run keeps.
use mathlib.Core.Path.{subst}
use neuman.Prelude.{
  IsKeyed-update, keyed_unique, ◌≡◌, refl, ap, sym, ◌∙◌, String, Bool, true, false, not, ◌||◌, List,
  [], ◌∷◌, All, any, find?, update_where, if◌then◌else◌, str_eq, str_eq_iff, arith, find?-All,
  All-map, All-zip, All-update_where, inl, inr, ok, err, >>=-eq-ok, reject_if-then-eq-ok, ok_or,
  ok_or-eq-ok, ok-injective,
}
use neuman.Hub.{hub_error, not_found, invalid, internal}
use neuman.Hub.Access.{Actor, membership_role}
use neuman.Hub.Database.{Db, Call, Libs}
use neuman.Hub.Records.{ReleaseRecord, ReleaseApproval}
use neuman.Hub.Releases.{ReleaseActionRequest, has_id, is_release, read_release}
use neuman.Hub.Releases.Action.{
  action_plan, approves, moved, find_release, action_allowed, move_release, act_new, release_action,
  route_of,
}
use neuman.Hub.Releases.Approved.{IsKnown, IsBacked, IsSound}
use neuman.Hub.Journal.{append_evidence, store_idempotency, check_idempotency}
use neuman.Hub.Journal.Replay.{store_idempotency-eq-ok, or_replay-eq-ok}

abbrev pub IsPlan : List String × String → Type 0
IsPlan plan = (any (λ (s : String). str_eq s "draft") plan.0 ≡ false) × IsKnown plan.1

pub action_plan-IsPlan :
    (action : String) {plan : List String × String} → action_plan action ≡ ok plan → IsPlan plan
unfolding action_plan
action_plan-IsPlan action {plan} h =
    pick (str_eq action "start") (str_eq action "resume") (str_eq action "rollback") h
  where
    pick :
        (x y z : Bool)
        → (if x
            then ok ("approved" ∷ [], "running")
            else if y
            then ok ("failed" ∷ "rollback_required" ∷ [], "running")
            else if z
            then ok ("running" ∷ "failed" ∷ "rollback_required" ∷ "succeeded" ∷ [], "rolled_back")
            else err (invalid "Unknown release action."))
          ≡ ok plan
        → IsPlan plan
    pick true y z e = subst IsPlan (ok-injective e) (refl, inr (inr (inl refl)))
    pick false true z e = subst IsPlan (ok-injective e) (refl, inr (inr (inl refl)))
    pick false false true e = subst IsPlan (ok-injective e) (refl, inr (inr (inr refl)))
    pick false false false e = cc

is_release-id :
    (release_id project_id : String) (x : ReleaseRecord)
    → is_release release_id project_id x ≡ true
    → x.id ≡ release_id
unfolding is_release has_id
is_release-id release_id project_id x h = (str_eq_iff x.id release_id).0 (ground arith)

not-draft :
    (required : List String) (state : String)
    → any (λ (s : String). str_eq s "draft") required ≡ false
    → any (λ (s : String). str_eq s state) required ≡ true
    → state ≡ "draft"
    → ⊥
not-draft required state h e same =
    true-ne-false (sym e ∙ ap (λ k. any (λ (s : String). str_eq s k) required) same ∙ h)
  where
    true-ne-false : true ≡ false → ⊥
    true-ne-false c = cc

-- The writes of an action keep soundness when the release that they change is backed.
move_release-Sound :
    (libs : Libs) (call : Call) (db : Db) (actor : Actor) (p id action next_state key : String)
    (request : ReleaseActionRequest) (bound hash : String) {out : Db × ReleaseRecord}
    → IsKnown next_state
    → All (λ x. x.id ≡ id → any (approves x) db.approvals ≡ true) db.releases
    → IsSound db
    → move_release libs call db actor p id action next_state key request.evidence bound hash
      ≡ ok out
    → IsSound out.0
unfolding move_release moved append_evidence approves has_id
move_release-Sound libs call db actor p id action next_state key request bound hash known only s h =
    let table = update_where (has_id id) (moved call next_state request.evidence) db.releases in
    let (_, _, h1) = >>=-eq-ok (ok_or (find? (has_id id) table) internal) _ h in
    let (db2, stored, h2) = >>=-eq-ok (store_idempotency _ _ _ _ _ _ _ _) _ h1 in
    let e = store_idempotency-eq-ok _ _ _ _ _ _ _ _ stored in
    rw (← ok-injective h2) (
      rw e (
        IsKeyed-update (λ (x : ReleaseRecord). x.id) (has_id id)
            (moved call next_state request.evidence) (λ _. refl) db.releases s.0,
        (
          All-update_where (λ r. IsKnown r.state) (λ r. IsKnown r.state) (has_id id)
              (moved call next_state request.evidence) (λ _ _ _. known) (λ _ k _. k) db.releases
              s.1.0,
          All-update_where
              (λ r. IsBacked db.approvals r × (r.id ≡ id → any (approves r) db.approvals ≡ true))
              (IsBacked db.approvals) (has_id id) (moved call next_state request.evidence)
              (λ x k t. inr (k.1 ((str_eq_iff x.id id).0 t))) (λ x k _. k.0) db.releases
              (All-zip _ _ db.releases s.1.1 only),
        ),
      ))

backed_row :
    (approvals : List ReleaseApproval) (required : List String) (x r : ReleaseRecord)
    → IsBacked approvals r
    → any (λ (s : String). str_eq s "draft") required ≡ false
    → any (λ (s : String). str_eq s r.state) required ≡ true
    → x ≡ r
    → any (approves x) approvals ≡ true
backed_row approvals required x r (inl d) h e same = absurd (not-draft required r.state h e d)
backed_row approvals required x r (inr b) h e same = rw same b

pub act_new-Sound :
    (libs : Libs) (call : Call) (db : Db) (actor : Actor) (p id action : String)
    (plan : List String × String) (key : String) (request : ReleaseActionRequest) (hash : String)
    {out : Db × ReleaseRecord}
    → IsPlan plan
    → IsSound db
    → act_new libs call db actor p id action plan key request hash ≡ ok out
    → IsSound out.0
unfolding act_new action_allowed
act_new-Sound libs call db actor p id action (required, next_state) key request hash plan s h =
    let (r, found, h1) = >>=-eq-ok (find_release db id p) _ h in
    let (_, allowed, h2) = >>=-eq-ok (action_allowed db action required request r) _ h1 in
    let (guard, _) =
      reject_if-then-eq-ok
        (not (str_eq r.request_hash request.expected_request_hash)
          || not (any (λ (s : String). str_eq s r.state) required))
        (hub_error 409 "HUB_VERSION_CONFLICT"
          "Release state or immutable request hash does not permit this action.")
        _ allowed in
    let hit =
      ok_or-eq-ok (find? (is_release id p) db.releases) (not_found "HUB_RELEASE_NOT_FOUND") found in
    let only =
      keyed_unique (λ (x : ReleaseRecord). x.id) (is_release id p) id db.releases
        (is_release-id id p) s.0 hit in
    let backed = find?-All (IsBacked db.approvals) (is_release id p) db.releases s.1.1 hit in
    move_release-Sound libs call db actor p id action next_state key request r.request_hash hash
      plan.1
      (All-map (λ x. x.id ≡ id → x ≡ r) (λ x. x.id ≡ id → any (approves x) db.approvals ≡ true)
        (λ x same e.
          backed_row db.approvals required x r backed plan.0 (ground (arith, guard)) (same e))
        db.releases only)
      s h2

pub release_action-Sound :
    (libs : Libs) (call : Call) (db : Db) (actor : Actor) (p id action key : String)
    (request : ReleaseActionRequest) (hash : String) {out : Db × ReleaseRecord}
    → IsSound db
    → release_action libs call db actor p id action key request hash ≡ ok out
    → IsSound out.0
unfolding release_action
release_action-Sound libs call db actor p id action key request hash s h =
    let (_, _, h1) = >>=-eq-ok (membership_role _ _ _ _ _) _ h in
    let (plan, planned, h2) = >>=-eq-ok (action_plan action) _ h1 in
    let (_, _, h3) = >>=-eq-ok (membership_role _ _ _ _ _) _ h2 in
    let (o, _, h4) =
      >>=-eq-ok (check_idempotency read_release db actor p (route_of action) key hash) _ h3 in
    elim (or_replay-eq-ok db o _ h4) [
      | inl same ↦ rw same.1 s
      | inr run ↦
          act_new-Sound libs call db actor p id action plan key request hash
            (action_plan-IsPlan action planned) s run.1
    ]

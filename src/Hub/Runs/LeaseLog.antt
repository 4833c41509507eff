-- ===== src/Hub/Runs/LeaseLog.antt =====
-- The lease handlers of hub.rs, the evidence, and the tables of the art.
use neuman.Prelude.{
  ℕ, ◌+◌, ◌≡◌, refl, ap, String, Bool, not, ◌&&◌, ◌==◌, List, ltb, length, count_where,
  update_where, ok, >>=-eq-ok, reject_if-then-eq-ok, ok-injective, inl, inr,
}
use neuman.Hub.{Json, invalid}
use neuman.Hub.Access.{Actor, is_admin, membership_role}
use neuman.Hub.Records.{Lease, LeaseBatch, Channel, ArtProposal, ArtReview, ArtRevision}
use neuman.Hub.Database.{Db, Call, Libs}
use neuman.Hub.Journal.{append_evidence, store_idempotency, check_idempotency}
use neuman.Hub.Journal.Replay.{or_replay-eq-ok}
use neuman.Hub.Validation.{sorted_unique, validate_name}
use neuman.Hub.Leases.{
  AcquireLeaseBatchRequest, RenewLeaseRequest, option_eq, base_stale, quota_error, no_conflict,
  insert_leases,
}
use neuman.Hub.Leases.Acquire.{
  read_batch, read_lease, is_empty, active_leases, find_channel, commit_batch, insert_batch,
  acquire_new, acquire_lease_batch,
}
use neuman.Hub.Leases.Held.{
  is_renewable, renewed, renewal_error, find_lease, renew_new, renew_lease, is_releasable, released,
  release_lease,
}
use neuman.Hub.Proposals.Effects.{ArtTables}
use neuman.Hub.Runs.Logged.{IsLogged, same-IsLogged, append_evidence-IsLogged, stored-IsLogged}

-- The tables of the art, without the leases
pub record Shelf : Type 0 where
  pub channels : List Channel
  pub proposals : List ArtProposal
  pub reviews : List ArtReview
  pub revisions : List ArtRevision

abbrev pub shelf_of : Db → Shelf
shelf_of db = record {
  channels = db.channels;
  proposals = db.proposals;
  reviews = db.reviews;
  revisions = db.revisions;
}

abbrev pub IsLeasing : Libs → Db → Db → Type 0
IsLeasing libs db db' = IsLogged libs db db' × (shelf_of db' ≡ shelf_of db)

unfoldable pub shelf_in : ArtTables → Shelf
shelf_in t = record {
  channels = t.channels;
  proposals = t.proposals;
  reviews = t.reviews;
  revisions = t.revisions;
}

same-IsLeasing : (libs : Libs) (db db' : Db) → db' ≡ db → IsLeasing libs db db'
same-IsLeasing libs db db' e = (same-IsLogged libs db db' e, ap shelf_of e)

commit_batch-IsLeasing :
    (libs : Libs) (call : Call) (db : Db) (actor : Actor) (p key q route : String)
    (leases table : List Lease) {out : Db × LeaseBatch}
    → commit_batch libs call db actor p key q route leases table ≡ ok out
    → IsLeasing libs db out.0
unfolding commit_batch shelf_in
commit_batch-IsLeasing libs call db actor p key q route leases table h =
    let (db2, stored, h1) = >>=-eq-ok (store_idempotency _ _ _ _ _ _ _ _) _ h in
    let k =
      stored-IsLogged libs call db (record db { leases = table }) _ _ _ _ _ _ _ _ _ _ _ _ _ _ refl
        refl refl refl stored in
    rw (← ok-injective h1) (k.0, ap shelf_in k.1)

acquire_new-IsLeasing :
    (libs : Libs) (quota : ℕ) (call : Call) (db : Db) (actor : Actor) (p key : String)
    (request : AcquireLeaseBatchRequest) (q route : String) (rs : List String)
    {out : Db × LeaseBatch}
    → acquire_new libs quota call db actor p key request q route rs ≡ ok out
    → IsLeasing libs db out.0
unfolding acquire_new insert_batch
acquire_new-IsLeasing libs quota call db actor p key request q route rs h =
    let (c, _, h1) = >>=-eq-ok (find_channel db request.channel_id p) _ h in
    let (_, h2) =
      reject_if-then-eq-ok (not (option_eq c.head_revision_id request.base_revision_id))
        (base_stale "Lease base must be the current accepted channel head." c.head_revision_id) _
        h1 in
    let count = active_leases call.now p db.leases in
    let (_, h3) =
      reject_if-then-eq-ok (ltb quota (count + length rs)) (quota_error "activeLeases" count quota)
        _ h2 in
    let (_, _, h4) = >>=-eq-ok (no_conflict call.now p request.channel_id db.leases rs) _ h3 in
    let (made, _, h5) = >>=-eq-ok (insert_leases call actor p request 0 rs db.leases) _ h4 in
    commit_batch-IsLeasing libs call db actor p key q route made.0 made.1 h5

pub acquire_lease_batch-IsLeasing :
    (libs : Libs) (quota : ℕ) (call : Call) (db : Db) (actor : Actor) (project_id key : String)
    (request : AcquireLeaseBatchRequest) (request_hash route : String) {out : Db × LeaseBatch}
    → acquire_lease_batch libs quota call db actor project_id key request request_hash route
      ≡ ok out
    → IsLeasing libs db out.0
unfolding acquire_lease_batch
acquire_lease_batch-IsLeasing libs quota call db actor p key request q route {out} h =
    let (_, _, h1) = >>=-eq-ok (membership_role _ _ _ _ _) _ h in
    let (_, _, h2) = >>=-eq-ok (validate_name _ _ _ _) _ h1 in
    let (_, _, h3) = >>=-eq-ok (validate_name _ _ _ _) _ h2 in
    let (rs, _, h4) = >>=-eq-ok (sorted_unique request.resource_ids "resourceIds") _ h3 in
    let (_, h5) =
      reject_if-then-eq-ok (is_empty rs) (invalid "At least one lease resource is required.") _
        h4 in
    let (_, _, h6) = >>=-eq-ok (membership_role _ _ _ _ _) _ h5 in
    let (o, _, h7) = >>=-eq-ok (check_idempotency read_batch db actor p route key q) _ h6 in
    elim (or_replay-eq-ok db o _ h7) [
      | inl same ↦ same-IsLeasing libs db out.0 same.1
      | inr run ↦ acquire_new-IsLeasing libs quota call db actor p key request q route rs run.1
    ]

renew_new-IsLeasing :
    (libs : Libs) (call : Call) (db : Db) (actor : Actor) (project_id lease_id key : String)
    (request : RenewLeaseRequest) (request_hash : String) {out : Db × Lease}
    → renew_new libs call db actor project_id lease_id key request request_hash ≡ ok out
    → IsLeasing libs db out.0
unfolding renew_new shelf_in
renew_new-IsLeasing libs call db actor p id key request q h =
    let matches = is_renewable call actor p id request in
    let table = update_where matches (renewed call request) db.leases in
    let (_, h1) =
      reject_if-then-eq-ok (not (count_where matches db.leases == 1)) (renewal_error call db p id) _
        h in
    let (_, _, h2) = >>=-eq-ok (find_lease table id) _ h1 in
    let (db2, stored, h3) = >>=-eq-ok (store_idempotency _ _ _ _ _ _ _ _) _ h2 in
    let k =
      stored-IsLogged libs call db (record db { leases = table }) _ _ _ _ _ _ _ _ _ _ _ _ _ _ refl
        refl refl refl stored in
    rw (← ok-injective h3) (k.0, ap shelf_in k.1)

pub renew_lease-IsLeasing :
    (libs : Libs) (call : Call) (db : Db) (actor : Actor) (project_id lease_id key : String)
    (request : RenewLeaseRequest) (request_hash : String) {out : Db × Lease}
    → renew_lease libs call db actor project_id lease_id key request request_hash ≡ ok out
    → IsLeasing libs db out.0
unfolding renew_lease
renew_lease-IsLeasing libs call db actor p id key request q {out} h =
    let (_, _, h1) = >>=-eq-ok (membership_role _ _ _ _ _) _ h in
    let (_, _, h2) = >>=-eq-ok (membership_role _ _ _ _ _) _ h1 in
    let (o, _, h3) =
      >>=-eq-ok (check_idempotency read_lease db actor p "leases.renew" key q) _ h2 in
    elim (or_replay-eq-ok db o _ h3) [
      | inl same ↦ same-IsLeasing libs db out.0 same.1
      | inr run ↦ renew_new-IsLeasing libs call db actor p id key request q run.1
    ]

pub release_lease-IsLeasing :
    (libs : Libs) (call : Call) (db : Db) (actor : Actor) (project_id lease_id reason : String)
    (force : Bool) {out : Db × Json}
    → release_lease libs call db actor project_id lease_id reason force ≡ ok out
    → IsLeasing libs db out.0
unfolding release_lease append_evidence
release_lease-IsLeasing libs call db actor p id reason force h =
    let matches = is_releasable actor p id force in
    let (role, _, h1) = >>=-eq-ok (membership_role _ _ _ _ _) _ h in
    let (_, h2) = reject_if-then-eq-ok (force && not (is_admin role)) _ _ h1 in
    let (_, _, h3) = >>=-eq-ok (validate_name reason 3 512 "release reason") _ h2 in
    let (_, h4) = reject_if-then-eq-ok (not (count_where matches db.leases == 1)) _ _ h3 in
    rw (← ok-injective h4) (
      append_evidence-IsLogged libs call db
          (record db { leases = update_where matches (released call reason) db.leases }) actor _ _ _
          _ _ _ _ refl refl refl refl,
      refl,
    )

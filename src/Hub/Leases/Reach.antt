-- ===== src/Hub/Leases/Reach.antt =====
-- Runs of the lease handlers over time, and the mutual exclusion.
use neuman.Prelude.{
  ℕ, ◌+◌, ◌≤◌, ◌≡◌, refl, ap, sym, String, Bool, true, not, ◌&&◌, List, ltb, length, count_where,
  update_where, ◌==◌, ok, >>=-eq-ok, reject_if-then-eq-ok, ok-injective, inl, inr, arith,
}
use neuman.Hub.{Json, invalid}
use neuman.Hub.Access.{Actor, is_admin, membership_role}
use neuman.Hub.Records.{Lease, LeaseBatch}
use neuman.Hub.Database.{Db, Call, Libs}
use neuman.Hub.Journal.{append_evidence, store_idempotency, check_idempotency}
use neuman.Hub.Journal.Replay.{store_idempotency-eq-ok, or_replay-eq-ok}
use neuman.Hub.Validation.{sorted_unique, validate_name}
use neuman.Hub.Validation.Sets.{sorted_unique-IsAscending}
use neuman.Hub.Leases.{
  AcquireLeaseBatchRequest, RenewLeaseRequest, is_active, option_eq, base_stale, quota_error,
}
use neuman.Hub.Leases.Acquire.{
  read_batch, read_lease, is_empty, active_leases, find_channel, acquire_new, acquire_lease_batch,
}
use neuman.Hub.Leases.Held.{
  is_renewable, renewed, renewal_error, find_lease, renew_new, renew_lease, is_releasable, released,
  release_lease,
}
use neuman.Hub.Leases.Exclusive.{IsExclusive, IsExclusive-later, IsExclusive-update, Calms}
use neuman.Hub.Leases.Mutex.{insert_batch-IsExclusive}

acquire_new-IsExclusive :
    (libs : Libs) (quota : ℕ) (call : Call) (db : Db) (actor : Actor) (project_id key : String)
    (request : AcquireLeaseBatchRequest) (request_hash route : String)
    (given resources : List String) {out : Db × LeaseBatch}
    → sorted_unique given "resourceIds" ≡ ok resources
    → IsExclusive call.now db.leases
    → acquire_new libs quota call db actor project_id key request request_hash route resources
      ≡ ok out
    → IsExclusive call.now out.0.leases
unfolding acquire_new
acquire_new-IsExclusive libs quota call db actor p key request q route given rs sorted e h =
    let (c, _, h1) = >>=-eq-ok (find_channel db request.channel_id p) _ h in
    let (_, h2) =
      reject_if-then-eq-ok (not (option_eq c.head_revision_id request.base_revision_id))
        (base_stale "Lease base must be the current accepted channel head." c.head_revision_id) _
        h1 in
    let count = active_leases call.now p db.leases in
    let (_, h3) =
      reject_if-then-eq-ok (ltb quota (count + length rs)) (quota_error "activeLeases" count quota)
        _ h2 in
    insert_batch-IsExclusive libs call db actor p key request q route rs
      (sorted_unique-IsAscending given rs "resourceIds" sorted).0 e h3

-- Acquiring leases, one or a batch, keeps the exclusion.
pub acquire_lease_batch-IsExclusive :
    (libs : Libs) (quota : ℕ) (call : Call) (db : Db) (actor : Actor) (project_id key : String)
    (request : AcquireLeaseBatchRequest) (request_hash route : String) {out : Db × LeaseBatch}
    → IsExclusive call.now db.leases
    → acquire_lease_batch libs quota call db actor project_id key request request_hash route
      ≡ ok out
    → IsExclusive call.now out.0.leases
unfolding acquire_lease_batch
acquire_lease_batch-IsExclusive libs quota call db actor p key request q route e h =
    let (_, _, h1) = >>=-eq-ok (membership_role _ _ _ _ _) _ h in
    let (_, _, h2) = >>=-eq-ok (validate_name _ _ _ _) _ h1 in
    let (_, _, h3) = >>=-eq-ok (validate_name _ _ _ _) _ h2 in
    let (rs, sorted, h4) = >>=-eq-ok (sorted_unique request.resource_ids "resourceIds") _ h3 in
    let (_, h5) =
      reject_if-then-eq-ok (is_empty rs) (invalid "At least one lease resource is required.") _
        h4 in
    let (_, _, h6) = >>=-eq-ok (membership_role _ _ _ _ _) _ h5 in
    let (o, _, h7) = >>=-eq-ok (check_idempotency read_batch db actor p route key q) _ h6 in
    elim (or_replay-eq-ok db o _ h7) [
      | inl same ↦ rw same.1 e
      | inr run ↦
          acquire_new-IsExclusive libs quota call db actor p key request q route
            request.resource_ids rs sorted e run.1
    ]

renewed-Calms :
    (call : Call) (actor : Actor) (p id : String) (request : RenewLeaseRequest) (l : Lease)
    → is_renewable call actor p id request l ≡ true
    → Calms call.now (renewed call request) l
unfolding is_renewable renewed
renewed-Calms call actor p id request l h = record {
  project = refl;
  channel = refl;
  resource = refl;
  active = λ _. ground arith;
}

released-Calms :
    (t : ℕ) (call : Call) (reason : String) (l : Lease) → Calms t (released call reason) l
unfolding released is_active
released-Calms t call reason l = record {
  project = refl;
  channel = refl;
  resource = refl;
  active = λ h. cc;
}

renew_new-IsExclusive :
    (libs : Libs) (call : Call) (db : Db) (actor : Actor) (project_id lease_id key : String)
    (request : RenewLeaseRequest) (request_hash : String) {out : Db × Lease}
    → IsExclusive call.now db.leases
    → renew_new libs call db actor project_id lease_id key request request_hash ≡ ok out
    → IsExclusive call.now out.0.leases
unfolding renew_new append_evidence
renew_new-IsExclusive libs call db actor p id key request q {out} e h =
    let matches = is_renewable call actor p id request in
    let (_, h1) =
      reject_if-then-eq-ok (not (count_where matches db.leases == 1)) (renewal_error call db p id) _
        h in
    let (_, _, h2) =
      >>=-eq-ok (find_lease (update_where matches (renewed call request) db.leases) id) _ h1 in
    let (db2, stored, h3) = >>=-eq-ok (store_idempotency _ _ _ _ _ _ _ _) _ h2 in
    let table : db2.leases ≡ update_where matches (renewed call request) db.leases =
      ap (λ (d : Db). d.leases) (store_idempotency-eq-ok _ _ _ _ _ _ _ _ stored) in
    let result : out.0 ≡ db2 = ap (λ (x : Db × Lease). x.0) (sym (ok-injective h3)) in
    rw result (
      rw table (
        IsExclusive-update call.now matches (renewed call request)
          (renewed-Calms call actor p id request) db.leases e))

-- Renewing a lease keeps the exclusion.
pub renew_lease-IsExclusive :
    (libs : Libs) (call : Call) (db : Db) (actor : Actor) (project_id lease_id key : String)
    (request : RenewLeaseRequest) (request_hash : String) {out : Db × Lease}
    → IsExclusive call.now db.leases
    → renew_lease libs call db actor project_id lease_id key request request_hash ≡ ok out
    → IsExclusive call.now out.0.leases
unfolding renew_lease
renew_lease-IsExclusive libs call db actor p id key request q e h =
    let (_, _, h1) = >>=-eq-ok (membership_role _ _ _ _ _) _ h in
    let (_, _, h2) = >>=-eq-ok (membership_role _ _ _ _ _) _ h1 in
    let (o, _, h3) =
      >>=-eq-ok (check_idempotency read_lease db actor p "leases.renew" key q) _ h2 in
    elim (or_replay-eq-ok db o _ h3) [
      | inl same ↦ rw same.1 e
      | inr run ↦ renew_new-IsExclusive libs call db actor p id key request q e run.1
    ]

-- Releasing or breaking a lease keeps the exclusion.
pub release_lease-IsExclusive :
    (libs : Libs) (t : ℕ) (call : Call) (db : Db) (actor : Actor)
    (project_id lease_id reason : String) (force : Bool) {out : Db × Json}
    → IsExclusive t db.leases
    → release_lease libs call db actor project_id lease_id reason force ≡ ok out
    → IsExclusive t out.0.leases
unfolding release_lease append_evidence
release_lease-IsExclusive libs t call db actor p id reason force e h =
    let matches = is_releasable actor p id force in
    let (role, _, h1) = >>=-eq-ok (membership_role _ _ _ _ _) _ h in
    let (_, h2) = reject_if-then-eq-ok (force && not (is_admin role)) _ _ h1 in
    let (_, _, h3) = >>=-eq-ok (validate_name reason 3 512 "release reason") _ h2 in
    let (_, h4) = reject_if-then-eq-ok (not (count_where matches db.leases == 1)) _ _ h3 in
    rw (← ok-injective h4) (
      IsExclusive-update t matches (released call reason) (λ l _. released-Calms t call reason l)
        db.leases e)

-- One committed call at a time; the clock never runs backwards from one to the next.
pub data Step (t : ℕ) (db : Db) : ℕ → Db → Type 0 where
  acquire :
      (libs : Libs) (quota : ℕ) (call : Call) (actor : Actor) (project_id key : String)
      (request : AcquireLeaseBatchRequest) (request_hash route : String) (out : Db × LeaseBatch)
      → t ≤ call.now
      → acquire_lease_batch libs quota call db actor project_id key request request_hash route
        ≡ ok out
      → Step t db call.now out.0
  renew :
      (libs : Libs) (call : Call) (actor : Actor) (project_id lease_id key : String)
      (request : RenewLeaseRequest) (request_hash : String) (out : Db × Lease)
      → t ≤ call.now
      → renew_lease libs call db actor project_id lease_id key request request_hash ≡ ok out
      → Step t db call.now out.0
  give_up :
      (libs : Libs) (call : Call) (actor : Actor) (project_id lease_id reason : String)
      (force : Bool) (out : Db × Json)
      → t ≤ call.now
      → release_lease libs call db actor project_id lease_id reason force ≡ ok out
      → Step t db call.now out.0

pub data Reach (t : ℕ) (db : Db) : ℕ → Db → Type 0 where
  here : Reach t db t db
  next :
      {t' t'' : ℕ} {db' db'' : Db} → Reach t db t' db' → Step t' db' t'' db'' → Reach t db t'' db''

Step-IsExclusive :
    {t t' : ℕ} {db db' : Db}
    → Step t db t' db'
    → IsExclusive t db.leases
    → IsExclusive t' db'.leases
Step-IsExclusive {t} {db = db} (acquire libs quota call actor p key request q route out le h) e =
    acquire_lease_batch-IsExclusive libs quota call db actor p key request q route
      (IsExclusive-later t call.now db.leases le e) h
Step-IsExclusive {t} {db = db} (renew libs call actor p id key request q out le h) e =
    renew_lease-IsExclusive libs call db actor p id key request q
      (IsExclusive-later t call.now db.leases le e) h
Step-IsExclusive {t} {db = db} (give_up libs call actor p id reason force out le h) e =
    release_lease-IsExclusive libs call.now call db actor p id reason force
      (IsExclusive-later t call.now db.leases le e) h

-- From a table of leases without conflict at time `t`, no sequence of committed acquisitions,
-- renewals, releases and breaks, at times that do not fall, reaches a table in which two leases
-- are active on one resource of one channel at the time of the last call.
pub Reach-IsExclusive :
    {t : ℕ} {db : Db} {t' : ℕ} {db' : Db}
    → IsExclusive t db.leases
    → Reach t db t' db'
    → IsExclusive t' db'.leases
Reach-IsExclusive e here = e
Reach-IsExclusive e (next r s) = Step-IsExclusive s (Reach-IsExclusive e r)

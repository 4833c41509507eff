-- ===== src/Hub/Leases/Replay.antt =====
-- A lease batch that was acquired, asked for again.
use neuman.Prelude.{
  ◌≡◌, ℕ, ◌+◌, refl, ap, ◌∙◌, String, false, not, some, List, length, ltb, str_eq, str_eq_iff,
  if◌then◌else◌, ok, err, >>=-eq-ok, reject_if-then-eq-ok, ok-injective, inl, inr,
}
use neuman.Hub.{invalid}
use neuman.Hub.Access.{Actor, propose_art, membership_role}
use neuman.Hub.Records.{Lease, LeaseBatch}
use neuman.Hub.Database.{Db, Call, Libs, lease_batch}
use neuman.Hub.Journal.{append_evidence, store_idempotency, check_idempotency, or_replay}
use neuman.Hub.Journal.Replay.{
  store_idempotency-eq-ok, or_replay-eq-ok, check_after_store, key_conflict,
}
use neuman.Hub.Validation.{validate_name, sorted_unique}
use neuman.Hub.Leases.{
  AcquireLeaseBatchRequest, option_eq, base_stale, quota_error, no_conflict, insert_leases,
}
use neuman.Hub.Leases.Acquire.{
  read_batch, is_empty, active_leases, find_channel, batch_of, commit_batch, insert_batch,
  acquire_new, acquire_lease_batch,
}

-- What a committed batch leaves for later calls
record IsReplayable (db : Db) (actor : Actor) (p route key q : String) (out : Db × LeaseBatch)
    : Type 0 where
  same_projects : out.0.projects ≡ db.projects
  same_members : out.0.members ≡ db.members
  replayed : check_idempotency read_batch out.0 actor p route key q ≡ ok (some out.1)

same_key :
    (q : String) (b : LeaseBatch)
    → (if str_eq q q then ok (some b) else err key_conflict) ≡ ok (some b)
same_key q b = rw ((str_eq_iff q q).1 refl) refl

commit_batch-IsReplayable :
    (libs : Libs) (call : Call) (db : Db) (actor : Actor) (p key q route : String)
    (leases table : List Lease) {out : Db × LeaseBatch}
    → commit_batch libs call db actor p key q route leases table ≡ ok out
    → IsReplayable db actor p route key q out
unfolding commit_batch append_evidence
commit_batch-IsReplayable libs call db actor p key q route leases table h =
    let b = batch_of call leases in
    let (db2, stored, h1) = >>=-eq-ok (store_idempotency _ _ _ _ _ _ _ _) _ h in
    let e = store_idempotency-eq-ok _ _ _ _ _ _ _ _ stored in
    rw (← ok-injective h1) (record {
      same_projects = ap (λ (d : Db). d.projects) e;
      same_members = ap (λ (d : Db). d.members) e;
      replayed =
          check_after_store read_batch call _ db2 actor p route key q q (lease_batch b) b stored
            refl
          ∙ same_key q b;
    })

acquire_new-IsReplayable :
    (libs : Libs) (quota : ℕ) (call : Call) (db : Db) (actor : Actor) (p key : String)
    (request : AcquireLeaseBatchRequest) (q route : String) (rs : List String)
    {out : Db × LeaseBatch}
    → acquire_new libs quota call db actor p key request q route rs ≡ ok out
    → IsReplayable db actor p route key q out
unfolding acquire_new insert_batch
acquire_new-IsReplayable libs quota call db actor p key request q route rs h =
    let (c, _, h1) = >>=-eq-ok (find_channel db request.channel_id p) _ h in
    let (_, h2) =
      reject_if-then-eq-ok (not (option_eq c.head_revision_id request.base_revision_id))
        (base_stale "Lease base must be the current accepted channel head." c.head_revision_id) _
        h1 in
    let count = active_leases call.now p db.leases in
    let (_, h3) =
      reject_if-then-eq-ok (ltb quota (count + length rs)) (quota_error "activeLeases" count quota)
        _ h2 in
    let (_, _, h4) = >>=-eq-ok (no_conflict call.now p request.channel_id db.leases rs) _ h3 in
    let (made, _, h5) = >>=-eq-ok (insert_leases call actor p request 0 rs db.leases) _ h4 in
    commit_batch-IsReplayable libs call db actor p key q route made.0 made.1 h5

replay :
    (libs : Libs) (quota : ℕ) (call : Call) (db : Db) (actor : Actor) (p key : String)
    (request : AcquireLeaseBatchRequest) (q route : String) (rs : List String) (b : LeaseBatch)
    → ((x : _) × (membership_role db.projects db.members actor p propose_art ≡ ok x))
    → ((x : _) × (validate_name request.workstream 1 128 "workstream" ≡ ok x))
    → ((x : _) × (validate_name request.intended_action 1 128 "intendedAction" ≡ ok x))
    → sorted_unique request.resource_ids "resourceIds" ≡ ok rs
    → is_empty rs ≡ false
    → check_idempotency read_batch db actor p route key q ≡ ok (some b)
    → acquire_lease_batch libs quota call db actor p key request q route ≡ ok (db, b)
unfolding acquire_lease_batch or_replay
replay libs quota call db actor p key request q route rs b (_, m) (_, w) (_, a) s e c =
    rw m (rw w (rw a (rw s (rw e (rw c refl)))))

-- A committed acquisition that is called again, at any time and under any configuration, with the
-- same actor, key and request on the database that it left, returns the same batch and changes
-- nothing.
pub acquire_twice :
    (libs libs' : Libs) (quota quota' : ℕ) (call call' : Call) (db db' : Db) (actor : Actor)
    (project_id key : String) (request : AcquireLeaseBatchRequest) (request_hash route : String)
    (batch : LeaseBatch)
    → acquire_lease_batch libs quota call db actor project_id key request request_hash route
      ≡ ok (db', batch)
    → acquire_lease_batch libs' quota' call' db' actor project_id key request request_hash route
      ≡ ok (db', batch)
unfolding acquire_lease_batch
acquire_twice libs libs' quota quota' call call' db db' actor p key request q route batch h =
    let (r1, m1, h1) = >>=-eq-ok (membership_role _ _ _ _ _) _ h in
    let (t2, w, h2) = >>=-eq-ok (validate_name _ _ _ _) _ h1 in
    let (t3, a, h3) = >>=-eq-ok (validate_name _ _ _ _) _ h2 in
    let (rs, sorted, h4) = >>=-eq-ok (sorted_unique request.resource_ids "resourceIds") _ h3 in
    let (full, h5) =
      reject_if-then-eq-ok (is_empty rs) (invalid "At least one lease resource is required.") _
        h4 in
    let (_, _, h6) = >>=-eq-ok (membership_role _ _ _ _ _) _ h5 in
    let (o, c, h7) = >>=-eq-ok (check_idempotency read_batch db actor p route key q) _ h6 in
    let again = λ (k : IsReplayable db actor p route key q (db', batch)).
      replay libs' quota' call' db' actor p key request q route rs batch
        (r1, rw (k.same_projects, k.same_members) m1) (t2, w) (t3, a) sorted full k.replayed in
    elim (or_replay-eq-ok db o _ h7) [
      | inl same ↦ again (record {
        same_projects = ap (λ (d : Db). d.projects) same.1;
        same_members = ap (λ (d : Db). d.members) same.1;
        replayed =
            ap (λ (d : Db). check_idempotency read_batch d actor p route key q) same.1
            ∙ c
            ∙ ap ok same.0;
      })
      | inr run ↦
          again (acquire_new-IsReplayable libs quota call db actor p key request q route rs run.1)
    ]

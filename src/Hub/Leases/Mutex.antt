-- ===== src/Hub/Leases/Mutex.antt =====
-- The handlers of leases of hub.rs, and the mutual exclusion.
use neuman.Prelude.{
  ℕ, suc, ◌≡◌, String, true, List, [], ◌∷◌, All, any, str_eq, str_eq_iff, ok, >>=-eq-ok,
  reject_if-then-eq-ok, ok-injective, arith, codes,
}
use neuman.Hub.{internal}
use neuman.Hub.Access.{Actor}
use neuman.Hub.Records.{Lease, LeaseBatch}
use neuman.Hub.Database.{Db, Call, Libs}
use neuman.Hub.Journal.{append_evidence, store_idempotency}
use neuman.Hub.Journal.Replay.{store_idempotency-eq-ok}
use neuman.Hub.Validation.{before}
use neuman.Hub.Validation.Sets.{IsAscending, before-ne}
use neuman.Hub.Leases.{AcquireLeaseBatchRequest, covers, no_conflict, new_lease, insert_leases}
use neuman.Hub.Leases.Acquire.{commit_batch, insert_batch}
use neuman.Hub.Leases.Exclusive.{Apart, IsExclusive, Free, no_conflict-Free}

module _ (call : Call) (actor : Actor) (project_id : String)
    (request : AcquireLeaseBatchRequest) where
  abbrev lease_of : ℕ → String → Lease
  lease_of = new_lease call actor project_id request

  Apart-new :
      (i : ℕ) (r : String) (table : List Lease)
      → Free call.now project_id request.channel_id table r
      → All (Apart call.now (lease_of i r)) table
  unfolding covers new_lease
  Apart-new i r [] f = tt
  Apart-new i r (m ∷ table) f = (
    (λ s x y. ground (
      arith,
      f.0,
      str_eq_iff m.project_id project_id,
      str_eq_iff m.channel_id request.channel_id,
      str_eq_iff m.resource_id r,
    )),
    Apart-new i r table f.1,
  )

  Free-new :
      (i : ℕ) (r : String) (table : List Lease) (rs : List String)
      → All (λ y. before (codes r) (codes y) ≡ true) rs
      → All (Free call.now project_id request.channel_id table) rs
      → All (Free call.now project_id request.channel_id (lease_of i r ∷ table)) rs
  unfolding covers new_lease
  Free-new i r table [] b f = tt
  Free-new i r table (y ∷ rs) b f =
      ((ground (arith, str_eq_iff r y, before-ne r y b.0), f.0), Free-new i r table rs b.1 f.1)

  insert_leases-IsExclusive :
      (i : ℕ) (rs : List String) (table : List Lease) {out : List Lease × List Lease}
      → IsAscending rs
      → All (Free call.now project_id request.channel_id table) rs
      → IsExclusive call.now table
      → insert_leases call actor project_id request i rs table ≡ ok out
      → IsExclusive call.now out.1
  unfolding insert_leases
  insert_leases-IsExclusive i [] table a f e h = rw (← ok-injective h) e
  insert_leases-IsExclusive i (r ∷ rs) table a f e h =
      let l = lease_of i r in
      let (_, h1) =
        reject_if-then-eq-ok (any (λ (row : Lease). str_eq row.id l.id) table) internal _ h in
      let (next, h2, h3) =
        >>=-eq-ok (insert_leases call actor project_id request (suc i) rs (l ∷ table)) _ h1 in
      rw (← ok-injective h3) (
        insert_leases-IsExclusive (suc i) rs (l ∷ table) a.1 (Free-new i r table rs a.0 f.1)
          (Apart-new i r table f.0, e) h2)

commit_batch-leases :
    (libs : Libs) (call : Call) (db : Db) (actor : Actor)
    (project_id key request_hash route : String) (leases table : List Lease) {out : Db × LeaseBatch}
    → commit_batch libs call db actor project_id key request_hash route leases table ≡ ok out
    → out.0.leases ≡ table
unfolding commit_batch append_evidence
commit_batch-leases libs call db actor p key q route leases table h =
    let (db2, stored, h1) = >>=-eq-ok (store_idempotency _ _ _ _ _ _ _ _) _ h in
    rw (← ok-injective h1) (rw (store_idempotency-eq-ok _ _ _ _ _ _ _ _ stored))

pub insert_batch-IsExclusive :
    (libs : Libs) (call : Call) (db : Db) (actor : Actor) (project_id key : String)
    (request : AcquireLeaseBatchRequest) (request_hash route : String) (resources : List String)
    {out : Db × LeaseBatch}
    → IsAscending resources
    → IsExclusive call.now db.leases
    → insert_batch libs call db actor project_id key request request_hash route resources ≡ ok out
    → IsExclusive call.now out.0.leases
unfolding insert_batch
insert_batch-IsExclusive libs call db actor p key request q route rs {out} a e h =
    let (_, clear, h1) = >>=-eq-ok (no_conflict call.now p request.channel_id db.leases rs) _ h in
    let (put, inserted, h2) = >>=-eq-ok (insert_leases call actor p request 0 rs db.leases) _ h1 in
    let table : out.0.leases ≡ put.1 =
      commit_batch-leases libs call db actor p key q route put.0 put.1 h2 in
    rw table (
      insert_leases-IsExclusive call actor p request 0 rs db.leases a
        (no_conflict-Free call.now p request.channel_id db.leases rs clear) e inserted)

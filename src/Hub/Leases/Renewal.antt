-- ===== src/Hub/Leases/Renewal.antt =====
-- What a renewal of hub.rs leaves for later renewals under its key.
use neuman.Prelude.{
  ◌≡◌, refl, ap, ◌∙◌, String, not, some, str_eq_iff, ok, ◌==◌, count_where, update_where, >>=-eq-ok,
  reject_if-then-eq-ok, ok-injective, inl, inr,
}
use neuman.Hub.Access.{Actor, propose_art, membership_role}
use neuman.Hub.Records.{Lease}
use neuman.Hub.Database.{Db, Call, Libs, lease}
use neuman.Hub.Journal.{append_evidence, store_idempotency, check_idempotency, or_replay}
use neuman.Hub.Journal.Replay.{store_idempotency-eq-ok, or_replay-eq-ok, check_after_store}
use neuman.Hub.Leases.{RenewLeaseRequest}
use neuman.Hub.Leases.Acquire.{read_lease}
use neuman.Hub.Leases.Held.{
  is_renewable, renewed, renewal_error, find_lease, renew_new, renew_lease,
}

record IsReplayable (db : Db) (actor : Actor) (p key q : String) (out : Db × Lease) : Type 0 where
  same_projects : out.0.projects ≡ db.projects
  same_members : out.0.members ≡ db.members
  replayed : check_idempotency read_lease out.0 actor p "leases.renew" key q ≡ ok (some out.1)

renew_new-IsReplayable :
    (libs : Libs) (call : Call) (db : Db) (actor : Actor) (p id key : String)
    (request : RenewLeaseRequest) (q : String) {out : Db × Lease}
    → renew_new libs call db actor p id key request q ≡ ok out
    → IsReplayable db actor p key q out
unfolding renew_new append_evidence
renew_new-IsReplayable libs call db actor p id key request q h =
    let matches = is_renewable call actor p id request in
    let (_, h1) =
      reject_if-then-eq-ok (not (count_where matches db.leases == 1)) (renewal_error call db p id) _
        h in
    let (l, _, h2) =
      >>=-eq-ok (find_lease (update_where matches (renewed call request) db.leases) id) _ h1 in
    let (db2, stored, h3) = >>=-eq-ok (store_idempotency _ _ _ _ _ _ _ _) _ h2 in
    let e = store_idempotency-eq-ok _ _ _ _ _ _ _ _ stored in
    rw (← ok-injective h3) (record {
      same_projects = ap (λ (d : Db). d.projects) e;
      same_members = ap (λ (d : Db). d.members) e;
      replayed =
          check_after_store read_lease call _ db2 actor p "leases.renew" key q q (lease l) l stored
            refl
          ∙ rw ((str_eq_iff q q).1 refl) refl;
    })

replay :
    (libs : Libs) (call : Call) (db : Db) (actor : Actor) (p id key : String)
    (request : RenewLeaseRequest) (q : String) (l : Lease)
    → ((x : _) × (membership_role db.projects db.members actor p propose_art ≡ ok x))
    → check_idempotency read_lease db actor p "leases.renew" key q ≡ ok (some l)
    → renew_lease libs call db actor p id key request q ≡ ok (db, l)
unfolding renew_lease or_replay
replay libs call db actor p id key request q l (_, m) c = rw m (rw c refl)

-- After a committed renewal of a lease, the same actor's renewal of any lease of the project, the
-- same or another, under the same key and with the same request returns the lease that was renewed
-- first, and changes nothing.
pub renew_any_lease :
    (libs libs' : Libs) (call call' : Call) (db db' : Db) (actor : Actor)
    (project_id lease_id other_id key : String) (request : RenewLeaseRequest)
    (request_hash : String) (l : Lease)
    → renew_lease libs call db actor project_id lease_id key request request_hash ≡ ok (db', l)
    → renew_lease libs' call' db' actor project_id other_id key request request_hash ≡ ok (db', l)
unfolding renew_lease
renew_any_lease libs libs' call call' db db' actor p id other key request q l h =
    let (r1, m1, h1) = >>=-eq-ok (membership_role _ _ _ _ _) _ h in
    let (_, _, h2) = >>=-eq-ok (membership_role _ _ _ _ _) _ h1 in
    let (o, c, h3) =
      >>=-eq-ok (check_idempotency read_lease db actor p "leases.renew" key q) _ h2 in
    let again = λ (k : IsReplayable db actor p key q (db', l)).
      replay libs' call' db' actor p other key request q l
        (r1, rw (k.same_projects, k.same_members) m1) k.replayed in
    elim (or_replay-eq-ok db o _ h3) [
      | inl same ↦ again (record {
        same_projects = ap (λ (d : Db). d.projects) same.1;
        same_members = ap (λ (d : Db). d.members) same.1;
        replayed =
            ap (λ (d : Db). check_idempotency read_lease d actor p "leases.renew" key q) same.1
            ∙ c
            ∙ ap ok same.0;
      })
      | inr run ↦ again (renew_new-IsReplayable libs call db actor p id key request q run.1)
    ]

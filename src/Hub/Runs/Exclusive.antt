-- ===== src/Hub/Runs/Exclusive.antt =====
-- The mutual exclusion of leases along every run of the handlers of hub.rs.
use mathlib.Core.Path.{subst}
use neuman.Prelude.{ℕ, ◌≡◌, sym, ap, List}
use neuman.Hub.Records.{Lease}
use neuman.Hub.Database.{Db, Libs}
use neuman.Hub.Leases.Exclusive.{IsExclusive, IsExclusive-later}
use neuman.Hub.Leases.Reach.{
  acquire_lease_batch-IsExclusive, renew_lease-IsExclusive, release_lease-IsExclusive,
}
use neuman.Hub.Proposals.Effects.{ArtTables, art_of}
use neuman.Hub.Proposals.Steps.{
  Change, unchanged, created, reviewed, rejected, accepted, create_art_proposal-Change,
  review_art_proposal-Change, reject_art_proposal-Change, accept_art_proposal-Change,
}
use neuman.Hub.Proposals.Locks.{release_all-IsExclusive}
use neuman.Hub.Runs.{
  Step, acquire, renew, give_up, draft, approve, act, propose, review, reject, accept, Reach, here,
  next,
}
use neuman.Hub.Runs.ReleaseLog.{
  create_release-IsReleasing, approve_release_call-IsReleasing, release_action-IsReleasing,
}

leases_of : ArtTables → List Lease
leases_of t = t.leases

Change-IsExclusive :
    (t : ℕ) {db db' : Db} → Change db db' → IsExclusive t db.leases → IsExclusive t db'.leases
unfolding leases_of
Change-IsExclusive t (unchanged e) h = subst (IsExclusive t) (sym (ap leases_of e)) h
Change-IsExclusive t (created p x k) h = subst (IsExclusive t) (sym (ap leases_of k.after)) h
Change-IsExclusive t (reviewed p x k) h = subst (IsExclusive t) (sym (ap leases_of k.after)) h
Change-IsExclusive t (rejected call p id k) h = subst (IsExclusive t) (sym (ap leases_of k.after)) h
Change-IsExclusive t {db} (accepted art call actor project_id p r k) h =
    subst (IsExclusive t) (sym (ap leases_of k.after))
      (release_all-IsExclusive call project_id p r.id t p.resource_ids db.leases h)

same_leases :
    (t : ℕ) (db db' : Db)
    → art_of db' ≡ art_of db
    → IsExclusive t db.leases
    → IsExclusive t db'.leases
same_leases t db db' e h = Change-IsExclusive t {db = db} {db' = db'} (unchanged e) h

Step-IsExclusive :
    {libs : Libs} {t : ℕ} {db : Db} {t' : ℕ} {db' : Db}
    → Step libs t db t' db'
    → IsExclusive t db.leases
    → IsExclusive t' db'.leases
Step-IsExclusive {libs} {t} {db = db} (acquire quota call actor p key request q route out le h) e =
    acquire_lease_batch-IsExclusive libs quota call db actor p key request q route
      (IsExclusive-later t call.now db.leases le e) h
Step-IsExclusive {libs} {t} {db = db} (renew call actor p id key request q out le h) e =
    renew_lease-IsExclusive libs call db actor p id key request q
      (IsExclusive-later t call.now db.leases le e) h
Step-IsExclusive {libs} {t} {db = db} (give_up call actor p id reason force out h) e =
    release_lease-IsExclusive libs t call db actor p id reason force e h
Step-IsExclusive {libs} {t} {db = db} (draft call actor p key request q out h) e =
    same_leases t db out.0 (create_release-IsReleasing libs call db actor p key request q h).1 e
Step-IsExclusive {libs} {t} {db = db} (approve call actor p id key request q out h) e =
    same_leases t db out.0
      (approve_release_call-IsReleasing libs call db actor p id key request q h).1 e
Step-IsExclusive {libs} {t} {db = db} (act call actor p id action key request q out h) e =
    same_leases t db out.0
      (release_action-IsReleasing libs call db actor p id action key request q h).1 e
Step-IsExclusive {libs} {t} {db = db} (propose art call actor p key request q out h) e =
    Change-IsExclusive t (create_art_proposal-Change libs art call db actor p key request q h) e
Step-IsExclusive {libs} {t} {db = db} (review call actor p id key request q out h) e =
    Change-IsExclusive t (review_art_proposal-Change libs call db actor p id key request q h) e
Step-IsExclusive {libs} {t} {db = db} (reject call actor p id key request q out h) e =
    Change-IsExclusive t (reject_art_proposal-Change libs call db actor p id key request q h) e
Step-IsExclusive {libs} {t} {db = db} (accept art call actor p id key request q out h) e =
    Change-IsExclusive t (accept_art_proposal-Change libs art call db actor p id key request q h) e

-- From a table of leases without conflict, no run of the handlers of leases, releases and art
-- proposals reaches a table in which two leases are active on one resource of one channel at the
-- time that the run has reached.
pub hub_run-IsExclusive :
    {libs : Libs} {t : ℕ} {db : Db} {t' : ℕ} {db' : Db}
    → IsExclusive t db.leases
    → Reach libs t db t' db'
    → IsExclusive t' db'.leases
hub_run-IsExclusive e here = e
hub_run-IsExclusive e (next r s) = Step-IsExclusive s (hub_run-IsExclusive e r)

-- ===== src/Hub/Runs/Invariants.antt =====
-- Properties of the tables of the art, from the proposal handlers of hub.rs to the runs.
use mathlib.Core.Path.{subst}
use neuman.Prelude.{ℕ, ◌≡◌, sym, ap}
use neuman.Hub.Database.{Db, Libs}
use neuman.Hub.Proposals.Effects.{art_of}
use neuman.Hub.Proposals.Steps.{
  Change, create_art_proposal-Change, review_art_proposal-Change, reject_art_proposal-Change,
  accept_art_proposal-Change,
}
use neuman.Hub.Runs.{
  Step, acquire, renew, give_up, draft, approve, act, propose, review, reject, accept, Reach, here,
  next,
}
use neuman.Hub.Runs.LeaseLog.{
  shelf_of, acquire_lease_batch-IsLeasing, renew_lease-IsLeasing, release_lease-IsLeasing, Shelf,
  shelf_in,
}
use neuman.Hub.Runs.ReleaseLog.{
  create_release-IsReleasing, approve_release_call-IsReleasing, release_action-IsReleasing,
}

-- A property of the tables of the art without the leases, which the proposal handlers keep
module _ (P : Shelf → Type 0)
    (keep : (db db' : Db) → Change db db' → P (shelf_of db) → P (shelf_of db')) where
  same : (db db' : Db) → shelf_of db' ≡ shelf_of db → P (shelf_of db) → P (shelf_of db')
  same db db' e h = subst P (sym e) h

  same_art : (db db' : Db) → art_of db' ≡ art_of db → P (shelf_of db) → P (shelf_of db')
  unfolding shelf_in
  same_art db db' e h = subst P (sym (ap shelf_in e)) h

  pub Step-keeps :
      {libs : Libs} {t : ℕ} {db : Db} {t' : ℕ} {db' : Db}
      → Step libs t db t' db'
      → P (shelf_of db)
      → P (shelf_of db')
  Step-keeps {libs} {db = db} (acquire quota call actor p key request q route out le h) =
      same db out.0
        (acquire_lease_batch-IsLeasing libs quota call db actor p key request q route h).1
  Step-keeps {libs} {db = db} (renew call actor p id key request q out le h) =
      same db out.0 (renew_lease-IsLeasing libs call db actor p id key request q h).1
  Step-keeps {libs} {db = db} (give_up call actor p id reason force out h) =
      same db out.0 (release_lease-IsLeasing libs call db actor p id reason force h).1
  Step-keeps {libs} {db = db} (draft call actor p key request q out h) =
      same_art db out.0 (create_release-IsReleasing libs call db actor p key request q h).1
  Step-keeps {libs} {db = db} (approve call actor p id key request q out h) =
      same_art db out.0 (approve_release_call-IsReleasing libs call db actor p id key request q h).1
  Step-keeps {libs} {db = db} (act call actor p id action key request q out h) =
      same_art db out.0
        (release_action-IsReleasing libs call db actor p id action key request q h).1
  Step-keeps {libs} {db = db} (propose art call actor p key request q out h) =
      keep db out.0 (create_art_proposal-Change libs art call db actor p key request q h)
  Step-keeps {libs} {db = db} (review call actor p id key request q out h) =
      keep db out.0 (review_art_proposal-Change libs call db actor p id key request q h)
  Step-keeps {libs} {db = db} (reject call actor p id key request q out h) =
      keep db out.0 (reject_art_proposal-Change libs call db actor p id key request q h)
  Step-keeps {libs} {db = db} (accept art call actor p id key request q out h) =
      keep db out.0 (accept_art_proposal-Change libs art call db actor p id key request q h)

  -- Every run keeps it.
  pub Reach-keeps :
      {libs : Libs} {t : ℕ} {db : Db} {t' : ℕ} {db' : Db}
      → Reach libs t db t' db'
      → P (shelf_of db)
      → P (shelf_of db')
  Reach-keeps here h = h
  Reach-keeps (next r s) h = Step-keeps s (Reach-keeps r h)

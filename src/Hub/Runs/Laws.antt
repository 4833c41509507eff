-- ===== src/Hub/Runs/Laws.antt =====
-- The evidence and the histories of the channels, along the runs of the handlers of hub.rs.
use neuman.Prelude.{
  ℕ, suc, ◌≡◌, String, ◌&&◌, Option, List, [], ◌∷◌, All, find?, find?-All, length, str_eq, ok,
  ok_or-eq-ok,
}
use neuman.Hub.{not_found}
use neuman.Hub.Records.{Channel}
use neuman.Hub.Database.{Db, Libs}
use neuman.Hub.Leases.Acquire.{find_channel}
use neuman.Hub.Proposals.History.{history, IsLine, HasHistory, Change-HaveHistory}
use neuman.Hub.Runs.{
  Step, acquire, renew, give_up, draft, approve, act, propose, review, reject, accept, Reach, here,
  next,
}
use neuman.Hub.Runs.Logged.{IsLogged, IsRecorded}
use neuman.Hub.Runs.LeaseLog.{
  Shelf, acquire_lease_batch-IsLeasing, renew_lease-IsLeasing, release_lease-IsLeasing,
}
use neuman.Hub.Runs.ReleaseLog.{
  create_release-IsReleasing, approve_release_call-IsReleasing, release_action-IsReleasing,
}
use neuman.Hub.Runs.ProposalLog.{
  create_art_proposal-IsLogged, review_art_proposal-IsLogged, reject_art_proposal-IsLogged,
  accept_art_proposal-IsLogged,
}
use neuman.Hub.Runs.Invariants.{Reach-keeps}

Step-IsLogged :
    {libs : Libs} {t : ℕ} {db : Db} {t' : ℕ} {db' : Db}
    → Step libs t db t' db'
    → IsLogged libs db db'
Step-IsLogged {libs} {db = db} (acquire quota call actor p key request q route out le h) =
    (acquire_lease_batch-IsLeasing libs quota call db actor p key request q route h).0
Step-IsLogged {libs} {db = db} (renew call actor p id key request q out le h) =
    (renew_lease-IsLeasing libs call db actor p id key request q h).0
Step-IsLogged {libs} {db = db} (give_up call actor p id reason force out h) =
    (release_lease-IsLeasing libs call db actor p id reason force h).0
Step-IsLogged {libs} {db = db} (draft call actor p key request q out h) =
    (create_release-IsReleasing libs call db actor p key request q h).0
Step-IsLogged {libs} {db = db} (approve call actor p id key request q out h) =
    (approve_release_call-IsReleasing libs call db actor p id key request q h).0
Step-IsLogged {libs} {db = db} (act call actor p id action key request q out h) =
    (release_action-IsReleasing libs call db actor p id action key request q h).0
Step-IsLogged {libs} {db = db} (propose art call actor p key request q out h) =
    create_art_proposal-IsLogged libs art call db actor p key request q h
Step-IsLogged {libs} {db = db} (review call actor p id key request q out h) =
    review_art_proposal-IsLogged libs call db actor p id key request q h
Step-IsLogged {libs} {db = db} (reject call actor p id key request q out h) =
    reject_art_proposal-IsLogged libs call db actor p id key request q h
Step-IsLogged {libs} {db = db} (accept art call actor p id key request q out h) =
    accept_art_proposal-IsLogged libs art call db actor p id key request q h

-- Along every run of the handlers of leases, releases and art proposals with one JSON printer and one
-- SHA-256, the audit events of each project stay a hash chain of their own, in which an event names the
-- hash of the project's event directly before it, the first event none, and an event's hash is that of
-- all its fields, that name included, between NUL characters; and the outbox keeps one message for each
-- audit event, in the same order, of the same project and aggregate, with the same details and time; if
-- this held at the start.
pub hub_run-IsRecorded :
    {libs : Libs} {t : ℕ} {db : Db} {t' : ℕ} {db' : Db}
    → IsRecorded libs db
    → Reach libs t db t' db'
    → IsRecorded libs db'
hub_run-IsRecorded h here = h
hub_run-IsRecorded h (next r s) = (Step-IsLogged s).recorded (hub_run-IsRecorded h r)

abbrev IsNewChannel : Channel → Type 0
IsNewChannel c = (c.head_revision_id ≡ Option.none) × (c.version ≡ 1)

new_channels : (cs : List Channel) → All IsNewChannel cs → All (HasHistory []) cs
new_channels [] h = tt
new_channels (c ∷ cs) h = (record { line = h.0.0; version = h.0.1 }, new_channels cs h.1)

HistoryIn : Shelf → Type 0
HistoryIn s = All (HasHistory s.revisions) s.channels

-- Whatever run of the handlers follows on a database without revisions, whose channels have version
-- 1 and no head: the revisions of a channel are one line, in which the head names the newest
-- revision, each revision names the one before it as its parent, and the first has no parent; and the
-- version is one more than their number.
pub reached_channel :
    (libs : Libs) (t t' : ℕ) (db db' : Db) (channel_id project_id : String) (c : Channel)
    → db.revisions ≡ []
    → All IsNewChannel db.channels
    → Reach libs t db t' db'
    → find_channel db' channel_id project_id ≡ ok c
    → IsLine c.head_revision_id (history c.id c.project_id db'.revisions)
      × (c.version ≡ suc (length (history c.id c.project_id db'.revisions)))
unfolding find_channel HistoryIn
reached_channel libs t t' db db' channel_id project_id c empty fresh run found =
    let is_its = λ (x : Channel). str_eq x.id channel_id && str_eq x.project_id project_id in
    let hit =
      ok_or-eq-ok (find? is_its db'.channels) (not_found "HUB_ART_CHANNEL_NOT_FOUND") found in
    let start : All (HasHistory db.revisions) db.channels =
      rw empty (new_channels db.channels fresh) in
    let all = Reach-keeps HistoryIn (λ d d' k. Change-HaveHistory k) run start in
    let k = find?-All (HasHistory db'.revisions) is_its db'.channels all hit in (k.line, k.version)

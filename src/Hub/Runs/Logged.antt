-- ===== src/Hub/Runs/Logged.antt =====
-- What a handler of hub.rs leaves of the evidence: the audit chain, and the outbox beside it.
use neuman.Prelude.{◌≡◌, refl, ap, String, List, [], ◌∷◌, ok}
use neuman.Hub.{Json}
use neuman.Hub.Access.{Actor}
use neuman.Hub.Database.{Response, AuditRow, OutboxRow, Db, Call, Libs}
use neuman.Hub.Journal.{append_evidence, store_idempotency}
use neuman.Hub.Journal.Replay.{store_idempotency-eq-ok}
use neuman.Hub.Proposals.Effects.{art_of}
use neuman.Hub.Journal.Chain.{IsChain, append_evidence-IsChain}

-- Each audit event has its message in the outbox, in the same order, about the same thing.
abbrev pub IsPaired : List AuditRow → List OutboxRow → Type 0
IsPaired [] [] = Unit
IsPaired (a ∷ as') (o ∷ os) =
    (a.project_id ≡ o.project_id)
    × (a.aggregate_id ≡ o.aggregate_id)
    × (a.details_json ≡ o.payload_json)
    × (a.occurred_at_ms ≡ o.occurred_at_ms)
    × IsPaired as' os
IsPaired _ _ = ⊥

-- The evidence of a database is sound.
abbrev pub IsRecorded : Libs → Db → Type 0
IsRecorded libs db = IsChain libs db.audit × IsPaired db.audit db.outbox

-- A call keeps the evidence sound, and neither admits nor removes anybody.
pub record IsLogged (libs : Libs) (db db' : Db) : Type 0 where
  pub projects : db'.projects ≡ db.projects
  pub members : db'.members ≡ db.members
  pub recorded : IsRecorded libs db → IsRecorded libs db'

pub same-IsLogged : (libs : Libs) (db db' : Db) → db' ≡ db → IsLogged libs db db'
same-IsLogged libs db db' e = record {
  projects = ap (λ (d : Db). d.projects) e;
  members = ap (λ (d : Db). d.members) e;
  recorded = rw e (λ r. r);
}

-- `append_evidence` after a change of other tables
pub append_evidence-IsLogged :
    (libs : Libs) (call : Call) (db db1 : Db) (actor : Actor)
    (project_id action aggregate_type aggregate_id category event_type : String) (details : Json)
    → db1.projects ≡ db.projects
    → db1.members ≡ db.members
    → db1.audit ≡ db.audit
    → db1.outbox ≡ db.outbox
    → IsLogged libs db (
        append_evidence libs call db1 actor project_id action aggregate_type aggregate_id category
          event_type details)
unfolding append_evidence
append_evidence-IsLogged libs call db db1 actor p a t i c e d projects members audit outbox =
    record {
      projects = projects;
      members = members;
      recorded = λ r. (
        append_evidence-IsChain libs call db1 actor p a t i c e d (rw audit r.0),
        (refl, refl, refl, refl, rw (audit, outbox) r.1),
      );
    }

-- The evidence and the idempotency record of a call that has changed other tables
pub stored-IsLogged :
    (libs : Libs) (call : Call) (db db1 : Db) (actor actor' : Actor)
    (project_id action aggregate_type aggregate_id category event_type : String) (details : Json)
    (project_id' route key hash : String) (response : Response) {db2 : Db}
    → db1.projects ≡ db.projects
    → db1.members ≡ db.members
    → db1.audit ≡ db.audit
    → db1.outbox ≡ db.outbox
    → store_idempotency call
        (append_evidence libs call db1 actor project_id action aggregate_type aggregate_id category
          event_type details)
        actor'
        project_id'
        route
        key
        hash
        response
      ≡ ok db2
    → IsLogged libs db db2 × (art_of db2 ≡ art_of db1)
unfolding append_evidence
stored-IsLogged libs call db db1 actor actor' p a t i c e d p' route key hash response projects
      members audit outbox h =
    let k =
      append_evidence-IsLogged libs call db db1 actor p a t i c e d projects members audit outbox in
    rw (store_idempotency-eq-ok call _ actor' p' route key hash response h)
      (record { projects = k.projects; members = k.members; recorded = k.recorded }, refl)

-- ===== src/Hub/Journal/Chain.antt =====
-- The audit events of each project, as a hash chain of their own.
use neuman.Prelude.{
  ◌≡◌, refl, ap, ◌∙◌, String, Option, none, some, List, [], ◌∷◌, ◌++◌, Bytes, codes, filter_by,
  str_eq, str_eq_iff, Bool-cases, inl, inr,
}
use neuman.Hub.{Json}
use neuman.Hub.Access.{Actor}
use neuman.Hub.Database.{AuditRow, Db, Call, Libs}
use neuman.Hub.Journal.{decimal, last_hash, audit_material, append_evidence}

-- Texts with one NUL between any two
abbrev nul_separated : List Bytes → Bytes
nul_separated [] = []
nul_separated (x ∷ []) = x
nul_separated (x ∷ y ∷ rest) = x ++ (0 ∷ nul_separated (y ∷ rest))

abbrev hash_text : Option String → Bytes
hash_text none = []
hash_text (some hash) = codes hash

-- Everything an event says, the hash of the event before it included
abbrev contents : AuditRow → Bytes
contents row = nul_separated (
    codes "neuman-audit-v1"
    ∷ hash_text row.previous_hash
    ∷ codes row.id
    ∷ codes row.project_id
    ∷ codes row.actor_principal_id
    ∷ codes row.action
    ∷ codes row.aggregate_type
    ∷ codes row.aggregate_id
    ∷ codes "success"
    ∷ codes row.details_json
    ∷ decimal row.occurred_at_ms
    ∷ [])

abbrev newest : List AuditRow → Option String
newest [] = none
newest (row ∷ rows) = some row.event_hash

-- Every event of a list, the newest first, names the hash of the one directly before it, the first
-- names none, and each has the hash of its contents.
abbrev IsLinked : Libs → List AuditRow → Type 0
IsLinked libs [] = Unit
IsLinked libs (row ∷ rows) =
    (row.previous_hash ≡ newest rows)
    × (row.event_hash ≡ libs.sha256_hex (contents row))
    × IsLinked libs rows

-- The events of one project
abbrev events_of : String → List AuditRow → List AuditRow
events_of project_id = filter_by (λ (row : AuditRow). str_eq row.project_id project_id)

-- The events of each project, without those of the others between them, are linked.
abbrev pub IsChain : Libs → List AuditRow → Type 0
IsChain libs rows = (project_id : String) → IsLinked libs (events_of project_id rows)

last_hash-newest :
    (rows : List AuditRow) (project_id : String)
    → last_hash rows project_id ≡ newest (events_of project_id rows)
unfolding last_hash
last_hash-newest [] project_id = refl
last_hash-newest (row ∷ rows) project_id = elim (Bool-cases (str_eq row.project_id project_id)) [
  | inl its ↦ rw its refl
  | inr other ↦ rw other (last_hash-newest rows project_id)
]

-- Where the events of each project are a hash chain, they still are after `append_evidence`.
pub append_evidence-IsChain :
    (libs : Libs) (call : Call) (db : Db) (actor : Actor)
    (project_id action aggregate_type aggregate_id category event_type : String) (details : Json)
    → IsChain libs db.audit
    → IsChain libs
        (append_evidence libs call db actor project_id action aggregate_type aggregate_id category
          event_type details).audit
unfolding append_evidence audit_material
append_evidence-IsChain libs call db actor p a t i c e d h q = elim (Bool-cases (str_eq p q)) [
  | inl its ↦ rw its (
    last_hash-newest db.audit p ∙ ap (λ r. newest (events_of r db.audit)) ((str_eq_iff p q).0 its),
    material (last_hash db.audit p),
    h q,
  )
  | inr other ↦ rw other (h q)
]
  where
    material :
        (previous : Option String)
        → libs.sha256_hex (
            audit_material previous call.audit_id p actor.principal_id a t i
              (libs.json_text d)
              call.evidence_now)
          ≡ libs.sha256_hex (
              contents (record {
                id = call.audit_id;
                project_id = p;
                actor_principal_id = actor.principal_id;
                action = a;
                aggregate_type = t;
                aggregate_id = i;
                details_json = libs.json_text d;
                occurred_at_ms = call.evidence_now;
                previous_hash = previous;
                event_hash = "";
              }))
    material none = refl
    material (some hash) = refl

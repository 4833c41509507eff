-- ===== src/Hub/Database.antt =====
-- The tables of the Hub that the handlers read and write, the inputs that a call draws from
-- outside (clock, UUIDs), and the two libraries that shape stored text.
use neuman.Prelude.{ℕ, String, Option, List, Bytes}
use neuman.Hub.{Json}
use neuman.Hub.Access.{ProjectRow, MembershipRow}
use neuman.Hub.Records.{
  Lease, LeaseBatch, ReleaseRecord, ReleaseApproval, ArtProposal, ArtReview, ArtRevision, Channel,
  Membership,
}

-- What a handler returned, as `response_json` keeps it.
pub data Response : Type 0 where
  lease_batch : LeaseBatch → Response
  lease : Lease → Response
  release : ReleaseRecord → Response
  approval : ReleaseApproval → Response
  proposal : ArtProposal → Response
  review : ArtReview → Response
  revision : ArtRevision → Response
  project : ProjectRow → Response
  membership : Membership → Response
  value : Json → Response

-- A row of `idempotency_records`
pub record IdempotencyRow : Type 0 where
  pub principal_id : String
  pub project_id : String
  pub route : String
  pub idempotency_key : String
  pub request_hash : String
  pub response : Response
  pub created_at_ms : ℕ
  pub expires_at_ms : ℕ

-- A row of `audit_events`; the sequence is the position in the table, newest first.
pub record AuditRow : Type 0 where
  pub id : String
  pub project_id : String
  pub actor_principal_id : String
  pub action : String
  pub aggregate_type : String
  pub aggregate_id : String
  pub details_json : String
  pub occurred_at_ms : ℕ
  pub previous_hash : Option String
  pub event_hash : String

-- A row of `outbox_events`, newest first
pub record OutboxRow : Type 0 where
  pub id : String
  pub project_id : String
  pub category : String
  pub event_type : String
  pub aggregate_id : String
  pub payload_json : String
  pub occurred_at_ms : ℕ

-- A row of `objects`, and of `project_objects`
pub record ObjectRow : Type 0 where
  pub content_hash : String
  pub size_bytes : ℕ
  pub media_type : String
  pub integrity_status : String

pub record ProjectObjectRow : Type 0 where
  pub project_id : String
  pub content_hash : String

-- A row of `principals`: what the members' handlers read of it
pub record PrincipalRow : Type 0 where
  pub id : String
  pub display_name : String

pub record Db : Type 0 where
  pub principals : List PrincipalRow
  pub projects : List ProjectRow
  pub members : List MembershipRow
  pub channels : List Channel
  pub proposals : List ArtProposal
  pub reviews : List ArtReview
  pub revisions : List ArtRevision
  pub leases : List Lease
  pub objects : List ObjectRow
  pub project_objects : List ProjectObjectRow
  pub releases : List ReleaseRecord
  pub approvals : List ReleaseApproval
  pub idempotency : List IdempotencyRow
  pub audit : List AuditRow
  pub outbox : List OutboxRow

-- What one call draws from outside: the readings of the clock by the handler, by
-- `append_evidence` and by `store_idempotency`, and the identifiers of `new_id`.
pub record Call : Type 0 where
  pub now : ℕ
  pub evidence_now : ℕ
  pub stored_now : ℕ
  pub new_id : ℕ → String
  pub audit_id : String
  pub event_id : String

-- `serde_json::to_string`, and SHA-256 in hex of the UTF-8 text with the given code points.
pub record Libs : Type 0 where
  pub json_text : Json → String
  pub sha256_hex : Bytes → String

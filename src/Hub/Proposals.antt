-- ===== src/Hub/Proposals.antt =====
-- The art proposals of hub.rs: the requests, the manifest, and the queries of the handlers, which
-- the children model. Each handler is a transaction: `ok` carries the committed database, and `err`
-- leaves it as it was. `request_hash` is `canonical_request_hash` of the request.
pub mod Manifest
pub mod Accept
pub mod Effects
pub mod Steps
pub mod History
pub mod Settled
pub mod Locks
pub mod Siblings
pub mod Duties
pub mod Review
pub mod Create
use neuman.Prelude.{
  ℕ, String, Bool, true, false, ◌&&◌, ◌||◌, Option, some, none, List, Bytes, any, find?, str_eq,
  Result, ok, ok_or, reject_if, ◌>>=◌, ◌>>◌,
}
use neuman.Hub.{HubError, Json, number, text, object, close, field, not_found}
use neuman.Hub.Access.{Actor, read, membership_role}
use neuman.Hub.Records.{ArtProposal, ArtReview, ArtRevision, Channel}
use neuman.Hub.Database.{Response, proposal, review, revision, ObjectRow, ProjectObjectRow, Db}
use neuman.Domain.Identifiers.{Uuids}
use neuman.Hub.Leases.{option_text}
use neuman.Hub.Leases.Acquire.{find_channel}

-- `struct CanonicalArtCell`
pub record CanonicalArtCell : Type 0 where
  pub cell_id : String
  pub parent_path : String
  pub content_hash : String
  pub size_bytes : ℕ

-- `struct CanonicalArtManifest`
pub record CanonicalArtManifest : Type 0 where
  pub schema_version : String
  pub project_id : String
  pub channel_id : String
  pub base_hub_revision_id : Option String
  pub base_state_root : Option String
  pub state_root : String
  pub source_session_id : String
  pub local_revision_id : String
  pub changed_cell_ids : List String
  pub cells : List CanonicalArtCell

-- What the proposals use from outside the repository: the files of the object directory, by the
-- components of their path; BLAKE3; `uuid`; and `serde_json` and `serde_jcs` at the manifest's type,
-- from and to bytes, and from and to the stored state of a revision.
pub record ArtLibs : Type 0 where
  pub read_file : List Bytes → Option Bytes
  pub blake3 : Bytes → Bytes
  pub uuids : Uuids
  pub from_slice : Bytes → Option CanonicalArtManifest
  pub to_jcs : CanonicalArtManifest → Bytes
  pub from_state : Json → Option CanonicalArtManifest
  pub to_state : CanonicalArtManifest → Json

-- `struct CreateArtProposalRequest`
pub record CreateArtProposalRequest : Type 0 where
  pub channel_id : String
  pub base_revision_id : Option String
  pub state_hash : String
  pub title : String
  pub description : String
  pub resource_ids : List String
  pub object_hashes : List String

-- `struct ReviewProposalRequest`
pub record ReviewProposalRequest : Type 0 where
  pub verdict : String
  pub body : String

-- `struct AcceptProposalRequest`
pub record AcceptProposalRequest : Type 0 where
  pub expected_head_revision_id : Option String

-- `struct RejectProposalRequest`
pub record RejectProposalRequest : Type 0 where
  pub reason : String

abbrev pub read_proposal : Response → Option ArtProposal
read_proposal (proposal p) = some p
read_proposal _ = none

abbrev pub read_review : Response → Option ArtReview
read_review (review r) = some r
read_review _ = none

abbrev pub read_revision : Response → Option ArtRevision
read_revision (revision r) = some r
read_revision _ = none

-- `SELECT EXISTS(… FROM project_objects WHERE project_id=?1 AND content_hash=?2)`
unfoldable pub is_authorized : Db → String → String → Bool
is_authorized db project_id hash =
    any (λ (r : ProjectObjectRow). str_eq r.project_id project_id && str_eq r.content_hash hash)
      db.project_objects

-- The verified row of `objects` that the project may use: the join of the two tables
unfoldable pub verified_object : Db → String → String → Option ObjectRow
unfolding is_authorized
verified_object db project_id hash =
    find?
      (λ (o : ObjectRow).
        str_eq o.content_hash hash
        && is_authorized db project_id o.content_hash
        && str_eq o.integrity_status "verified")
      db.objects

-- `WHERE id=?1 AND project_id=?2`
unfoldable pub is_proposal : String → String → ArtProposal → Bool
is_proposal proposal_id project_id p = str_eq p.id proposal_id && str_eq p.project_id project_id

unfoldable pub find_proposal : Db → String → String → Result HubError ArtProposal
unfolding is_proposal
find_proposal db proposal_id project_id =
    ok_or (find? (is_proposal proposal_id project_id) db.proposals)
      (not_found "HUB_ART_PROPOSAL_NOT_FOUND")

-- `get_art_proposal`
unfoldable pub get_art_proposal : Db → Actor → String → String → Result HubError ArtProposal
unfolding find_proposal
get_art_proposal db actor project_id proposal_id = do
  membership_role db.projects db.members actor project_id read
  find_proposal db proposal_id project_id

-- `get_art_revision`
unfoldable pub get_art_revision : Db → Actor → String → String → Result HubError ArtRevision
get_art_revision db actor project_id revision_id = do
  membership_role db.projects db.members actor project_id read
  ok_or
      (find? (λ (r : ArtRevision). str_eq r.id revision_id && str_eq r.project_id project_id)
        db.revisions)
      (not_found "HUB_ART_REVISION_NOT_FOUND")

-- `channel_head`
unfoldable pub channel_head : Db → Actor → String → String → Result HubError Json
channel_head db actor project_id channel_id = do
  membership_role db.projects db.members actor project_id read
  channel ← find_channel db channel_id project_id
  ok (
      object (
        field "channelId" (text channel_id) (
          field "headRevisionId" (option_text channel.head_revision_id)
            (field "version" (number channel.version) close))))

-- ===== src/Hub/Records.antt =====
-- The documents of hub.rs, which are also the rows of its tables. Times are milliseconds.
use neuman.Prelude.{ℕ, String, Option, List}
use neuman.Hub.{Json}
use neuman.Hub.Access.{Role}

-- `struct Lease`, with the two columns that only the table has
pub record Lease : Type 0 where
  pub id : String
  pub project_id : String
  pub channel_id : String
  pub resource_id : String
  pub base_revision_id : Option String
  pub workstream : String
  pub intended_action : String
  pub cell_hash : Option String
  pub holder_principal_id : String
  pub holder_session_id : String
  pub renewal_counter : ℕ
  pub acquired_at_ms : ℕ
  pub expires_at_ms : ℕ
  pub released_at_ms : Option ℕ
  pub release_reason : Option String
  pub outcome_reference : Option String

-- `struct LeaseBatch`
pub record LeaseBatch : Type 0 where
  pub leases : List Lease
  pub lease_duration_ms : ℕ
  pub renewal_target_ms : ℕ
  pub server_time_ms : ℕ

-- `struct ReleaseRecord`; the state is the text of the column
pub record ReleaseRecord : Type 0 where
  pub id : String
  pub project_id : String
  pub bundle_hash : String
  pub environment : String
  pub target : Json
  pub evidence : Json
  pub request_hash : String
  pub state : String
  pub created_by : String
  pub created_at_ms : ℕ
  pub updated_at_ms : ℕ

-- `struct ReleaseApproval`
pub record ReleaseApproval : Type 0 where
  pub id : String
  pub release_id : String
  pub principal_id : String
  pub request_hash : String
  pub evidence : Json
  pub created_at_ms : ℕ

-- `struct ArtProposal`
pub record ArtProposal : Type 0 where
  pub id : String
  pub project_id : String
  pub channel_id : String
  pub base_revision_id : Option String
  pub state_hash : String
  pub title : String
  pub description : String
  pub resource_ids : List String
  pub object_hashes : List String
  pub status : String
  pub created_by : String
  pub accepted_revision_id : Option String
  pub created_at_ms : ℕ
  pub updated_at_ms : ℕ

-- `struct ArtReview`
pub record ArtReview : Type 0 where
  pub id : String
  pub proposal_id : String
  pub principal_id : String
  pub verdict : String
  pub body : String
  pub created_at_ms : ℕ

-- `struct ArtRevision`
pub record ArtRevision : Type 0 where
  pub id : String
  pub project_id : String
  pub channel_id : String
  pub parent_revision_id : Option String
  pub proposal_id : String
  pub state_hash : String
  pub state : Json
  pub created_by : String
  pub created_at_ms : ℕ

-- A row of `art_channels`
pub record Channel : Type 0 where
  pub id : String
  pub project_id : String
  pub head_revision_id : Option String
  pub version : ℕ

-- `struct Membership`
pub record Membership : Type 0 where
  pub project_id : String
  pub principal_id : String
  pub display_name : String
  pub role : Role
  pub version : ℕ

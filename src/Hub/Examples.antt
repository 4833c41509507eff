-- ===== src/Hub/Examples.antt =====
-- Runs of the handlers of hub.rs on a small project.
pub mod Studio
pub mod ProposalRuns
pub mod ProposalLaws
pub mod ManifestLaws
pub mod LeaseRuns
pub mod ReleaseRuns
pub mod GuardRuns
pub mod ProjectRuns
use neuman.Prelude.{
  ℕ, zero, suc, ◌+◌, String, Bytes, Option, some, none, List, [], ◌∷◌, Result, ok, err, text_append,
}
use neuman.Hub.{HubError, Json, object, close}
use neuman.Hub.Access.{Actor, MembershipRow}
use neuman.Hub.Database.{Db, Call, Libs}
use neuman.Hub.Leases.{AcquireLeaseBatchRequest, RenewLeaseRequest}
use neuman.Hub.Releases.{CreateReleaseRequest, ApproveReleaseRequest, ReleaseActionRequest}

-- The value of a result, where there is one
abbrev pub value_or {ℓ} : {A : Type ℓ} → Result HubError A → A → A
value_or (ok a) b = a
value_or (err e) b = b

abbrev pub libs : Libs
libs = record { json_text = λ _. "{}"; sha256_hex = λ _. "digest" }

abbrev suffix : ℕ → String
suffix zero = "_0"
suffix (suc n) = "_1"

abbrev pub call_at : ℕ → String → Call
call_at now prefix = record {
  now = now;
  evidence_now = now;
  stored_now = now;
  new_id = λ i. text_append prefix (suffix i);
  audit_id = text_append prefix "_audit";
  event_id = text_append prefix "_event";
}

abbrev pub ana : Actor
ana = record { principal_id = "ana"; session_id = "s1" }

abbrev pub ben : Actor
ben = record { principal_id = "ben"; session_id = "s2" }

abbrev member : String → String → MembershipRow
member principal_id role = record {
  project_id = "p";
  principal_id = principal_id;
  role = role;
  version = 1;
  created_at_ms = 0;
  updated_at_ms = 0;
}

-- One open project with an administrator and an artist, and a channel without a head
abbrev pub start_db : Db
start_db = record {
  principals =
      record { id = "ana"; display_name = "Ana" }
      ∷ record { id = "ben"; display_name = "Ben" }
      ∷ [];
  projects =
      record {
        id = "p";
        name = "Lobby";
        slug = "lobby";
        default_channel_id = "main";
        archived_at_ms = none;
        version = 1;
        created_at_ms = 0;
        updated_at_ms = 0;
      }
      ∷ [];
  members = member "ana" "admin" ∷ member "ben" "artist" ∷ [];
  channels = record { id = "main"; project_id = "p"; head_revision_id = none; version = 1 } ∷ [];
  proposals = [];
  reviews = [];
  revisions = [];
  leases = [];
  objects = [];
  project_objects = [];
  releases = [];
  approvals = [];
  idempotency = [];
  audit = [];
  outbox = [];
}

abbrev pub lease_request : AcquireLeaseBatchRequest
lease_request = record {
  channel_id = "main";
  resource_ids = "cell_b" ∷ "cell_a" ∷ [];
  base_revision_id = none;
  workstream = "lobby";
  intended_action = "edit";
  cell_hashes = [];
}

abbrev pub renew_request : RenewLeaseRequest
renew_request = record { renewal_counter = 0; base_revision_id = none; cell_hash = none }

abbrev pub release_request : CreateReleaseRequest
release_request = record {
  bundle_hash = "sha256:0123456789";
  environment = "staging";
  target = object close;
  evidence = object close;
}

abbrev pub approve_request : ApproveReleaseRequest
approve_request = record { request_hash = "h1"; evidence = object close }

abbrev pub action_request : ReleaseActionRequest
action_request = record { expected_request_hash = "h1"; evidence = object close }

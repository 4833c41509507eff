-- ===== src/Hub/Examples/Studio.antt =====
-- A small project of hub.rs with an art manifest of one cell, and libraries to run it with.
use neuman.Prelude.{ℕ, ◌+◌, ◌-◌, ◌%◌, String, some, none, [], ◌∷◌, Bytes, get_or, length, replicate}
use neuman.Hub.{null}
use neuman.Hub.Records.{ArtProposal}
use neuman.Hub.Database.{Db}
use neuman.Hub.Leases.{AcquireLeaseBatchRequest}
use neuman.Hub.Proposals.{
  CanonicalArtManifest, ArtLibs, CreateArtProposalRequest, AcceptProposalRequest,
  ReviewProposalRequest, RejectProposalRequest,
}
use neuman.Hub.Examples.{start_db}

abbrev pub cell_hash : String
cell_hash = "b3-256:aaaaaaaaaaaaaaaaaaaaaaaaaaaaaaaaaaaaaaaaaaaaaaaaaaaa"

abbrev pub manifest_hash : String
manifest_hash = "b3-256:pn5xw633pn5xw633pn5xw633pn5xw633pn5xw633pn5xw633pn5q"

abbrev pub root_text : String
root_text = "b3-256:nzxg43tonzxg43tonzxg43tonzxg43tonzxg43tonzxg43tonzxa"

abbrev pub manifest : CanonicalArtManifest
manifest = record {
  schema_version = "dev.neuman.hub-art-manifest/v1";
  project_id = "p";
  channel_id = "main";
  base_hub_revision_id = none;
  base_state_root = none;
  state_root = root_text;
  source_session_id = "ses_0001";
  local_revision_id = "art_0001";
  changed_cell_ids = "cell_aaaa" ∷ [];
  cells =
      record {
        cell_id = "cell_aaaa";
        parent_path = "/Workspace";
        content_hash = cell_hash;
        size_bytes = 5;
      }
      ∷ [];
}

-- A hash that sees one byte, and UUIDs that are written in unary
abbrev pub toy_blake3 : Bytes → Bytes
toy_blake3 m = replicate 32 (get_or m 0 0 % 256)

abbrev pub toy_hyphenated : ℕ → Bytes
toy_hyphenated n = replicate (n + 4) b'a'

abbrev pub art_libs : ArtLibs
art_libs = record {
  read_file = λ _. some (b'{' ∷ []);
  blake3 = toy_blake3;
  uuids = record {
    parse_str = λ raw. some (length raw - 4);
    hyphenated = toy_hyphenated;
    version = λ _. 4;
  };
  from_slice = λ _. some manifest;
  to_jcs = λ _. b'{' ∷ [];
  from_state = λ _. some manifest;
  to_state = λ _. null;
}

abbrev pub studio_db : Db
studio_db = record start_db {
  objects =
      record {
        content_hash = cell_hash;
        size_bytes = 5;
        media_type = "application/x-roblox-rbxm";
        integrity_status = "verified";
      }
      ∷ record {
        content_hash = manifest_hash;
        size_bytes = 1;
        media_type = "application/vnd.neuman.art-manifest+json";
        integrity_status = "verified";
      }
      ∷ [];
  project_objects =
      record { project_id = "p"; content_hash = cell_hash }
      ∷ record { project_id = "p"; content_hash = manifest_hash }
      ∷ [];
}

abbrev pub cell_lease_request : AcquireLeaseBatchRequest
cell_lease_request = record {
  channel_id = "main";
  resource_ids = "cell_aaaa" ∷ [];
  base_revision_id = none;
  workstream = "lobby";
  intended_action = "edit";
  cell_hashes = [];
}

abbrev pub proposal_request : CreateArtProposalRequest
proposal_request = record {
  channel_id = "main";
  base_revision_id = none;
  state_hash = root_text;
  title = " Lobby ";
  description = "";
  resource_ids = "cell_aaaa" ∷ [];
  object_hashes = cell_hash ∷ manifest_hash ∷ [];
}

abbrev pub review_request : ReviewProposalRequest
review_request = record { verdict = "approve"; body = "" }

abbrev pub accept_request : AcceptProposalRequest
accept_request = record { expected_head_revision_id = none }

abbrev pub reject_request : RejectProposalRequest
reject_request = record { reason = "superseded" }

abbrev pub open_proposal : String → ArtProposal
open_proposal id = record {
  id = id;
  project_id = "p";
  channel_id = "main";
  base_revision_id = none;
  state_hash = root_text;
  title = "Lobby";
  description = "";
  resource_ids = "cell_aaaa" ∷ [];
  object_hashes = cell_hash ∷ manifest_hash ∷ [];
  status = "open";
  created_by = "ben";
  accepted_revision_id = none;
  created_at_ms = 2000;
  updated_at_ms = 2000;
}

-- Two open proposals of the artist on one base, and his lease on their cell
abbrev pub rivals_db : Db
rivals_db = record studio_db {
  proposals = open_proposal "b_0" ∷ open_proposal "c_0" ∷ [];
  leases =
      record {
        id = "a_0";
        project_id = "p";
        channel_id = "main";
        resource_id = "cell_aaaa";
        base_revision_id = none;
        workstream = "lobby";
        intended_action = "edit";
        cell_hash = none;
        holder_principal_id = "ben";
        holder_session_id = "s2";
        renewal_counter = 0;
        acquired_at_ms = 1000;
        expires_at_ms = 121000;
        released_at_ms = none;
        release_reason = none;
        outcome_reference = none;
      }
      ∷ [];
}

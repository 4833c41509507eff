-- ===== src/Hub/Proposals/Create.antt =====
-- `create_art_proposal` of hub.rs.
use Prim.Native.Char.{code}
use neuman.Prelude.{
  String, not, none, List, [], ◌∷◌, any, all, if◌then◌else◌, str_eq, Result, ok, reject_if, ◌>>=◌,
  ◌>>◌,
}
use neuman.Hub.{HubError, hub_error, internal, text, object, field, close}
use neuman.Hub.Access.{Actor, propose_art, membership_role}
use neuman.Hub.Records.{ArtProposal}
use neuman.Hub.Database.{proposal, Db, Call, Libs}
use neuman.Hub.Journal.{check_idempotency, or_replay, store_idempotency, append_evidence}
use neuman.Hub.Validation.{
  is_whitespace, validate_name, validate_hash_label, validate_content_hash, sorted_unique,
}
use neuman.Hub.Leases.{option_eq, base_stale}
use neuman.Hub.Leases.Acquire.{find_channel}
use neuman.Hub.Proposals.{ArtLibs, CreateArtProposalRequest, read_proposal, is_authorized}
use neuman.Hub.Proposals.Manifest.Validate.{validate_canonical_art_proposal}

unfoldable pub trim_start : String → String
unfolding is_whitespace
trim_start String.[] = String.[]
trim_start (String.◌∷◌ c s) = if is_whitespace (code c) then trim_start s else String.◌∷◌ c s

unfoldable pub reverse_onto : String → String → String
reverse_onto String.[] out = out
reverse_onto (String.◌∷◌ c s) out = reverse_onto s (String.◌∷◌ c out)

-- `str::trim`, as a text
unfoldable pub trim_text : String → String
unfolding trim_start reverse_onto
trim_text s = reverse_onto (trim_start (reverse_onto (trim_start s) String.[])) String.[]

-- `for hash in &object_hashes { validate_content_hash(hash)?; }`
unfoldable pub validate_hashes : List String → Result HubError (Unit {0})
validate_hashes [] = ok tt
validate_hashes (hash ∷ hashes) = do validate_content_hash hash; validate_hashes hashes

-- The request with its sorted resources and objects
unfoldable pub normalized :
    CreateArtProposalRequest → List String → List String → CreateArtProposalRequest
normalized request resources object_hashes = record {
  channel_id = request.channel_id;
  base_revision_id = request.base_revision_id;
  state_hash = request.state_hash;
  title = request.title;
  description = request.description;
  resource_ids = resources;
  object_hashes = object_hashes;
}

unfoldable pub new_proposal : Call → Actor → String → CreateArtProposalRequest → ArtProposal
unfolding trim_text
new_proposal call actor project_id request = record {
  id = call.new_id 0;
  project_id = project_id;
  channel_id = request.channel_id;
  base_revision_id = request.base_revision_id;
  state_hash = request.state_hash;
  title = trim_text request.title;
  description = request.description;
  resource_ids = request.resource_ids;
  object_hashes = request.object_hashes;
  status = "open";
  created_by = actor.principal_id;
  accepted_revision_id = none;
  created_at_ms = call.now;
  updated_at_ms = call.now;
}

-- The writes of `create_art_proposal`. The insert fails where the id is taken.
unfoldable pub insert_proposal :
    Libs
    → Call
    → Db
    → Actor
    → String
    → String
    → ArtProposal
    → String
    → Result HubError (Db × ArtProposal)
insert_proposal libs call db actor project_id key p request_hash = do
  reject_if (any (λ (row : ArtProposal). str_eq row.id p.id) db.proposals) internal
  let db1 =
      append_evidence libs call (record db { proposals = p ∷ db.proposals }) actor project_id
        "art_proposal.created" "art_proposal" p.id "art" "art.proposal.created"
        (object (field "proposalId" (text p.id) (field "channelId" (text p.channel_id) close)))
  db2 ←
      store_idempotency call db1 actor project_id "art_proposals.create" key request_hash
        (proposal p)
  ok (db2, p)

-- `create_art_proposal` once the key is known to be new, of the normalized request
unfoldable pub create_new :
    Libs
    → ArtLibs
    → Call
    → Db
    → Actor
    → String
    → String
    → CreateArtProposalRequest
    → String
    → Result HubError (Db × ArtProposal)
unfolding new_proposal insert_proposal
create_new libs art call db actor project_id key request request_hash = do
  channel ← find_channel db request.channel_id project_id
  reject_if (not (option_eq channel.head_revision_id request.base_revision_id)) (
      base_stale "The proposal base is not the current accepted channel head."
        channel.head_revision_id)
  reject_if (not (all (is_authorized db project_id) request.object_hashes)) (
      hub_error 412 "HUB_OBJECT_MISSING"
        "Every proposal object must be uploaded and authorized for the project.")
  validate_canonical_art_proposal art db project_id request channel.head_revision_id
  insert_proposal libs call db actor project_id key (new_proposal call actor project_id request)
      request_hash

-- `create_art_proposal`
unfoldable pub create_art_proposal :
    Libs
    → ArtLibs
    → Call
    → Db
    → Actor
    → String
    → String
    → CreateArtProposalRequest
    → String
    → Result HubError (Db × ArtProposal)
unfolding validate_hashes normalized create_new or_replay
create_art_proposal libs art call db actor project_id key request request_hash = do
  membership_role db.projects db.members actor project_id propose_art
  validate_name request.title 1 160 "Proposal title"
  validate_hash_label request.state_hash "stateHash"
  resources ← sorted_unique request.resource_ids "resourceIds"
  object_hashes ← sorted_unique request.object_hashes "objectHashes"
  validate_hashes object_hashes
  membership_role db.projects db.members actor project_id propose_art
  replay ←
      check_idempotency read_proposal db actor project_id "art_proposals.create" key request_hash
  or_replay db replay (
      create_new libs art call db actor project_id key (normalized request resources object_hashes)
        request_hash)

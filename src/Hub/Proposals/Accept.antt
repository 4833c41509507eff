-- ===== src/Hub/Proposals/Accept.antt =====
-- `accept_art_proposal` of hub.rs.
pub mod Commit
use neuman.Prelude.{
  ℕ, suc, String, Bool, not, ◌&&◌, ◌||◌, ◌==◌, Option, some, none, List, [], ◌∷◌, any, all, find?,
  count_where, update_where, str_eq, if◌then◌else◌, Result, ok, err, ok_or, reject_if, ◌>>=◌, ◌>>◌,
}
use neuman.Hub.{HubError, hub_error, with_details, not_found, internal, text, object, field, close}
use neuman.Hub.Access.{Actor, accept_art, is_admin, membership_role}
use neuman.Hub.Records.{ArtProposal, ArtReview, ArtRevision, Channel, Lease}
use neuman.Hub.Database.{revision, Db, Call, Libs}
use neuman.Hub.Journal.{check_idempotency, or_replay, store_idempotency, append_evidence}
use neuman.Hub.Leases.{is_open, is_active, covers, option_eq, option_text, base_stale}
use neuman.Hub.Proposals.{
  CanonicalArtManifest, ArtLibs, CreateArtProposalRequest, AcceptProposalRequest, read_revision,
  verified_object, find_proposal,
}
use neuman.Hub.Proposals.Manifest.Validate.{validate_canonical_art_proposal}

-- `SELECT head_revision_id FROM art_channels`, whose failure is an internal error here
unfoldable pub current_channel : Db → String → String → Result HubError Channel
current_channel db channel_id project_id =
    ok_or
      (find? (λ (c : Channel). str_eq c.id channel_id && str_eq c.project_id project_id)
        db.channels)
      internal

abbrev pub is_verified : Db → String → String → Bool
is_verified db project_id hash = elim (verified_object db project_id hash) [
  | none ↦ Bool.false
  | some _ ↦ Bool.true
]

-- The request that a stored proposal stands for
abbrev pub request_of : ArtProposal → CreateArtProposalRequest
request_of p = record {
  channel_id = p.channel_id;
  base_revision_id = p.base_revision_id;
  state_hash = p.state_hash;
  title = p.title;
  description = p.description;
  resource_ids = p.resource_ids;
  object_hashes = p.object_hashes;
}

-- The `WHERE` of the query for a lease of the proposal's author on a resource
unfoldable pub is_author_lease : ℕ → String → ArtProposal → String → Lease → Bool
unfolding covers is_active
is_author_lease now project_id p resource l =
    covers project_id p.channel_id resource l
    && str_eq l.holder_principal_id p.created_by
    && is_active now l
    && option_eq l.base_revision_id p.base_revision_id

-- `for resource in &proposal.resource_ids`, before the writes
unfoldable pub check_leases :
    ℕ → String → ArtProposal → List Lease → List String → Result HubError (Unit {0})
unfolding is_author_lease
check_leases now project_id p leases [] = ok tt
check_leases now project_id p leases (resource ∷ rest) = do
  reject_if (not (any (is_author_lease now project_id p resource) leases)) (
      with_details
        (hub_error 409 "HUB_LOCK_CONFLICT"
          "Every changed protected resource requires an unexpired proposal-author lease.")
        (object (field "resourceId" (text resource) close)))
  check_leases now project_id p leases rest

abbrev pub is_approving : String → ArtReview → Bool
is_approving proposal_id r = str_eq r.proposal_id proposal_id && str_eq r.verdict "approve"

-- The checks of an acceptance for an open proposal, in order; the manifest is the new state.
unfoldable pub check_acceptance :
    ArtLibs
    → Call
    → Db
    → Actor
    → String
    → String
    → ArtProposal
    → Option String
    → Result HubError CanonicalArtManifest
unfolding check_leases
check_acceptance art call db actor project_id proposal_id p current_head = do
  reject_if (not (all (is_verified db project_id) p.object_hashes)) (
      hub_error 412 "HUB_OBJECT_MISSING"
        "An accepted revision cannot reference missing or unverified objects.")
  manifest ← validate_canonical_art_proposal art db project_id (request_of p) current_head
  check_leases call.now project_id p db.leases p.resource_ids
  role ← membership_role db.projects db.members actor project_id accept_art
  reject_if (not (any (is_approving proposal_id) db.reviews) && not (is_admin role)) (
      hub_error 412 "HUB_APPROVAL_REQUIRED"
        "This proposal needs an approving review before acceptance.")
  ok manifest

abbrev pub new_revision :
    ArtLibs
    → Call
    → Actor
    → String
    → String
    → ArtProposal
    → Option String
    → CanonicalArtManifest
    → ArtRevision
new_revision art call actor project_id proposal_id p current_head manifest = record {
  id = call.new_id 0;
  project_id = project_id;
  channel_id = p.channel_id;
  parent_revision_id = current_head;
  proposal_id = proposal_id;
  state_hash = p.state_hash;
  state = art.to_state manifest;
  created_by = actor.principal_id;
  created_at_ms = call.now;
}

-- The `WHERE` of the compare-and-swap of the channel's head
unfoldable pub is_at_head : ArtRevision → Channel → Bool
is_at_head r c =
    str_eq c.id r.channel_id
    && str_eq c.project_id r.project_id
    && option_eq c.head_revision_id r.parent_revision_id

unfoldable pub advanced : ArtRevision → Channel → Channel
advanced r c = record c { head_revision_id = some r.id; version = suc c.version }

-- `WHERE id=?3 AND status='open'`
unfoldable pub is_open_proposal : String → ArtProposal → Bool
is_open_proposal proposal_id p = str_eq p.id proposal_id && str_eq p.status "open"

unfoldable pub accepted : Call → String → ArtProposal → ArtProposal
accepted call revision_id p = record p {
  status = "accepted";
  accepted_revision_id = some revision_id;
  updated_at_ms = call.now;
}

-- The release of the author's leases on a resource
unfoldable pub is_spent : String → ArtProposal → String → Lease → Bool
unfolding covers is_open
is_spent project_id p resource l =
    covers project_id p.channel_id resource l
    && str_eq l.holder_principal_id p.created_by
    && is_open l

unfoldable pub spent : Call → String → Lease → Lease
spent call revision_id l = record l {
  released_at_ms = some call.now;
  release_reason = some "proposal accepted";
  outcome_reference = some revision_id;
}

-- `for resource in &proposal.resource_ids`, after the head has advanced
unfoldable pub release_all :
    Call → String → ArtProposal → String → List String → List Lease → List Lease
unfolding is_spent spent
release_all call project_id p revision_id [] table = table
release_all call project_id p revision_id (resource ∷ rest) table =
    release_all call project_id p revision_id rest
      (update_where (is_spent project_id p resource) (spent call revision_id) table)

-- ===== src/Hub/Proposals/Accept/Commit.antt =====
-- The writes of `accept_art_proposal` of hub.rs, and the handler.
use neuman.Prelude.{
  String, not, ◌||◌, ◌==◌, Option, ◌∷◌, any, count_where, update_where, str_eq, Result, ok,
  reject_if, ◌>>=◌, ◌>>◌,
}
use neuman.Hub.{HubError, hub_error, internal, text, object, field, close}
use neuman.Hub.Access.{Actor, accept_art, membership_role}
use neuman.Hub.Records.{ArtProposal, ArtRevision}
use neuman.Hub.Database.{revision, Db, Call, Libs}
use neuman.Hub.Journal.{check_idempotency, or_replay, store_idempotency, append_evidence}
use neuman.Hub.Leases.{option_eq, option_text, base_stale}
use neuman.Hub.Proposals.{ArtLibs, AcceptProposalRequest, read_revision, find_proposal}
use neuman.Hub.Proposals.Accept.{
  current_channel, check_acceptance, new_revision, is_at_head, advanced, is_open_proposal, accepted,
  release_all,
}

-- The tables after the four writes
abbrev pub accepted_tables : Call → Db → String → ArtProposal → ArtRevision → Db
accepted_tables call db project_id p r = record db {
  revisions = r ∷ db.revisions;
  channels = update_where (is_at_head r) (advanced r) db.channels;
  proposals = update_where (is_open_proposal r.proposal_id) (accepted call r.id) db.proposals;
  leases = release_all call project_id p r.id p.resource_ids db.leases;
}

-- The writes for a revision of a proposal. The insert fails where the id, or the proposal, has a
-- revision already.
unfoldable pub commit_revision :
    Libs
    → Call
    → Db
    → Actor
    → String
    → String
    → String
    → ArtProposal
    → ArtRevision
    → Result HubError (Db × ArtRevision)
unfolding is_at_head advanced is_open_proposal accepted release_all
commit_revision libs call db actor project_id key request_hash p r = do
  reject_if
      (any (λ (row : ArtRevision). str_eq row.id r.id || str_eq row.proposal_id r.proposal_id)
        db.revisions)
      internal
  reject_if (not (count_where (is_at_head r) db.channels == 1))
      (hub_error 409 "HUB_VERSION_CONFLICT" "Accepted-head compare-and-swap failed.")
  let db1 =
      append_evidence libs call (accepted_tables call db project_id p r) actor project_id
        "art_proposal.accepted" "art_revision" r.id "art" "art.channel.head_changed"
        (object (
          field "proposalId" (text r.proposal_id) (
            field "revisionId" (text r.id) (
              field "previousHeadRevisionId" (option_text r.parent_revision_id)
                (field "stateHash" (text r.state_hash) close)))))
  db2 ←
      store_idempotency call db1 actor project_id "art_proposals.accept" key request_hash
        (revision r)
  ok (db2, r)

-- `accept_art_proposal` for the open proposal and the channel that the queries found
unfoldable pub accept_found :
    Libs
    → ArtLibs
    → Call
    → Db
    → Actor
    → String
    → String
    → String
    → AcceptProposalRequest
    → String
    → ArtProposal
    → Option String
    → Result HubError (Db × ArtRevision)
unfolding check_acceptance commit_revision
accept_found libs art call db actor project_id proposal_id key request request_hash p head = do
  reject_if
      (not (option_eq head request.expected_head_revision_id)
        || not (option_eq head p.base_revision_id))
      (base_stale "The accepted channel head changed; rebase or merge the proposal." head)
  manifest ← check_acceptance art call db actor project_id proposal_id p head
  commit_revision libs call db actor project_id key request_hash p
      (new_revision art call actor project_id proposal_id p head manifest)

-- `accept_art_proposal` once the key is known to be new
unfoldable pub accept_new :
    Libs
    → ArtLibs
    → Call
    → Db
    → Actor
    → String
    → String
    → String
    → AcceptProposalRequest
    → String
    → Result HubError (Db × ArtRevision)
unfolding find_proposal current_channel accept_found
accept_new libs art call db actor project_id proposal_id key request request_hash = do
  p ← find_proposal db proposal_id project_id
  reject_if (not (str_eq p.status "open"))
      (hub_error 409 "HUB_VERSION_CONFLICT" "Only an open proposal can be accepted.")
  channel ← current_channel db p.channel_id project_id
  accept_found libs art call db actor project_id proposal_id key request request_hash p
      channel.head_revision_id

-- `accept_art_proposal`
unfoldable pub accept_art_proposal :
    Libs
    → ArtLibs
    → Call
    → Db
    → Actor
    → String
    → String
    → String
    → AcceptProposalRequest
    → String
    → Result HubError (Db × ArtRevision)
unfolding accept_new or_replay
accept_art_proposal libs art call db actor project_id proposal_id key request request_hash = do
  membership_role db.projects db.members actor project_id accept_art
  membership_role db.projects db.members actor project_id accept_art
  replay ←
      check_idempotency read_revision db actor project_id "art_proposals.accept" key request_hash
  or_replay db replay
      (accept_new libs art call db actor project_id proposal_id key request request_hash)

-- ===== src/Hub/Proposals/Review.antt =====
-- `review_art_proposal` and `reject_art_proposal` of hub.rs.
use neuman.Prelude.{
  String, Bool, not, ◌&&◌, ◌||◌, ◌==◌, ◌∷◌, any, find?, count_where, update_where, str_eq, Result,
  ok, ok_or, reject_if, ◌>>=◌, ◌>>◌, List,
}
use neuman.Hub.{HubError, hub_error, invalid, internal, text, object, field, close}
use neuman.Hub.Access.{Actor, accept_art, membership_role}
use neuman.Hub.Records.{ArtProposal, ArtReview}
use neuman.Hub.Database.{proposal, review, Db, Call, Libs}
use neuman.Hub.Journal.{check_idempotency, or_replay, store_idempotency, append_evidence}
use neuman.Hub.Validation.{validate_name}
use neuman.Hub.Proposals.{
  ReviewProposalRequest, RejectProposalRequest, read_proposal, read_review, is_proposal,
  find_proposal,
}

abbrev pub known_verdict : String → Bool
known_verdict v = str_eq v "approve" || str_eq v "request_changes" || str_eq v "comment"

abbrev pub new_review : Call → Actor → String → ReviewProposalRequest → ArtReview
new_review call actor proposal_id request = record {
  id = call.new_id 0;
  proposal_id = proposal_id;
  principal_id = actor.principal_id;
  verdict = request.verdict;
  body = request.body;
  created_at_ms = call.now;
}

-- `review_art_proposal` once the key is known to be new
unfoldable pub review_new :
    Libs
    → Call
    → Db
    → Actor
    → String
    → String
    → String
    → ReviewProposalRequest
    → String
    → Result HubError (Db × ArtReview)
unfolding find_proposal
review_new libs call db actor project_id proposal_id key request request_hash = do
  p ← find_proposal db proposal_id project_id
  reject_if (not (str_eq p.status "open"))
      (hub_error 409 "HUB_VERSION_CONFLICT" "Only open proposals can be reviewed.")
  let r = new_review call actor proposal_id request
  reject_if (any (λ (row : ArtReview). str_eq row.id r.id) db.reviews) internal
  let db1 =
      append_evidence libs call (record db { reviews = r ∷ db.reviews }) actor project_id
        "art_proposal.reviewed" "art_proposal" proposal_id "art" "art.proposal.reviewed"
        (object (field "proposalId" (text proposal_id) (field "verdict" (text r.verdict) close)))
  db2 ←
      store_idempotency call db1 actor project_id "art_proposals.review" key request_hash (review r)
  ok (db2, r)

-- `review_art_proposal`
unfoldable pub review_art_proposal :
    Libs
    → Call
    → Db
    → Actor
    → String
    → String
    → String
    → ReviewProposalRequest
    → String
    → Result HubError (Db × ArtReview)
unfolding review_new or_replay
review_art_proposal libs call db actor project_id proposal_id key request request_hash = do
  membership_role db.projects db.members actor project_id accept_art
  reject_if (not (known_verdict request.verdict)) (invalid "Unknown proposal review verdict.")
  membership_role db.projects db.members actor project_id accept_art
  replay ← check_idempotency read_review db actor project_id "art_proposals.review" key request_hash
  or_replay db replay
      (review_new libs call db actor project_id proposal_id key request request_hash)

-- `WHERE id=?2 AND project_id=?3 AND status='open'`
unfoldable pub is_rejectable : String → String → ArtProposal → Bool
unfolding is_proposal
is_rejectable proposal_id project_id p =
    is_proposal proposal_id project_id p && str_eq p.status "open"

unfoldable pub rejected : Call → ArtProposal → ArtProposal
rejected call p = record p { status = "rejected"; updated_at_ms = call.now }

-- The row that the handler reads back
unfoldable pub read_back : List ArtProposal → String → Result HubError ArtProposal
read_back table proposal_id =
    ok_or (find? (λ (p : ArtProposal). str_eq p.id proposal_id) table) internal

-- `reject_art_proposal` once the key is known to be new
unfoldable pub reject_new :
    Libs
    → Call
    → Db
    → Actor
    → String
    → String
    → String
    → RejectProposalRequest
    → String
    → Result HubError (Db × ArtProposal)
unfolding is_rejectable rejected read_back
reject_new libs call db actor project_id proposal_id key request request_hash = do
  let matches = is_rejectable proposal_id project_id
  reject_if (not (count_where matches db.proposals == 1))
      (hub_error 409 "HUB_VERSION_CONFLICT" "Only an open proposal can be rejected.")
  let table = update_where matches (rejected call) db.proposals
  p ← read_back table proposal_id
  let db1 =
      append_evidence libs call (record db { proposals = table }) actor project_id
        "art_proposal.rejected" "art_proposal" proposal_id "art" "art.proposal.rejected"
        (object
          (field "proposalId" (text proposal_id) (field "reason" (text request.reason) close)))
  db2 ←
      store_idempotency call db1 actor project_id "art_proposals.reject" key request_hash
        (proposal p)
  ok (db2, p)

-- `reject_art_proposal`
unfoldable pub reject_art_proposal :
    Libs
    → Call
    → Db
    → Actor
    → String
    → String
    → String
    → RejectProposalRequest
    → String
    → Result HubError (Db × ArtProposal)
unfolding reject_new or_replay
reject_art_proposal libs call db actor project_id proposal_id key request request_hash = do
  membership_role db.projects db.members actor project_id accept_art
  validate_name request.reason 3 512 "reason"
  membership_role db.projects db.members actor project_id accept_art
  replay ←
      check_idempotency read_proposal db actor project_id "art_proposals.reject" key request_hash
  or_replay db replay
      (reject_new libs call db actor project_id proposal_id key request request_hash)

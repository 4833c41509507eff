-- ===== src/Hub/Proposals/Steps.antt =====
-- The committed calls of the proposal handlers of hub.rs, and what each changes.
use neuman.Prelude.{◌≡◌, ap, String, not, ok, >>=-eq-ok, reject_if-then-eq-ok, inl, inr}
use neuman.Hub.Access.{Actor, membership_role}
use neuman.Hub.Records.{ArtProposal, ArtReview, ArtRevision}
use neuman.Hub.Database.{Db, Call, Libs}
use neuman.Hub.Journal.{check_idempotency}
use neuman.Hub.Journal.Replay.{or_replay-eq-ok}
use neuman.Hub.Validation.{validate_name, validate_hash_label, sorted_unique}
use neuman.Hub.Proposals.{
  ArtLibs, CreateArtProposalRequest, ReviewProposalRequest, AcceptProposalRequest,
  RejectProposalRequest, read_proposal, read_review, read_revision,
}
use neuman.Hub.Proposals.Create.{validate_hashes, normalized, create_art_proposal}
use neuman.Hub.Proposals.Review.{
  known_verdict, new_review, review_art_proposal, reject_art_proposal,
}
use neuman.Hub.Proposals.Accept.Commit.{accept_art_proposal}
use neuman.Hub.Proposals.Effects.{
  art_of, IsCreation, IsReview, IsRejection, IsAcceptance, create_new-IsCreation,
  review_new-IsReview, reject_new-IsRejection,
}
use neuman.Hub.Proposals.Effects.Acceptance.{accept_new-IsAcceptance}

-- What a committed call does to the tables of the art: nothing, if it replays a response, or one of
-- the four changes.
pub data Change (db db' : Db) : Type 0 where
  unchanged : art_of db' ≡ art_of db → Change db db'
  created : (project_id : String) (p : ArtProposal) → IsCreation db db' project_id p → Change db db'
  reviewed : (project_id : String) (r : ArtReview) → IsReview db db' project_id r → Change db db'
  rejected :
      (call : Call) (project_id proposal_id : String)
      → IsRejection db db' call project_id proposal_id
      → Change db db'
  accepted :
      (art : ArtLibs) (call : Call) (actor : Actor) (project_id : String) (p : ArtProposal)
      (r : ArtRevision)
      → IsAcceptance art db db' call actor project_id p r
      → Change db db'

pub create_art_proposal-Change :
    (libs : Libs) (art : ArtLibs) (call : Call) (db : Db) (actor : Actor) (project_id key : String)
    (request : CreateArtProposalRequest) (q : String) {out : Db × ArtProposal}
    → create_art_proposal libs art call db actor project_id key request q ≡ ok out
    → Change db out.0
unfolding create_art_proposal
create_art_proposal-Change libs art call db actor p key request q {out} h =
    let (_, _, h1) = >>=-eq-ok (membership_role _ _ _ _ _) _ h in
    let (_, _, h2) = >>=-eq-ok (validate_name request.title 1 160 "Proposal title") _ h1 in
    let (_, _, h3) = >>=-eq-ok (validate_hash_label request.state_hash "stateHash") _ h2 in
    let (rs, _, h4) = >>=-eq-ok (sorted_unique request.resource_ids "resourceIds") _ h3 in
    let (os, _, h5) = >>=-eq-ok (sorted_unique request.object_hashes "objectHashes") _ h4 in
    let (_, _, h6) = >>=-eq-ok (validate_hashes os) _ h5 in
    let (_, _, h7) = >>=-eq-ok (membership_role _ _ _ _ _) _ h6 in
    let (o, _, h8) =
      >>=-eq-ok (check_idempotency read_proposal db actor p "art_proposals.create" key q) _ h7 in
    elim (or_replay-eq-ok db o _ h8) [
      | inl same ↦ unchanged (ap art_of same.1)
      | inr ran ↦
          created p out.1
            (create_new-IsCreation libs art call db actor p key (normalized request rs os) q ran.1)
    ]

pub review_art_proposal-Change :
    (libs : Libs) (call : Call) (db : Db) (actor : Actor) (project_id proposal_id key : String)
    (request : ReviewProposalRequest) (q : String) {out : Db × ArtReview}
    → review_art_proposal libs call db actor project_id proposal_id key request q ≡ ok out
    → Change db out.0
unfolding review_art_proposal
review_art_proposal-Change libs call db actor p id key request q h =
    let (_, _, h1) = >>=-eq-ok (membership_role _ _ _ _ _) _ h in
    let (_, h2) = reject_if-then-eq-ok (not (known_verdict request.verdict)) _ _ h1 in
    let (_, _, h3) = >>=-eq-ok (membership_role _ _ _ _ _) _ h2 in
    let (o, _, h4) =
      >>=-eq-ok (check_idempotency read_review db actor p "art_proposals.review" key q) _ h3 in
    elim (or_replay-eq-ok db o _ h4) [
      | inl same ↦ unchanged (ap art_of same.1)
      | inr ran ↦
          reviewed p (new_review call actor id request)
            (review_new-IsReview libs call db actor p id key request q ran.1)
    ]

pub reject_art_proposal-Change :
    (libs : Libs) (call : Call) (db : Db) (actor : Actor) (project_id proposal_id key : String)
    (request : RejectProposalRequest) (q : String) {out : Db × ArtProposal}
    → reject_art_proposal libs call db actor project_id proposal_id key request q ≡ ok out
    → Change db out.0
unfolding reject_art_proposal
reject_art_proposal-Change libs call db actor p id key request q h =
    let (_, _, h1) = >>=-eq-ok (membership_role _ _ _ _ _) _ h in
    let (_, _, h2) = >>=-eq-ok (validate_name request.reason 3 512 "reason") _ h1 in
    let (_, _, h3) = >>=-eq-ok (membership_role _ _ _ _ _) _ h2 in
    let (o, _, h4) =
      >>=-eq-ok (check_idempotency read_proposal db actor p "art_proposals.reject" key q) _ h3 in
    elim (or_replay-eq-ok db o _ h4) [
      | inl same ↦ unchanged (ap art_of same.1)
      | inr ran ↦
          rejected call p id (reject_new-IsRejection libs call db actor p id key request q ran.1)
    ]

pub accept_art_proposal-Change :
    (libs : Libs) (art : ArtLibs) (call : Call) (db : Db) (actor : Actor)
    (project_id proposal_id key : String) (request : AcceptProposalRequest) (q : String)
    {out : Db × ArtRevision}
    → accept_art_proposal libs art call db actor project_id proposal_id key request q ≡ ok out
    → Change db out.0
unfolding accept_art_proposal
accept_art_proposal-Change libs art call db actor p id key request q {out} h =
    let (_, _, h1) = >>=-eq-ok (membership_role _ _ _ _ _) _ h in
    let (_, _, h2) = >>=-eq-ok (membership_role _ _ _ _ _) _ h1 in
    let (o, _, h3) =
      >>=-eq-ok (check_idempotency read_revision db actor p "art_proposals.accept" key q) _ h2 in
    elim (or_replay-eq-ok db o _ h3) [
      | inl same ↦ unchanged (ap art_of same.1)
      | inr ran ↦
          let (k, _) = accept_new-IsAcceptance libs art call db actor p id key request q ran.1 in
          accepted art call actor p k.0 out.1 k.1
    ]

-- ===== src/Hub/Runs/ProposalLog.antt =====
-- The proposal handlers of hub.rs, and the evidence.
use neuman.Prelude.{
  ◌≡◌, refl, String, not, ◌||◌, ◌==◌, ◌∷◌, any, all, count_where, update_where, str_eq, ok,
  >>=-eq-ok, reject_if-then-eq-ok, ok-injective, inl, inr,
}
use neuman.Hub.{internal}
use neuman.Hub.Access.{Actor, membership_role}
use neuman.Hub.Records.{ArtProposal, ArtReview, ArtRevision}
use neuman.Hub.Database.{Db, Call, Libs}
use neuman.Hub.Journal.{store_idempotency, check_idempotency}
use neuman.Hub.Journal.Replay.{or_replay-eq-ok}
use neuman.Hub.Validation.{validate_name, validate_hash_label, sorted_unique}
use neuman.Hub.Leases.{option_eq, base_stale}
use neuman.Hub.Leases.Acquire.{find_channel}
use neuman.Hub.Proposals.{
  ArtLibs, CreateArtProposalRequest, ReviewProposalRequest, AcceptProposalRequest,
  RejectProposalRequest, read_proposal, read_review, read_revision, is_authorized, find_proposal,
}
use neuman.Hub.Proposals.Manifest.Validate.{validate_canonical_art_proposal}
use neuman.Hub.Proposals.Create.{
  validate_hashes, normalized, new_proposal, insert_proposal, create_new, create_art_proposal,
}
use neuman.Hub.Proposals.Review.{
  known_verdict, new_review, review_new, review_art_proposal, is_rejectable, rejected, read_back,
  reject_new, reject_art_proposal,
}
use neuman.Hub.Proposals.Accept.{current_channel, check_acceptance, new_revision, is_at_head}
use neuman.Hub.Proposals.Accept.Commit.{
  accepted_tables, commit_revision, accept_found, accept_new, accept_art_proposal,
}
use neuman.Hub.Runs.Logged.{IsLogged, same-IsLogged, stored-IsLogged}

insert_proposal-IsLogged :
    (libs : Libs) (call : Call) (db : Db) (actor : Actor) (project_id key : String)
    (p : ArtProposal) (q : String) {out : Db × ArtProposal}
    → insert_proposal libs call db actor project_id key p q ≡ ok out
    → IsLogged libs db out.0
unfolding insert_proposal
insert_proposal-IsLogged libs call db actor project_id key p q h =
    let (_, h1) =
      reject_if-then-eq-ok (any (λ (row : ArtProposal). str_eq row.id p.id) db.proposals) internal _
        h in
    let (db2, stored, h2) = >>=-eq-ok (store_idempotency _ _ _ _ _ _ _ _) _ h1 in
    let k =
      stored-IsLogged libs call db (record db { proposals = p ∷ db.proposals }) _ _ _ _ _ _ _ _ _ _
        _ _ _ _ refl refl refl refl stored in
    rw (← ok-injective h2) k.0

create_new-IsLogged :
    (libs : Libs) (art : ArtLibs) (call : Call) (db : Db) (actor : Actor) (project_id key : String)
    (request : CreateArtProposalRequest) (q : String) {out : Db × ArtProposal}
    → create_new libs art call db actor project_id key request q ≡ ok out
    → IsLogged libs db out.0
unfolding create_new
create_new-IsLogged libs art call db actor p key request q h =
    let (c, _, h1) = >>=-eq-ok (find_channel db request.channel_id p) _ h in
    let (_, h2) =
      reject_if-then-eq-ok (not (option_eq c.head_revision_id request.base_revision_id))
        (base_stale "The proposal base is not the current accepted channel head."
          c.head_revision_id)
        _ h1 in
    let (_, h3) =
      reject_if-then-eq-ok (not (all (is_authorized db p) request.object_hashes)) _ _ h2 in
    let (_, _, h4) =
      >>=-eq-ok (validate_canonical_art_proposal art db p request c.head_revision_id) _ h3 in
    insert_proposal-IsLogged libs call db actor p key (new_proposal call actor p request) q h4

pub create_art_proposal-IsLogged :
    (libs : Libs) (art : ArtLibs) (call : Call) (db : Db) (actor : Actor) (project_id key : String)
    (request : CreateArtProposalRequest) (q : String) {out : Db × ArtProposal}
    → create_art_proposal libs art call db actor project_id key request q ≡ ok out
    → IsLogged libs db out.0
unfolding create_art_proposal
create_art_proposal-IsLogged libs art call db actor p key request q {out} h =
    let (_, _, h1) = >>=-eq-ok (membership_role _ _ _ _ _) _ h in
    let (_, _, h2) = >>=-eq-ok (validate_name request.title 1 160 "Proposal title") _ h1 in
    let (_, _, h3) = >>=-eq-ok (validate_hash_label request.state_hash "stateHash") _ h2 in
    let (rs, _, h4) = >>=-eq-ok (sorted_unique request.resource_ids "resourceIds") _ h3 in
    let (os, _, h5) = >>=-eq-ok (sorted_unique request.object_hashes "objectHashes") _ h4 in
    let (_, _, h6) = >>=-eq-ok (validate_hashes os) _ h5 in
    let (_, _, h7) = >>=-eq-ok (membership_role _ _ _ _ _) _ h6 in
    let (o, _, h8) =
      >>=-eq-ok (check_idempotency read_proposal db actor p "art_proposals.create" key q) _ h7 in
    elim (or_replay-eq-ok db o _ h8) [
      | inl same ↦ same-IsLogged libs db out.0 same.1
      | inr run ↦
          create_new-IsLogged libs art call db actor p key (normalized request rs os) q run.1
    ]

review_new-IsLogged :
    (libs : Libs) (call : Call) (db : Db) (actor : Actor) (project_id proposal_id key : String)
    (request : ReviewProposalRequest) (q : String) {out : Db × ArtReview}
    → review_new libs call db actor project_id proposal_id key request q ≡ ok out
    → IsLogged libs db out.0
unfolding review_new
review_new-IsLogged libs call db actor project_id id key request q h =
    let (p, _, h1) = >>=-eq-ok (find_proposal db id project_id) _ h in
    let (_, h2) = reject_if-then-eq-ok (not (str_eq p.status "open")) _ _ h1 in
    let r = new_review call actor id request in
    let (_, h3) =
      reject_if-then-eq-ok (any (λ (row : ArtReview). str_eq row.id r.id) db.reviews) internal _
        h2 in
    let (db2, stored, h4) = >>=-eq-ok (store_idempotency _ _ _ _ _ _ _ _) _ h3 in
    let k =
      stored-IsLogged libs call db (record db { reviews = r ∷ db.reviews }) _ _ _ _ _ _ _ _ _ _ _ _
        _ _ refl refl refl refl stored in
    rw (← ok-injective h4) k.0

pub review_art_proposal-IsLogged :
    (libs : Libs) (call : Call) (db : Db) (actor : Actor) (project_id proposal_id key : String)
    (request : ReviewProposalRequest) (q : String) {out : Db × ArtReview}
    → review_art_proposal libs call db actor project_id proposal_id key request q ≡ ok out
    → IsLogged libs db out.0
unfolding review_art_proposal
review_art_proposal-IsLogged libs call db actor p id key request q {out} h =
    let (_, _, h1) = >>=-eq-ok (membership_role _ _ _ _ _) _ h in
    let (_, h2) = reject_if-then-eq-ok (not (known_verdict request.verdict)) _ _ h1 in
    let (_, _, h3) = >>=-eq-ok (membership_role _ _ _ _ _) _ h2 in
    let (o, _, h4) =
      >>=-eq-ok (check_idempotency read_review db actor p "art_proposals.review" key q) _ h3 in
    elim (or_replay-eq-ok db o _ h4) [
      | inl same ↦ same-IsLogged libs db out.0 same.1
      | inr run ↦ review_new-IsLogged libs call db actor p id key request q run.1
    ]

reject_new-IsLogged :
    (libs : Libs) (call : Call) (db : Db) (actor : Actor) (project_id proposal_id key : String)
    (request : RejectProposalRequest) (q : String) {out : Db × ArtProposal}
    → reject_new libs call db actor project_id proposal_id key request q ≡ ok out
    → IsLogged libs db out.0
unfolding reject_new
reject_new-IsLogged libs call db actor project_id id key request q h =
    let matches = is_rejectable id project_id in
    let table = update_where matches (rejected call) db.proposals in
    let (_, h1) = reject_if-then-eq-ok (not (count_where matches db.proposals == 1)) _ _ h in
    let (_, _, h2) = >>=-eq-ok (read_back table id) _ h1 in
    let (db2, stored, h3) = >>=-eq-ok (store_idempotency _ _ _ _ _ _ _ _) _ h2 in
    let k =
      stored-IsLogged libs call db (record db { proposals = table }) _ _ _ _ _ _ _ _ _ _ _ _ _ _
        refl refl refl refl stored in
    rw (← ok-injective h3) k.0

pub reject_art_proposal-IsLogged :
    (libs : Libs) (call : Call) (db : Db) (actor : Actor) (project_id proposal_id key : String)
    (request : RejectProposalRequest) (q : String) {out : Db × ArtProposal}
    → reject_art_proposal libs call db actor project_id proposal_id key request q ≡ ok out
    → IsLogged libs db out.0
unfolding reject_art_proposal
reject_art_proposal-IsLogged libs call db actor p id key request q {out} h =
    let (_, _, h1) = >>=-eq-ok (membership_role _ _ _ _ _) _ h in
    let (_, _, h2) = >>=-eq-ok (validate_name request.reason 3 512 "reason") _ h1 in
    let (_, _, h3) = >>=-eq-ok (membership_role _ _ _ _ _) _ h2 in
    let (o, _, h4) =
      >>=-eq-ok (check_idempotency read_proposal db actor p "art_proposals.reject" key q) _ h3 in
    elim (or_replay-eq-ok db o _ h4) [
      | inl same ↦ same-IsLogged libs db out.0 same.1
      | inr run ↦ reject_new-IsLogged libs call db actor p id key request q run.1
    ]

commit_revision-IsLogged :
    (libs : Libs) (call : Call) (db : Db) (actor : Actor) (project_id key q : String)
    (p : ArtProposal) (r : ArtRevision) {out : Db × ArtRevision}
    → commit_revision libs call db actor project_id key q p r ≡ ok out
    → IsLogged libs db out.0
unfolding commit_revision
commit_revision-IsLogged libs call db actor project_id key q p r h =
    let (_, h1) =
      reject_if-then-eq-ok
        (any (λ (row : ArtRevision). str_eq row.id r.id || str_eq row.proposal_id r.proposal_id)
          db.revisions)
        internal _ h in
    let (_, h2) = reject_if-then-eq-ok (not (count_where (is_at_head r) db.channels == 1)) _ _ h1 in
    let (db2, stored, h3) = >>=-eq-ok (store_idempotency _ _ _ _ _ _ _ _) _ h2 in
    let k =
      stored-IsLogged libs call db (accepted_tables call db project_id p r) _ _ _ _ _ _ _ _ _ _ _ _
        _ _ refl refl refl refl stored in
    rw (← ok-injective h3) k.0

accept_new-IsLogged :
    (libs : Libs) (art : ArtLibs) (call : Call) (db : Db) (actor : Actor)
    (project_id proposal_id key : String) (request : AcceptProposalRequest) (q : String)
    {out : Db × ArtRevision}
    → accept_new libs art call db actor project_id proposal_id key request q ≡ ok out
    → IsLogged libs db out.0
unfolding accept_new accept_found
accept_new-IsLogged libs art call db actor project_id id key request q h =
    let (p, _, h1) = >>=-eq-ok (find_proposal db id project_id) _ h in
    let (_, h2) = reject_if-then-eq-ok (not (str_eq p.status "open")) _ _ h1 in
    let (c, _, h3) = >>=-eq-ok (current_channel db p.channel_id project_id) _ h2 in
    let head = c.head_revision_id in
    let (_, h4) =
      reject_if-then-eq-ok
        (not (option_eq head request.expected_head_revision_id)
          || not (option_eq head p.base_revision_id))
        _ _ h3 in
    let (m, _, h5) = >>=-eq-ok (check_acceptance art call db actor project_id id p head) _ h4 in
    commit_revision-IsLogged libs call db actor project_id key q p
      (new_revision art call actor project_id id p head m) h5

pub accept_art_proposal-IsLogged :
    (libs : Libs) (art : ArtLibs) (call : Call) (db : Db) (actor : Actor)
    (project_id proposal_id key : String) (request : AcceptProposalRequest) (q : String)
    {out : Db × ArtRevision}
    → accept_art_proposal libs art call db actor project_id proposal_id key request q ≡ ok out
    → IsLogged libs db out.0
unfolding accept_art_proposal
accept_art_proposal-IsLogged libs art call db actor p id key request q {out} h =
    let (_, _, h1) = >>=-eq-ok (membership_role _ _ _ _ _) _ h in
    let (_, _, h2) = >>=-eq-ok (membership_role _ _ _ _ _) _ h1 in
    let (o, _, h3) =
      >>=-eq-ok (check_idempotency read_revision db actor p "art_proposals.accept" key q) _ h2 in
    elim (or_replay-eq-ok db o _ h3) [
      | inl same ↦ same-IsLogged libs db out.0 same.1
      | inr run ↦ accept_new-IsLogged libs art call db actor p id key request q run.1
    ]

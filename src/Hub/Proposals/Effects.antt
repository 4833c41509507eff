-- ===== src/Hub/Proposals/Effects.antt =====
-- What a committed call of each proposal handler of hub.rs found, and what it left in the tables of
-- channels, proposals, reviews, revisions and leases.
pub mod Acceptance
use neuman.Prelude.{
  not-eq-false, ℕ, ◌≡◌, refl, sym, ap, ◌∙◌, String, Bool, true, false, not, ◌&&◌, ◌||◌, ◌==◌,
  Option, some, List, ◌∷◌, any, all, find?, count_where, update_where, str_eq, str_eq_iff, ok,
  ok_or, >>=-eq-ok, ok_or-eq-ok, reject_if-then-eq-ok, ok-injective, inl, inr, ◌⊎◌, arith,
}
use neuman.Hub.{HubError, hub_error, internal, invalid, not_found}
use neuman.Hub.Access.{Actor, Role, accept_art, is_admin, membership_role}
use neuman.Hub.Records.{ArtProposal, ArtReview, ArtRevision, Channel, Lease}
use neuman.Hub.Database.{Db, Call, Libs}
use neuman.Hub.Journal.{append_evidence, store_idempotency}
use neuman.Hub.Journal.Replay.{store_idempotency-eq-ok}
use neuman.Hub.Leases.{option_eq, base_stale}
use neuman.Hub.Leases.Acquire.{find_channel}
use neuman.Hub.Proposals.{
  CanonicalArtManifest, ArtLibs, CreateArtProposalRequest, ReviewProposalRequest,
  AcceptProposalRequest, RejectProposalRequest, is_authorized, is_proposal, find_proposal,
}
use neuman.Hub.Proposals.Manifest.Validate.{validate_canonical_art_proposal}
use neuman.Hub.Proposals.Create.{new_proposal, insert_proposal, create_new}
use neuman.Hub.Proposals.Review.{
  new_review, review_new, is_rejectable, rejected, read_back, reject_new,
}
use neuman.Hub.Proposals.Accept.{
  current_channel, is_verified, request_of, check_leases, is_approving, check_acceptance,
  new_revision, is_at_head,
}
use neuman.Hub.Proposals.Accept.Commit.{accepted_tables, commit_revision, accept_found, accept_new}

-- The tables that the art handlers share
pub record ArtTables : Type 0 where
  pub channels : List Channel
  pub proposals : List ArtProposal
  pub reviews : List ArtReview
  pub revisions : List ArtRevision
  pub leases : List Lease

abbrev pub art_of : Db → ArtTables
art_of db = record {
  channels = db.channels;
  proposals = db.proposals;
  reviews = db.reviews;
  revisions = db.revisions;
  leases = db.leases;
}

-- An open proposal of a new id was added, whose base was the head of its channel.
pub record IsCreation (db db' : Db) (project_id : String) (p : ArtProposal) : Type 0 where
  pub fresh : any (λ (row : ArtProposal). str_eq row.id p.id) db.proposals ≡ false
  pub status : p.status ≡ "open"
  pub channel : Channel
  pub found : find_channel db p.channel_id project_id ≡ ok channel
  pub base : option_eq channel.head_revision_id p.base_revision_id ≡ true
  pub after : art_of db' ≡ record (art_of db) { proposals = p ∷ db.proposals }

pub record IsReview (db db' : Db) (project_id : String) (r : ArtReview) : Type 0 where
  pub p : ArtProposal
  pub found : find_proposal db r.proposal_id project_id ≡ ok p
  pub status : p.status ≡ "open"
  pub after : art_of db' ≡ record (art_of db) { reviews = r ∷ db.reviews }

pub record IsRejection (db db' : Db) (call : Call) (project_id proposal_id : String) : Type 0 where
  pub one : (count_where (is_rejectable proposal_id project_id) db.proposals == 1) ≡ true
  pub after : art_of db' ≡ record (art_of db) {
    proposals = update_where (is_rejectable proposal_id project_id) (rejected call) db.proposals;
  }

pub record IsAcceptance (art : ArtLibs) (db db' : Db) (call : Call) (actor : Actor)
    (project_id : String) (p : ArtProposal) (r : ArtRevision) : Type 0 where
  pub found : find_proposal db r.proposal_id project_id ≡ ok p
  pub status : p.status ≡ "open"
  pub channel : Channel
  pub head_found : current_channel db p.channel_id project_id ≡ ok channel
  pub parent : r.parent_revision_id ≡ channel.head_revision_id
  pub base : option_eq channel.head_revision_id p.base_revision_id ≡ true
  pub objects : all (is_verified db project_id) p.object_hashes ≡ true
  pub manifest : CanonicalArtManifest
  pub validated :
      validate_canonical_art_proposal art db project_id (request_of p) channel.head_revision_id
      ≡ ok manifest
  pub covered : check_leases call.now project_id p db.leases p.resource_ids ≡ ok tt
  pub role : Role
  pub member : membership_role db.projects db.members actor project_id accept_art ≡ ok role
  pub approval : (any (is_approving r.proposal_id) db.reviews ≡ true) ⊎ (is_admin role ≡ true)
  pub made :
      r ≡ new_revision art call actor project_id r.proposal_id p channel.head_revision_id manifest
  pub fresh :
      any
        (λ (row : ArtRevision). str_eq row.id r.id || str_eq row.proposal_id r.proposal_id)
        db.revisions
      ≡ false
  pub one : (count_where (is_at_head r) db.channels == 1) ≡ true
  pub after : art_of db' ≡ art_of (accepted_tables call db project_id p r)

insert_proposal-after :
    (libs : Libs) (call : Call) (db : Db) (actor : Actor) (project_id key : String)
    (p : ArtProposal) (q : String) {out : Db × ArtProposal}
    → insert_proposal libs call db actor project_id key p q ≡ ok out
    → (any (λ (row : ArtProposal). str_eq row.id p.id) db.proposals ≡ false)
      × (art_of out.0 ≡ record (art_of db) { proposals = p ∷ db.proposals })
      × (out.1 ≡ p)
unfolding insert_proposal append_evidence
insert_proposal-after libs call db actor project_id key p q h =
    let (fresh, h1) =
      reject_if-then-eq-ok (any (λ (row : ArtProposal). str_eq row.id p.id) db.proposals) internal _
        h in
    let (db2, stored, h2) = >>=-eq-ok (store_idempotency _ _ _ _ _ _ _ _) _ h1 in
    let e = store_idempotency-eq-ok _ _ _ _ _ _ _ _ stored in
    rw (← ok-injective h2) (fresh, ap art_of e, refl)

pub create_new-IsCreation :
    (libs : Libs) (art : ArtLibs) (call : Call) (db : Db) (actor : Actor) (project_id key : String)
    (request : CreateArtProposalRequest) (q : String) {out : Db × ArtProposal}
    → create_new libs art call db actor project_id key request q ≡ ok out
    → IsCreation db out.0 project_id out.1
unfolding create_new new_proposal
create_new-IsCreation libs art call db actor p key request q h =
    let (c, found, h1) = >>=-eq-ok (find_channel db request.channel_id p) _ h in
    let (base, h2) =
      reject_if-then-eq-ok (not (option_eq c.head_revision_id request.base_revision_id))
        (base_stale "The proposal base is not the current accepted channel head."
          c.head_revision_id)
        _ h1 in
    let (_, h3) =
      reject_if-then-eq-ok (not (all (is_authorized db p) request.object_hashes)) _ _ h2 in
    let (_, _, h4) =
      >>=-eq-ok (validate_canonical_art_proposal art db p request c.head_revision_id) _ h3 in
    let (fresh, after, same) =
      insert_proposal-after libs call db actor p key (new_proposal call actor p request) q h4 in
    rw same (record {
      fresh = fresh;
      status = refl;
      channel = c;
      found = found;
      base = not-eq-false _ base;
      after = after;
    })

pub review_new-IsReview :
    (libs : Libs) (call : Call) (db : Db) (actor : Actor) (project_id proposal_id key : String)
    (request : ReviewProposalRequest) (q : String) {out : Db × ArtReview}
    → review_new libs call db actor project_id proposal_id key request q ≡ ok out
    → IsReview db out.0 project_id (new_review call actor proposal_id request)
unfolding review_new append_evidence
review_new-IsReview libs call db actor project_id id key request q h =
    let (p, found, h1) = >>=-eq-ok (find_proposal db id project_id) _ h in
    let (status, h2) = reject_if-then-eq-ok (not (str_eq p.status "open")) _ _ h1 in
    let r = new_review call actor id request in
    let (_, h3) =
      reject_if-then-eq-ok (any (λ (row : ArtReview). str_eq row.id r.id) db.reviews) internal _
        h2 in
    let (db2, stored, h4) = >>=-eq-ok (store_idempotency _ _ _ _ _ _ _ _) _ h3 in
    let e = store_idempotency-eq-ok _ _ _ _ _ _ _ _ stored in
    rw (← ok-injective h4) (record {
      p = p;
      found = found;
      status = (str_eq_iff p.status "open").0 (not-eq-false _ status);
      after = ap art_of e;
    })

pub reject_new-IsRejection :
    (libs : Libs) (call : Call) (db : Db) (actor : Actor) (project_id proposal_id key : String)
    (request : RejectProposalRequest) (q : String) {out : Db × ArtProposal}
    → reject_new libs call db actor project_id proposal_id key request q ≡ ok out
    → IsRejection db out.0 call project_id proposal_id
unfolding reject_new append_evidence
reject_new-IsRejection libs call db actor project_id id key request q h =
    let matches = is_rejectable id project_id in
    let (one, h1) = reject_if-then-eq-ok (not (count_where matches db.proposals == 1)) _ _ h in
    let (_, _, h2) =
      >>=-eq-ok (read_back (update_where matches (rejected call) db.proposals) id) _ h1 in
    let (db2, stored, h3) = >>=-eq-ok (store_idempotency _ _ _ _ _ _ _ _) _ h2 in
    let e = store_idempotency-eq-ok _ _ _ _ _ _ _ _ stored in
    rw (← ok-injective h3) (record { one = not-eq-false _ one; after = ap art_of e })

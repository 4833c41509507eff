-- ===== src/Hub/Proposals/Effects/Acceptance.antt =====
-- What a committed acceptance of hub.rs found, and what it left.
use neuman.Prelude.{
  not-eq-false, ◌≡◌, refl, ap, String, Bool, true, false, not, ◌&&◌, ◌||◌, ◌==◌, Option, any, all,
  count_where, str_eq, str_eq_iff, ok, >>=-eq-ok, reject_if-then-eq-ok, ok-injective, inl, inr, ◌⊎◌,
  arith,
}
use neuman.Hub.{internal}
use neuman.Hub.Access.{Actor, Role, accept_art, is_admin, membership_role}
use neuman.Hub.Records.{ArtProposal, ArtRevision}
use neuman.Hub.Database.{Db, Call, Libs}
use neuman.Hub.Journal.{append_evidence, store_idempotency}
use neuman.Hub.Journal.Replay.{store_idempotency-eq-ok}
use neuman.Hub.Leases.{option_eq}
use neuman.Hub.Proposals.{CanonicalArtManifest, ArtLibs, AcceptProposalRequest, find_proposal}
use neuman.Hub.Proposals.Manifest.Validate.{validate_canonical_art_proposal}
use neuman.Hub.Proposals.Accept.{
  current_channel, is_verified, request_of, check_leases, is_approving, check_acceptance,
  new_revision, is_at_head,
}
use neuman.Hub.Proposals.Accept.Commit.{accepted_tables, commit_revision, accept_found, accept_new}
use neuman.Hub.Proposals.Effects.{art_of, IsAcceptance}

approved_or_admin : (a b : Bool) → (not a && not b) ≡ false → (a ≡ true) ⊎ (b ≡ true)
approved_or_admin true b h = inl refl
approved_or_admin false b h = inr (ground arith)

-- What the checks of an acceptance established
record IsChecked (art : ArtLibs) (call : Call) (db : Db) (actor : Actor)
    (project_id proposal_id : String) (p : ArtProposal) (head : Option String)
    (manifest : CanonicalArtManifest) : Type 0 where
  objects : all (is_verified db project_id) p.object_hashes ≡ true
  validated : validate_canonical_art_proposal art db project_id (request_of p) head ≡ ok manifest
  covered : check_leases call.now project_id p db.leases p.resource_ids ≡ ok tt
  role : Role
  member : membership_role db.projects db.members actor project_id accept_art ≡ ok role
  approval : (any (is_approving proposal_id) db.reviews ≡ true) ⊎ (is_admin role ≡ true)

check_acceptance-IsChecked :
    (art : ArtLibs) (call : Call) (db : Db) (actor : Actor) (project_id proposal_id : String)
    (p : ArtProposal) (head : Option String) {m : CanonicalArtManifest}
    → check_acceptance art call db actor project_id proposal_id p head ≡ ok m
    → IsChecked art call db actor project_id proposal_id p head m
unfolding check_acceptance
check_acceptance-IsChecked art call db actor project_id id p head h =
    let (objects, h1) =
      reject_if-then-eq-ok (not (all (is_verified db project_id) p.object_hashes)) _ _ h in
    let (m, validated, h2) =
      >>=-eq-ok (validate_canonical_art_proposal art db project_id (request_of p) head) _ h1 in
    let (_, covered, h3) =
      >>=-eq-ok (check_leases call.now project_id p db.leases p.resource_ids) _ h2 in
    let (role, member, h4) =
      >>=-eq-ok (membership_role db.projects db.members actor project_id accept_art) _ h3 in
    let (approval, h5) =
      reject_if-then-eq-ok (not (any (is_approving id) db.reviews) && not (is_admin role)) _ _ h4 in
    rw (← ok-injective h5) (record {
      objects = not-eq-false _ objects;
      validated = validated;
      covered = covered;
      role = role;
      member = member;
      approval = approved_or_admin _ _ approval;
    })

commit_revision-after :
    (libs : Libs) (call : Call) (db : Db) (actor : Actor) (project_id key q : String)
    (p : ArtProposal) (r : ArtRevision) {out : Db × ArtRevision}
    → commit_revision libs call db actor project_id key q p r ≡ ok out
    → (any
          (λ (row : ArtRevision). str_eq row.id r.id || str_eq row.proposal_id r.proposal_id)
          db.revisions
        ≡ false)
      × ((count_where (is_at_head r) db.channels == 1) ≡ true)
      × (art_of out.0 ≡ art_of (accepted_tables call db project_id p r))
      × (out.1 ≡ r)
unfolding commit_revision append_evidence
commit_revision-after libs call db actor project_id key q p r h =
    let (fresh, h1) =
      reject_if-then-eq-ok
        (any (λ (row : ArtRevision). str_eq row.id r.id || str_eq row.proposal_id r.proposal_id)
          db.revisions)
        internal _ h in
    let (one, h2) =
      reject_if-then-eq-ok (not (count_where (is_at_head r) db.channels == 1)) _ _ h1 in
    let (db2, stored, h3) = >>=-eq-ok (store_idempotency _ _ _ _ _ _ _ _) _ h2 in
    let e = store_idempotency-eq-ok _ _ _ _ _ _ _ _ stored in
    rw (← ok-injective h3) (fresh, not-eq-false _ one, ap art_of e, refl)

accept_found-IsAcceptance :
    (libs : Libs) (art : ArtLibs) (call : Call) (db : Db) (actor : Actor)
    (project_id proposal_id key : String) (request : AcceptProposalRequest) (q : String)
    (p : ArtProposal) (channel : _) {out : Db × ArtRevision}
    → find_proposal db proposal_id project_id ≡ ok p
    → p.status ≡ "open"
    → current_channel db p.channel_id project_id ≡ ok channel
    → accept_found libs art call db actor project_id proposal_id key request q p
        channel.head_revision_id
      ≡ ok out
    → IsAcceptance art db out.0 call actor project_id p out.1 × (out.1.proposal_id ≡ proposal_id)
unfolding accept_found
accept_found-IsAcceptance libs art call db actor project_id id key request q p c found status
      head_found h =
    let head = c.head_revision_id in
    let (guard, h1) =
      reject_if-then-eq-ok
        (not (option_eq head request.expected_head_revision_id)
          || not (option_eq head p.base_revision_id))
        _ _ h in
    let (m, checked, h2) =
      >>=-eq-ok (check_acceptance art call db actor project_id id p head) _ h1 in
    let k = check_acceptance-IsChecked art call db actor project_id id p head checked in
    let r = new_revision art call actor project_id id p head m in
    let (fresh, one, after, same) =
      commit_revision-after libs call db actor project_id key q p r h2 in
    rw same (
      (
        record {
          found = found;
          status = status;
          channel = c;
          head_found = head_found;
          parent = refl;
          base = ground (arith, guard);
          objects = k.objects;
          manifest = m;
          validated = k.validated;
          covered = k.covered;
          role = k.role;
          member = k.member;
          approval = k.approval;
          made = refl;
          fresh = fresh;
          one = one;
          after = after;
        },
        refl,
      ))

pub accept_new-IsAcceptance :
    (libs : Libs) (art : ArtLibs) (call : Call) (db : Db) (actor : Actor)
    (project_id proposal_id key : String) (request : AcceptProposalRequest) (q : String)
    {out : Db × ArtRevision}
    → accept_new libs art call db actor project_id proposal_id key request q ≡ ok out
    → ((p : ArtProposal) × IsAcceptance art db out.0 call actor project_id p out.1)
      × (out.1.proposal_id ≡ proposal_id)
unfolding accept_new
accept_new-IsAcceptance libs art call db actor project_id id key request q h =
    let (p, found, h1) = >>=-eq-ok (find_proposal db id project_id) _ h in
    let (status, h2) = reject_if-then-eq-ok (not (str_eq p.status "open")) _ _ h1 in
    let (c, head, h3) = >>=-eq-ok (current_channel db p.channel_id project_id) _ h2 in
    let (k, same) =
      accept_found-IsAcceptance libs art call db actor project_id id key request q p c found
        ((str_eq_iff p.status "open").0 (not-eq-false _ status)) head h3 in
    ((p, k), same)

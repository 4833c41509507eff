-- ===== src/Hub/Proposals/Duties.antt =====
-- What an acceptance of hub.rs required, and the leases that it ended.
use mathlib.Core.Path.{subst}
use neuman.Hub.Records.{Lease}
use neuman.Hub.Leases.{covers, is_open}
use neuman.Prelude.{
  ◌≢◌, none, List, [], ◌∷◌, str_eq_iff, arith, All-get_elem?, get_elem?, some, ℕ, String, ◌≡◌, sym,
  ap, ◌∙◌, ◌⊎◌, inl, inr, String, true, false, All, any, all, ok, ok-injective,
}
use neuman.Hub.Access.{Actor, Role, accept_art, is_admin, membership_role}
use neuman.Hub.Records.{ArtProposal, ArtRevision}
use neuman.Hub.Database.{Db, Call, Libs}
use neuman.Hub.Proposals.{ArtLibs, AcceptProposalRequest, find_proposal}
use neuman.Hub.Proposals.Accept.{is_verified, is_author_lease, is_approving, is_spent}
use neuman.Hub.Proposals.Accept.Commit.{accept_new}
use neuman.Hub.Proposals.Effects.{ArtTables, IsAcceptance}
use neuman.Hub.Proposals.Effects.Acceptance.{accept_new-IsAcceptance}
use neuman.Hub.Proposals.Locks.{check_leases-All, release_all-All}

module _ (libs : Libs) (art : ArtLibs) (call : Call) (db db' : Db) (actor : Actor)
    (project_id proposal_id key : String) (request : AcceptProposalRequest) (hash : String)
    (p : ArtProposal) (r : ArtRevision) where
  IsAcceptance-found :
      accept_new libs art call db actor project_id proposal_id key request hash ≡ ok (db', r)
      → find_proposal db proposal_id project_id ≡ ok p
      → IsAcceptance art db db' call actor project_id p r × (r.proposal_id ≡ proposal_id)
  IsAcceptance-found h found =
      let ((p', k), same_id) =
        accept_new-IsAcceptance libs art call db actor project_id proposal_id key request hash h in
      let same : p' ≡ p =
        ok-injective (sym k.found ∙ ap (λ i. find_proposal db i project_id) same_id ∙ found) in
      (subst (λ x. IsAcceptance art db db' call actor project_id x r) same k, same_id)

-- Where an acceptance that is no replay commits, every object of the proposal is verified and belongs
-- to the project, every resource of it has an active lease that the proposal's author holds on the
-- proposal's base, and either an approving review of the proposal is stored or the acceptor is an
-- administrator.
pub accepted_by_right :
    (libs : Libs) (art : ArtLibs) (call : Call) (db db' : Db) (actor : Actor)
    (project_id proposal_id key : String) (request : AcceptProposalRequest) (hash : String)
    (p : ArtProposal) (r : ArtRevision)
    → accept_new libs art call db actor project_id proposal_id key request hash ≡ ok (db', r)
    → find_proposal db proposal_id project_id ≡ ok p
    → (all (is_verified db project_id) p.object_hashes ≡ true)
      × All
          (λ resource. any (is_author_lease call.now project_id p resource) db.leases ≡ true)
          p.resource_ids
      × ((any (is_approving proposal_id) db.reviews ≡ true)
          ⊎ ((role : Role) × (membership_role db.projects db.members actor project_id accept_art
                ≡ ok role)
              × (is_admin role ≡ true)))
accepted_by_right libs art call db db' actor project_id id key request hash p r h found =
    let (k, same) =
      IsAcceptance-found libs art call db db' actor project_id id key request hash p r h found in
    (
      k.objects,
      check_leases-All call.now project_id p db.leases p.resource_ids k.covered,
      (elim k.approval [
        | inl reviewed ↦ inl (sym (ap (λ i. any (is_approving i) db.reviews) same) ∙ reviewed)
        | inr admin ↦ inr (k.role, k.member, admin)
      ]),
    )

-- A lease on the resource in the channel of the proposal that is its author's has been released.
abbrev IsOver : String → ArtProposal → String → Lease → Type 0
IsOver project_id p resource l =
    l.project_id ≡ project_id
    → l.channel_id ≡ p.channel_id
    → l.resource_id ≡ resource
    → l.holder_principal_id ≡ p.created_by
    → l.released_at_ms ≢ none

not_spent-IsOver :
    (project_id : String) (p : ArtProposal) (resource : String) (table : List Lease)
    → any (is_spent project_id p resource) table ≡ false
    → All (IsOver project_id p resource) table
unfolding is_spent covers is_open
not_spent-IsOver project_id p resource [] h = tt
not_spent-IsOver project_id p resource (l ∷ table) h = (
  (λ e1 e2 e3 e4 open_still. absurd (
      ground (
        arith,
        h,
        (str_eq_iff l.project_id project_id).1 e1,
        (str_eq_iff l.channel_id p.channel_id).1 e2,
        (str_eq_iff l.resource_id resource).1 e3,
        (str_eq_iff l.holder_principal_id p.created_by).1 e4,
        open_still,
      ))),
  not_spent-IsOver project_id p resource table (ground (arith, h)),
)

-- Where an acceptance that is no replay commits, every lease that the proposal's author holds in the
-- project, on a resource of the proposal and in its channel, is released afterwards, whether it had
-- expired or not, and whichever base it was taken on.
pub accepted_leases_end :
    (libs : Libs) (art : ArtLibs) (call : Call) (db db' : Db) (actor : Actor)
    (project_id proposal_id key : String) (request : AcceptProposalRequest) (hash : String)
    (p : ArtProposal) (r : ArtRevision) (i j : ℕ) (resource : String) (l : Lease)
    → accept_new libs art call db actor project_id proposal_id key request hash ≡ ok (db', r)
    → find_proposal db proposal_id project_id ≡ ok p
    → get_elem? p.resource_ids i ≡ some resource
    → get_elem? db'.leases j ≡ some l
    → l.project_id ≡ project_id
    → l.channel_id ≡ p.channel_id
    → l.resource_id ≡ resource
    → l.holder_principal_id ≡ p.created_by
    → l.released_at_ms ≢ none
accepted_leases_end libs art call db db' actor project_id id key request hash p r i j resource l h
      found at_i at_j =
    let (k, _) =
      IsAcceptance-found libs art call db db' actor project_id id key request hash p r h found in
    let none_left : All (λ x. any (is_spent project_id p x) db'.leases ≡ false) p.resource_ids =
      subst (λ table. All (λ x. any (is_spent project_id p x) table ≡ false) p.resource_ids)
        (sym (ap (λ (t : ArtTables). t.leases) k.after))
        (release_all-All call project_id p r.id p.resource_ids db.leases) in
    All-get_elem? (IsOver project_id p resource) db'.leases j
      (not_spent-IsOver project_id p resource db'.leases (
        All-get_elem? (λ x. any (is_spent project_id p x) db'.leases ≡ false) p.resource_ids i
          none_left at_i))
      at_j

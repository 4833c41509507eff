-- ===== src/Hub/Proposals/Settled.antt =====
-- What the status of an art proposal of hub.rs stands for.
use mathlib.Core.Path.{subst}
use neuman.Prelude.{
  ◌≡◌, refl, sym, ap, ◌∙◌, String, Bool, true, ◌&&◌, some, List, ◌∷◌, All, any, All-zip,
  All-update_where, IsKeyed, IsKeyed-update, keyed_unique, find?, update_where, str_eq, str_eq_iff,
  ok_or-eq-ok, inl, inr, ◌⊎◌, arith,
}
use neuman.Hub.{not_found}
use neuman.Hub.Access.{Actor}
use neuman.Hub.Records.{ArtProposal, ArtRevision}
use neuman.Hub.Database.{Db, Call}
use neuman.Hub.Leases.{option_eq}
use neuman.Hub.Proposals.{ArtLibs, is_proposal, find_proposal}
use neuman.Hub.Proposals.Review.{is_rejectable}
use neuman.Hub.Proposals.Review
use neuman.Hub.Proposals.Accept.{is_open_proposal}
use neuman.Hub.Proposals.Accept
use neuman.Hub.Proposals.Effects.{ArtTables, art_of, IsAcceptance}
use neuman.Hub.Proposals.Steps.{Change, unchanged, created, reviewed, rejected, accepted}

abbrev pub id_of : ArtProposal → String
id_of p = p.id

-- The revision is the one that the proposal names, and has its state.
abbrev pub settles : ArtProposal → ArtRevision → Bool
settles p r =
    option_eq p.accepted_revision_id (some r.id)
    && str_eq r.proposal_id p.id
    && str_eq r.state_hash p.state_hash

-- A proposal is open or rejected, or it is accepted and the revision that it names is stored.
abbrev pub IsSettled : List ArtRevision → ArtProposal → Type 0
IsSettled revisions p =
    (p.status ≡ "open")
    ⊎ ((p.status ≡ "rejected") ⊎ ((p.status ≡ "accepted") × (any (settles p) revisions ≡ true)))

abbrev SettledIn : ArtTables → Type 0
SettledIn t = IsKeyed id_of t.proposals × All (IsSettled t.revisions) t.proposals

abbrev pub AreSettled : Db → Type 0
AreSettled db = SettledIn (art_of db)

IsSettled-later :
    (r : ArtRevision) (revisions : List ArtRevision) (p : ArtProposal)
    → IsSettled revisions p
    → IsSettled (r ∷ revisions) p
IsSettled-later r revisions p (inl h) = inl h
IsSettled-later r revisions p (inr (inl h)) = inr (inl h)
IsSettled-later r revisions p (inr (inr h)) = inr (inr (h.0, ground (arith, h.1)))

AreSettled-rejected :
    (call : Call) (project_id id : String) (revisions : List ArtRevision) (ps : List ArtProposal)
    → IsKeyed id_of ps × All (IsSettled revisions) ps
    → IsKeyed id_of (update_where (is_rejectable id project_id) (Review.rejected call) ps)
      × All
          (IsSettled revisions)
          (update_where (is_rejectable id project_id) (Review.rejected call) ps)
unfolding Review.rejected
AreSettled-rejected call project_id id revisions ps h = (
  IsKeyed-update id_of (is_rejectable id project_id) (Review.rejected call) (λ _. refl) ps h.0,
  All-update_where (IsSettled revisions) (IsSettled revisions) (is_rejectable id project_id)
      (Review.rejected call) (λ _ _ _. inr (inl refl)) (λ _ k _. k) ps h.1,
)

proposal_id_of :
    (id project_id : String) (p : ArtProposal) → is_proposal id project_id p ≡ true → p.id ≡ id
unfolding is_proposal
proposal_id_of id project_id p h = (str_eq_iff p.id id).0 (ground (arith, h))

settled_row :
    (call : Call) (r : ArtRevision) (p x : ArtProposal)
    → r.state_hash ≡ p.state_hash
    → (x.id ≡ r.proposal_id → x ≡ p)
    → is_open_proposal r.proposal_id x ≡ true
    → settles (Accept.accepted call r.id x) r ≡ true
unfolding is_open_proposal Accept.accepted
settled_row call r p x hash only h =
    let id : x.id ≡ r.proposal_id = (str_eq_iff x.id r.proposal_id).0 (ground (arith, h)) in
    let same : r.state_hash ≡ x.state_hash =
      hash ∙ ap (λ (y : ArtProposal). y.state_hash) (sym (only id)) in
    ground (
      arith,
      (str_eq_iff r.id r.id).1 refl,
      (str_eq_iff r.proposal_id x.id).1 (sym id),
      (str_eq_iff r.state_hash x.state_hash).1 same,
    )

AreSettled-accepted :
    {db db' : Db} (art : ArtLibs) (call : Call) (actor : Actor) (project_id : String)
    (p : ArtProposal) (r : ArtRevision)
    → IsAcceptance art db db' call actor project_id p r
    → AreSettled db
    → AreSettled db'
unfolding find_proposal Accept.accepted
AreSettled-accepted {db} art call actor project_id p r k h =
    let hit =
      ok_or-eq-ok (find? (is_proposal r.proposal_id project_id) db.proposals)
        (not_found "HUB_ART_PROPOSAL_NOT_FOUND") k.found in
    let only =
      keyed_unique id_of (is_proposal r.proposal_id project_id) r.proposal_id db.proposals
        (proposal_id_of r.proposal_id project_id) h.0 hit in
    let hash = ap (λ (x : ArtRevision). x.state_hash) k.made in
    subst SettledIn (sym k.after) (
      IsKeyed-update id_of (is_open_proposal r.proposal_id) (Accept.accepted call r.id) (λ _. refl)
          db.proposals h.0,
      All-update_where (λ x. IsSettled db.revisions x × (x.id ≡ r.proposal_id → x ≡ p))
          (IsSettled (r ∷ db.revisions)) (is_open_proposal r.proposal_id)
          (Accept.accepted call r.id)
          (λ x q t. inr (inr (refl, ground (arith, settled_row call r p x hash q.1 t))))
          (λ x q _. IsSettled-later r db.revisions x q.0) db.proposals
          (All-zip _ _ db.proposals h.1 only),
    )

-- Every change keeps the proposals settled.
pub Change-AreSettled : {db db' : Db} → Change db db' → AreSettled db → AreSettled db'
Change-AreSettled (unchanged e) h = subst SettledIn (sym e) h
Change-AreSettled (created project_id p k) h =
    subst SettledIn (sym k.after) ((k.fresh, h.0), (inl k.status, h.1))
Change-AreSettled (reviewed project_id r k) h = subst SettledIn (sym k.after) h
Change-AreSettled {db} (rejected call project_id id k) h =
    subst SettledIn (sym k.after)
      (AreSettled-rejected call project_id id db.revisions db.proposals h)
Change-AreSettled (accepted art call actor project_id p r k) h =
    AreSettled-accepted art call actor project_id p r k h

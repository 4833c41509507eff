-- ===== src/Hub/Runs/Outcomes.antt =====
-- The outcome of an art proposal along the runs of the handlers of hub.rs.
use mathlib.Core.Path.{subst}
use neuman.Prelude.{
  ℕ, ◌≡◌, ◌≢◌, refl, sym, ap, ◌∙◌, ◌⊎◌, inl, inr, String, Bool, true, false, some, List, [], ◌∷◌,
  All, any, any-of-find, find?, find?-All, find?-eq-some, find?-update_where, IsKeyed, update_where,
  str_eq, str_eq_iff, ok, ok_or-eq-ok, >>=-eq-ok, Bool-cases, arith,
}
use neuman.Hub.{not_found}
use neuman.Hub.Access.{Actor, membership_role}
use neuman.Hub.Records.{ArtProposal}
use neuman.Hub.Database.{Db, Libs}
use neuman.Hub.Proposals.{is_proposal, find_proposal, get_art_proposal}
use neuman.Hub.Proposals.Review.{is_rejectable}
use neuman.Hub.Proposals.Review
use neuman.Hub.Proposals.Accept.{is_open_proposal}
use neuman.Hub.Proposals.Accept
use neuman.Hub.Proposals.Effects.{ArtTables}
use neuman.Hub.Proposals.Settled.{id_of, settles, IsSettled, Change-AreSettled}
use neuman.Hub.Proposals.Steps.{Change, unchanged, created, reviewed, rejected, accepted}
use neuman.Hub.Runs.{Reach}
use neuman.Hub.Runs.LeaseLog.{Shelf}
use neuman.Hub.Runs.Invariants.{Reach-keeps}

abbrev SettledIn : Shelf → Type 0
SettledIn s = IsKeyed id_of s.proposals × All (IsSettled s.revisions) s.proposals

-- Whatever run of the handlers follows on a database without proposals: a proposal that
-- `get_art_proposal` then returns is open, or rejected, or it is accepted and a revision is stored that
-- has the id that the proposal names, belongs to the proposal, and has its state hash.
pub reached_proposal :
    (libs : Libs) (t t' : ℕ) (db db' : Db) (actor : Actor) (project_id proposal_id : String)
    (p : ArtProposal)
    → db.proposals ≡ []
    → Reach libs t db t' db'
    → get_art_proposal db' actor project_id proposal_id ≡ ok p
    → (p.status ≡ "open")
      ⊎ ((p.status ≡ "rejected")
          ⊎ ((p.status ≡ "accepted") × (any (settles p) db'.revisions ≡ true)))
unfolding get_art_proposal find_proposal
reached_proposal libs t t' db db' actor project_id id p empty run found =
    let (_, _, h) = >>=-eq-ok (membership_role _ _ _ _ _) _ found in
    let hit =
      ok_or-eq-ok (find? (is_proposal id project_id) db'.proposals)
        (not_found "HUB_ART_PROPOSAL_NOT_FOUND") h in
    let all = Reach-keeps SettledIn (λ d d' k. Change-AreSettled k) run (rw empty (tt, tt)) in
    find?-All (IsSettled db'.revisions) (is_proposal id project_id) db'.proposals all.1 hit

module _ (project_id id : String) (p : ArtProposal) where
  abbrev Finds : List ArtProposal → Type 0
  Finds ps = find? (is_proposal id project_id) ps ≡ some p

  -- An `UPDATE` that does not meet the row leaves it.
  Finds-update :
      (w : ArtProposal → Bool) (f : ArtProposal → ArtProposal) (ps : List ArtProposal)
      → ((x : ArtProposal) → is_proposal id project_id (f x) ≡ is_proposal id project_id x)
      → w p ≡ false
      → Finds ps
      → Finds (update_where w f ps)
  Finds-update w f ps keep miss h =
      find?-update_where (is_proposal id project_id) w f keep ps h ∙ rw miss refl

  -- A new row has another id.
  Finds-new :
      (x : ArtProposal) (ps : List ArtProposal)
      → any (λ (row : ArtProposal). str_eq row.id x.id) ps ≡ false
      → Finds ps
      → Finds (x ∷ ps)
  unfolding is_proposal
  Finds-new x ps fresh h = elim (Bool-cases (is_proposal id project_id x)) [
    | inl hit ↦
        let mine = find?-eq-some (is_proposal id project_id) ps h in
        let same : x.id ≡ p.id =
          (str_eq_iff x.id id).0 (ground (arith, hit))
          ∙ sym ((str_eq_iff p.id id).0 (ground (arith, mine))) in
        absurd (
          clash (
            sym (any-of-find id_of (is_proposal id project_id) ps h)
            ∙ ap (λ i. any (λ (row : ArtProposal). str_eq row.id i) ps) (sym same)
            ∙ fresh))
    | inr miss ↦ rw miss h
  ]
    where
      clash : true ≡ false → ⊥
      clash e = cc

  abbrev proposals_of : ArtTables → List ArtProposal
  proposals_of t = t.proposals

  Change-Finds :
      (closed : str_eq p.status "open" ≡ false) {db db' : Db}
      → Change db db'
      → Finds db.proposals
      → Finds db'.proposals
  unfolding is_rejectable is_open_proposal Review.rejected Accept.accepted is_proposal
  Change-Finds closed (unchanged e) h = subst Finds (sym (ap proposals_of e)) h
  Change-Finds closed {db} (created project x k) h =
      subst Finds (sym (ap proposals_of k.after)) (Finds-new x db.proposals k.fresh h)
  Change-Finds closed (reviewed project x k) h = subst Finds (sym (ap proposals_of k.after)) h
  Change-Finds closed {db} (rejected call project other k) h =
      subst Finds (sym (ap proposals_of k.after)) (
        Finds-update (is_rejectable other project) (Review.rejected call) db.proposals (λ _. refl)
          (ground (arith, closed)) h)
  Change-Finds closed {db} (accepted art call actor project q r k) h =
      subst Finds (sym (ap proposals_of k.after)) (
        Finds-update (is_open_proposal r.proposal_id) (Accept.accepted call r.id) db.proposals
          (λ _. refl) (ground (arith, closed)) h)

some_found :
    (db : Db) (actor : Actor) (project_id id : String) (p : ArtProposal)
    → get_art_proposal db actor project_id id ≡ ok p
    → find? (is_proposal id project_id) db.proposals ≡ some p
unfolding get_art_proposal find_proposal
some_found db actor project_id id p h =
    let (_, _, found) = >>=-eq-ok (membership_role _ _ _ _ _) _ h in
    ok_or-eq-ok (find? (is_proposal id project_id) db.proposals)
      (not_found "HUB_ART_PROPOSAL_NOT_FOUND") found

-- A proposal that is not open is final: whatever run of the handlers follows, the query for it finds
-- it unchanged.
pub closed_proposal :
    (libs : Libs) (t t' : ℕ) (db db' : Db) (actor : Actor) (project_id proposal_id : String)
    (p : ArtProposal)
    → get_art_proposal db actor project_id proposal_id ≡ ok p
    → p.status ≢ "open"
    → Reach libs t db t' db'
    → find_proposal db' proposal_id project_id ≡ ok p
unfolding find_proposal
closed_proposal libs t t' db db' actor project_id id p found ne run =
    let closed : str_eq p.status "open" ≡ false = elim (Bool-cases (str_eq p.status "open")) [
      | inl same ↦ absurd (ne ((str_eq_iff p.status "open").0 same))
      | inr differs ↦ differs
    ] in
    let hit =
      Reach-keeps (λ s. Finds project_id id p s.proposals)
        (λ d d' k. Change-Finds project_id id p closed k) run
        (some_found db actor project_id id p found) in
    rw hit refl

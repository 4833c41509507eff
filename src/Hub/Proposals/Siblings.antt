-- ===== src/Hub/Proposals/Siblings.antt =====
-- Two proposals of hub.rs on one base, of which one is accepted.
use mathlib.Core.Path.{subst}
use neuman.Prelude.{
  ◌>>=◌, ◌>>◌, ◌≡◌, ◌≢◌, refl, sym, ap, ◌∙◌, String, true, false, ◌&&◌, ◌||◌, some, none, List, [],
  ◌∷◌, any, find?, find?-All, find?-eq-some, find?-update_where, any-filter_by, str_eq, str_eq_iff,
  ok, err, ok_or-eq-ok, ok-injective, inl, inr, Bool-cases, arith,
}
use neuman.Hub.{internal, not_found}
use neuman.Hub.Access.{Actor, accept_art, membership_role}
use neuman.Hub.Journal.{check_idempotency, or_replay}
use neuman.Hub.Journal.Answers.{Answer, after_check}
use neuman.Hub.Records.{ArtProposal, ArtRevision, Channel}
use neuman.Hub.Database.{Db, Call, Libs}
use neuman.Hub.Leases.{option_eq, base_stale}
use neuman.Hub.Proposals.{ArtLibs, AcceptProposalRequest, read_revision, is_proposal, find_proposal}
use neuman.Hub.Proposals.Accept.{current_channel, is_at_head, advanced, is_open_proposal}
use neuman.Hub.Proposals.Accept
use neuman.Hub.Proposals.Accept.Commit.{accept_new, accept_found, accept_art_proposal}
use neuman.Hub.Proposals.Effects.{ArtTables, IsAcceptance}
use neuman.Hub.Proposals.Effects.Acceptance.{accept_new-IsAcceptance}
use neuman.Hub.Proposals.History.{
  history, IsLine, HasHistory, HaveHistory, option_eq_sound, option_eq_refl,
}

-- A head is the id of a stored revision.
stored_head :
    (revisions : List ArtRevision) (c : Channel) (id : String)
    → HasHistory revisions c
    → c.head_revision_id ≡ some id
    → any (λ (row : ArtRevision). str_eq row.id id) revisions ≡ true
stored_head revisions c id h e =
    any-filter_by (λ (row : ArtRevision). str_eq row.id id) _ revisions
      (top (history c.id c.project_id revisions) h.line)
  where
    some-injective : {a b : String} → some a ≡ some b → a ≡ b
    some-injective x = cc

    top :
        (rs : List ArtRevision)
        → IsLine c.head_revision_id rs
        → any (λ (row : ArtRevision). str_eq row.id id) rs ≡ true
    top [] line = absurd (clash (sym line ∙ e))
      where
        clash : none ≡ some id → ⊥
        clash x = cc
    top (r ∷ rs) line = ground (arith, (str_eq_iff r.id id).1 (some-injective (sym line.0 ∙ e)))

-- The id of a new revision is not the head of the channel.
fresh_id :
    (revisions : List ArtRevision) (c : Channel) (r : ArtRevision)
    → HasHistory revisions c
    → any
        (λ (row : ArtRevision). str_eq row.id r.id || str_eq row.proposal_id r.proposal_id)
        revisions
      ≡ false
    → option_eq (some r.id) c.head_revision_id ≡ false
fresh_id revisions c r h fresh = elim (Bool-cases (option_eq (some r.id) c.head_revision_id)) [
  | inl same ↦
      let e = option_eq_sound (some r.id) c.head_revision_id same in
      absurd (neither revisions fresh (stored_head revisions c r.id h (sym e)))
  | inr other ↦ other
]
  where
    neither :
        (rows : List ArtRevision)
        → any
            (λ (row : ArtRevision). str_eq row.id r.id || str_eq row.proposal_id r.proposal_id)
            rows
          ≡ false
        → any (λ (row : ArtRevision). str_eq row.id r.id) rows ≡ true
        → ⊥
    neither [] f t = cc
    neither (row ∷ rows) f t = ground (arith, f, t, neither rows)

-- The channel after an acceptance
current_channel-advanced :
    {db db' : Db} (art : ArtLibs) (call : Call) (actor : Actor) (project_id : String)
    (p : ArtProposal) (r : ArtRevision) (k : IsAcceptance art db db' call actor project_id p r)
    → current_channel db' p.channel_id project_id ≡ ok (advanced r k.channel)
unfolding current_channel is_at_head advanced
current_channel-advanced {db} {db'} art call actor project_id p r k =
    let is_its = λ (c : Channel). str_eq c.id p.channel_id && str_eq c.project_id project_id in
    let hit = ok_or-eq-ok (find? is_its db.channels) internal k.head_found in
    let mine = find?-eq-some is_its db.channels hit in
    let id : str_eq k.channel.id r.channel_id ≡ true =
      ap (λ (x : ArtRevision). str_eq k.channel.id x.channel_id) k.made ∙ ground (arith, mine) in
    let project : str_eq k.channel.project_id r.project_id ≡ true =
      ap (λ (x : ArtRevision). str_eq k.channel.project_id x.project_id) k.made
      ∙ ground (arith, mine) in
    let head : option_eq k.channel.head_revision_id r.parent_revision_id ≡ true =
      rw k.parent (option_eq_refl k.channel.head_revision_id) in
    let found = find?-update_where is_its (is_at_head r) (advanced r) (λ _. refl) db.channels hit in
    let at_head : is_at_head r k.channel ≡ true = ground (arith, id, project, head) in
    let table = ap (λ (t : ArtTables). t.channels) k.after in rw table (rw found (rw at_head refl))

-- Another proposal after an acceptance
find_proposal-other :
    {db db' : Db} (art : ArtLibs) (call : Call) (actor : Actor) (project_id other_id : String)
    (p q : ArtProposal) (r : ArtRevision) (k : IsAcceptance art db db' call actor project_id p r)
    → other_id ≢ r.proposal_id
    → find_proposal db other_id project_id ≡ ok q
    → find_proposal db' other_id project_id ≡ ok q
unfolding find_proposal is_proposal is_open_proposal Accept.accepted
find_proposal-other {db} {db'} art call actor project_id other_id p q r k ne h =
    let hit =
      ok_or-eq-ok (find? (is_proposal other_id project_id) db.proposals)
        (not_found "HUB_ART_PROPOSAL_NOT_FOUND") h in
    let mine = find?-eq-some (is_proposal other_id project_id) db.proposals hit in
    let found =
      find?-update_where (is_proposal other_id project_id) (is_open_proposal r.proposal_id)
        (Accept.accepted call r.id) (λ _. refl) db.proposals hit in
    let other : is_open_proposal r.proposal_id q ≡ false =
      elim (Bool-cases (is_open_proposal r.proposal_id q)) [
        | inl same ↦ absurd (
            ne (
              sym ((str_eq_iff q.id other_id).0 (ground (arith, mine)))
              ∙ (str_eq_iff q.id r.proposal_id).0 (ground (arith, same))))
        | inr differs ↦ differs
      ] in
    let table = ap (λ (t : ArtTables). t.proposals) k.after in rw table (rw found (rw other refl))

stale :
    (libs : Libs) (art : ArtLibs) (call : Call) (db : Db) (actor : Actor)
    (project_id proposal_id key : String) (request : AcceptProposalRequest) (q : String)
    (p : ArtProposal) (c : Channel)
    → find_proposal db proposal_id project_id ≡ ok p
    → p.status ≡ "open"
    → current_channel db p.channel_id project_id ≡ ok c
    → option_eq c.head_revision_id p.base_revision_id ≡ false
    → accept_new libs art call db actor project_id proposal_id key request q
      ≡ err (
          base_stale "The accepted channel head changed; rebase or merge the proposal."
            c.head_revision_id)
unfolding accept_new accept_found
stale libs art call db actor project_id id key request q p c found status head differs = rw found (
    rw status (
      rw head (elim (Bool-cases (option_eq c.head_revision_id request.expected_head_revision_id)) [
        | inl same ↦ rw same (rw differs refl)
        | inr other ↦ rw other refl
      ])))

-- The acceptance of the second fails once the key is known to be new.
accept_new-sibling :
    (libs libs' : Libs) (art art' : ArtLibs) (call call' : Call) (db db' : Db)
    (actor actor' : Actor) (project_id proposal_id other_id key key' : String)
    (request request' : AcceptProposalRequest) (hash hash' : String) (r : ArtRevision)
    (p q : ArtProposal)
    → HaveHistory db
    → accept_new libs art call db actor project_id proposal_id key request hash ≡ ok (db', r)
    → find_proposal db proposal_id project_id ≡ ok p
    → find_proposal db other_id project_id ≡ ok q
    → other_id ≢ proposal_id
    → q.status ≡ "open"
    → q.channel_id ≡ p.channel_id
    → q.base_revision_id ≡ p.base_revision_id
    → accept_new libs' art' call' db' actor' project_id other_id key' request' hash'
      ≡ err (
          base_stale "The accepted channel head changed; rebase or merge the proposal." (some r.id))
unfolding current_channel advanced
accept_new-sibling libs libs' art art' call call' db db' actor actor' project_id id other key key'
      request request' hash hash' r p q line h found_p found_q ne status channel base =
    let ((p', k), same_id) =
      accept_new-IsAcceptance libs art call db actor project_id id key request hash h in
    let same : p' ≡ p =
      ok-injective (sym k.found ∙ ap (λ i. find_proposal db i project_id) same_id ∙ found_p) in
    let is_its = λ (c : Channel). str_eq c.id p'.channel_id && str_eq c.project_id project_id in
    let hit = ok_or-eq-ok (find? is_its db.channels) internal k.head_found in
    let of_channel = find?-All (HasHistory db.revisions) is_its db.channels line hit in
    let fresh = fresh_id db.revisions k.channel r of_channel k.fresh in
    let at_base = option_eq_sound k.channel.head_revision_id p'.base_revision_id k.base in
    let head =
      ap (λ i. current_channel db' i project_id)
        (channel ∙ ap (λ (x : ArtProposal). x.channel_id) (sym same))
      ∙ current_channel-advanced art call actor project_id p' r k in
    let differs : option_eq (some r.id) q.base_revision_id ≡ false =
      ap (option_eq (some r.id))
        (base ∙ ap (λ (x : ArtProposal). x.base_revision_id) (sym same) ∙ sym at_base)
      ∙ fresh in
    stale libs' art' call' db' actor' project_id other key' request' hash' q (advanced r k.channel)
      (find_proposal-other art call actor project_id other p' q r k (λ e. ne (e ∙ same_id)) found_q)
      status head differs

-- Where two open proposals of one channel have one base, and an acceptance of the first that is no
-- replay has committed, then an acceptance of the second, by whomever, under whatever key and with
-- whatever request, commits nothing. A caller who may not accept is turned away; a key that the caller
-- has used gives the error of the look-up, or the stored response; and else the acceptance fails as
-- stale, with the new revision as the current head in the error. The channels have the history of the
-- stored revisions.
pub stale_sibling :
    (libs libs' : Libs) (art art' : ArtLibs) (call call' : Call) (db db' : Db)
    (actor actor' : Actor) (project_id proposal_id other_id key key' : String)
    (request request' : AcceptProposalRequest) (hash hash' : String) (r : ArtRevision)
    (p q : ArtProposal)
    → HaveHistory db
    → accept_new libs art call db actor project_id proposal_id key request hash ≡ ok (db', r)
    → find_proposal db proposal_id project_id ≡ ok p
    → find_proposal db other_id project_id ≡ ok q
    → other_id ≢ proposal_id
    → q.status ≡ "open"
    → q.channel_id ≡ p.channel_id
    → q.base_revision_id ≡ p.base_revision_id
    → Answer db'
        (membership_role db'.projects db'.members actor' project_id accept_art)
        (check_idempotency read_revision db' actor' project_id "art_proposals.accept" key' hash')
        (base_stale "The accepted channel head changed; rebase or merge the proposal." (some r.id))
        (accept_art_proposal libs' art' call' db' actor' project_id other_id key' request' hash')
unfolding accept_art_proposal
stale_sibling libs libs' art art' call call' db db' actor actor' project_id id other key key'
      request request' hash hash' r p q line h found_p found_q ne status channel base =
    let role = membership_role db'.projects db'.members actor' project_id accept_art in
    let stored =
      check_idempotency read_revision db' actor' project_id "art_proposals.accept" key' hash' in
    let error =
      base_stale "The accepted channel head changed; rebase or merge the proposal." (some r.id) in
    subst
      (λ rest.
        Answer db' role stored error (do role; role; replay ← stored; or_replay db' replay rest))
      (sym (
        accept_new-sibling libs libs' art art' call call' db db' actor actor' project_id id other
          key key' request request' hash hash' r p q line h found_p found_q ne status channel base))
      (after_check db' error role stored)

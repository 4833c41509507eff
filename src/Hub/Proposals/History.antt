-- ===== src/Hub/Proposals/History.antt =====
-- The accepted revisions of a channel of hub.rs, from its head back.
use neuman.Prelude.{
  suc, ◌≡◌, refl, sym, ap, ◌∙◌, String, true, false, ◌&&◌, Option, some, none, List, [], ◌∷◌, All,
  All-update_where, find?, find?-All, find?-eq-some, filter_by, length, str_eq, str_eq_iff,
  Bool-cases, ok_or-eq-ok, inl, inr, arith,
}
use neuman.Hub.{internal}
use neuman.Hub.Access.{Actor}
use neuman.Hub.Records.{ArtProposal, ArtRevision, Channel}
use neuman.Hub.Database.{Db, Call}
use neuman.Hub.Leases.{option_eq}
use neuman.Hub.Proposals.{ArtLibs}
use neuman.Hub.Proposals.Accept.{current_channel, is_at_head, advanced}
use neuman.Hub.Proposals.Effects.{ArtTables, IsAcceptance}
use neuman.Hub.Proposals.Steps.{Change, unchanged, created, reviewed, rejected, accepted}

-- The revisions of a channel, newest first
abbrev pub history : String → String → List ArtRevision → List ArtRevision
history channel_id project_id revisions =
    filter_by
      (λ (r : ArtRevision). str_eq r.channel_id channel_id && str_eq r.project_id project_id)
      revisions

-- The head is the newest revision, and the parent of each revision is the next older one; the
-- oldest has no parent.
abbrev pub IsLine : Option String → List ArtRevision → Type 0
IsLine head [] = head ≡ none
IsLine head (r ∷ rs) = (head ≡ some r.id) × IsLine r.parent_revision_id rs

-- A channel that starts at version 1 without a head has this head and this version.
pub record HasHistory (revisions : List ArtRevision) (c : Channel) : Type 0 where
  pub line : IsLine c.head_revision_id (history c.id c.project_id revisions)
  pub version : c.version ≡ suc (length (history c.id c.project_id revisions))

abbrev pub HaveHistory : Db → Type 0
HaveHistory db = All (HasHistory db.revisions) db.channels

pub option_eq_sound : (a b : Option String) → option_eq a b ≡ true → a ≡ b
option_eq_sound none none h = refl
option_eq_sound (some a) (some b) h = ap some ((str_eq_iff a b).0 h)
option_eq_sound none (some b) h = cc
option_eq_sound (some a) none h = cc

pub option_eq_refl : (a : Option String) → option_eq a a ≡ true
option_eq_refl none = refl
option_eq_refl (some a) = (str_eq_iff a a).1 refl

abbrev first_id : List ArtRevision → Option String
first_id [] = none
first_id (r ∷ rs) = some r.id

-- The head of a line is determined by its revisions.
line_head : (head : Option String) (rs : List ArtRevision) → IsLine head rs → head ≡ first_id rs
line_head head [] h = h
line_head head (r ∷ rs) h = h.0

same_head :
    (revisions : List ArtRevision) (c d : Channel)
    → c.id ≡ d.id
    → c.project_id ≡ d.project_id
    → HasHistory revisions c
    → HasHistory revisions d
    → c.head_revision_id ≡ d.head_revision_id
same_head revisions c d e1 e2 h k =
    line_head _ _ h.line ∙ ap first_id (rw (e1, e2) refl) ∙ sym (line_head _ _ k.line)

HasHistory-advanced :
    (revisions : List ArtRevision) (r : ArtRevision) (c : Channel)
    → HasHistory revisions c
    → is_at_head r c ≡ true
    → HasHistory (r ∷ revisions) (advanced r c)
unfolding is_at_head advanced
HasHistory-advanced revisions r c h hit =
    let mine : (str_eq r.channel_id c.id && str_eq r.project_id c.project_id) ≡ true = ground (
      arith,
      hit,
      str_eq_iff c.id r.channel_id,
      str_eq_iff c.project_id r.project_id,
      str_eq_iff r.channel_id c.id,
      str_eq_iff r.project_id c.project_id,
    ) in
    let head = option_eq_sound c.head_revision_id r.parent_revision_id (ground (arith, hit)) in
    record { line = rw mine (refl, rw (← head) h.line); version = rw mine (ap suc h.version) }

HasHistory-other :
    (revisions : List ArtRevision) (r : ArtRevision) (c d : Channel)
    → d.id ≡ r.channel_id
    → d.project_id ≡ r.project_id
    → d.head_revision_id ≡ r.parent_revision_id
    → HasHistory revisions d
    → HasHistory revisions c
    → is_at_head r c ≡ false
    → HasHistory (r ∷ revisions) c
unfolding is_at_head
HasHistory-other revisions r c d e1 e2 e3 k h miss =
    elim (Bool-cases (str_eq r.channel_id c.id && str_eq r.project_id c.project_id)) [
      | inl mine ↦
          let id : c.id ≡ r.channel_id = ground (arith, mine, str_eq_iff r.channel_id c.id) in
          let project : c.project_id ≡ r.project_id =
            ground (arith, mine, str_eq_iff r.project_id c.project_id) in
          let head = same_head revisions c d (id ∙ sym e1) (project ∙ sym e2) h k ∙ e3 in
          absurd (
            ground (
              arith,
              miss,
              str_eq_iff c.id r.channel_id,
              str_eq_iff c.project_id r.project_id,
              option_eq_refl r.parent_revision_id,
              id,
              project,
              head,
            ))
      | inr other ↦ record { line = rw other h.line; version = rw other h.version }
    ]

HaveHistory-accepted :
    {db db' : Db} (art : ArtLibs) (call : Call) (actor : Actor) (project_id : String)
    (p : ArtProposal) (r : ArtRevision)
    → IsAcceptance art db db' call actor project_id p r
    → HaveHistory db
    → HaveHistory db'
unfolding current_channel
HaveHistory-accepted {db} {db'} art call actor project_id p r k h =
    let channels = ap (λ (t : ArtTables). t.channels) k.after in
    let revisions = ap (λ (t : ArtTables). t.revisions) k.after in
    let is_its = λ (c : Channel). str_eq c.id p.channel_id && str_eq c.project_id project_id in
    let hit = ok_or-eq-ok (find? is_its db.channels) internal k.head_found in
    let mine = find?-eq-some is_its db.channels hit in
    let id : k.channel.id ≡ r.channel_id =
      (str_eq_iff k.channel.id p.channel_id).0 (ground (arith, mine))
      ∙ ap (λ (x : ArtRevision). x.channel_id) (sym k.made) in
    let project : k.channel.project_id ≡ r.project_id =
      (str_eq_iff k.channel.project_id project_id).0 (ground (arith, mine))
      ∙ ap (λ (x : ArtRevision). x.project_id) (sym k.made) in
    let found = find?-All (HasHistory db.revisions) is_its db.channels h hit in
    rw (channels, revisions)
      (All-update_where (HasHistory db.revisions) (HasHistory (r ∷ db.revisions)) (is_at_head r)
        (advanced r) (HasHistory-advanced db.revisions r)
        (λ c. HasHistory-other db.revisions r c k.channel id project (sym k.parent) found)
        db.channels h)

abbrev channels_of : ArtTables → List Channel
channels_of t = t.channels

abbrev revisions_of : ArtTables → List ArtRevision
revisions_of t = t.revisions

-- Every change keeps the history of each channel.
pub Change-HaveHistory : {db db' : Db} → Change db db' → HaveHistory db → HaveHistory db'
Change-HaveHistory (unchanged e) h = rw (ap channels_of e, ap revisions_of e) h
Change-HaveHistory (created project_id p k) h =
    rw (ap channels_of k.after, ap revisions_of k.after) h
Change-HaveHistory (reviewed project_id r k) h =
    rw (ap channels_of k.after, ap revisions_of k.after) h
Change-HaveHistory (rejected call project_id id k) h =
    rw (ap channels_of k.after, ap revisions_of k.after) h
Change-HaveHistory (accepted art call actor project_id p r k) h =
    HaveHistory-accepted art call actor project_id p r k h

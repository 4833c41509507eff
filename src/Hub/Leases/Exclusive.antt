-- ===== src/Hub/Leases/Exclusive.antt =====
-- The mutual exclusion of leases on a resource of a channel, as a predicate on tables.
use neuman.Prelude.{
  ℕ, ◌≤◌, ◌≡◌, refl, sym, ◌∙◌, String, Bool, true, false, ◌&&◌, Option, some, none, List, [], ◌∷◌,
  All, update_where, if◌then◌else◌, Result, ok, err, Bool-cases, inl, inr, arith,
}
use neuman.Hub.{HubError}
use neuman.Hub.Records.{Lease}
use neuman.Hub.Leases.{is_active, covers, latest, keep_later, lock_conflict, no_conflict}

-- Two leases on the same resource of the same channel of the same project
abbrev pub SameResource : Lease → Lease → Type 0
SameResource l m =
    (l.project_id ≡ m.project_id) × (l.channel_id ≡ m.channel_id) × (l.resource_id ≡ m.resource_id)

-- At time `t` the two are not both active on one resource.
abbrev pub Apart : ℕ → Lease → Lease → Type 0
Apart t l m = SameResource l m → is_active t l ≡ true → is_active t m ≡ true → ⊥

abbrev pub IsExclusive : ℕ → List Lease → Type 0
IsExclusive t [] = Unit
IsExclusive t (l ∷ ls) = All (Apart t l) ls × IsExclusive t ls

-- A change of a row that keeps its resource, and activates nothing.
pub record Calms (t : ℕ) (f : Lease → Lease) (l : Lease) : Type 0 where
  pub project : (f l).project_id ≡ l.project_id
  pub channel : (f l).channel_id ≡ l.channel_id
  pub resource : (f l).resource_id ≡ l.resource_id
  pub active : is_active t (f l) ≡ true → is_active t l ≡ true

later_active : (t t' : ℕ) (l : Lease) → t ≤ t' → is_active t' l ≡ true → is_active t l ≡ true
unfolding is_active
later_active t t' l h a = ground arith

Apart-later :
    (t t' : ℕ) (l : Lease) (ls : List Lease) → t ≤ t' → All (Apart t l) ls → All (Apart t' l) ls
Apart-later t t' l [] h a = tt
Apart-later t t' l (m ∷ ls) h a = (
  (λ s x y. a.0 s (later_active t t' l h x) (later_active t t' m h y)),
  Apart-later t t' l ls h a.1,
)

-- Leases that exclude one another now do so at any later time.
pub IsExclusive-later : (t t' : ℕ) (ls : List Lease) → t ≤ t' → IsExclusive t ls → IsExclusive t' ls
IsExclusive-later t t' [] h e = tt
IsExclusive-later t t' (l ∷ ls) h e = (Apart-later t t' l ls h e.0, IsExclusive-later t t' ls h e.1)

module _ (t : ℕ) (p : Lease → Bool) (f : Lease → Lease)
    (calm : (l : Lease) → p l ≡ true → Calms t f l) where
  -- one row, changed or not
  row : (l : Lease) → Calms t (λ x. if p x then f x else x) l
  row l = elim (Bool-cases (p l)) [
    | inl hit ↦
        let c = calm l hit in
        record {
          project = rw hit c.project;
          channel = rw hit c.channel;
          resource = rw hit c.resource;
          active = rw hit c.active;
        }
    | inr miss ↦ record {
      project = rw miss;
      channel = rw miss;
      resource = rw miss;
      active = rw miss (λ a. a);
    }
  ]

  Apart-update :
      (l : Lease) (ls : List Lease)
      → All (Apart t l) ls
      → All (Apart t (if p l then f l else l)) (update_where p f ls)
  Apart-update l [] a = tt
  Apart-update l (m ∷ ls) a =
      let cl = row l in
      let cm = row m in
      (
        (λ s x y.
            a.0
              (
                sym cl.project ∙ s.0 ∙ cm.project,
                sym cl.channel ∙ s.1 ∙ cm.channel,
                sym cl.resource ∙ s.2 ∙ cm.resource,
              )
              (cl.active x) (cm.active y)),
        Apart-update l ls a.1,
      )

  -- An `UPDATE` that activates nothing keeps the exclusion.
  pub IsExclusive-update :
      (ls : List Lease) → IsExclusive t ls → IsExclusive t (update_where p f ls)
  IsExclusive-update [] e = tt
  IsExclusive-update (l ∷ ls) e = (Apart-update l ls e.0, IsExclusive-update ls e.1)

keep_later-ne-none : (l : Lease) (o : Option Lease) → keep_later l o ≡ none → ⊥
keep_later-ne-none l none h = cc
keep_later-ne-none l (some m) h = ground arith

latest-none : (p : Lease → Bool) (ls : List Lease) → latest p ls ≡ none → All (λ l. p l ≡ false) ls
unfolding latest
latest-none p [] h = tt
latest-none p (l ∷ ls) h = elim (Bool-cases (p l)) [
  | inl hit ↦ absurd (keep_later-ne-none l (latest p ls) (rw hit at h))
  | inr miss ↦ (miss, latest-none p ls (rw miss at h))
]

-- No lease in the table is active on the resource.
abbrev pub Free : ℕ → String → String → List Lease → String → Type 0
Free now project_id channel_id table resource =
    All (λ l. (covers project_id channel_id resource l && is_active now l) ≡ false) table

no_lease :
    (r : String) (o : Option Lease) (rest : Result HubError (Unit {0}))
    → (elim o [ some l ↦ err (lock_conflict r l) | none ↦ rest ]) ≡ ok tt
    → (o ≡ none) × (rest ≡ ok tt)
no_lease r none rest h = (refl, h)
no_lease r (some l) rest h = cc

pub no_conflict-Free :
    (now : ℕ) (p c : String) (table : List Lease) (rs : List String)
    → no_conflict now p c table rs ≡ ok tt
    → All (Free now p c table) rs
unfolding no_conflict
no_conflict-Free now p c table [] h = tt
no_conflict-Free now p c table (r ∷ rs) h =
    let (none_here, more) = no_lease r (latest _ table) (no_conflict now p c table rs) h in
    (latest-none _ table none_here, no_conflict-Free now p c table rs more)

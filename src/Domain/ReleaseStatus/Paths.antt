-- ===== src/Domain/ReleaseStatus/Paths.antt =====
-- The paths of the state machine of releases in domain.rs.
use neuman.Prelude.{
  ◌≡◌, refl, ap, ◌∙◌, Bool, true, false, not, ◌&&◌, ◌||◌, List, [], ◌∷◌, any, Result, ok, ◌>>=◌,
  >>=-eq-ok, ok-injective, arith, Bool-cases, inl, inr,
}
use neuman.Domain.{DomainError}
use neuman.Domain.ReleaseStatus.{
  ReleaseStatus, draft, awaiting_approval, approved, preflighting, publishing, published,
  partially_published, rollback_required, failed_no_change, unknown_external_state, rolling_back,
  rolled_back, rollback_failed, is_allowed, transition,
}

-- A release that takes the given statuses one after the other
unfoldable pub follow : ReleaseStatus → List ReleaseStatus → Result DomainError ReleaseStatus
follow s [] = ok s
follow s (next ∷ rest) = transition s next >>= λ t. follow t rest

abbrev pub is_approved : ReleaseStatus → Bool
is_approved approved = true
is_approved _ = false

abbrev pub is_preflighting : ReleaseStatus → Bool
is_preflighting preflighting = true
is_preflighting _ = false

abbrev pub is_publishing : ReleaseStatus → Bool
is_publishing publishing = true
is_publishing _ = false

-- Nothing outside has been touched: the statuses before `publishing`
abbrev pub is_untouched : ReleaseStatus → Bool
is_untouched draft = true
is_untouched awaiting_approval = true
is_untouched approved = true
is_untouched preflighting = true
is_untouched failed_no_change = true
is_untouched _ = false

abbrev pub before_approval : ReleaseStatus → Bool
before_approval draft = true
before_approval awaiting_approval = true
before_approval _ = false

abbrev pub before_preflight : ReleaseStatus → Bool
before_preflight draft = true
before_preflight awaiting_approval = true
before_preflight approved = true
before_preflight _ = false

-- The statuses that no transition leaves
abbrev pub is_final : ReleaseStatus → Bool
is_final failed_no_change = true
is_final rolled_back = true
is_final rollback_failed = true
is_final _ = false

transition-eq-ok :
    (s next : ReleaseStatus) {t : ReleaseStatus}
    → transition s next ≡ ok t
    → (is_allowed s next ≡ true) × (next ≡ t)
unfolding transition
transition-eq-ok s next {t} h = ground arith

-- A set of statuses that is only left through a gate
Gated : (ReleaseStatus → Bool) → (ReleaseStatus → Bool) → Type 0
Gated inside gate =
    (s t : ReleaseStatus) → inside s ≡ true → is_allowed s t ≡ true → (inside t || gate t) ≡ true

through_gate :
    (inside gate : ReleaseStatus → Bool) (s : ReleaseStatus) (path : List ReleaseStatus)
    {t : ReleaseStatus}
    → Gated inside gate
    → inside s ≡ true
    → follow s path ≡ ok t
    → inside t ≡ false
    → any gate path ≡ true
unfolding follow Gated
through_gate inside gate s [] {t} g i h o =
    let same : s ≡ t = ok-injective h in cc (ap inside same, i, o)
through_gate inside gate s (next ∷ rest) {t} g i h o =
    let (u, e, h1) = >>=-eq-ok (transition s next) _ h in
    let (allowed, same) = transition-eq-ok s next {t = u} e in
    let step = g s next i allowed in
    elim (Bool-cases (inside u)) [
      | inl still ↦
          let later = through_gate inside gate u rest {t = t} g still h1 o in ground (arith, later)
      | inr left ↦
          let gone : inside next ≡ false = ap inside same ∙ left in ground (arith, step, gone)
    ]

approval_gate : Gated before_approval is_approved
unfolding Gated is_allowed
approval_gate draft draft i a = refl
approval_gate draft _ i a = ground arith
approval_gate awaiting_approval _ i a = ground arith
approval_gate _ t i a = cc

preflight_gate : Gated before_preflight is_preflighting
unfolding Gated is_allowed
preflight_gate draft _ i a = ground arith
preflight_gate awaiting_approval _ i a = ground arith
preflight_gate approved _ i a = ground arith
preflight_gate _ t i a = cc

publish_gate : Gated is_untouched is_publishing
unfolding Gated is_allowed
publish_gate draft _ i a = ground arith
publish_gate awaiting_approval _ i a = ground arith
publish_gate approved _ i a = ground arith
publish_gate preflighting _ i a = ground arith
publish_gate failed_no_change _ i a = ground arith
publish_gate _ t i a = cc

touched :
    (t : ReleaseStatus) → is_untouched t ≡ false → (before_approval t || before_preflight t) ≡ false
touched draft h = cc
touched awaiting_approval h = cc
touched approved h = cc
touched _ h = refl

-- A release that goes from draft to a status in which something outside may have changed has been
-- approved, preflighted and publishing on its way.
pub gates_to_publication :
    (path : List ReleaseStatus) (t : ReleaseStatus)
    → follow draft path ≡ ok t
    → is_untouched t ≡ false
    → (any is_approved path && any is_preflighting path && any is_publishing path) ≡ true
gates_to_publication path t h o =
    let out = touched t o in
    let a =
      through_gate before_approval is_approved draft path {t = t} approval_gate refl h
        (ground (arith, out)) in
    let b =
      through_gate before_preflight is_preflighting draft path {t = t} preflight_gate refl h
        (ground (arith, out)) in
    let c = through_gate is_untouched is_publishing draft path {t = t} publish_gate refl h o in
    ground (arith, a, b, c)

abbrev pub all_statuses : List ReleaseStatus
all_statuses =
    draft ∷ awaiting_approval ∷ approved ∷ preflighting ∷ publishing ∷ published
    ∷ partially_published ∷ rollback_required ∷ failed_no_change ∷ unknown_external_state
    ∷ rolling_back ∷ rolled_back ∷ rollback_failed ∷ []

-- From every status a path leads to one that no transition leaves, and those are exactly the
-- statuses failed without change, rolled back and rollback failed.
pub way_out :
    (s : ReleaseStatus)
    → ((path : List ReleaseStatus) × (t : ReleaseStatus) × (follow s path ≡ ok t)
        × (is_final t ≡ true))
      × (any (is_allowed s) all_statuses ≡ not (is_final s))
unfolding follow transition is_allowed
way_out draft =
    ((approved ∷ preflighting ∷ failed_no_change ∷ [], failed_no_change, refl, refl), refl)
way_out awaiting_approval =
    ((approved ∷ preflighting ∷ failed_no_change ∷ [], failed_no_change, refl, refl), refl)
way_out approved = ((preflighting ∷ failed_no_change ∷ [], failed_no_change, refl, refl), refl)
way_out preflighting = ((failed_no_change ∷ [], failed_no_change, refl, refl), refl)
way_out publishing = ((failed_no_change ∷ [], failed_no_change, refl, refl), refl)
way_out published = ((rolling_back ∷ rolled_back ∷ [], rolled_back, refl, refl), refl)
way_out partially_published =
    ((rollback_required ∷ rolling_back ∷ rolled_back ∷ [], rolled_back, refl, refl), refl)
way_out rollback_required = ((rolling_back ∷ rolled_back ∷ [], rolled_back, refl, refl), refl)
way_out failed_no_change = (([], failed_no_change, refl, refl), refl)
way_out unknown_external_state =
    ((publishing ∷ failed_no_change ∷ [], failed_no_change, refl, refl), refl)
way_out rolling_back = ((rolled_back ∷ [], rolled_back, refl, refl), refl)
way_out rolled_back = (([], rolled_back, refl, refl), refl)
way_out rollback_failed = (([], rollback_failed, refl, refl), refl)

-- ===== src/Bridge/Sequence/Window.antt =====
-- The identifiers that the guard of bridge.rs stores.
use mathlib.Core.Path.{subst}
use Prim.Native.String
use neuman.Bridge.{replay_detected}
use neuman.Prelude.{
  suc, ◌≤◌, ◌<◌, ◌≡◌, refl, sym, ap, ◌∙◌, String, Bool, false, ◌||◌, Option, some, none, List, [],
  ◌∷◌, ◌++◌, Bytes, any, length, length-append, ltb, str_eq, str_eq_iff, arith, bytes_eq_iff, ◌⊎◌,
  ◌==◌, inl, inr, ok, reject_if-then-eq-ok,
}
use neuman.Bridge.Sequence.{
  Envelope, SequenceDecision, fresh, duplicate, SequenceGuard, lookup, remove, tail, expired,
  drop_oldest, expire, advance, max_seen, decide, check,
}

abbrev pub has : String → List String → Bool
has id = any (λ (k : String). str_eq k id)

-- No identifier twice
abbrev pub IsUnique : List String → Type 0
IsUnique [] = Unit
IsUnique (x ∷ xs) = (has x xs ≡ false) × IsUnique xs

abbrev pub keys : List (String × Bytes) → List String
keys [] = []
keys ((k, v) ∷ rest) = k ∷ keys rest

-- What the guard stores: the identifiers in order, each with its digest, at most 1024 of them
pub record IsWindow (g : SequenceGuard) : Type 0 where
  pub same : keys g.seen ≡ g.order
  pub once : IsUnique g.order
  pub few : length g.order ≤ max_seen

keys-append : (xs ys : List (String × Bytes)) → keys (xs ++ ys) ≡ keys xs ++ keys ys
keys-append [] ys = refl
keys-append (x ∷ xs) ys = ap (λ ks. x.0 ∷ ks) (keys-append xs ys)

pub has-keys :
    (id : String) (xs : List (String × Bytes)) → lookup id xs ≡ none → has id (keys xs) ≡ false
unfolding lookup
has-keys id [] h = refl
has-keys id (x ∷ xs) h = ground (arith, has-keys id xs)

has-append : (id : String) (xs ys : List String) → has id (xs ++ ys) ≡ (has id xs || has id ys)
has-append id [] ys = refl
has-append id (x ∷ xs) ys = ground (arith, has-append id xs ys)

IsUnique-append :
    (xs : List String) (id : String) → IsUnique xs → has id xs ≡ false → IsUnique (xs ++ (id ∷ []))
IsUnique-append [] id u h = (refl, tt)
IsUnique-append (x ∷ xs) id u h = (
  ground (arith, u.0, has-append x xs (id ∷ []), str_eq_iff id x, str_eq_iff x id),
  IsUnique-append xs id u.1 (ground arith),
)

-- An identifier that no entry has: its removal changes nothing.
remove_absent :
    (id : String) (xs : List (String × Bytes)) → has id (keys xs) ≡ false → remove id xs ≡ xs
unfolding remove
remove_absent id [] h = refl
remove_absent id (x ∷ xs) h = ground (arith, remove_absent id xs)

advance-Window :
    (g : SequenceGuard) (id : String) (digest : Bytes)
    → IsWindow g
    → lookup id g.seen ≡ none
    → (keys (advance g id digest).seen ≡ (advance g id digest).order)
      × (IsUnique (advance g id digest).order × (length (advance g id digest).order ≤ suc max_seen))
unfolding advance
advance-Window g id digest w h = (
  keys-append g.seen ((id, digest) ∷ []) ∙ ap (λ ks. ks ++ (id ∷ [])) w.same,
  (
    IsUnique-append g.order id w.once (rw (← w.same) (has-keys id g.seen h)),
    omega (arith, w.few, length-append g.order (id ∷ [])),
  ),
)

expired-some :
    (order : List String) {first : String} → expired order ≡ some first → order ≡ first ∷ tail order
unfolding expired
expired-some [] h = cc
expired-some (x ∷ xs) {first} h = ground arith

expired-none : (order : List String) → expired order ≡ none → length order ≤ max_seen
unfolding expired
expired-none [] h = omega arith
expired-none (x ∷ xs) h = ground arith

length-tail : (order : List String) → length order ≤ suc max_seen → length (tail order) ≤ max_seen
length-tail [] h = omega arith
length-tail (x ∷ xs) h = omega (arith, h)

remove_hit :
    (first : String) (x : String × Bytes) (seen : List (String × Bytes))
    → x.0 ≡ first
    → remove first (x ∷ seen) ≡ remove first seen
unfolding remove
remove_hit first x seen e = ground (arith, (str_eq_iff x.0 first).1 e)

remove_first :
    (first : String) (rest : List String) (seen : List (String × Bytes))
    → keys seen ≡ first ∷ rest
    → has first rest ≡ false
    → keys (remove first seen) ≡ rest
remove_first first rest [] e h = cc
remove_first first rest (x ∷ seen) e h =
    let head : x.0 ≡ first = cc in
    let later : keys seen ≡ rest = cc in
    ap keys (remove_hit first x seen head ∙ remove_absent first seen (rw later h)) ∙ later

drop_oldest-IsWindow :
    (g : SequenceGuard) (o : Option String)
    → (keys g.seen ≡ g.order) × (IsUnique g.order × (length g.order ≤ suc max_seen))
    → expired g.order ≡ o
    → IsWindow (drop_oldest g o)
unfolding drop_oldest
drop_oldest-IsWindow g none w e = record { same = w.0; once = w.1.0; few = expired-none g.order e }
drop_oldest-IsWindow g (some first) w e =
    let split = expired-some g.order e in
    let u : IsUnique (first ∷ tail g.order) = subst IsUnique split w.1.0 in
    record {
      same = remove_first first (tail g.order) g.seen (w.0 ∙ split) u.0;
      once = u.1;
      few = length-tail g.order w.1.1;
    }

expire-IsWindow :
    (g : SequenceGuard)
    → (keys g.seen ≡ g.order) × (IsUnique g.order × (length g.order ≤ suc max_seen))
    → IsWindow (expire g)
unfolding expire
expire-IsWindow g w = drop_oldest-IsWindow g (expired g.order) w refl

-- A new message: not seen before, and with the expected number
pub record IsFresh (digest : Bytes) (g g' : SequenceGuard) (e : Envelope) : Type 0 where
  pub unseen : lookup e.message_id g.seen ≡ none
  pub number : e.sequence ≡ g.expected
  pub result : g' ≡ expire (advance g e.message_id digest)

-- A message that was seen before, with the same bytes and an earlier number
pub record IsDuplicate (digest : Bytes) (g g' : SequenceGuard) (e : Envelope) : Type 0 where
  pub known : lookup e.message_id g.seen ≡ some digest
  pub earlier : e.sequence < g.expected
  pub result : g' ≡ g

module _ (blake3 : Bytes → Bytes) where
  decide-eq-ok :
      (g g' : SequenceGuard) (e : Envelope) (digest : Bytes) (o : Option Bytes)
      (d : SequenceDecision)
      → lookup e.message_id g.seen ≡ o
      → decide blake3 g e digest o ≡ ok (g', d)
      → ((d ≡ fresh) × IsFresh digest g g' e) ⊎ ((d ≡ duplicate) × IsDuplicate digest g g' e)
  unfolding decide
  decide-eq-ok g g' e digest none d l h =
      inl (ground arith, record { unseen = l; number = ground arith; result = ground arith })
  decide-eq-ok g g' e digest (some previous) d l h = inr (
    ground arith,
    record {
      known = ground (arith, bytes_eq_iff previous digest);
      earlier = ground arith;
      result = ground arith;
    },
  )

  -- The two ways in which `check` succeeds
  pub check-eq-ok :
      (g g' : SequenceGuard) (e : Envelope) (raw : Bytes) (d : SequenceDecision)
      → check blake3 g e raw ≡ ok (g', d)
      → ((d ≡ fresh) × IsFresh (blake3 raw) g g' e)
        ⊎ ((d ≡ duplicate) × IsDuplicate (blake3 raw) g g' e)
  unfolding check
  check-eq-ok g g' e raw d h =
      let (_, h1) =
        reject_if-then-eq-ok (ltb 128 (String.len e.message_id) || String.len e.message_id == 0)
          replay_detected _ h in
      decide-eq-ok g g' e (blake3 raw) (lookup e.message_id g.seen) d refl h1

  -- Whatever arrives, a guard that is a window stays one.
  pub check-IsWindow :
      (g g' : SequenceGuard) (e : Envelope) (raw : Bytes) (d : SequenceDecision)
      → IsWindow g
      → check blake3 g e raw ≡ ok (g', d)
      → IsWindow g'
  check-IsWindow g g' e raw d w h = elim (check-eq-ok g g' e raw d h) [
    | inl (_, f) ↦ subst IsWindow (sym f.result) (
        expire-IsWindow (advance g e.message_id (blake3 raw))
          (advance-Window g e.message_id (blake3 raw) w f.unseen))
    | inr (_, k) ↦ subst IsWindow (sym k.result) w
  ]

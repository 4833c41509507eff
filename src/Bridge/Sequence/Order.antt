-- ===== src/Bridge/Sequence/Order.antt =====
-- The numbers of the messages that the guard of bridge.rs accepts as new.
use mathlib.Core.Path.{subst}
use neuman.Prelude.{
  ℕ, zero, suc, ◌+◌, ◌%◌, ◌^◌, ◌<◌, ◌≡◌, refl, sym, ap, ap₂, ◌∙◌, String, Bool, true, false, Option,
  some, none, List, [], ◌∷◌, Bytes, length, if◌then◌else◌, arith, inl, inr, Result, ok, err,
  Result-cases,
}
use neuman.Bridge.{BridgeError}
use neuman.Bridge.Sequence.{
  Envelope, SequenceDecision, fresh, duplicate, SequenceGuard, expired, drop_oldest, expire,
  advance, check,
}
use neuman.Bridge.Sequence.Window.{check-eq-ok}

-- The guard after a message; one that is refused changes nothing.
accepted_by : Result BridgeError (SequenceGuard × SequenceDecision) → SequenceGuard → SequenceGuard
accepted_by (ok (g', d)) g = g'
accepted_by (err e) g = g

abbrev is_fresh : Result BridgeError (SequenceGuard × SequenceDecision) → Bool
is_fresh (ok (g', fresh)) = true
is_fresh (ok (g', duplicate)) = false
is_fresh (err e) = false

module _ (blake3 : Bytes → Bytes) where
  -- The numbers of the messages that a guard accepts as new
  unfoldable pub accepted : SequenceGuard → List (Envelope × Bytes) → List ℕ
  unfolding accepted_by
  accepted g [] = []
  accepted g ((e, raw) ∷ rest) =
      let r = check blake3 g e raw in
      let later = accepted (accepted_by r g) rest in
      if is_fresh r then e.sequence ∷ later else later

abbrev pub count_up : ℕ → ℕ → List ℕ
count_up n zero = []
count_up n (suc k) = n ∷ count_up (n + 1) k

module _ (blake3 : Bytes → Bytes) where
  -- A message is new, has the expected number and moves it on, or leaves it.
  data Moves (g : SequenceGuard) (e : Envelope)
      (r : Result BridgeError (SequenceGuard × SequenceDecision)) : Type 0 where
    forward :
        is_fresh r ≡ true
        → e.sequence ≡ g.expected
        → (accepted_by r g).expected ≡ (g.expected + 1) % 2 ^ 64
        → Moves g e r
    stays : is_fresh r ≡ false → (accepted_by r g).expected ≡ g.expected → Moves g e r

  expire-expected : (g : SequenceGuard) → (expire g).expected ≡ g.expected
  unfolding expire drop_oldest
  expire-expected g = go (expired g.order)
    where
      go : (o : Option String) → (drop_oldest g o).expected ≡ g.expected
      go none = refl
      go (some first) = refl

  Moves-ok :
      (g g' : SequenceGuard) (e : Envelope) (raw : Bytes) (d : SequenceDecision)
      → check blake3 g e raw ≡ ok (g', d)
      → Moves g e (ok (g', d))
  unfolding accepted_by advance
  Moves-ok g g' e raw fresh h = elim (check-eq-ok blake3 g g' e raw fresh h) [
    | inl (_, f) ↦ forward refl f.number (
        ap (λ (k : SequenceGuard). k.expected) f.result
        ∙ expire-expected (advance g e.message_id (blake3 raw)))
    | inr (other, _) ↦ cc
  ]
  Moves-ok g g' e raw duplicate h = elim (check-eq-ok blake3 g g' e raw duplicate h) [
    | inl (other, _) ↦ cc
    | inr (_, k) ↦ stays refl (ap (λ (x : SequenceGuard). x.expected) k.result)
  ]

  check-Moves : (g : SequenceGuard) (e : Envelope) (raw : Bytes) → Moves g e (check blake3 g e raw)
  unfolding accepted_by
  check-Moves g e raw = elim (Result-cases (check blake3 g e raw)) [
    | inl ((g', d), h) ↦ subst (Moves g e) (sym h) (Moves-ok g g' e raw d h)
    | inr (x, h) ↦ subst (Moves g e) (sym h) (stays refl refl)
  ]

  longer :
      (g g1 : SequenceGuard) (e : Envelope) (rest : List (Envelope × Bytes)) (b : Bool)
      → b ≡ true
      → e.sequence ≡ g.expected
      → g1.expected ≡ g.expected + 1
      → accepted blake3 g1 rest ≡ count_up g1.expected (length (accepted blake3 g1 rest))
      → (if b then e.sequence ∷ accepted blake3 g1 rest else accepted blake3 g1 rest)
        ≡ count_up g.expected
            (length (if b then e.sequence ∷ accepted blake3 g1 rest else accepted blake3 g1 rest))
  longer g g1 e rest true t n m ih =
      ap₂ ◌∷◌ n (ih ∙ ap (λ k. count_up k (length (accepted blake3 g1 rest))) m)
  longer g g1 e rest false t n m ih = cc

  as_long :
      (g g1 : SequenceGuard) (e : Envelope) (rest : List (Envelope × Bytes)) (b : Bool)
      → b ≡ false
      → g1.expected ≡ g.expected
      → accepted blake3 g1 rest ≡ count_up g1.expected (length (accepted blake3 g1 rest))
      → (if b then e.sequence ∷ accepted blake3 g1 rest else accepted blake3 g1 rest)
        ≡ count_up g.expected
            (length (if b then e.sequence ∷ accepted blake3 g1 rest else accepted blake3 g1 rest))
  as_long g g1 e rest true t m ih = cc
  as_long g g1 e rest false t m ih = ih ∙ ap (λ k. count_up k (length (accepted blake3 g1 rest))) m

  -- The messages that a guard accepts as new, among any that arrive, are numbered without a gap or a
  -- repetition from the number that it expects, while the numbers fit a u64.
  pub accepted-consecutive :
      (g : SequenceGuard) (messages : List (Envelope × Bytes))
      → g.expected + length messages < 2 ^ 64
      → accepted blake3 g messages ≡ count_up g.expected (length (accepted blake3 g messages))
  unfolding accepted
  accepted-consecutive g [] small = refl
  accepted-consecutive g ((e, raw) ∷ rest) small = elim (check-Moves g e raw) [
    | forward t n m ↦
        let g1 = accepted_by (check blake3 g e raw) g in
        let m1 : g1.expected ≡ g.expected + 1 = omega (arith, m, small) in
        longer g g1 e rest (is_fresh (check blake3 g e raw)) t n m1
          (accepted-consecutive g1 rest (omega (arith, m1, small)))
    | stays t m ↦
        let g1 = accepted_by (check blake3 g e raw) g in
        as_long g g1 e rest (is_fresh (check blake3 g e raw)) t m
          (accepted-consecutive g1 rest (omega (arith, m, small)))
  ]

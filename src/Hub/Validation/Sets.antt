-- ===== src/Hub/Validation/Sets.antt =====
-- What `sorted_unique` of hub.rs returns.
use mathlib.Core.Path.{subst}
use mathlib.Core.List.{Perm, perm_middle}
use mathlib.Core.List.Perm
use neuman.Prelude.{
  ◌++◌, ◌≤◌, append-nil, String, true, false, ◌≡◌, ◌≢◌, refl, ap, Option, some, none, List, [], ◌∷◌,
  Bytes, codes, All, length, ok-injective, ok_or-eq-ok, ltb, bytes_eq, ok, >>=-eq-ok,
  reject_if-then-eq-ok, ok_or, arith, Bool-cases, inl, inr,
}
use neuman.Hub.Validation.{before, set_insert, collect, sorted_unique, validate_name}

pub before_trans : (a b c : Bytes) → before a b ≡ true → before b c ≡ true → before a c ≡ true
unfolding before
before_trans [] [] c h k = cc
before_trans [] (y ∷ b) [] h k = cc
before_trans [] (y ∷ b) (z ∷ c) h k = refl
before_trans (x ∷ a) [] c h k = cc
before_trans (x ∷ a) (y ∷ b) [] h k = cc
before_trans (x ∷ a) (y ∷ b) (z ∷ c) h k = ground (arith, before_trans a b c)

pub before_irrefl : (a : Bytes) → before a a ≡ false
unfolding before
before_irrefl [] = refl
before_irrefl (x ∷ a) = ground (arith, before_irrefl a)

before_total : (a b : Bytes) → bytes_eq a b ≡ false → before a b ≡ false → before b a ≡ true
unfolding before bytes_eq
before_total [] [] h k = cc
before_total [] (y ∷ b) h k = cc
before_total (x ∷ a) [] h k = refl
before_total (x ∷ a) (y ∷ b) h k = ground (arith, before_total a b)

insert_nil : (v : String) (out : List String) → set_insert v [] ≡ some out → out ≡ v ∷ []
unfolding set_insert
insert_nil v out h = cc

-- In strictly ascending order, every element before all that follow.
abbrev pub IsAscending : List String → Type 0
IsAscending [] = Unit
IsAscending (x ∷ xs) = All (λ y. before (codes x) (codes y) ≡ true) xs × IsAscending xs

All-before :
    (v x : String) (xs : List String)
    → before (codes v) (codes x) ≡ true
    → All (λ y. before (codes x) (codes y) ≡ true) xs
    → All (λ y. before (codes v) (codes y) ≡ true) xs
All-before v x [] h k = tt
All-before v x (y ∷ xs) h k = (before_trans _ _ _ h k.0, All-before v x xs h k.1)

-- Where `set_insert` puts the value: in front, or behind the head.
data Inserted (v x : String) (xs out : List String) : Type 0 where
  front : before (codes v) (codes x) ≡ true → out ≡ v ∷ x ∷ xs → Inserted v x xs out
  behind :
      (rest : List String)
      → before (codes x) (codes v) ≡ true
      → set_insert v xs ≡ some rest
      → out ≡ x ∷ rest
      → Inserted v x xs out

cons_option :
    (x : String) (o : Option (List String)) (out : List String)
    → (elim o [ none ↦ none | some rest ↦ some (x ∷ rest) ]) ≡ some out
    → (rest : List String) × (o ≡ some rest) × (out ≡ x ∷ rest)
cons_option x none out h = cc
cons_option x (some rest) out h = (rest, refl, cc)

set_insert-Inserted :
    (v x : String) (xs out : List String) → set_insert v (x ∷ xs) ≡ some out → Inserted v x xs out
unfolding set_insert
set_insert-Inserted v x xs out h = elim (Bool-cases (bytes_eq (codes v) (codes x))) [
  | inl same ↦ absurd (ground arith)
  | inr other ↦ elim (Bool-cases (before (codes v) (codes x))) [
    | inl first ↦ front first (ground arith)
    | inr later ↦
        let (rest, e, o) = cons_option x (set_insert v xs) out (rw later at (rw other at h)) in
        behind rest (before_total _ _ other later) e o
  ]
]

All-set_insert :
    (P : String → Type 0) (v : String) (xs out : List String)
    → P v
    → All P xs
    → set_insert v xs ≡ some out
    → All P out
All-set_insert P v [] out p a h = rw (insert_nil v out h) (p, tt)
All-set_insert P v (x ∷ xs) out p a h = elim (set_insert-Inserted v x xs out h) [
  | front b e ↦ rw e (p, a)
  | behind rest b e o ↦ rw o (a.0, All-set_insert P v xs rest p a.1 e)
]

set_insert-IsAscending :
    (v : String) (xs out : List String)
    → IsAscending xs
    → set_insert v xs ≡ some out
    → IsAscending out
set_insert-IsAscending v [] out a h = rw (insert_nil v out h) (tt, tt)
set_insert-IsAscending v (x ∷ xs) out a h = elim (set_insert-Inserted v x xs out h) [
  | front b e ↦ rw e ((b, All-before v x xs b a.0), a)
  | behind rest b e o ↦ rw o (
    All-set_insert (λ y. before (codes x) (codes y) ≡ true) v xs rest b a.0 e,
    set_insert-IsAscending v xs rest a.1 e,
  )
]

set_insert-perm :
    (v : String) (xs out : List String) → set_insert v xs ≡ some out → Perm out (v ∷ xs)
set_insert-perm v [] out h = rw (insert_nil v out h) (Perm.refl (v ∷ []))
set_insert-perm v (x ∷ xs) out h = elim (set_insert-Inserted v x xs out h) [
  | front b e ↦ rw e (Perm.refl (v ∷ x ∷ xs))
  | behind rest b e o ↦
      rw o (Perm.trans (Perm.cons x (set_insert-perm v xs rest e)) (Perm.swap v x xs))
]

collect-IsAscending :
    (name : String) (set values out : List String)
    → IsAscending set
    → collect name set values ≡ ok out
    → IsAscending out
      × Perm out (values ++ set)
      × All (λ v. validate_name v 1 256 name ≡ ok tt) values
unfolding collect
collect-IsAscending name set [] out a h = rw (← ok-injective h) (a, Perm.refl set, tt)
collect-IsAscending name set (v ∷ values) out a h =
    let (_, named, h1) = >>=-eq-ok (validate_name v 1 256 name) _ h in
    let (set', e, h2) = >>=-eq-ok (ok_or (set_insert v set) _) _ h1 in
    let inserted = ok_or-eq-ok (set_insert v set) _ e in
    let (up, same, all_named) =
      collect-IsAscending name set' values out (set_insert-IsAscending v set set' a inserted) h2 in
    (
      up,
      Perm.trans same (
          Perm.trans (Perm.append_left values (set_insert-perm v set set' inserted))
            (perm_middle values set)),
      (named, all_named),
    )

pub sorted_unique-IsAscending :
    (values out : List String) (name : String)
    → sorted_unique values name ≡ ok out
    → IsAscending out
      × Perm out values
      × (length values ≤ 10000)
      × All (λ v. validate_name v 1 256 name ≡ ok tt) values
unfolding sorted_unique
sorted_unique-IsAscending values out name h =
    let (few, h1) = reject_if-then-eq-ok (ltb 10000 (length values)) _ _ h in
    let (up, same, named) = collect-IsAscending name [] values out tt h1 in
    (up, subst (Perm out) (append-nil values) same, ground (arith, few), named)

-- An element before another is not equal to it.
pub before-ne : (x y : String) → before (codes x) (codes y) ≡ true → x ≢ y
before-ne x y b e = cc (ap codes e, before_irrefl (codes y), b)

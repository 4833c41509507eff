-- ===== src/Prelude/Keys.antt =====
-- Tables with a primary key.
use mathlib.Core.Path.{◌≡◌, refl, ap, sym, ◌∙◌}
use mathlib.Core.Logic.{inl, inr}
use mathlib.Core.Bool.{Bool, true, false}
use mathlib.Core.Option.{some}
use mathlib.Core.List.{List, [], ◌∷◌}
use native.Mathlib.Omega.{arith}
use Prim.Native.String.{String}
use neuman.Prelude.Tests.{if◌then◌else◌, Bool-cases}
use neuman.Prelude.Lists.{All, any, find?, find?-eq-some, update_where}
use neuman.Prelude.Text.{str_eq, str_eq_iff}

module _ {ℓ} {A : Type ℓ} (id_of : A → String) where
  -- `WHERE id=?1`
  abbrev pub has_key : String → A → Bool
  has_key k x = str_eq (id_of x) k

  abbrev pub IsKeyed : List A → Type 0
  IsKeyed [] = Unit
  IsKeyed (x ∷ xs) = (any (has_key (id_of x)) xs ≡ false) × IsKeyed xs

  any-has_key-update :
      (k : String) (p : A → Bool) (f : A → A)
      → ((x : A) → id_of (f x) ≡ id_of x)
      → (xs : List A) → any (has_key k) (update_where p f xs) ≡ any (has_key k) xs
  any-has_key-update k p f keep [] = refl
  any-has_key-update k p f keep (x ∷ xs) = ground (arith, keep x, any-has_key-update k p f keep xs)

  -- An `UPDATE` that leaves the ids keeps the key.
  pub IsKeyed-update :
      (p : A → Bool) (f : A → A)
      → ((x : A) → id_of (f x) ≡ id_of x)
      → (xs : List A) → IsKeyed xs
      → IsKeyed (update_where p f xs)
  IsKeyed-update p f keep [] h = tt
  IsKeyed-update p f keep (x ∷ xs) h = (
    rw (any-has_key-update _ p f keep xs) (rw (same_id (p x)) h.0),
    IsKeyed-update p f keep xs h.1,
  )
    where
      same_id : (b : Bool) → id_of (if b then f x else x) ≡ id_of x
      same_id true = keep x
      same_id false = refl

  has_key_self : (k : String) (x : A) → id_of x ≡ k → has_key k x ≡ true
  has_key_self k x e = (str_eq_iff (id_of x) k).1 e

  pub any-of-find :
      (p : A → Bool) (xs : List A) {x : A} → find? p xs ≡ some x → any (has_key (id_of x)) xs ≡ true
  any-of-find p [] h = cc
  any-of-find p (y ∷ xs) {x} h = elim (Bool-cases (p y)) [
    | inl hit ↦ ground (arith, has_key_self (id_of x) y)
    | inr miss ↦ ground (arith, any-of-find p xs {x = x})
  ]

  none_other :
      (k : String) (xs : List A) (P : A → Type ℓ)
      → any (has_key k) xs ≡ false
      → All (λ x. id_of x ≡ k → P x) xs
  none_other k [] P h = tt
  none_other k (x ∷ xs) P h =
      ((λ e. absurd (ground (arith, has_key_self k x e))), none_other k xs P (ground arith))

  -- The row that a query on the id finds is the only one with that id.
  pub keyed_unique :
      (p : A → Bool) (k : String) (xs : List A) {r : A}
      → ((x : A) → p x ≡ true → id_of x ≡ k)
      → IsKeyed xs
      → find? p xs ≡ some r
      → All (λ x. id_of x ≡ k → x ≡ r) xs
  keyed_unique p k [] ids h found = tt
  keyed_unique p k (y ∷ xs) {r} ids h found = elim (Bool-cases (p y)) [
    | inl hit ↦ (
      (λ e. some-injective (sym (rw hit) ∙ found)),
      none_other k xs (λ x. x ≡ r) (rw (sym (ids y hit)) h.0),
    )
    | inr miss ↦ (
      (λ e. absurd (clash (r_id miss) (one_id miss e))),
      keyed_unique p k xs {r = r} ids h.1 (later miss),
    )
  ]
    where
      true-ne-false : true ≡ false → ⊥
      true-ne-false e = cc

      some-injective : {u v : A} → some u ≡ some v → u ≡ v
      some-injective e = cc

      later : p y ≡ false → find? p xs ≡ some r
      later miss = ground (arith)

      r_id : p y ≡ false → any (has_key (id_of r)) xs ≡ true
      r_id miss = any-of-find p xs {x = r} (later miss)

      one_id : p y ≡ false → id_of y ≡ k → id_of r ≡ id_of y
      one_id miss same = ids r (find?-eq-some p xs (later miss)) ∙ sym same

      clash : any (has_key (id_of r)) xs ≡ true → id_of r ≡ id_of y → ⊥
      clash e same = true-ne-false (sym e ∙ ap (λ i. any (has_key i) xs) same ∙ h.0)

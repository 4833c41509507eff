-- ===== src/Prelude/Lists.antt =====
-- Lists measured and indexed by native numbers, under the library's names.
use Prim.Native.Nat.{ℕ, zero, suc, ◌+◌, ◌<◌}
use mathlib.Core.Path.{◌≡◌, refl, sym, ap, subst}
use mathlib.Core.Logic.{◌≢◌}
use mathlib.Core.Bool.{Bool, true, false, ◌&&◌, ◌||◌}
use mathlib.Core.List.{List, [], ◌∷◌, ◌++◌, map}
use mathlib.Core.Option.{Option, none, some}
use native.Mathlib.Omega.{arith}
use neuman.Prelude.Tests.{if◌then◌else◌}

module _ {ℓ} {A : Type ℓ} where
  abbrev pub length : List A → ℕ
  length [] = 0
  length (x ∷ xs) = suc (length xs)

  abbrev pub get_elem? : List A → ℕ → Option A
  get_elem? [] i = none
  get_elem? (x ∷ xs) zero = some x
  get_elem? (x ∷ xs) (suc i) = get_elem? xs i

  abbrev pub get_or : List A → ℕ → A → A
  get_or [] i d = d
  get_or (x ∷ xs) zero d = x
  get_or (x ∷ xs) (suc i) d = get_or xs i d

  -- A write out of bounds changes nothing.
  abbrev pub set : List A → ℕ → A → List A
  set [] i v = []
  set (x ∷ xs) zero v = v ∷ xs
  set (x ∷ xs) (suc i) v = x ∷ set xs i v

  abbrev pub replicate : ℕ → A → List A
  replicate zero a = []
  replicate (suc n) a = a ∷ replicate n a

  -- `iter().all(p)` and `iter().any(p)`
  abbrev pub all : (A → Bool) → List A → Bool
  all p [] = true
  all p (x ∷ xs) = p x && all p xs

  abbrev pub any : (A → Bool) → List A → Bool
  any p [] = false
  any p (x ∷ xs) = p x || any p xs

  -- `trim_start_matches`
  abbrev pub drop_while : (A → Bool) → List A → List A
  drop_while p [] = []
  drop_while p (x ∷ xs) = if p x then drop_while p xs else x ∷ xs

  abbrev pub take : ℕ → List A → List A
  take zero xs = []
  take (suc n) [] = []
  take (suc n) (x ∷ xs) = x ∷ take n xs

  abbrev pub drop : ℕ → List A → List A
  drop zero xs = xs
  drop (suc n) [] = []
  drop (suc n) (x ∷ xs) = drop n xs

  -- `take_while(…).count()`
  abbrev pub count_while : (A → Bool) → List A → ℕ
  count_while p [] = 0
  count_while p (x ∷ xs) = if p x then suc (count_while p xs) else 0

  -- A predicate of every element.
  abbrev pub All {κ} : (A → Type κ) → List A → Type κ
  All P [] = Unit
  All P (x ∷ xs) = P x × All P xs

module _ {ℓ} {A : Type ℓ} where
  pub length-append : (xs ys : List A) → length (xs ++ ys) ≡ length xs + length ys
  length-append [] ys = omega arith
  length-append (x ∷ xs) ys = omega (arith, length-append xs ys)

  pub length-set : (xs : List A) (i : ℕ) (v : A) → length (set xs i v) ≡ length xs
  length-set [] i v = refl
  length-set (x ∷ xs) zero v = refl
  length-set (x ∷ xs) (suc i) v = ap suc (length-set xs i v)

  pub length-replicate : (n : ℕ) (a : A) → length (replicate n a) ≡ n
  length-replicate zero a = refl
  length-replicate (suc n) a = ap suc (length-replicate n a)

  pub get_elem?-set_self :
      (xs : List A) (i : ℕ) (v : A) → i < length xs → get_elem? (set xs i v) i ≡ some v
  get_elem?-set_self [] i v h = elim h [ ]
  get_elem?-set_self (x ∷ xs) zero v h = refl
  get_elem?-set_self (x ∷ xs) (suc i) v h = get_elem?-set_self xs i v (omega arith)

  pub get_elem?-set_ne :
      (xs : List A) {i j : ℕ} (v : A) → i ≢ j → get_elem? (set xs i v) j ≡ get_elem? xs j
  get_elem?-set_ne [] v h = refl
  get_elem?-set_ne (x ∷ xs) {i = zero} {j = zero} v h = absurd (h refl)
  get_elem?-set_ne (x ∷ xs) {i = zero} {j = suc j} v h = refl
  get_elem?-set_ne (x ∷ xs) {i = suc i} {j = zero} v h = refl
  get_elem?-set_ne (x ∷ xs) {i = suc i} {j = suc j} v h = get_elem?-set_ne xs v (λ e. h (ap suc e))

  pub length-map {κ} : {B : Type κ} (f : A → B) (xs : List A) → length (map f xs) ≡ length xs
  length-map f [] = refl
  length-map f (x ∷ xs) = ap suc (length-map f xs)

-- Rows of a table: `SELECT … LIMIT 1`, `COUNT(*)`, `EXISTS` (`any`) and `UPDATE … WHERE`.
module _ {ℓ} {A : Type ℓ} where
  abbrev pub find? : (A → Bool) → List A → Option A
  find? p [] = none
  find? p (x ∷ xs) = if p x then some x else find? p xs

  abbrev pub filter_by : (A → Bool) → List A → List A
  filter_by p [] = []
  filter_by p (x ∷ xs) = if p x then x ∷ filter_by p xs else filter_by p xs

  abbrev pub count_where : (A → Bool) → List A → ℕ
  count_where p [] = 0
  count_where p (x ∷ xs) = if p x then suc (count_where p xs) else count_where p xs

  abbrev pub update_where : (A → Bool) → (A → A) → List A → List A
  update_where p f [] = []
  update_where p f (x ∷ xs) = (if p x then f x else x) ∷ update_where p f xs

module _ {ℓ} {A : Type ℓ} where
  pub find?-eq-some : (p : A → Bool) (xs : List A) {x : A} → find? p xs ≡ some x → p x ≡ true
  find?-eq-some p [] h = cc
  find?-eq-some p (y ∷ xs) {x} h = ground (arith, find?-eq-some p xs {x = x})

  pub find?-All {κ} :
      (P : A → Type κ) (p : A → Bool) (xs : List A) {x : A} → All P xs → find? p xs ≡ some x → P x
  find?-All P p [] a h = cc
  find?-All P p (y ∷ xs) {x} a h = pick (p y) (find?-All P p xs {x = x} a.1) h
    where
      same : {u v : A} → some u ≡ some v → u ≡ v
      same e = cc

      pick :
          (b : Bool)
          → (find? p xs ≡ some x → P x)
          → (if b then some y else find? p xs) ≡ some x
          → P x
      pick true later e = subst P (same e) a.0
      pick false later e = later e

  pub All-map {κ μ} :
      (P : A → Type κ) (Q : A → Type μ)
      → ((x : A) → P x → Q x)
      → (xs : List A) → All P xs
      → All Q xs
  All-map P Q f [] a = tt
  All-map P Q f (x ∷ xs) a = (f x a.0, All-map P Q f xs a.1)

  pub All-get_elem? {κ} :
      (P : A → Type κ) (xs : List A) (i : ℕ) {x : A} → All P xs → get_elem? xs i ≡ some x → P x
  All-get_elem? P [] i a h = cc
  All-get_elem? P (y ∷ xs) zero a h = subst P (same h) a.0
    where
      same : {u v : A} → some u ≡ some v → u ≡ v
      same e = cc
  All-get_elem? P (y ∷ xs) (suc i) a h = All-get_elem? P xs i a.1 h

  pub All-filter_by {κ} :
      (P : A → Type κ) (p : A → Bool) (xs : List A) → All P xs → All P (filter_by p xs)
  All-filter_by P p [] a = tt
  All-filter_by P p (x ∷ xs) a = pick (p x) (All-filter_by P p xs a.1)
    where
      pick :
          (b : Bool)
          → All P (filter_by p xs)
          → All P (if b then x ∷ filter_by p xs else filter_by p xs)
      pick true rest = (a.0, rest)
      pick false rest = rest

  pub All-zip {κ μ} :
      (P : A → Type κ) (Q : A → Type μ) (xs : List A)
      → All P xs
      → All Q xs
      → All (λ x. P x × Q x) xs
  All-zip P Q [] a b = tt
  All-zip P Q (x ∷ xs) a b = ((a.0, b.0), All-zip P Q xs a.1 b.1)

  pub All-update_where {κ μ} :
      (P : A → Type κ) (Q : A → Type μ) (p : A → Bool) (f : A → A)
      → ((x : A) → P x → p x ≡ true → Q (f x))
      → ((x : A) → P x → p x ≡ false → Q x)
      → (xs : List A) → All P xs
      → All Q (update_where p f xs)
  All-update_where P Q p f hit miss [] a = tt
  All-update_where P Q p f hit miss (x ∷ xs) a =
      (row (p x) (hit x a.0) (miss x a.0), All-update_where P Q p f hit miss xs a.1)
    where
      row : (b : Bool) → (b ≡ true → Q (f x)) → (b ≡ false → Q x) → Q (if b then f x else x)
      row true h m = h refl
      row false h m = m refl

  -- An `UPDATE` that does not change what a query asks for changes the row it finds, or not.
  pub find?-update_where :
      (q p : A → Bool) (f : A → A)
      → ((x : A) → q (f x) ≡ q x)
      → (xs : List A) {x : A} → find? q xs ≡ some x
      → find? q (update_where p f xs) ≡ some (if p x then f x else x)
  find?-update_where q p f keep [] h = cc
  find?-update_where q p f keep (y ∷ xs) {x} h =
      subst
        (λ b. (if b then some (changed y) else find? q (update_where p f xs)) ≡ some (changed x))
        (sym (same (p y))) (pick (q y) (find?-update_where q p f keep xs {x = x}) h)
    where
      changed : A → A
      changed z = if p z then f z else z

      same : (b : Bool) → q (if b then f y else y) ≡ q y
      same true = keep y
      same false = refl

      pick :
          (b : Bool)
          → (find? q xs ≡ some x → find? q (update_where p f xs) ≡ some (changed x))
          → (if b then some y else find? q xs) ≡ some x
          → (if b then some (changed y) else find? q (update_where p f xs)) ≡ some (changed x)
      pick true later e = ap some (ap changed (injective e))
        where
          injective : {u v : A} → some u ≡ some v → u ≡ v
          injective e = cc
      pick false later e = later e

  pub any-filter_by :
      (q p : A → Bool) (xs : List A) → any q (filter_by p xs) ≡ true → any q xs ≡ true
  any-filter_by q p [] h = h
  any-filter_by q p (x ∷ xs) h = pick (p x) (any-filter_by q p xs) h
    where
      pick :
          (b : Bool)
          → (any q (filter_by p xs) ≡ true → any q xs ≡ true)
          → any q (if b then x ∷ filter_by p xs else filter_by p xs) ≡ true
          → (q x || any q xs) ≡ true
      pick true later e = ground (arith, later, e)
      pick false later e = ground (arith, later e)

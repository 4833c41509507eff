-- ===== src/Domain/ArtRevision/Tree.antt =====
-- The tree that the loop of `compute_state_root` builds over the leaves.
use neuman.Prelude.{
  length-append_split, ℕ, zero, suc, ◌≤◌, ◌<◌, ◌≡◌, ◌≢◌, refl, sym, ◌∙◌, ap, ap₂, ◌⊎◌, inl, inr,
  some, List, [], ◌∷◌, ◌++◌, Bytes, Bool, true, ◌||◌, any, get_elem?, length, map, bytes_eq,
  bytes_eq_iff, Bool-cases, arith, append_assoc, append-nil, All,
}
use neuman.Domain.ArtRevision.{node_prefix, next_level, climb}

-- Two different messages with one hash, the first from one list and the second from another.
abbrev pub Collision : (Bytes → Bytes) → List Bytes → List Bytes → Type 0
Collision blake3 xs ys =
    (x : Bytes) × (y : Bytes) × (any (bytes_eq x) xs ≡ true)
    × (any (bytes_eq y) ys ≡ true)
    × (x ≢ y)
    × (blake3 x ≡ blake3 y)

any-append : (p : Bytes → Bool) (xs ys : List Bytes) → any p (xs ++ ys) ≡ (any p xs || any p ys)
any-append p [] ys = refl
any-append p (x ∷ xs) ys = ground (arith, any-append p xs ys)

pub data Tree : Type 0 where
  leaf : Bytes → Tree
  node : Tree → Tree → Tree

unfoldable pub leaves : Tree → List Bytes
leaves (leaf m) = m ∷ []
leaves (node l r) = leaves l ++ leaves r

unfoldable pub all_leaves : List Tree → List Bytes
all_leaves [] = []
all_leaves (t ∷ ts) = leaves t ++ all_leaves ts

join_pairs : List Tree → List Tree
join_pairs (l ∷ r ∷ rest) = node l r ∷ join_pairs rest
join_pairs (t ∷ []) = t ∷ []
join_pairs [] = []

all_leaves-join_pairs : (ts : List Tree) → all_leaves (join_pairs ts) ≡ all_leaves ts
unfolding all_leaves join_pairs leaves
all_leaves-join_pairs [] = refl
all_leaves-join_pairs (t ∷ []) = refl
all_leaves-join_pairs (l ∷ r ∷ rest) = rw (all_leaves-join_pairs rest, append_assoc)

length-join_pairs_le : (ts : List Tree) → length (join_pairs ts) ≤ length ts
unfolding join_pairs
length-join_pairs_le [] = omega arith
length-join_pairs_le (t ∷ []) = omega arith
length-join_pairs_le (l ∷ r ∷ rest) = omega (arith, length-join_pairs_le rest)

length-join_pairs :
    (t u : Tree) (ts : List Tree)
    → (length (join_pairs (t ∷ u ∷ ts)) < length (t ∷ u ∷ ts))
      × (0 < length (join_pairs (t ∷ u ∷ ts)))
unfolding join_pairs
length-join_pairs t u ts = (omega (arith, length-join_pairs_le ts), omega arith)

first : (m : Bytes) (xs : List Bytes) → any (bytes_eq m) (m ∷ xs) ≡ true
first m xs = ground (arith, (bytes_eq_iff m m).1 refl)

module _ (blake3 : Bytes → Bytes) where
  unfoldable pub digest : Tree → Bytes
  digest (leaf m) = blake3 m
  digest (node l r) = blake3 (node_prefix ++ (digest l ++ digest r))

  -- What is hashed on the way to the digest of a tree
  unfoldable pub inputs : Tree → List Bytes
  unfolding digest
  inputs (leaf m) = m ∷ []
  inputs (node l r) = (node_prefix ++ (digest l ++ digest r)) ∷ (inputs l ++ inputs r)

  map-join_pairs : (ts : List Tree) → map digest (join_pairs ts) ≡ next_level blake3 (map digest ts)
  unfolding join_pairs next_level digest
  map-join_pairs [] = refl
  map-join_pairs (t ∷ []) = refl
  map-join_pairs (l ∷ r ∷ rest) = ap₂ ◌∷◌ refl (map-join_pairs rest)

  pub climb-step :
      (fuel : ℕ) (l r : Bytes) (rest : List Bytes)
      → climb blake3 (suc fuel) (l ∷ r ∷ rest)
        ≡ climb blake3 fuel (next_level blake3 (l ∷ r ∷ rest))
  unfolding climb
  climb-step fuel l r rest = ground arith

  pub climb-digest :
      (fuel : ℕ) (ts : List Tree)
      → length ts ≤ fuel
      → 0 < length ts
      → (t : Tree) × (climb blake3 fuel (map digest ts) ≡ digest t ∷ [])
        × (leaves t ≡ all_leaves ts)
  unfolding climb
  climb-digest zero [] h p = absurd (omega arith)
  climb-digest zero (t ∷ ts) h p = absurd (omega arith)
  climb-digest (suc fuel) [] h p = absurd (omega arith)
  climb-digest (suc fuel) (t ∷ []) h p = (t, refl, unfold all_leaves in sym (append-nil (leaves t)))
  climb-digest (suc fuel) (t ∷ u ∷ ts) h p =
      let ys = join_pairs (t ∷ u ∷ ts) in
      let short = length-join_pairs t u ts in
      let (root, e, same) =
        climb-digest fuel ys (omega (arith, short.0)) (omega (arith, short.1)) in
      (
        root,
        climb-step fuel _ _ _ ∙ rw (← map-join_pairs (t ∷ u ∷ ts)) e,
        same ∙ all_leaves-join_pairs (t ∷ u ∷ ts),
      )

  -- The messages at the heads of two lists are the same, or collide.
  compare_messages :
      (m n : Bytes) (xs ys : List Bytes)
      → blake3 m ≡ blake3 n
      → (m ≡ n) ⊎ Collision blake3 (m ∷ xs) (n ∷ ys)
  compare_messages m n xs ys h = elim (Bool-cases (bytes_eq m n)) [
    | inl e ↦ inl ((bytes_eq_iff m n).0 e)
    | inr e ↦ inr (m, n, first m xs, first n ys, (λ p. cc (e, (bytes_eq_iff m n).1 p)), h)
  ]

  Collision-left :
      (n n' : Bytes) (xs ys xs' ys' : List Bytes)
      → Collision blake3 xs xs'
      → Collision blake3 (n ∷ (xs ++ ys)) (n' ∷ (xs' ++ ys'))
  Collision-left n n' xs ys xs' ys' (x, y, hx, hy, ne, h) = (
    x,
    y,
    ground (arith, any-append (bytes_eq x) xs ys),
    ground (arith, any-append (bytes_eq y) xs' ys'),
    ne,
    h,
  )

  Collision-right :
      (n n' : Bytes) (xs ys xs' ys' : List Bytes)
      → Collision blake3 ys ys'
      → Collision blake3 (n ∷ (xs ++ ys)) (n' ∷ (xs' ++ ys'))
  Collision-right n n' xs ys xs' ys' (x, y, hx, hy, ne, h) = (
    x,
    y,
    ground (arith, any-append (bytes_eq x) xs ys),
    ground (arith, any-append (bytes_eq y) xs' ys'),
    ne,
    h,
  )

-- A message that no inner node hashes: its byte 11 is not the "n" of "node".
abbrev pub IsOuter : Bytes → Type 0
IsOuter m = get_elem? m 11 ≢ some b'n'

outer-ne-node : (m : Bytes) (s : Bytes) → IsOuter m → m ≢ node_prefix ++ s
outer-ne-node m s o e = o (ap (λ x. get_elem? x 11) e)

All-append {κ} : (P : Bytes → Type κ) (xs ys : List Bytes) → All P (xs ++ ys) → All P xs × All P ys
All-append P [] ys h = (tt, h)
All-append P (x ∷ xs) ys h = let (l, r) = All-append P xs ys h.1 in ((h.0, l), r)

module _ (blake3 : Bytes → Bytes) (hash_len : (m : Bytes) → length (blake3 m) ≡ 32) where
  length-digest : (t : Tree) → length (digest blake3 t) ≡ 32
  unfolding digest
  length-digest (leaf m) = hash_len m
  length-digest (node l r) = hash_len (node_prefix ++ (digest blake3 l ++ digest blake3 r))

  both_sides :
      (l r l' r' : Tree)
      → (leaves l ≡ leaves l') ⊎ Collision blake3 (inputs blake3 l) (inputs blake3 l')
      → (leaves r ≡ leaves r') ⊎ Collision blake3 (inputs blake3 r) (inputs blake3 r')
      → (leaves l ++ leaves r ≡ leaves l' ++ leaves r')
        ⊎ Collision blake3 (inputs blake3 (node l r)) (inputs blake3 (node l' r'))
  unfolding inputs
  both_sides l r l' r' (inl p) (inl q) = inl (ap₂ ◌++◌ p q)
  both_sides l r l' r' (inl p) (inr c) = inr (
      Collision-right blake3 _ _ (inputs blake3 l) (inputs blake3 r) (inputs blake3 l')
        (inputs blake3 r') c)
  both_sides l r l' r' (inr c) _ = inr (
      Collision-left blake3 _ _ (inputs blake3 l) (inputs blake3 r) (inputs blake3 l')
        (inputs blake3 r') c)

  -- Trees with one digest have the same leaves, or what is hashed in them collides.
  pub digest_binding :
      (t u : Tree)
      → All IsOuter (leaves t)
      → All IsOuter (leaves u)
      → digest blake3 t ≡ digest blake3 u
      → (leaves t ≡ leaves u) ⊎ Collision blake3 (inputs blake3 t) (inputs blake3 u)
  unfolding digest leaves inputs
  digest_binding (leaf m) (leaf n) a b h = elim (compare_messages blake3 m n [] [] h) [
    | inl e ↦ inl (ap (λ x. x ∷ []) e)
    | inr c ↦ inr c
  ]
  digest_binding (leaf m) (node l r) a b h =
      inr (m, _, first m [], first _ _, outer-ne-node m _ a.0, h)
  digest_binding (node l r) (leaf m) a b h =
      inr (_, m, first _ _, first m [], (λ e. outer-ne-node m _ b.0 (sym e)), h)
  digest_binding (node l r) (node l' r') a b h =
      elim (compare_messages blake3 _ _ (inputs blake3 l ++ inputs blake3 r)
        (inputs blake3 l' ++ inputs blake3 r') h) [
          | inl e ↦
              let (_, e') = length-append_split node_prefix node_prefix refl e in
              let (p, q) =
                length-append_split (digest blake3 l) (digest blake3 l')
                  (length-digest l ∙ sym (length-digest l')) e' in
              let (al, ar) = All-append IsOuter (leaves l) (leaves r) a in
              let (bl, br) = All-append IsOuter (leaves l') (leaves r') b in
              both_sides l r l' r' (digest_binding l l' al bl p) (digest_binding r r' ar br q)
          | inr c ↦ inr c
        ]

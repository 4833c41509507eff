-- ===== src/Domain/ArtRevision/Binding.antt =====
-- What two cell states with one `compute_state_root` have in common.
use neuman.Prelude.{
  length-append_split, ℕ, ◌^◌, ◌<◌, ◌≡◌, refl, sym, ◌∙◌, ap, ap₂, ◌⊎◌, inl, inr, List, [], ◌∷◌,
  Bytes, codes, get_or, length, length-map, map, arith, All, ok, >>=-eq-ok, Result,
}
use neuman.Domain.{DomainError}
use neuman.Domain.ContentHash.{ContentHash, display}
use neuman.Domain.ContentHash.Laws.{IsDigest}
use neuman.Domain.ArtRevision.{
  CellId, ArtCellState, empty_message, leaf_message, cell_key, cell_message, leaf_level, climb,
  compute_state_root,
}
use neuman.Domain.ArtRevision.Messages.{
  leaf_message-injective, display-injective, empty-ne-leaf, leaf_message-IsOuter,
}
use neuman.Domain.ArtRevision.Tree.{
  Collision, Tree, leaf, leaves, all_leaves, digest, inputs, climb-digest, IsOuter, digest_binding,
}

abbrev pub Entry : Type 0
Entry = CellId × ArtCellState

cons-injective : {x y : Bytes} {xs ys : List Bytes} → x ∷ xs ≡ y ∷ ys → (x ≡ y) × (xs ≡ ys)
cons-injective h = (cc, cc)

ok-injective : {h k : ContentHash} → ◌≡◌ {A = Result DomainError ContentHash} (ok h) (ok k) → h ≡ k
ok-injective e = cc

all_leaves-leaf : (ms : List Bytes) → all_leaves (map leaf ms) ≡ ms
unfolding all_leaves leaves
all_leaves-leaf [] = refl
all_leaves-leaf (m ∷ ms) = ap₂ ◌∷◌ refl (all_leaves-leaf ms)

-- The identity of a cell and of its snapshot: what the root is about.
abbrev pub identity : Entry → CellId × ContentHash
identity (id, cell) = (id, cell.snapshot_hash)

module _ (hyphenated : ℕ → Bytes) where
  abbrev message_of : Entry → Bytes
  message_of (id, cell) = leaf_message (cell_key hyphenated id) (display cell.snapshot_hash)

  -- What the code tests before it hashes a cell.
  pub record IsSound (e : Entry) : Type 0 where
    key_fits : length (cell_key hyphenated e.0) < 2 ^ 32
    value_fits : length (display e.1.snapshot_hash) < 2 ^ 32

  cell_message-IsSound :
      (e : Entry) (m : Bytes) → cell_message hyphenated e ≡ ok m → IsSound e × (m ≡ message_of e)
  unfolding cell_message
  cell_message-IsSound (id, cell) m h = ground arith

  abbrev messages : List Entry → List Bytes
  messages [] = empty_message ∷ []
  messages (e ∷ es) = map message_of (e ∷ es)

  entry_injective :
      ((a b : ℕ) → hyphenated a ≡ hyphenated b → a ≡ b)
      → (e f : Entry) → IsSound e
      → IsSound f
      → IsDigest e.1.snapshot_hash
      → IsDigest f.1.snapshot_hash
      → message_of e ≡ message_of f
      → (e.0 ≡ f.0) × (e.1.snapshot_hash ≡ f.1.snapshot_hash)
  unfolding cell_key
  entry_injective inj e f se sf de df h =
      let (k, v) =
        leaf_message-injective _ _ _ _ se.key_fits sf.key_fits se.value_fits sf.value_fits h in
      let (_, id) = length-append_split (codes "cell/cell_") (codes "cell/cell_") refl k in
      (
        ap (λ n. record { uuid = n }) (inj e.0.uuid f.0.uuid id),
        display-injective e.1.snapshot_hash f.1.snapshot_hash de df v,
      )

  messages-IsOuter : (es : List Entry) → All IsOuter (map message_of es)
  messages-IsOuter [] = tt
  messages-IsOuter (e ∷ es) = (leaf_message-IsOuter _ _, messages-IsOuter es)

  module _ (inj : (a b : ℕ) → hyphenated a ≡ hyphenated b → a ≡ b) where
    messages-injective :
        (es fs : List Entry)
        → All IsSound es
        → All IsSound fs
        → All (λ e. IsDigest e.1.snapshot_hash) es
        → All (λ e. IsDigest e.1.snapshot_hash) fs
        → map message_of es ≡ map message_of fs
        → map identity es ≡ map identity fs
    messages-injective [] [] a b c d h = refl
    messages-injective [] (f ∷ fs) a b c d h = cc
    messages-injective (e ∷ es) [] a b c d h = cc
    messages-injective (e ∷ es) (f ∷ fs) a b c d h =
        let (same, rest) = cons-injective h in
        let (id, hash) = entry_injective inj e f a.0 b.0 c.0 d.0 same in
        ap₂ ◌∷◌ (ap₂ (λ (i : CellId) (x : ContentHash). (i, x)) id hash)
          (messages-injective es fs a.1 b.1 c.1 d.1 rest)

  module _ (blake3 : Bytes → Bytes) where
    leaf_level-messages :
        (es : List Entry) (level : List Bytes)
        → leaf_level blake3 hyphenated es ≡ ok level
        → All IsSound es × (level ≡ map (digest blake3) (map leaf (map message_of es)))
    unfolding leaf_level digest
    leaf_level-messages [] level h = (tt, cc)
    leaf_level-messages (e ∷ es) level h =
        let (m, hm, h1) = >>=-eq-ok (cell_message hyphenated e) _ h in
        let (ms, hs, h2) = >>=-eq-ok (leaf_level blake3 hyphenated es) _ h1 in
        let (sound, em) = cell_message-IsSound e m hm in
        let (sounds, es') = leaf_level-messages es ms hs in ((sound, sounds), cc (em, es', h2))

    -- The root is the digest of a tree over the messages of the cells.
    pub root_tree :
        (es : List Entry) (root : ContentHash)
        → compute_state_root blake3 hyphenated es ≡ ok root
        → All IsSound es × ((t : Tree) × (root.bytes ≡ digest blake3 t) × (leaves t ≡ messages es))
    unfolding compute_state_root digest leaves
    root_tree [] root h =
        (tt, (leaf empty_message, ap (λ (r : ContentHash). r.bytes) (ok-injective (sym h)), refl))
    root_tree (e ∷ es) root h =
        let (level, hl, h1) = >>=-eq-ok (leaf_level blake3 hyphenated (e ∷ es)) _ h in
        let (sound, el) = leaf_level-messages (e ∷ es) level hl in
        let ts = map leaf (map message_of (e ∷ es)) in
        let (t, up, same) =
          climb-digest blake3 (length level) ts
            (omega (arith, ap length el, length-map (digest blake3) ts)) (omega arith) in
        let top : root.bytes ≡ digest blake3 t =
          ap (λ (r : ContentHash). r.bytes) (ok-injective (sym h1))
          ∙ ap (λ l. get_or (climb blake3 (length level) l) 0 []) el
          ∙ ap (λ (l : List Bytes). get_or l 0 []) up in
        (sound, (t, top, same ∙ all_leaves-leaf (map message_of (e ∷ es))))

module _ (blake3 : Bytes → Bytes) (hyphenated : ℕ → Bytes)
    (hash_len : (m : Bytes) → length (blake3 m) ≡ 32)
    (uuid_text : (a b : ℕ) → hyphenated a ≡ hyphenated b → a ≡ b) where
  IsOuter-messages : (es : List Entry) → All IsOuter (messages hyphenated es)
  IsOuter-messages [] = ((λ p. ground arith), tt)
  IsOuter-messages (e ∷ es) = messages-IsOuter hyphenated (e ∷ es)

  messages-identity :
      (es fs : List Entry)
      → All (IsSound hyphenated) es
      → All (IsSound hyphenated) fs
      → All (λ e. IsDigest e.1.snapshot_hash) es
      → All (λ e. IsDigest e.1.snapshot_hash) fs
      → messages hyphenated es ≡ messages hyphenated fs
      → map identity es ≡ map identity fs
  messages-identity [] [] a b c d h = refl
  messages-identity [] (f ∷ fs) a b c d h = absurd (empty-ne-leaf _ _ (cons-injective h).0)
  messages-identity (e ∷ es) [] a b c d h = absurd (empty-ne-leaf _ _ (sym (cons-injective h).0))
  messages-identity (e ∷ es) (f ∷ fs) a b c d h =
      messages-injective hyphenated uuid_text (e ∷ es) (f ∷ fs) a b c d h

  -- Two different messages with one hash, among those hashed in a tree over the messages of the
  -- cells of one state and in a tree over those of another
  abbrev pub StateCollision : List Entry → List Entry → Type 0
  StateCollision es fs =
      (t : Tree) × (u : Tree) × (leaves t ≡ messages hyphenated es)
      × (leaves u ≡ messages hyphenated fs)
      × Collision blake3 (inputs blake3 t) (inputs blake3 u)

  -- If two cell states have one state root, they hold the same cells with the same snapshots in the
  -- same order, or two different messages have one hash, the first among those hashed in a tree
  -- over the one state's cells and the second among those hashed in a tree over the other's. The
  -- digests in the cells are 32 bytes, BLAKE3 returns 32 bytes, and UUIDs have different texts.
  pub state_root_binding :
      (es fs : List Entry) {root : ContentHash}
      → All (λ e. IsDigest e.1.snapshot_hash) es
      → All (λ e. IsDigest e.1.snapshot_hash) fs
      → compute_state_root blake3 hyphenated es ≡ ok root
      → compute_state_root blake3 hyphenated fs ≡ ok root
      → (map identity es ≡ map identity fs) ⊎ StateCollision es fs
  state_root_binding es fs {root} de df he hf =
      let (se, (t, top, lt)) = root_tree hyphenated blake3 es root he in
      let (sf, (u, up, lu)) = root_tree hyphenated blake3 fs root hf in
      elim (digest_binding blake3 hash_len t u (rw lt (IsOuter-messages es))
        (rw lu (IsOuter-messages fs)) (sym top ∙ up)) [
          | inl same ↦ inl (messages-identity es fs se sf de df (sym lt ∙ same ∙ lu))
          | inr c ↦ inr (t, u, lt, lu, c)
        ]

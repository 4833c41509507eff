-- ===== src/Domain/ArtRevision/Loop.antt =====
-- The rounds of the loop of `compute_state_root`.
use neuman.Prelude.{
  ℕ, zero, suc, ◌*◌, ◌^◌, ◌<◌, ◌≤◌, ◌≡◌, refl, ◌⊎◌, inl, inr, Bool, true, false, List, [], ◌∷◌,
  Bytes, codes, get_or, length, length-append, map, all, ◌==◌, lt→ltb, arith, All, Bool-cases, ok,
  err,
}
use neuman.Domain.{DomainError, invalid_id}
use neuman.Domain.Base32.{encode_base32}
use neuman.Domain.Base32.Shape.{encode_base32_shape}
use neuman.Domain.ContentHash.{ContentHash, hash_prefix, display}
use neuman.Domain.ContentHash.Laws.{IsDigest}
use neuman.Domain.ArtRevision.{
  empty_message, try_u32, leaf_message, cell_key, cell_message, leaf_level, next_level, climb,
  compute_state_root,
}
use neuman.Domain.ArtRevision.Tree.{climb-step}
use neuman.Domain.ArtRevision.Binding.{Entry}

-- The rounds of the loop over the levels, until one node is left.
pub data Rounds (blake3 : Bytes → Bytes) : List Bytes → Bytes → Type 0 where
  last : {root : Bytes} → Rounds blake3 (root ∷ []) root
  round :
      {left right root : Bytes} {rest : List Bytes}
      → Rounds blake3 (next_level blake3 (left ∷ right ∷ rest)) root
      → Rounds blake3 (left ∷ right ∷ rest) root

module _ (blake3 : Bytes → Bytes) where
  length-next_level :
      (level : List Bytes)
      → (length (next_level blake3 level) ≤ length level)
        × (length level ≤ 2 * length (next_level blake3 level))
  unfolding next_level
  length-next_level [] = (omega arith, omega arith)
  length-next_level (x ∷ []) = (omega arith, omega arith)
  length-next_level (x ∷ y ∷ rest) =
      let (a, b) = length-next_level rest in (omega (arith, a), omega (arith, b))

  shorter :
      (x y : Bytes) (rest : List Bytes)
      → length (next_level blake3 (x ∷ y ∷ rest)) < length (x ∷ y ∷ rest)
  unfolding next_level
  shorter x y rest = let (a, _) = length-next_level rest in omega (arith, a)

  -- As much fuel as there are nodes is enough.
  climb-Rounds :
      (fuel : ℕ) (level : List Bytes)
      → length level ≤ fuel
      → 0 < length level
      → Rounds blake3 level (get_or (climb blake3 fuel level) 0 [])
  unfolding climb
  climb-Rounds fuel [] h p = absurd (omega arith)
  climb-Rounds zero (x ∷ level) h p = absurd (omega arith)
  climb-Rounds (suc fuel) (x ∷ []) h p = last
  climb-Rounds (suc fuel) (x ∷ y ∷ rest) h p =
      let (_, b) = length-next_level (x ∷ y ∷ rest) in
      let less = shorter x y rest in
      rw (climb-step blake3 fuel x y rest) (
        round (
          climb-Rounds fuel (next_level blake3 (x ∷ y ∷ rest)) (omega (arith, less))
            (omega (arith, b))))

-- `cell_id == cell.cell_id`
abbrev pub own_key : Entry → Bool
own_key (id, cell) = id.uuid == cell.cell_id.uuid

module _ (blake3 : Bytes → Bytes) (hyphenated : ℕ → Bytes)
    (uuid_len : (n : ℕ) → length (hyphenated n) ≡ 36) where
  abbrev pub leaf_of : Entry → Bytes
  leaf_of (id, cell) = blake3 (leaf_message (cell_key hyphenated id) (display cell.snapshot_hash))

  abbrev pub leaves_of : List Entry → List Bytes
  leaves_of [] = blake3 empty_message ∷ []
  leaves_of (e ∷ es) = map leaf_of (e ∷ es)

  key_fits : (e : Entry) → length (cell_key hyphenated e.0) < 2 ^ 32
  unfolding cell_key
  key_fits e =
      omega (arith, length-append (codes "cell/cell_") (hyphenated e.0.uuid), uuid_len e.0.uuid)

  value_fits :
      (e : Entry) → IsDigest e.1.snapshot_hash → length (display e.1.snapshot_hash) < 2 ^ 32
  unfolding display
  value_fits e d =
      let h = e.1.snapshot_hash in
      let (size, _) = encode_base32_shape h.bytes in
      omega (arith, length-append hash_prefix (encode_base32 h.bytes), size, d.size)

  try_u32-fits : (n : ℕ) (e : DomainError) → n < 2 ^ 32 → try_u32 n e ≡ ok n
  unfolding try_u32
  try_u32-fits n e h = rw (lt→ltb n (2 ^ 32) h) refl

  cell_message-own :
      (e : Entry)
      → IsDigest e.1.snapshot_hash
      → own_key e ≡ true
      → cell_message hyphenated e
        ≡ ok (leaf_message (cell_key hyphenated e.0) (display e.1.snapshot_hash))
  unfolding cell_message
  cell_message-own e d own = rw own (
      rw (try_u32-fits (length (cell_key hyphenated e.0)) _ (key_fits e))
        (rw (try_u32-fits (length (display e.1.snapshot_hash)) _ (value_fits e d)) refl))

  cell_message-foreign :
      (e : Entry)
      → own_key e ≡ false
      → cell_message hyphenated e
        ≡ err (invalid_id "art cell state" "map key and embedded CellId differ")
  unfolding cell_message
  cell_message-foreign e foreign = rw foreign refl

  leaf_level-own :
      (es : List Entry)
      → All (λ e. IsDigest e.1.snapshot_hash) es
      → all own_key es ≡ true
      → leaf_level blake3 hyphenated es ≡ ok (map leaf_of es)
  unfolding leaf_level
  leaf_level-own [] d own = refl
  leaf_level-own (e ∷ es) d own =
      rw (cell_message-own e d.0 (ground arith)) (rw (leaf_level-own es d.1 (ground arith)) refl)

  leaf_level-foreign :
      (es : List Entry)
      → All (λ e. IsDigest e.1.snapshot_hash) es
      → all own_key es ≡ false
      → leaf_level blake3 hyphenated es
        ≡ err (invalid_id "art cell state" "map key and embedded CellId differ")
  unfolding leaf_level
  leaf_level-foreign [] d h = cc
  leaf_level-foreign (e ∷ es) d h = elim (Bool-cases (own_key e)) [
    | inl own ↦
        rw (cell_message-own e d.0 own) (rw (leaf_level-foreign es d.1 (ground (arith, own))) refl)
    | inr foreign ↦ rw (cell_message-foreign e foreign) refl
  ]

  -- `compute_state_root` always ends, and it is decided by the keys alone: where each cell is under its
  -- own id, the root is what the rounds over the levels end with, from one leaf per cell, or from the
  -- empty message where there is none; and where some cell is not, the result is the error that says
  -- so, and never one about a length. The digests in the cells are 32 bytes and the text of a UUID is 36.
  pub compute_state_root-decided :
      (es : List Entry)
      → All (λ e. IsDigest e.1.snapshot_hash) es
      → ((all own_key es ≡ true)
          × ((root : ContentHash) × (compute_state_root blake3 hyphenated es ≡ ok root)
              × Rounds blake3 (leaves_of es) root.bytes))
        ⊎ ((all own_key es ≡ false)
            × (compute_state_root blake3 hyphenated es
                ≡ err (invalid_id "art cell state" "map key and embedded CellId differ")))
  unfolding compute_state_root
  compute_state_root-decided [] d =
      inl (refl, (record { bytes = blake3 empty_message }, refl, last))
  compute_state_root-decided (e ∷ es) d = elim (Bool-cases (all own_key (e ∷ es))) [
    | inl own ↦
        let level = map leaf_of (e ∷ es) in
        inl (
          own,
          (
            record { bytes = get_or (climb blake3 (length level) level) 0 [] },
            rw (leaf_level-own (e ∷ es) d own) refl,
            climb-Rounds blake3 (length level) level (omega arith) (omega arith),
          ),
        )
    | inr foreign ↦ inr (foreign, rw (leaf_level-foreign (e ∷ es) d foreign) refl)
  ]

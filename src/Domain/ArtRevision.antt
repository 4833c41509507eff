-- ===== src/Domain/ArtRevision.antt =====
-- The art revision of domain.rs: its cells, `compute_state_root` and `validate`. A `BTreeMap` is
-- the list of its entries in key order. BLAKE3 and the text of a UUID (crates `blake3` and `uuid`)
-- are parameters; a UUID is its 128-bit number.
pub mod Tree
pub mod Messages
pub mod Binding
pub mod Loop
use neuman.Prelude.{
  ℕ, zero, suc, ◌+◌, ◌*◌, ◌/◌, ◌%◌, ◌^◌, String, Bool, true, false, not, ◌||◌, List, [], ◌∷◌, ◌++◌,
  Bytes, codes, length, get_or, ltb, ◌==◌, bytes_eq, if◌then◌else◌, Result, ok, err, reject_if,
  ◌>>=◌, ◌>>◌,
}
use neuman.Domain.{DomainError, invalid_id, invalid_hash}
use neuman.Domain.ContentHash.{ContentHash, display}

-- `struct CellId(Uuid)`
pub record CellId : Type 0 where
  pub uuid : ℕ

-- `struct ArtCellState`
pub record ArtCellState : Type 0 where
  pub cell_id : CellId
  pub snapshot_hash : ContentHash
  pub slot_path : Bytes

-- `enum ArtRevisionStatus`
pub data ArtRevisionStatus : Type 0 where
  capturing proposed validating review_required accepted rejected failed superseded :
      ArtRevisionStatus

-- `struct ArtRevision`
pub record ArtRevision : Type 0 where
  pub art_revision_id : ℕ
  pub project_id : ℕ
  pub channel_id : Bytes
  pub parents : List ℕ
  pub cells : List (CellId × ArtCellState)
  pub state_root_hash : ContentHash
  pub author : Bytes
  pub message : Bytes
  pub created_at : Bytes
  pub status : ArtRevisionStatus

abbrev pub empty_message : Bytes
empty_message = codes "neuman-art-empty-v1" ++ (0 ∷ [])

abbrev pub leaf_prefix : Bytes
leaf_prefix = codes "neuman-art-leaf-v1" ++ (0 ∷ [])

abbrev pub node_prefix : Bytes
node_prefix = codes "neuman-art-node-v1" ++ (0 ∷ [])

-- `u32::to_be_bytes`
unfoldable pub to_be_bytes : ℕ → Bytes
to_be_bytes n = n / 2 ^ 24 % 256 ∷ n / 2 ^ 16 % 256 ∷ n / 2 ^ 8 % 256 ∷ n % 256 ∷ []

-- `u32::try_from`
unfoldable pub try_u32 : ℕ → DomainError → Result DomainError ℕ
try_u32 n e = if ltb n (2 ^ 32) then ok n else err e

-- What the leaf's hasher is fed, in order.
unfoldable pub leaf_message : Bytes → Bytes → Bytes
leaf_message key value =
    leaf_prefix ++ (to_be_bytes (length key) ++ (key ++ (to_be_bytes (length value) ++ value)))

module _ (hyphenated : ℕ → Bytes) where
  -- `format!("cell/{cell_id}")`, where a cell id is displayed as "cell_" and its UUID.
  unfoldable pub cell_key : CellId → Bytes
  cell_key id = codes "cell/cell_" ++ hyphenated id.uuid

  -- The body of the loop over the cells: the message that is hashed to a leaf.
  unfoldable pub cell_message : CellId × ArtCellState → Result DomainError Bytes
  unfolding try_u32
  cell_message (cell_id, cell) = do
    reject_if (not (cell_id.uuid == cell.cell_id.uuid))
        (invalid_id "art cell state" "map key and embedded CellId differ")
    let key = cell_key cell_id
    let value = display cell.snapshot_hash
    try_u32 (length key) (invalid_id "art resource key" "key exceeds U32 length")
    try_u32 (length value) (invalid_id "art resource hash" "hash exceeds U32 length")
    ok (leaf_message key value)

module _ (blake3 : Bytes → Bytes) where
  -- `for pair in level.chunks(2)`
  unfoldable pub next_level : List Bytes → List Bytes
  next_level (left ∷ right ∷ rest) = blake3 (node_prefix ++ (left ++ right)) ∷ next_level rest
  next_level (last ∷ []) = last ∷ []
  next_level [] = []

  -- `while level.len() > 1`
  unfoldable pub climb : ℕ → List Bytes → List Bytes
  unfolding next_level
  climb zero level = level
  climb (suc fuel) level = elim (ltb 1 (length level)) [
    | true ↦ climb fuel (next_level level)
    | false ↦ level
  ]

module _ (blake3 : Bytes → Bytes) (hyphenated : ℕ → Bytes) where
  -- `for (cell_id, cell) in cells`
  unfoldable pub leaf_level : List (CellId × ArtCellState) → Result DomainError (List Bytes)
  leaf_level [] = ok []
  leaf_level (cell ∷ cells) = do
    message ← cell_message hyphenated cell
    level ← leaf_level cells
    ok (blake3 message ∷ level)

  -- `ArtRevision::compute_state_root`
  unfoldable pub compute_state_root : List (CellId × ArtCellState) → Result DomainError ContentHash
  unfolding cell_message leaf_level climb
  compute_state_root [] = ok (record { bytes = blake3 empty_message })
  compute_state_root (cell ∷ cells) = do
    level ← leaf_level (cell ∷ cells)
    ok (record { bytes = get_or (climb blake3 (length level) level) 0 [] })

  -- `ArtRevision::validate`
  unfoldable pub validate : ArtRevision → Result DomainError (Unit {0})
  unfolding compute_state_root
  validate revision = do
    reject_if (ltb 2 (length revision.parents))
        (invalid_id "art parents" "at most two parents are allowed")
    reject_if (length revision.channel_id == 0 || ltb 64 (length revision.channel_id))
        (invalid_id "art channel" "must be 1..64 characters")
    root ← compute_state_root revision.cells
    reject_if (not (bytes_eq root.bytes revision.state_root_hash.bytes))
        (invalid_hash "art state root does not match cells")

-- ===== src/Hub/Proposals/Manifest.antt =====
-- The parts of `validate_canonical_art_proposal` of hub.rs. A `BTreeMap` is the list of its entries in key order.
pub mod Validate
pub mod Cells
pub mod Delta
pub mod State
pub mod Binding
use neuman.Prelude.{
  ℕ, suc, ◌+◌, ◌*◌, String, Bool, true, false, not, ◌&&◌, ◌||◌, Option, some, none, List, [], ◌∷◌,
  ◌++◌, Bytes, codes, map, any, all, length, find?, filter_by, take, drop, get_or, ltb, leb, ◌==◌,
  bytes_eq, if◌then◌else◌, str_eq, strip_prefix, is_ascii_alphanumeric, Result, ok, err, ok_or,
  reject_if, ◌>>=◌, ◌>>◌,
}
use neuman.Hub.{HubError, hub_error, invalid, internal}
use neuman.Hub.Records.{ArtRevision}
use neuman.Hub.Database.{ObjectRow, Db}
use neuman.Hub.Validation.{byte_len, is_control, validate_content_hash, before, set_insert}
use neuman.Hub.Leases.{option_eq}
use neuman.Domain.{DomainError}
use neuman.Domain.Base32.{encode_base32}
use neuman.Domain.ContentHash.{ContentHash, display, from_str}
use neuman.Domain.ArtRevision.{CellId, ArtCellState, compute_state_root}
use neuman.Domain.Identifiers.{Uuids, parse_cell_id}
use neuman.Hub.Proposals.{
  CanonicalArtCell, CanonicalArtManifest, ArtLibs, CreateArtProposalRequest, verified_object,
}

-- `Result::map_err`
abbrev pub map_err {ℓ} : {A : Type ℓ} → Result DomainError A → HubError → Result HubError A
map_err (ok a) e = ok a
map_err (err _) e = err e

-- `BTreeMap::insert` for an order and an equality of keys
unfoldable pub map_insert {ℓ κ} :
    {K : Type ℓ} {V : Type κ}
    → (K → K → Bool)
    → (K → K → Bool)
    → K
    → V
    → List (K × V)
    → List (K × V)
map_insert below same k v [] = (k, v) ∷ []
map_insert below same k v ((k', v') ∷ m) =
    if same k k'
    then (k, v) ∷ m
    else if below k k'
    then (k, v) ∷ (k', v') ∷ m
    else (k', v') ∷ map_insert below same k v m

abbrev pub text_before : String → String → Bool
text_before a b = before (codes a) (codes b)

abbrev pub set_add : String → List String → List String
set_add v set = elim (set_insert v set) [ none ↦ set | some set' ↦ set' ]

abbrev pub texts_eq : List String → List String → Bool
texts_eq [] [] = true
texts_eq (x ∷ xs) (y ∷ ys) = str_eq x y && texts_eq xs ys
texts_eq _ _ = false

-- `valid_scoped_id`
unfoldable pub valid_scoped_id : String → String → Bool
valid_scoped_id value prefix =
    leb (byte_len prefix + 4) (byte_len value)
    && leb (byte_len value) 256
    && (elim (strip_prefix (codes prefix) (codes value)) [ none ↦ false | some _ ↦ true ])
    && all (λ byte. is_ascii_alphanumeric byte || byte == b'_' || byte == b'-') (codes value)

-- The loop that collects the objects of the manifest's media type
unfoldable pub manifest_candidates : Db → String → List String → List String
manifest_candidates db project_id hashes =
    filter_by
      (λ hash. elim (verified_object db project_id hash) [
        | none ↦ false
        | some o ↦ str_eq o.media_type "application/vnd.neuman.art-manifest+json"
      ])
      hashes

-- `content_hash`; its `base32_lower` is `encode_base32` of domain.rs, line by line
unfoldable pub content_hash : (Bytes → Bytes) → Bytes → Bytes
content_hash blake3 bytes = codes "b3-256:" ++ encode_base32 (blake3 bytes)

-- The path of an object in the directory. A slice of a digest under four bytes would panic; the
-- hashes were validated when the proposal was made.
unfoldable pub object_path : Bytes → List Bytes
object_path digest = codes "cas" ∷ take 2 digest ∷ take 2 (drop 2 digest) ∷ digest ∷ []

-- The part up to `from_slice`: the bytes of the one manifest object
unfoldable pub read_manifest :
    ArtLibs → Db → String → List String → Result HubError (String × Bytes)
unfolding manifest_candidates content_hash object_path
read_manifest art db project_id hashes = do
  let candidates = manifest_candidates db project_id hashes
  reject_if (not (length candidates == 1))
      (invalid "A proposal must reference exactly one canonical art manifest object.")
  let manifest_hash = get_or candidates 0 ""
  digest ←
      ok_or (strip_prefix (codes "b3-256:") (codes manifest_hash))
        (invalid "Art manifest hash is invalid.")
  bytes ← ok_or (art.read_file (object_path digest)) internal
  reject_if (length bytes == 0 || ltb (1024 * 1024) (length bytes))
      (invalid "Art manifest size is outside limits.")
  reject_if (not (bytes_eq (content_hash art.blake3 bytes) (codes manifest_hash)))
      (hub_error 412 "STO_HASH_MISMATCH" "The canonical art manifest failed content verification.")
  ok (manifest_hash, bytes)

-- `from_slice`, the comparison with the canonical encoding, and the context
unfoldable pub parse_manifest :
    ArtLibs
    → String
    → CreateArtProposalRequest
    → Option String
    → Bytes
    → Result HubError CanonicalArtManifest
unfolding valid_scoped_id
parse_manifest art project_id request current_head bytes = do
  manifest ← ok_or (art.from_slice bytes) (invalid "Canonical art manifest JSON is invalid.")
  reject_if (not (bytes_eq (art.to_jcs manifest) bytes))
      (invalid "Art manifest bytes must use canonical JSON encoding.")
  reject_if
      (not (str_eq manifest.schema_version "dev.neuman.hub-art-manifest/v1")
        || not (str_eq manifest.project_id project_id)
        || not (str_eq manifest.channel_id request.channel_id)
        || not (option_eq manifest.base_hub_revision_id current_head)
        || length manifest.cells == 0
        || ltb 128 (length manifest.cells)
        || not (valid_scoped_id manifest.source_session_id "ses_")
        || not (valid_scoped_id manifest.local_revision_id "art_"))
      (invalid "Canonical art manifest context is invalid.")
  ok manifest

-- `base_manifest`: the state of the accepted head, where there is one
unfoldable pub read_base :
    ArtLibs → Db → String → String → Option String → Result HubError (Option CanonicalArtManifest)
read_base art db project_id channel_id none = ok none
read_base art db project_id channel_id (some revision_id) = do
  row ←
      ok_or
        (find?
          (λ (r : ArtRevision).
            str_eq r.id revision_id
            && str_eq r.project_id project_id
            && str_eq r.channel_id channel_id)
          db.revisions)
        internal
  base ← ok_or (art.from_state row.state) (
      hub_error 412 "HUB_ART_STATE_INVALID"
        "The accepted base does not contain canonical art state.")
  ok (some base)

-- What the loop over the cells builds
pub record CellMaps : Type 0 where
  pub state : List (CellId × ArtCellState)
  pub cells_by_id : List (String × CanonicalArtCell)
  pub expected_objects : List String

-- `previous_id.is_some_and(|previous| previous >= cell_id)`
abbrev pub not_above : Option String → String → Bool
not_above none id = false
not_above (some previous) id = not (text_before previous id)

-- The checks of one cell, and its domain state
unfoldable pub check_cell :
    ArtLibs → Db → String → Option String → CanonicalArtCell → Result HubError ArtCellState
unfolding valid_scoped_id is_control
check_cell art db project_id previous cell = do
  reject_if
      (not (valid_scoped_id cell.cell_id "cell_")
        || ltb 1024 (byte_len cell.parent_path)
        || not (get_or (codes cell.parent_path) 0 0 == b'/')
        || any is_control (codes cell.parent_path)
        || cell.size_bytes == 0
        || not_above previous cell.cell_id)
      (invalid "Canonical art cells must be sorted, unique, and contain valid slots.")
  validate_content_hash cell.content_hash
  o ← ok_or (verified_object db project_id cell.content_hash) (
      hub_error 412 "HUB_OBJECT_MISSING"
        "A canonical art cell is missing, unauthorized, or has the wrong size.")
  reject_if (not (o.size_bytes == cell.size_bytes)) (
      hub_error 412 "HUB_OBJECT_MISSING"
        "A canonical art cell is missing, unauthorized, or has the wrong size.")
  cell_id ←
      map_err (parse_cell_id art.uuids (codes cell.cell_id))
        (invalid "Canonical art cell ID is invalid.")
  snapshot_hash ←
      map_err (from_str (codes cell.content_hash)) (invalid "Canonical art cell hash is invalid.")
  ok (record {
    cell_id = cell_id;
    snapshot_hash = snapshot_hash;
    slot_path = codes cell.parent_path;
  })

abbrev pub uuid_below : CellId → CellId → Bool
uuid_below a b = ltb a.uuid b.uuid

abbrev pub same_uuid : CellId → CellId → Bool
same_uuid a b = a.uuid == b.uuid

-- `for cell in &manifest.cells`
unfoldable pub collect_cells :
    ArtLibs
    → Db
    → String
    → Option String
    → List CanonicalArtCell
    → CellMaps
    → Result HubError CellMaps
unfolding check_cell map_insert
collect_cells art db project_id previous [] maps = ok maps
collect_cells art db project_id previous (cell ∷ cells) maps = do
  s ← check_cell art db project_id previous cell
  collect_cells art db project_id (some cell.cell_id) cells (record {
    state = map_insert uuid_below same_uuid s.cell_id s maps.state;
    cells_by_id = map_insert text_before str_eq cell.cell_id cell maps.cells_by_id;
    expected_objects = set_add cell.content_hash maps.expected_objects;
  })

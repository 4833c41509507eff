-- ===== src/Hub/Proposals/Manifest/Validate.antt =====
-- `validate_canonical_art_proposal` of hub.rs, from its parts: the state root and the delta that the
-- server derives from the accepted base.
use neuman.Prelude.{
  String, Bool, true, false, not, ◌&&◌, ◌||◌, Option, some, none, List, [], ◌∷◌, codes, map, any,
  filter_by, ◌==◌, bytes_eq, str_eq, if◌then◌else◌, Result, ok, reject_if, ◌>>=◌, ◌>>◌,
}
use neuman.Hub.{HubError, hub_error, invalid}
use neuman.Hub.Database.{Db}
use neuman.Hub.Leases.{option_eq}
use neuman.Domain.ContentHash.{display}
use neuman.Domain.ArtRevision.{compute_state_root}
use neuman.Hub.Proposals.{CanonicalArtCell, CanonicalArtManifest, ArtLibs, CreateArtProposalRequest}
use neuman.Hub.Proposals.Manifest.{
  map_err, map_insert, text_before, texts_eq, CellMaps, collect_cells, read_manifest,
  parse_manifest, read_base,
}

abbrev pub state_root_of : Option CanonicalArtManifest → Option String
state_root_of none = none
state_root_of (some base) = some base.state_root

-- `PartialEq` of `CanonicalArtCell`
unfoldable pub cell_eq : CanonicalArtCell → CanonicalArtCell → Bool
cell_eq a b =
    str_eq a.cell_id b.cell_id
    && str_eq a.parent_path b.parent_path
    && str_eq a.content_hash b.content_hash
    && a.size_bytes == b.size_bytes

-- `BTreeMap::get`
unfoldable pub map_get : String → List (String × CanonicalArtCell) → Option CanonicalArtCell
map_get k [] = none
map_get k ((k', cell) ∷ m) = if str_eq k k' then some cell else map_get k m

-- `base.cells.iter().map(…).collect()`
unfoldable pub cell_map :
    List CanonicalArtCell → List (String × CanonicalArtCell) → List (String × CanonicalArtCell)
unfolding map_insert
cell_map [] m = m
cell_map (cell ∷ cells) m = cell_map cells (map_insert text_before str_eq cell.cell_id cell m)

abbrev pub is_missing : Option CanonicalArtCell → Bool
is_missing none = true
is_missing (some _) = false

-- `is_none_or(|base| *base != cell)`
abbrev pub differs : CanonicalArtCell → Option CanonicalArtCell → Bool
differs cell none = true
differs cell (some base) = not (cell_eq base cell)

abbrev pub keys : List (String × CanonicalArtCell) → List String
keys m = map (λ (e : String × CanonicalArtCell). e.0) m

-- `derived_changed`: the cells of the new state that the base has not, or has otherwise
unfoldable pub derive_changed :
    Option CanonicalArtManifest → List (String × CanonicalArtCell) → Result HubError (List String)
unfolding cell_eq map_get cell_map
derive_changed none cells_by_id = ok (keys cells_by_id)
derive_changed (some base) cells_by_id = do
  let base_cells = cell_map base.cells []
  reject_if (any (λ cell_id. is_missing (map_get cell_id cells_by_id)) (keys base_cells))
      (invalid "Cell deletion is not supported by the v1 art manifest.")
  ok (
      keys (
        filter_by (λ (e : String × CanonicalArtCell). differs e.1 (map_get e.0 base_cells))
          cells_by_id))

abbrev pub is_empty : List String → Bool
is_empty [] = true
is_empty (x ∷ xs) = false

-- The checks of the state root and of the delta
unfoldable pub check_state :
    ArtLibs
    → CreateArtProposalRequest
    → Option CanonicalArtManifest
    → CanonicalArtManifest
    → CellMaps
    → Result HubError CanonicalArtManifest
unfolding derive_changed
check_state art request base manifest maps = do
  root ←
      map_err (compute_state_root art.blake3 art.uuids.hyphenated maps.state)
        (invalid "Canonical art state root could not be computed.")
  reject_if
      (not (bytes_eq (codes manifest.state_root) (display root))
        || not (bytes_eq (codes request.state_hash) (display root)))
      (hub_error 400 "HUB_ART_STATE_HASH_MISMATCH"
        "The proposal state root does not match its canonical cells.")
  changed ← derive_changed base maps.cells_by_id
  reject_if
      (is_empty changed
        || not (texts_eq manifest.changed_cell_ids changed)
        || not (texts_eq request.resource_ids changed)
        || not (texts_eq request.object_hashes maps.expected_objects))
      (invalid
        "Proposal resources and objects must exactly match the server-derived canonical art delta.")
  ok manifest

-- `validate_canonical_art_proposal`
unfoldable pub validate_canonical_art_proposal :
    ArtLibs
    → Db
    → String
    → CreateArtProposalRequest
    → Option String
    → Result HubError CanonicalArtManifest
unfolding read_manifest parse_manifest read_base collect_cells check_state
validate_canonical_art_proposal art db project_id request current_head = do
  (manifest_hash, bytes) ← read_manifest art db project_id request.object_hashes
  manifest ← parse_manifest art project_id request current_head bytes
  base ← read_base art db project_id request.channel_id current_head
  reject_if (not (option_eq manifest.base_state_root (state_root_of base))) (
      hub_error 409 "HUB_BASE_STALE"
        "The manifest base state root does not match the accepted channel head.")
  maps ←
      collect_cells art db project_id none manifest.cells
        (record { state = []; cells_by_id = []; expected_objects = manifest_hash ∷ [] })
  check_state art request base manifest maps

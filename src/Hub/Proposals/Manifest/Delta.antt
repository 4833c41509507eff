-- ===== src/Hub/Proposals/Manifest/Delta.antt =====
-- What a validation of a proposal of hub.rs found, and how the manifest differs from the base.
use neuman.Prelude.{
  not-eq-false, ◌≡◌, refl, sym, ap, ap₂, ◌∙◌, String, Bool, true, false, not, ◌||◌, Option, some,
  none, List, [], ◌∷◌, All, any, map, filter_by, codes, bytes_eq, bytes_eq_iff, str_eq_iff, ok,
  >>=-eq-ok, reject_if-then-eq-ok, ok-injective, Bool-cases, inl, inr, arith,
}
use neuman.Hub.{invalid}
use neuman.Hub.Database.{Db}
use neuman.Hub.Leases.{option_eq}
use neuman.Domain.ContentHash.{ContentHash, display}
use neuman.Domain.ArtRevision.{compute_state_root}
use neuman.Hub.Proposals.{CanonicalArtCell, CanonicalArtManifest, ArtLibs, CreateArtProposalRequest}
use neuman.Hub.Proposals.Manifest.{
  map_err, texts_eq, CellMaps, collect_cells, read_manifest, parse_manifest, read_base,
}
use neuman.Hub.Proposals.Manifest.Validate.{
  state_root_of, map_get, cell_map, is_missing, differs, keys, derive_changed, is_empty,
  check_state, validate_canonical_art_proposal,
}
use neuman.Hub.Proposals.Manifest.Cells.{
  map_err-eq-ok, keyed, collect_cells-cells_by_id, IsStoredCell, collect_cells-All,
}

texts_eq_sound : (xs ys : List String) → texts_eq xs ys ≡ true → xs ≡ ys
texts_eq_sound [] [] h = refl
texts_eq_sound (x ∷ xs) (y ∷ ys) h =
    ap₂ ◌∷◌ ((str_eq_iff x y).0 (ground (arith, h))) (texts_eq_sound xs ys (ground (arith, h)))
texts_eq_sound [] (y ∷ ys) h = cc
texts_eq_sound (x ∷ xs) [] h = cc

-- The cells of the manifest that the base has not, or has with another path, hash or size
abbrev pub changed_cells :
    Option CanonicalArtManifest → List CanonicalArtCell → List CanonicalArtCell
changed_cells none cells = cells
changed_cells (some base) cells =
    filter_by
      (λ (cell : CanonicalArtCell). differs cell (map_get cell.cell_id (cell_map base.cells [])))
      cells

abbrev pub cell_ids : List CanonicalArtCell → List String
cell_ids cells = map (λ (cell : CanonicalArtCell). cell.cell_id) cells

keys-keyed : (cells : List CanonicalArtCell) → keys (map keyed cells) ≡ cell_ids cells
keys-keyed [] = refl
keys-keyed (cell ∷ cells) = ap (λ rest. cell.cell_id ∷ rest) (keys-keyed cells)

filter-keyed :
    (p : String × CanonicalArtCell → Bool) (cells : List CanonicalArtCell)
    → filter_by p (map keyed cells) ≡ map keyed (filter_by (λ cell. p (keyed cell)) cells)
filter-keyed p [] = refl
filter-keyed p (cell ∷ cells) = elim (Bool-cases (p (keyed cell))) [
  | inl hit ↦ rw hit (ap (λ rest. keyed cell ∷ rest) (filter-keyed p cells))
  | inr miss ↦ rw miss (filter-keyed p cells)
]

derive_changed-cells :
    (base : Option CanonicalArtManifest) (cells : List CanonicalArtCell) {changed : List String}
    → derive_changed base (map keyed cells) ≡ ok changed
    → changed ≡ cell_ids (changed_cells base cells)
unfolding derive_changed
derive_changed-cells none cells h = sym (ok-injective h) ∙ keys-keyed cells
derive_changed-cells (some base) cells h =
    let old = cell_map base.cells [] in
    let (_, h1) =
      reject_if-then-eq-ok (any (λ id. is_missing (map_get id (map keyed cells))) (keys old)) _ _
        h in
    sym (ok-injective h1)
    ∙ ap keys
        (filter-keyed (λ (e : String × CanonicalArtCell). differs e.1 (map_get e.0 old)) cells)
    ∙ keys-keyed (changed_cells (some base) cells)

both_hold : (a b : Bool) → (not a || not b) ≡ false → (a ≡ true) × (b ≡ true)
both_hold a b h = ground arith

rest_hold :
    (a b c d : Bool) → (a || not b || not c || not d) ≡ false → (b ≡ true) × (c ≡ true) × (d ≡ true)
rest_hold a b c d h = ground arith

-- What a validation found
pub record IsValidated (art : ArtLibs) (db : Db) (project_id : String)
    (request : CreateArtProposalRequest) (head : Option String) (m : CanonicalArtManifest)
    : Type 0 where
  pub base : Option CanonicalArtManifest
  pub base_read : read_base art db project_id request.channel_id head ≡ ok base
  pub base_root : option_eq m.base_state_root (state_root_of base) ≡ true
  pub first : CellMaps
  pub no_state : first.state ≡ []
  pub no_cells : first.cells_by_id ≡ []
  pub maps : CellMaps
  pub collected : collect_cells art db project_id none m.cells first ≡ ok maps
  pub root : ContentHash
  pub computed : compute_state_root art.blake3 art.uuids.hyphenated maps.state ≡ ok root
  pub state_hash : codes request.state_hash ≡ display root
  pub resources : request.resource_ids ≡ cell_ids (changed_cells base m.cells)
  pub objects : request.object_hashes ≡ maps.expected_objects

pub validate-IsValidated :
    (art : ArtLibs) (db : Db) (project_id : String) (request : CreateArtProposalRequest)
    (head : Option String) {m : CanonicalArtManifest}
    → validate_canonical_art_proposal art db project_id request head ≡ ok m
    → IsValidated art db project_id request head m
unfolding validate_canonical_art_proposal check_state
validate-IsValidated art db project_id request head h =
    let ((manifest_hash, bytes), _, h1) =
      >>=-eq-ok (read_manifest art db project_id request.object_hashes) _ h in
    let (m, _, h2) = >>=-eq-ok (parse_manifest art project_id request head bytes) _ h1 in
    let (base, base_read, h3) =
      >>=-eq-ok (read_base art db project_id request.channel_id head) _ h2 in
    let (base_root, h4) =
      reject_if-then-eq-ok (not (option_eq m.base_state_root (state_root_of base))) _ _ h3 in
    let first : CellMaps = record {
      state = [];
      cells_by_id = [];
      expected_objects = manifest_hash ∷ [];
    } in
    let (maps, collected, h5) =
      >>=-eq-ok (collect_cells art db project_id none m.cells first) _ h4 in
    let (root, computed, h6) =
      >>=-eq-ok
        (map_err (compute_state_root art.blake3 art.uuids.hyphenated maps.state)
          (invalid "Canonical art state root could not be computed."))
        _ h5 in
    let (roots, h7) =
      reject_if-then-eq-ok
        (not (bytes_eq (codes m.state_root) (display root))
          || not (bytes_eq (codes request.state_hash) (display root)))
        _ _ h6 in
    let (changed, derived, h8) = >>=-eq-ok (derive_changed base maps.cells_by_id) _ h7 in
    let (delta, h9) =
      reject_if-then-eq-ok
        (is_empty changed
          || not (texts_eq m.changed_cell_ids changed)
          || not (texts_eq request.resource_ids changed)
          || not (texts_eq request.object_hashes maps.expected_objects))
        _ _ h8 in
    let exact =
      rest_hold (is_empty changed) (texts_eq m.changed_cell_ids changed)
        (texts_eq request.resource_ids changed)
        (texts_eq request.object_hashes maps.expected_objects) delta in
    let cells : maps.cells_by_id ≡ map keyed m.cells =
      collect_cells-cells_by_id art db project_id none m.cells first (λ _ _. tt) collected in
    rw (← ok-injective h9) (record {
      base = base;
      base_read = base_read;
      base_root = not-eq-false _ base_root;
      first = first;
      no_state = refl;
      no_cells = refl;
      maps = maps;
      collected = collected;
      root = root;
      computed = map_err-eq-ok _ _ computed;
      state_hash =
          (bytes_eq_iff (codes request.state_hash) (display root)).0
            (both_hold (bytes_eq (codes m.state_root) (display root))
              (bytes_eq (codes request.state_hash) (display root)) roots).1;
      resources =
          texts_eq_sound request.resource_ids changed exact.1
          ∙ derive_changed-cells base m.cells (ap (derive_changed base) (sym cells) ∙ derived);
      objects = texts_eq_sound request.object_hashes maps.expected_objects exact.2;
    })

-- A proposal that `validate_canonical_art_proposal` accepts names as its resources exactly the cells of
-- its manifest, in order, that the accepted base does not have or has with another path, hash or size
-- (all cells, where the channel has no head); every cell of the manifest is a verified object of the
-- project of the size that the manifest states; and the base's state root is the one that the manifest
-- names.
pub validated_delta :
    (art : ArtLibs) (db : Db) (project_id : String) (request : CreateArtProposalRequest)
    (head : Option String) (m : CanonicalArtManifest)
    → validate_canonical_art_proposal art db project_id request head ≡ ok m
    → (base : Option CanonicalArtManifest) × (read_base art db project_id request.channel_id head
        ≡ ok base)
      × (option_eq m.base_state_root (state_root_of base) ≡ true)
      × (request.resource_ids ≡ cell_ids (changed_cells base m.cells))
      × All (IsStoredCell db project_id) m.cells
validated_delta art db project_id request head m h =
    let k = validate-IsValidated art db project_id request head h in
    (
      k.base,
      k.base_read,
      k.base_root,
      k.resources,
      collect_cells-All art db project_id none m.cells k.first k.collected,
    )

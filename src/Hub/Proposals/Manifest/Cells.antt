-- ===== src/Hub/Proposals/Manifest/Cells.antt =====
-- What the loop over the cells of a manifest of hub.rs builds from cells that it accepts.
use neuman.Prelude.{
  not-eq-false, ◌≡◌, refl, sym, ap, ◌∙◌, String, true, false, not, ◌||◌, ◌==◌, Option, some, List,
  [], ◌∷◌, ◌++◌, append_assoc, append-nil, All, any, map, codes, get_or, ltb, str_eq, str_eq_iff,
  Result, ok, err, ok_or, >>=-eq-ok, ok_or-eq-ok, reject_if-then-eq-ok, ok-injective, Bool-cases,
  inl, inr, arith,
}
use neuman.Hub.{HubError, hub_error, invalid}
use neuman.Hub.Database.{ObjectRow, Db}
use neuman.Hub.Validation.{byte_len, is_control, validate_content_hash}
use neuman.Hub.Validation.Sets.{before_trans, before_irrefl, before-ne}
use neuman.Domain.{DomainError}
use neuman.Domain.ContentHash.{from_str}
use neuman.Domain.ArtRevision.{ArtCellState}
use neuman.Domain.Identifiers.{parse_cell_id}
use neuman.Hub.Proposals.{CanonicalArtCell, ArtLibs, verified_object}
use neuman.Hub.Proposals.Manifest.{
  map_err, map_insert, text_before, valid_scoped_id, CellMaps, not_above, check_cell, collect_cells,
}

pub map_err-eq-ok {ℓ} :
    {A : Type ℓ} (r : Result DomainError A) (e : HubError) {a : A} → map_err r e ≡ ok a → r ≡ ok a
map_err-eq-ok (ok b) e h = ap ok (ok-injective h)
map_err-eq-ok (err d) e h = cc

-- The check of a cell found its object, and read its id and hash.
pub record IsCheckedCell (art : ArtLibs) (db : Db) (project_id : String) (previous : Option String)
    (cell : CanonicalArtCell) (s : ArtCellState) : Type 0 where
  pub above : not_above previous cell.cell_id ≡ false
  pub stored : ObjectRow
  pub verified : verified_object db project_id cell.content_hash ≡ some stored
  pub size : (stored.size_bytes == cell.size_bytes) ≡ true
  pub id : parse_cell_id art.uuids (codes cell.cell_id) ≡ ok s.cell_id
  pub hash : from_str (codes cell.content_hash) ≡ ok s.snapshot_hash

pub check_cell-IsCheckedCell :
    (art : ArtLibs) (db : Db) (project_id : String) (previous : Option String)
    (cell : CanonicalArtCell) {s : ArtCellState}
    → check_cell art db project_id previous cell ≡ ok s
    → IsCheckedCell art db project_id previous cell s
unfolding check_cell
check_cell-IsCheckedCell art db project_id previous cell h =
    let (guard, h1) =
      reject_if-then-eq-ok
        (not (valid_scoped_id cell.cell_id "cell_")
          || ltb 1024 (byte_len cell.parent_path)
          || not (get_or (codes cell.parent_path) 0 0 == b'/')
          || any is_control (codes cell.parent_path)
          || cell.size_bytes == 0
          || not_above previous cell.cell_id)
        _ _ h in
    let (_, _, h2) = >>=-eq-ok (validate_content_hash cell.content_hash) _ h1 in
    let (o, found, h3) =
      >>=-eq-ok
        (ok_or (verified_object db project_id cell.content_hash) (
          hub_error 412 "HUB_OBJECT_MISSING"
            "A canonical art cell is missing, unauthorized, or has the wrong size."))
        _ h2 in
    let (size, h4) = reject_if-then-eq-ok (not (o.size_bytes == cell.size_bytes)) _ _ h3 in
    let (id, read_id, h5) =
      >>=-eq-ok
        (map_err (parse_cell_id art.uuids (codes cell.cell_id))
          (invalid "Canonical art cell ID is invalid."))
        _ h4 in
    let (hash, read_hash, h6) =
      >>=-eq-ok
        (map_err (from_str (codes cell.content_hash))
          (invalid "Canonical art cell hash is invalid."))
        _ h5 in
    rw (← ok-injective h6) (record {
      above = ground (arith, guard);
      stored = o;
      verified = ok_or-eq-ok (verified_object db project_id cell.content_hash) _ found;
      size = not-eq-false _ size;
      id = map_err-eq-ok _ _ read_id;
      hash = map_err-eq-ok _ _ read_hash;
    })

before_asym : (a b : String) → text_before a b ≡ true → text_before b a ≡ false
before_asym a b h = elim (Bool-cases (text_before b a)) [
  | inl back ↦
      absurd
        (ground (arith, before_trans (codes a) (codes b) (codes a) h back, before_irrefl (codes a)))
  | inr differs ↦ differs
]

abbrev pub Below : String → List (String × CanonicalArtCell) → Type 0
Below k m = All (λ e. text_before e.0 k ≡ true) m

-- A key after all others is inserted at the end.
map_insert-append :
    (k : String) (cell : CanonicalArtCell) (m : List (String × CanonicalArtCell))
    → Below k m
    → map_insert text_before str_eq k cell m ≡ m ++ ((k, cell) ∷ [])
unfolding map_insert
map_insert-append k cell [] h = refl
map_insert-append k cell ((k', c') ∷ m) h =
    let other : str_eq k k' ≡ false = elim (Bool-cases (str_eq k k')) [
      | inl same ↦ absurd (before-ne k' k h.0 (sym ((str_eq_iff k k').0 same)))
      | inr differs ↦ differs
    ] in
    rw other
      (rw (before_asym k' k h.0) (ap (λ rest. (k', c') ∷ rest) (map_insert-append k cell m h.1)))

Below-append :
    (k : String) (e : String × CanonicalArtCell) (m : List (String × CanonicalArtCell))
    → Below e.0 m
    → text_before e.0 k ≡ true
    → Below k (m ++ (e ∷ []))
Below-append k e [] h b = (b, tt)
Below-append k e (x ∷ m) h b =
    (before_trans (codes x.0) (codes e.0) (codes k) h.0 b, Below-append k e m h.1 b)

pub above_before : (a k : String) → not_above (some a) k ≡ false → text_before a k ≡ true
above_before a k h = not-eq-false _ h

abbrev pub keyed : CanonicalArtCell → String × CanonicalArtCell
keyed cell = (cell.cell_id, cell)

-- The map of the cells is the list of the cells, in its order.
pub collect_cells-cells_by_id :
    (art : ArtLibs) (db : Db) (project_id : String) (previous : Option String)
    (cells : List CanonicalArtCell) (maps : CellMaps) {out : CellMaps}
    → ((k : String) → not_above previous k ≡ false → Below k maps.cells_by_id)
    → collect_cells art db project_id previous cells maps ≡ ok out
    → out.cells_by_id ≡ maps.cells_by_id ++ map keyed cells
unfolding collect_cells
collect_cells-cells_by_id art db project_id previous [] maps below h =
    rw (← ok-injective h) (sym (append-nil maps.cells_by_id))
collect_cells-cells_by_id art db project_id previous (cell ∷ cells) maps below h =
    let (s, checked, h1) = >>=-eq-ok (check_cell art db project_id previous cell) _ h in
    let k = check_cell-IsCheckedCell art db project_id previous cell checked in
    let added = map_insert-append cell.cell_id cell maps.cells_by_id (below cell.cell_id k.above) in
    let rest =
      collect_cells-cells_by_id art db project_id (some cell.cell_id) cells _
        (λ k' a. rw added (
          Below-append k' (keyed cell) maps.cells_by_id (below cell.cell_id k.above)
            (above_before cell.cell_id k' a)))
        h1 in
    rest ∙ rw added (append_assoc maps.cells_by_id (keyed cell ∷ []) (map keyed cells))

-- Each cell is stored: a verified object of the project has its hash and its size.
abbrev pub IsStoredCell : Db → String → CanonicalArtCell → Type 0
IsStoredCell db project_id cell =
    (o : ObjectRow) × (verified_object db project_id cell.content_hash ≡ some o)
    × ((o.size_bytes == cell.size_bytes) ≡ true)

pub collect_cells-All :
    (art : ArtLibs) (db : Db) (project_id : String) (previous : Option String)
    (cells : List CanonicalArtCell) (maps : CellMaps) {out : CellMaps}
    → collect_cells art db project_id previous cells maps ≡ ok out
    → All (IsStoredCell db project_id) cells
unfolding collect_cells
collect_cells-All art db project_id previous [] maps h = tt
collect_cells-All art db project_id previous (cell ∷ cells) maps h =
    let (s, checked, h1) = >>=-eq-ok (check_cell art db project_id previous cell) _ h in
    let k = check_cell-IsCheckedCell art db project_id previous cell checked in
    (
      (k.stored, k.verified, k.size),
      collect_cells-All art db project_id (some cell.cell_id) cells _ h1,
    )

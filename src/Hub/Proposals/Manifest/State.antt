-- ===== src/Hub/Proposals/Manifest/State.antt =====
-- The state that the loop over the cells of a manifest of hub.rs builds, beside the cells.
use mathlib.Core.Path.{subst}
use neuman.Prelude.{
  ◌≡◌, ◌≢◌, refl, sym, ap, ap₂, ◌∙◌, ◌⊎◌, inl, inr, String, true, Option, some, List, [], ◌∷◌,
  Bytes, All, All-map, map, codes, Bool-cases, ==_iff, ok, >>=-eq-ok, ok-injective,
}
use neuman.Hub.Database.{Db}
use neuman.Hub.Validation.Sets.{before_trans, before_irrefl}
use neuman.Domain.ContentHash.{display}
use neuman.Domain.ContentHash.Laws.{from_str_iff}
use neuman.Domain.ArtRevision.{CellId, ArtCellState}
use neuman.Domain.Identifiers.{Uuids, cell_text}
use neuman.Domain.Identifiers.Text.{parse_cell_id-text}
use neuman.Hub.Proposals.{CanonicalArtCell, ArtLibs}
use neuman.Hub.Proposals.Manifest.{
  text_before, map_insert, CellMaps, check_cell, collect_cells, uuid_below, same_uuid,
}
use neuman.Hub.Proposals.Manifest.Cells.{IsCheckedCell, check_cell-IsCheckedCell, above_before}

-- What a manifest says of a cell: its id and its content hash
abbrev pub named : CanonicalArtCell → Bytes × Bytes
named cell = (codes cell.cell_id, codes cell.content_hash)

-- The element stands in the list.
abbrev pub Has : Bytes × Bytes → List (Bytes × Bytes) → Type 0
Has x [] = ⊥
Has x (y ∷ ys) = (x ≡ y) ⊎ Has x ys

abbrev Entry : Type 0
Entry = CellId × ArtCellState

module _ (uuids : Uuids) where
  -- The same for an entry of the state
  abbrev pub entry_named : Entry → Bytes × Bytes
  entry_named (id, s) = (cell_text uuids id, display s.snapshot_hash)

  abbrev insert : Entry → List Entry → List Entry
  insert e m = map_insert uuid_below same_uuid e.0 e.1 m

  same_text : (a b : CellId) → same_uuid a b ≡ true → cell_text uuids a ≡ cell_text uuids b
  same_text a b h = ap (λ n. cell_text uuids (record { uuid = n })) ((==_iff a.uuid b.uuid).0 h)

  Has-inserted : (e : Entry) (m : List Entry) → Has (entry_named e) (map entry_named (insert e m))
  unfolding map_insert
  Has-inserted e [] = inl refl
  Has-inserted e (f ∷ m) = elim (Bool-cases (same_uuid e.0 f.0)) [
    | inl same ↦ rw same (inl refl)
    | inr other ↦ elim (Bool-cases (uuid_below e.0 f.0)) [
      | inl below ↦ rw other (rw below (inl refl))
      | inr above ↦ rw other (rw above (inr (Has-inserted e m)))
    ]
  ]

  Has-kept :
      (e : Entry) (m : List Entry) (t : Bytes × Bytes)
      → cell_text uuids e.0 ≢ t.0
      → Has t (map entry_named m)
      → Has t (map entry_named (insert e m))
  unfolding map_insert
  Has-kept e [] t ne h = absurd h
  Has-kept e (f ∷ m) t ne h = elim (Bool-cases (same_uuid e.0 f.0)) [
    | inl same ↦ elim h [
      | inl its ↦ absurd (ne (same_text e.0 f.0 same ∙ sym (ap (λ (x : Bytes × Bytes). x.0) its)))
      | inr later ↦ rw same (inr later)
    ]
    | inr other ↦ elim (Bool-cases (uuid_below e.0 f.0)) [
      | inl below ↦ rw other (rw below (inr h))
      | inr above ↦ elim h [
        | inl its ↦ rw other (rw above (inl its))
        | inr later ↦ rw other (rw above (inr (Has-kept e m t ne later)))
      ]
    ]
  ]

  Has-either :
      (e : Entry) (m : List Entry) (t : Bytes × Bytes)
      → Has t (map entry_named (insert e m))
      → (t ≡ entry_named e) ⊎ Has t (map entry_named m)
  unfolding map_insert
  Has-either e [] t (inl its) = inl its
  Has-either e [] t (inr h) = absurd h
  Has-either e (f ∷ m) t h = elim (Bool-cases (same_uuid e.0 f.0)) [
    | inl same ↦ elim (rw same at h) [ inl its ↦ inl its | inr later ↦ inr (inr later) ]
    | inr other ↦ elim (Bool-cases (uuid_below e.0 f.0)) [
      | inl below ↦ rw below at (rw other at h)
      | inr above ↦ elim (rw above at (rw other at h)) [
        | inl its ↦ inr (inl its)
        | inr later ↦ elim (Has-either e m t later) [
          | inl its ↦ inl its
          | inr older ↦ inr (inr older)
        ]
      ]
    ]
  ]

module _ (art : ArtLibs) (db : Db) (project_id : String) where
  -- What is accepted after a cell has ids after it.
  later_cells :
      (previous : String) (cells : List CanonicalArtCell) (maps : CellMaps) {out : CellMaps}
      → collect_cells art db project_id (some previous) cells maps ≡ ok out
      → All (λ c. text_before previous c.cell_id ≡ true) cells
  unfolding collect_cells
  later_cells previous [] maps h = tt
  later_cells previous (cell ∷ cells) maps h =
      let (s, checked, h1) = >>=-eq-ok (check_cell art db project_id (some previous) cell) _ h in
      let k = check_cell-IsCheckedCell art db project_id (some previous) cell checked in
      let first = above_before previous cell.cell_id k.above in
      (
        first,
        All-map _ _
            (λ c b. before_trans (codes previous) (codes cell.cell_id) (codes c.cell_id) first b)
            cells (later_cells cell.cell_id cells _ h1),
      )

  other_id : (a b : String) → text_before a b ≡ true → codes a ≢ codes b
  other_id a b h e = cc (h, e, before_irrefl (codes a))

  -- The entry of a cell that was checked is named as the cell is.
  entry_named-checked :
      (previous : Option String) (cell : CanonicalArtCell) (s : ArtCellState)
      → IsCheckedCell art db project_id previous cell s
      → named cell ≡ entry_named art.uuids (s.cell_id, s)
  entry_named-checked previous cell s k =
      ap₂ (λ (a b : Bytes). (a, b))
        (parse_cell_id-text art.uuids (codes cell.cell_id) s.cell_id k.id).1
        ((from_str_iff (codes cell.content_hash) s.snapshot_hash).0 k.hash).1

  -- An entry that no later cell replaces is kept.
  collect_cells-kept :
      (previous : Option String) (cells : List CanonicalArtCell) (maps : CellMaps) {out : CellMaps}
      (t : Bytes × Bytes)
      → All (λ c. t.0 ≢ codes c.cell_id) cells
      → collect_cells art db project_id previous cells maps ≡ ok out
      → Has t (map (entry_named art.uuids) maps.state)
      → Has t (map (entry_named art.uuids) out.state)
  unfolding collect_cells
  collect_cells-kept previous [] maps t ne h there = rw (← ok-injective h) there
  collect_cells-kept previous (cell ∷ cells) maps t ne h there =
      let (s, checked, h1) = >>=-eq-ok (check_cell art db project_id previous cell) _ h in
      let k = check_cell-IsCheckedCell art db project_id previous cell checked in
      let id = ap (λ (x : Bytes × Bytes). x.0) (entry_named-checked previous cell s k) in
      collect_cells-kept (some cell.cell_id) cells _ t ne.1 h1
        (Has-kept art.uuids (s.cell_id, s) maps.state t (λ e. ne.0 (sym e ∙ sym id)) there)

  -- Every cell has its entry in the state.
  pub collect_cells-Has :
      (previous : Option String) (cells : List CanonicalArtCell) (maps : CellMaps) {out : CellMaps}
      → collect_cells art db project_id previous cells maps ≡ ok out
      → All (λ c. Has (named c) (map (entry_named art.uuids) out.state)) cells
  unfolding collect_cells
  collect_cells-Has previous [] maps h = tt
  collect_cells-Has previous (cell ∷ cells) maps {out} h =
      let (s, checked, h1) = >>=-eq-ok (check_cell art db project_id previous cell) _ h in
      let k = check_cell-IsCheckedCell art db project_id previous cell checked in
      let same = entry_named-checked previous cell s k in
      (
        collect_cells-kept (some cell.cell_id) cells _ (named cell)
            (All-map _ _ (λ c b. other_id cell.cell_id c.cell_id b) cells
              (later_cells cell.cell_id cells _ h1))
            h1
            (subst
              (λ t.
                Has t (map (entry_named art.uuids) (insert art.uuids (s.cell_id, s) maps.state)))
              (sym same) (Has-inserted art.uuids (s.cell_id, s) maps.state)),
        collect_cells-Has (some cell.cell_id) cells _ h1,
      )

  -- Every entry of the state is that of a cell, or was there before.
  pub collect_cells-from :
      (previous : Option String) (cells : List CanonicalArtCell) (maps : CellMaps) {out : CellMaps}
      (t : Bytes × Bytes)
      → collect_cells art db project_id previous cells maps ≡ ok out
      → Has t (map (entry_named art.uuids) out.state)
      → Has t (map named cells) ⊎ Has t (map (entry_named art.uuids) maps.state)
  unfolding collect_cells
  collect_cells-from previous [] maps t h there = inr (rw (ok-injective h) there)
  collect_cells-from previous (cell ∷ cells) maps t h there =
      let (s, checked, h1) = >>=-eq-ok (check_cell art db project_id previous cell) _ h in
      let k = check_cell-IsCheckedCell art db project_id previous cell checked in
      elim (collect_cells-from (some cell.cell_id) cells _ t h1 there) [
        | inl later ↦ inl (inr later)
        | inr built ↦ elim (Has-either art.uuids (s.cell_id, s) maps.state t built) [
          | inl its ↦ inl (inl (its ∙ sym (entry_named-checked previous cell s k)))
          | inr older ↦ inr older
        ]
      ]

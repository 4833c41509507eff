-- ===== src/Hub/Proposals/Manifest/Binding.antt =====
-- The cells behind the state hash of a validated proposal of hub.rs.
use neuman.Prelude.{
  ℕ, ◌≡◌, sym, ap, ◌∙◌, ◌⊎◌, String, Bool, true, false, Option, some, none, List, [], ◌∷◌, Bytes,
  All, map, codes, if◌then◌else◌, ok, >>=-eq-ok, ok-injective,
}
use neuman.Domain.ContentHash.{display}
use neuman.Domain.Identifiers.{Uuids, cell_text}
use neuman.Hub.Proposals.Manifest.State.{
  named, entry_named, Has, collect_cells-Has, collect_cells-from,
}
use mathlib.Core.Path.{subst}
use neuman.Prelude.{All-map, refl, inl, inr}
use neuman.Hub.Database.{Db}
use neuman.Domain.ContentHash.{ContentHash}
use neuman.Domain.ContentHash.Laws.{IsDigest, from_str_iff}
use neuman.Domain.ArtRevision.{CellId, ArtCellState, compute_state_root}
use neuman.Domain.ArtRevision.Messages.{display-injective}
use neuman.Domain.ArtRevision.Tree.{Tree, leaf, node, digest}
use neuman.Domain.ArtRevision.Binding.{identity, StateCollision, state_root_binding, root_tree}
use neuman.Hub.Proposals.{CanonicalArtCell, CanonicalArtManifest, ArtLibs, CreateArtProposalRequest}
use neuman.Hub.Proposals.Manifest.{
  map_insert, CellMaps, check_cell, collect_cells, uuid_below, same_uuid,
}
use neuman.Hub.Proposals.Manifest.Validate.{validate_canonical_art_proposal}
use neuman.Hub.Proposals.Manifest.Cells.{check_cell-IsCheckedCell}
use neuman.Hub.Proposals.Manifest.Delta.{validate-IsValidated}

abbrev AreDigests : List (CellId × ArtCellState) → Type 0
AreDigests es = All (λ e. IsDigest e.1.snapshot_hash) es

AreDigests-map_insert :
    (k : CellId) (s : ArtCellState) (m : List (CellId × ArtCellState))
    → IsDigest s.snapshot_hash
    → AreDigests m
    → AreDigests (map_insert uuid_below same_uuid k s m)
unfolding map_insert
AreDigests-map_insert k s [] d h = (d, tt)
AreDigests-map_insert k s ((k', s') ∷ m) d h =
    pick (same_uuid k k') (uuid_below k k') (AreDigests-map_insert k s m d h.1)
  where
    pick :
        (a b : Bool)
        → AreDigests (map_insert uuid_below same_uuid k s m)
        → AreDigests (
            if a
            then (k, s) ∷ m
            else if b
            then (k, s) ∷ (k', s') ∷ m
            else (k', s') ∷ map_insert uuid_below same_uuid k s m)
    pick true b rest = (d, h.1)
    pick false true rest = (d, h)
    pick false false rest = (h.0, rest)

collect_cells-AreDigests :
    (art : ArtLibs) (db : Db) (project_id : String) (previous : Option String)
    (cells : List CanonicalArtCell) (maps : CellMaps) {out : CellMaps}
    → AreDigests maps.state
    → collect_cells art db project_id previous cells maps ≡ ok out
    → AreDigests out.state
unfolding collect_cells
collect_cells-AreDigests art db project_id previous [] maps d h = rw (← ok-injective h) d
collect_cells-AreDigests art db project_id previous (cell ∷ cells) maps d h =
    let (s, checked, h1) = >>=-eq-ok (check_cell art db project_id previous cell) _ h in
    let k = check_cell-IsCheckedCell art db project_id previous cell checked in
    let digest = (from_str_iff (codes cell.content_hash) s.snapshot_hash).0 k.hash in
    collect_cells-AreDigests art db project_id (some cell.cell_id) cells _
      (AreDigests-map_insert s.cell_id s maps.state digest.0 d) h1

digest-IsDigest :
    (blake3 : Bytes → Bytes)
    → ((m : Bytes) → IsDigest (record { bytes = blake3 m }))
    → (t : Tree) → IsDigest (record { bytes = digest blake3 t })
unfolding digest
digest-IsDigest blake3 d (leaf m) = d m
digest-IsDigest blake3 d (node l r) = d _

root-IsDigest :
    (blake3 : Bytes → Bytes) (hyphenated : ℕ → Bytes)
    → ((m : Bytes) → IsDigest (record { bytes = blake3 m }))
    → (es : List (CellId × ArtCellState)) (root : ContentHash)
    → compute_state_root blake3 hyphenated es ≡ ok root
    → IsDigest root
root-IsDigest blake3 hyphenated d es root h =
    let (_, (t, top, _)) = root_tree hyphenated blake3 es root h in
    let k = digest-IsDigest blake3 d t in record { size = rw top k.size; range = rw top k.range }

-- The cells and snapshots that the validation of a manifest collects
abbrev pub Collects : ArtLibs → Db → String → CanonicalArtManifest → CellMaps → Type 0
Collects art db project_id m maps =
    (first : CellMaps) × (first.state ≡ [])
    × (collect_cells art db project_id none m.cells first ≡ ok maps)

collected-AreDigests :
    (art : ArtLibs) (db : Db) (project_id : String) (m : CanonicalArtManifest) (maps : CellMaps)
    → Collects art db project_id m maps
    → AreDigests maps.state
collected-AreDigests art db project_id m maps (first, empty, h) =
    collect_cells-AreDigests art db project_id none m.cells first (rw empty tt) h

-- Every cell of the one manifest is a cell of the other, with the same content hash.
abbrev pub IsWithin : CanonicalArtManifest → CanonicalArtManifest → Type 0
IsWithin m m' = All (λ c. Has (named c) (map named m'.cells)) m.cells

named_of : (uuids : Uuids) → CellId × ContentHash → Bytes × Bytes
named_of uuids (id, hash) = (cell_text uuids id, display hash)

map-named_of :
    (uuids : Uuids) (es : List (CellId × ArtCellState))
    → map (entry_named uuids) es ≡ map (named_of uuids) (map identity es)
unfolding named_of
map-named_of uuids [] = refl
map-named_of uuids (e ∷ es) = ap (λ rest. entry_named uuids e ∷ rest) (map-named_of uuids es)

-- Where the states have the same identities, each manifest is within the other.
collected-IsWithin :
    (art : ArtLibs) (db db' : Db) (project_id project_id' : String) (m m' : CanonicalArtManifest)
    (maps maps' : CellMaps)
    → Collects art db project_id m maps
    → Collects art db' project_id' m' maps'
    → map identity maps.state ≡ map identity maps'.state
    → IsWithin m m'
collected-IsWithin art db db' project_id project_id' m m' maps maps' (first, empty, h)
      (first', empty', h') same =
    let texts : map (entry_named art.uuids) maps.state ≡ map (entry_named art.uuids) maps'.state =
      map-named_of art.uuids maps.state
      ∙ ap (map (named_of art.uuids)) same
      ∙ sym (map-named_of art.uuids maps'.state) in
    All-map _ _ (λ c there. found c (subst (Has (named c)) texts there)) m.cells
      (collect_cells-Has art db project_id none m.cells first h)
  where
    found :
        (c : CanonicalArtCell)
        → Has (named c) (map (entry_named art.uuids) maps'.state)
        → Has (named c) (map named m'.cells)
    found c there =
        elim (collect_cells-from art db' project_id' none m'.cells first' (named c) h' there) [
          | inl its ↦ its
          | inr before ↦
              absurd (subst (λ es. Has (named c) (map (entry_named art.uuids) es)) empty' before)
        ]

module _ (art : ArtLibs) (digests : (m : Bytes) → IsDigest (record { bytes = art.blake3 m }))
    (uuid_text : (a b : ℕ) → art.uuids.hyphenated a ≡ art.uuids.hyphenated b → a ≡ b) where
  -- If two proposals that `validate_canonical_art_proposal` accepts, of whatever projects, times and
  -- bases, have one state hash, then each cell of the one manifest is a cell of the other with the same
  -- id and content hash, and the other way round, or two different messages have one BLAKE3 hash, among
  -- those hashed in trees over the states that were collected from the manifests. The hashes of BLAKE3
  -- are 32 bytes, and UUIDs have different texts.
  pub state_hash_binding :
      (db db' : Db) (project_id project_id' : String) (request request' : CreateArtProposalRequest)
      (head head' : Option String) (m m' : CanonicalArtManifest)
      → request.state_hash ≡ request'.state_hash
      → validate_canonical_art_proposal art db project_id request head ≡ ok m
      → validate_canonical_art_proposal art db' project_id' request' head' ≡ ok m'
      → (maps : CellMaps) × (maps' : CellMaps) × Collects art db project_id m maps
        × Collects art db' project_id' m' maps'
        × (((map identity maps.state ≡ map identity maps'.state) × IsWithin m m' × IsWithin m' m)
            ⊎ StateCollision art.blake3 art.uuids.hyphenated
                (λ b. (digests b).size)
                uuid_text
                maps.state
                maps'.state)
  state_hash_binding db db' project_id project_id' request request' head head' m m' same h h' =
      let k = validate-IsValidated art db project_id request head h in
      let k' = validate-IsValidated art db' project_id' request' head' h' in
      let c : Collects art db project_id m k.maps = (k.first, k.no_state, k.collected) in
      let c' : Collects art db' project_id' m' k'.maps = (k'.first, k'.no_state, k'.collected) in
      let root =
        display-injective k.root k'.root
          (root-IsDigest art.blake3 art.uuids.hyphenated digests k.maps.state k.root k.computed)
          (root-IsDigest art.blake3 art.uuids.hyphenated digests k'.maps.state k'.root k'.computed)
          (sym k.state_hash ∙ ap codes same ∙ k'.state_hash) in
      (
        k.maps,
        k'.maps,
        c,
        c',
        elim (state_root_binding art.blake3 art.uuids.hyphenated (λ b. (digests b).size) uuid_text
            k.maps.state k'.maps.state {root = k'.root}
            (collected-AreDigests art db project_id m k.maps c)
            (collected-AreDigests art db' project_id' m' k'.maps c') (k.computed ∙ ap ok root)
            k'.computed) [
              | inl alike ↦ inl (
                alike,
                collected-IsWithin art db db' project_id project_id' m m' k.maps k'.maps c c' alike,
                collected-IsWithin art db' db project_id' project_id m' m k'.maps k.maps c' c
                    (sym alike),
              )
              | inr collision ↦ inr collision
            ],
      )

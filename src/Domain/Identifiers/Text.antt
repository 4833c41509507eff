-- ===== src/Domain/Identifiers/Text.antt =====
-- The texts of the identifiers of domain.rs, as they are displayed and read.
use neuman.Prelude.{
  ℕ, ◌≡◌, ◌↔◌, refl, String, not, ◌||◌, ◌++◌, Bytes, some, codes, bytes_eq, bytes_eq_iff,
  bytes_eq_refl, strip_prefix, strip_prefix-append, ◌==◌, ok, ok_or, >>=-eq-ok,
  reject_if-then-eq-ok, ok-injective, arith,
}
use neuman.Domain.{invalid_id}
use neuman.Domain.ArtRevision.{CellId}
use neuman.Domain.Identifiers.{Uuids, id_text, parse_id, cell_text, parse_cell_id}

-- What is read as a cell identifier is the text of it.
pub parse_cell_id-text :
    (uuids : Uuids) (value : Bytes) (id : CellId)
    → parse_cell_id uuids value ≡ ok id
    → (uuids.version id.uuid ≡ 4) × (value ≡ cell_text uuids id)
unfolding parse_cell_id cell_text strip_prefix
parse_cell_id-text uuids value id h =
    let (raw, _, h1) =
      >>=-eq-ok
        (ok_or (strip_prefix (codes "cell_") value) (invalid_id "cell ID" "expected prefix cell_"))
        _ h in
    let (n, _, h2) =
      >>=-eq-ok (ok_or (uuids.parse_str raw) (invalid_id "cell ID" "expected UUID")) _ h1 in
    let (guard, h3) =
      reject_if-then-eq-ok
        (not (uuids.version n == 4) || not (bytes_eq value (cell_text uuids (record { uuid = n }))))
        (invalid_id "cell ID" "expected lowercase canonical UUIDv4") _ h2 in
    rw (← ok-injective h3) (
      ground arith,
      (bytes_eq_iff value (cell_text uuids (record { uuid = n }))).0 (ground (arith, guard)),
    )

module _ (uuids : Uuids)
    -- a UUID is read from its hyphenated text
    (reads : (id : ℕ) → uuids.parse_str (uuids.hyphenated id) ≡ some id) where
  -- An identifier with a prefix is read from a text just if its UUID has version 7 and the text is
  -- the one that the identifier displays as, when `parse_str` reads the hyphenated text of a UUID.
  pub parse_id_iff :
      (prefix label : String) (value : Bytes) (id : ℕ)
      → (parse_id uuids prefix label value ≡ ok id)
        ↔ ((uuids.version id ≡ 7) × (value ≡ id_text uuids prefix id))
  unfolding parse_id id_text
  parse_id_iff prefix label value id = (
    λ h.
        let (raw, _, h1) =
          >>=-eq-ok (ok_or (strip_prefix (codes prefix) value) (invalid_id label "expected prefix"))
            _ h in
        let (n, _, h2) =
          >>=-eq-ok
            (ok_or (uuids.parse_str raw) (invalid_id label "expected lowercase canonical UUID")) _
            h1 in
        let (guard, h3) =
          reject_if-then-eq-ok
            (not (uuids.version n == 7) || not (bytes_eq value (id_text uuids prefix n)))
            (invalid_id label "expected lowercase canonical UUIDv7") _ h2 in
        rw (← ok-injective h3)
          (ground arith, (bytes_eq_iff value (id_text uuids prefix n)).0 (ground (arith, guard))),
    λ e. rw e.1 (
        rw (strip_prefix-append (codes prefix) (uuids.hyphenated id))
          (rw (reads id) (rw (e.0, bytes_eq_refl (codes prefix ++ uuids.hyphenated id)) refl))),
  )

  -- A cell identifier is read from a text just if its UUID has version 4 and the text is the one
  -- that the identifier displays as, when `parse_str` reads the hyphenated text of a UUID.
  pub parse_cell_id_iff :
      (value : Bytes) (id : CellId)
      → (parse_cell_id uuids value ≡ ok id)
        ↔ ((uuids.version id.uuid ≡ 4) × (value ≡ cell_text uuids id))
  unfolding parse_cell_id cell_text strip_prefix
  parse_cell_id_iff value id = (
    parse_cell_id-text uuids value id,
    λ e. rw e.1 (
        rw (reads id.uuid)
          (rw (e.0, bytes_eq_refl (codes "cell_" ++ uuids.hyphenated id.uuid)) refl)),
  )

-- ===== src/Domain/Identifiers.antt =====
-- The identifiers of domain.rs: `uuid_v7_id!`, `CellId`, `RobloxId`, `GitOid` and `Sha256Hash`. The
-- crates `uuid` and `hex` are parameters; a UUID is its 128-bit number.
pub mod Text
use neuman.Prelude.{
  ℕ, String, Bool, not, ◌&&◌, ◌||◌, Option, ◌++◌, Bytes, codes, all, length, leb, ltb, ◌==◌,
  bytes_eq, strip_prefix, get_or, Result, ok, ok_or, reject_if, ◌>>=◌, ◌>>◌,
}
use neuman.Domain.{DomainError, invalid_id, invalid_hash}
use neuman.Domain.ArtRevision.{CellId}

-- What the code uses of the crate `uuid`: `parse_str`, `hyphenated` and `get_version`
pub record Uuids : Type 0 where
  pub parse_str : Bytes → Option ℕ
  pub hyphenated : ℕ → Bytes
  pub version : ℕ → ℕ

module _ (uuids : Uuids) where
  -- `Display::fmt` of `uuid_v7_id!` at a prefix
  unfoldable pub id_text : String → ℕ → Bytes
  id_text prefix id = codes prefix ++ uuids.hyphenated id

  -- `FromStr::from_str` of `uuid_v7_id!` at a prefix and a label; the version SortRand is 7
  unfoldable pub parse_id : String → String → Bytes → Result DomainError ℕ
  unfolding id_text
  parse_id prefix label value = do
    raw ← ok_or (strip_prefix (codes prefix) value) (invalid_id label "expected prefix")
    id ← ok_or (uuids.parse_str raw) (invalid_id label "expected lowercase canonical UUID")
    reject_if (not (uuids.version id == 7) || not (bytes_eq value (id_text prefix id)))
        (invalid_id label "expected lowercase canonical UUIDv7")
    ok id

  -- `Display::fmt` of `CellId`
  unfoldable pub cell_text : CellId → Bytes
  cell_text id = codes "cell_" ++ uuids.hyphenated id.uuid

  -- `FromStr::from_str` of `CellId`; the version Random is 4
  unfoldable pub parse_cell_id : Bytes → Result DomainError CellId
  unfolding cell_text
  parse_cell_id value = do
    raw ← ok_or (strip_prefix (codes "cell_") value) (invalid_id "cell ID" "expected prefix cell_")
    id ← ok_or (uuids.parse_str raw) (invalid_id "cell ID" "expected UUID")
    reject_if
        (not (uuids.version id == 4) || not (bytes_eq value (cell_text (record { uuid = id }))))
        (invalid_id "cell ID" "expected lowercase canonical UUIDv4")
    ok (record { uuid = id })

-- `u8::is_ascii_digit`
abbrev pub is_digit : ℕ → Bool
is_digit b = leb b'0' b && leb b b'9'

-- `byte.is_ascii_hexdigit() && !byte.is_ascii_uppercase()`
abbrev pub is_lower_hex : ℕ → Bool
is_lower_hex b = is_digit b || (leb b'a' b && leb b b'f')

-- `value.is_empty()` and `value.starts_with('0')`
abbrev pub starts_with_zero : Bytes → Bool
starts_with_zero value = get_or value 0 0 == b'0'

-- `RobloxId::from_str`
unfoldable pub parse_roblox_id : Bytes → Result DomainError Bytes
parse_roblox_id value = do
  reject_if
      (length value == 0
        || not (all is_digit value)
        || (ltb 1 (length value) && starts_with_zero value))
      (invalid_id "Roblox ID" "expected canonical unsigned decimal string")
  ok value

-- `enum GitObjectFormat`
pub data GitObjectFormat : Type 0 where
  sha1 sha256 : GitObjectFormat

abbrev pub oid_length : GitObjectFormat → ℕ
oid_length sha1 = 40
oid_length sha256 = 64

-- `GitOid::parse_for`
unfoldable pub parse_for : Bytes → GitObjectFormat → Result DomainError Bytes
parse_for value format = do
  reject_if (not (length value == oid_length format) || not (all is_lower_hex value))
      (invalid_id "Git OID" "expected {expected} lowercase hexadecimal characters")
  ok value

-- What the code uses of the crate `hex`
pub record Hex : Type 0 where
  pub encode : Bytes → Bytes
  pub decode : Bytes → Option Bytes

-- `struct Sha256Hash([u8; 32])`
pub record Sha256Hash : Type 0 where
  pub bytes : Bytes

module _ (hex : Hex) where
  -- `Display::fmt` of `Sha256Hash`
  unfoldable pub sha256_text : Sha256Hash → Bytes
  sha256_text h = codes "sha256:" ++ hex.encode h.bytes

  -- `Sha256Hash::from_str`
  unfoldable pub parse_sha256 : Bytes → Result DomainError Sha256Hash
  parse_sha256 value = do
    raw ← ok_or (strip_prefix (codes "sha256:") value) (invalid_hash "expected sha256 prefix")
    reject_if (not (length raw == 64) || not (all is_lower_hex raw))
        (invalid_hash "SHA-256 must be 64 lowercase hexadecimal characters")
    decoded ← ok_or (hex.decode raw) (invalid_hash "invalid SHA-256 hexadecimal digest")
    ok (record { bytes = decoded })

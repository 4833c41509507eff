-- ===== src/Domain/ContentHash.antt =====
-- `ContentHash` of domain.rs: a BLAKE3-256 digest and its text form. BLAKE3 itself is no code of
-- the repository: nothing here depends on how a digest is computed.
pub mod Laws
use neuman.Prelude.{
  not, ◌++◌, Bytes, codes, length, ◌==◌, ◌≡◌, if◌then◌else◌, bytes_eq, strip_prefix, Result, ok,
  err, ok_or, reject_if, ◌>>=◌, ◌>>◌,
}
use neuman.Domain.{DomainError, invalid_hash}
use neuman.Domain.Base32.{encode_base32, decode_base32}

-- `struct ContentHash([u8; 32])`
pub record ContentHash : Type 0 where
  pub bytes : Bytes

abbrev pub hash_prefix : Bytes
hash_prefix = codes "b3-256:"

-- `Display::fmt`
unfoldable pub display : ContentHash → Bytes
display h = hash_prefix ++ encode_base32 h.bytes

-- `from_str` once the base32 text is read
unfoldable pub from_bytes : Bytes → Bytes → Result DomainError ContentHash
from_bytes value bytes = do
  reject_if (not (length bytes == 32)) (invalid_hash "BLAKE3-256 digest must be 32 bytes")
  reject_if (not (bytes_eq value (display (record { bytes = bytes }))))
      (invalid_hash "hash is not canonical lowercase base32")
  ok (record { bytes = bytes })

-- `FromStr::from_str`
unfoldable pub from_str : Bytes → Result DomainError ContentHash
unfolding from_bytes
from_str value = do
  raw ← ok_or (strip_prefix hash_prefix value) (invalid_hash "expected b3-256 prefix")
  bytes ← decode_base32 raw
  from_bytes value bytes

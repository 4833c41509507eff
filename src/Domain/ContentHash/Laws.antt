-- ===== src/Domain/ContentHash/Laws.antt =====
-- `from_str` beside `display` of a content hash.
use neuman.Prelude.{
  ◌≡◌, ◌↔◌, Bytes, AreBytes, length, ok, ok_or, strip_prefix, strip_prefix-append, bytes_eq,
  bytes_eq_sound, bytes_eq_refl, >>=-eq-ok, arith, true, some,
}
use neuman.Domain.Base32.{encode_base32, decode_base32}
use neuman.Domain.Base32.RoundTrip.{decode_base32-encode_base32}
use neuman.Domain.Base32.Shape.{decode_base32-AreBytes}
use neuman.Domain.ContentHash.{ContentHash, hash_prefix, display, from_bytes, from_str}

-- A digest is 32 bytes.
pub record IsDigest (h : ContentHash) : Type 0 where
  pub size : length h.bytes ≡ 32
  pub range : AreBytes h.bytes

strip_prefix-display :
    (h : ContentHash) → strip_prefix hash_prefix (display h) ≡ some (encode_base32 h.bytes)
unfolding display
strip_prefix-display h = strip_prefix-append hash_prefix (encode_base32 h.bytes)

from_bytes-display : (h : ContentHash) → length h.bytes ≡ 32 → from_bytes (display h) h.bytes ≡ ok h
unfolding from_bytes
from_bytes-display h size = rw (size, bytes_eq_refl)

-- Reading the text of a digest gives the digest back.
pub from_str-display : (h : ContentHash) → IsDigest h → from_str (display h) ≡ ok h
unfolding from_str
from_str-display h d =
    rw strip_prefix-display
      (rw (decode_base32-encode_base32 h.bytes d.range) (from_bytes-display h d.size))

from_bytes_inv :
    (value bytes : Bytes) (h : ContentHash)
    → from_bytes value bytes ≡ ok h
    → (h ≡ record { bytes = bytes }) × (length bytes ≡ 32) × (bytes_eq value (display h) ≡ true)
unfolding from_bytes
from_bytes_inv value bytes h e = ground arith

from_str_inv :
    (value : Bytes) (h : ContentHash) → from_str value ≡ ok h → IsDigest h × (value ≡ display h)
unfolding from_str
from_str_inv value h e =
    let (raw, _, e1) = >>=-eq-ok (ok_or (strip_prefix hash_prefix value) _) _ e in
    let (bytes, decoded, e2) = >>=-eq-ok (decode_base32 raw) _ e1 in
    let (same, size, canonical) = from_bytes_inv value bytes h e2 in
    (
      rw same (record { size = size; range = decode_base32-AreBytes raw bytes decoded }),
      bytes_eq_sound value (display h) canonical,
    )

-- `from_str` accepts exactly the texts that `display` writes of digests, and gives the digest back.
pub from_str_iff :
    (value : Bytes) (h : ContentHash) → (from_str value ≡ ok h) ↔ (IsDigest h × (value ≡ display h))
from_str_iff value h = (from_str_inv value h, λ d. rw d.1 (from_str-display h d.0))

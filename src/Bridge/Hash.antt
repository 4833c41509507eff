-- ===== src/Bridge/Hash.antt =====
-- The content hashes of bridge.rs: `base32_lower`, `blake3_label` and `validate_blake3_hash`.
-- BLAKE3 is a parameter.
pub mod Agreement
use neuman.Prelude.{
  ℕ, ◌+◌, ◌-◌, ◌*◌, ◌%◌, ◌^◌, Bool, not, ◌&&◌, ◌||◌, [], ◌∷◌, ◌++◌, Bytes, codes, all, length, leb,
  ◌==◌, some, none, if◌then◌else◌, is_ascii_lowercase, strip_prefix, Result, ok, err, reject_if,
  ok_or, ◌>>=◌,
}
use neuman.Domain.Base32.{symbol, drain}
use neuman.Bridge.{BridgeError, transfer_rejected}

-- `x << k` on a u16
abbrev pub shl16 : ℕ → ℕ → ℕ
shl16 x k = (x * 2 ^ k) % 2 ^ 16

-- The loop over the bytes: a u16 accumulator that is masked to the pending bits after each byte.
-- The inner `while` and the alphabet are those of domain.rs.
unfoldable pub lower_from : ℕ → ℕ → Bytes → Bytes
unfolding drain symbol
lower_from accumulator bits [] =
    if not (bits == 0) then symbol (shl16 accumulator (5 - bits)) ∷ [] else []
lower_from accumulator bits (byte ∷ rest) =
    let accumulator' = shl16 accumulator 8 + byte in
    let (out, left) = drain (bits + 8) accumulator' (bits + 8) in
    out ++ lower_from (if left == 0 then 0 else accumulator' % 2 ^ left) left rest

unfoldable pub base32_lower : Bytes → Bytes
unfolding lower_from
base32_lower bytes = lower_from 0 0 bytes

-- `validate_blake3_hash`
unfoldable pub validate_blake3_hash : Bytes → Result BridgeError (Unit {0})
validate_blake3_hash hash = do
  base32 ←
      ok_or (strip_prefix (codes "b3-256:") hash) (transfer_rejected "unsupported content hash")
  reject_if
      (not (length base32 == 52)
        || not (all (λ byte. is_ascii_lowercase byte || (leb b'2' byte && leb byte b'7')) base32))
      (transfer_rejected "invalid content hash")

-- `blake3_label`, with the hash function as a parameter
unfoldable pub blake3_label : (Bytes → Bytes) → Bytes → Bytes
blake3_label blake3 input = codes "b3-256:" ++ base32_lower (blake3 input)

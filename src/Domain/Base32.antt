-- ===== src/Domain/Base32.antt =====
-- `encode_base32` and `decode_base32` of domain.rs, over bytes, with the wrapping of their u32
-- buffer. What the loops push comes out in order; `bits` is a u8 that stays below 13.
pub mod RoundTrip
pub mod Shape
use neuman.Prelude.{
  ℕ, zero, suc, ◌+◌, ◌-◌, ◌*◌, ◌/◌, ◌%◌, ◌^◌, Bool, true, false, not, ◌&&◌, List, [], ◌∷◌, ◌++◌,
  Bytes, codes, get_or, leb, ◌==◌, if◌then◌else◌, Result, ok, err, ◌>>=◌,
}
use neuman.Domain.{DomainError, invalid_hash}

-- `const BASE32`
abbrev pub base32 : Bytes
base32 = codes "abcdefghijklmnopqrstuvwxyz234567"

-- `(x << k)` on a u32 drops what passes bit 31
abbrev pub shl32 : ℕ → ℕ → ℕ
shl32 x k = (x * 2 ^ k) % 2 ^ 32

-- `char::from(BASE32[(x & 31) as usize])`
unfoldable pub symbol : ℕ → ℕ
symbol x = get_or base32 (x % 32) 0

-- `while bits >= 5`: what it pushes, and the bits that are left. Each round takes 5 bits away, so
-- the fuel `bits` is enough.
unfoldable pub drain : ℕ → ℕ → ℕ → Bytes × ℕ
drain zero buffer bits = ([], bits)
drain (suc fuel) buffer bits = elim (leb 5 bits) [
  | true ↦
      let (out, left) = drain fuel buffer (bits - 5) in
      (symbol (buffer / 2 ^ (bits - 5)) ∷ out, left)
  | false ↦ ([], bits)
]

-- The loop over the bytes, from a buffer and a count of pending bits, and the final symbol.
unfoldable pub encode_from : ℕ → ℕ → Bytes → Bytes
unfolding symbol
encode_from buffer bits [] = if bits == 0 then [] else symbol (shl32 buffer (5 - bits)) ∷ []
encode_from buffer bits (byte ∷ rest) =
    let buffer' = shl32 buffer 8 + byte in
    let (out, left) = drain (bits + 8) buffer' (bits + 8) in out ++ encode_from buffer' left rest

unfoldable pub encode_base32 : Bytes → Bytes
unfolding encode_from drain symbol
encode_base32 bytes = encode_from 0 0 bytes

-- the `match ch` on a character
unfoldable pub decode_char : ℕ → Result DomainError ℕ
decode_char ch =
    if leb b'a' ch && leb ch b'z'
    then ok (ch - b'a')
    else if leb b'2' ch && leb ch b'7'
    then ok (ch - b'2' + 26)
    else err (invalid_hash "base32 must be lowercase and unpadded")

-- The loop over the characters, and the test of the padding bits. `buffer & ((1 << bits) - 1)` is
-- `buffer % 2 ^ bits`.
unfoldable pub decode_from : ℕ → ℕ → Bytes → Result DomainError Bytes
unfolding decode_char
decode_from buffer bits [] =
    if not (bits == 0) && not (buffer % 2 ^ bits == 0)
    then err (invalid_hash "non-zero base32 padding bits")
    else ok []
decode_from buffer bits (ch ∷ rest) = do
  part ← decode_char ch
  let buffer' = shl32 buffer 5 + part
  let bits' = bits + 5
  elim (leb 8 bits') [
    | true ↦ (do
      result ← decode_from buffer' (bits' - 8) rest
      ok ((buffer' / 2 ^ (bits' - 8) % 256) ∷ result))
    | false ↦ decode_from buffer' bits' rest
  ]

unfoldable pub decode_base32 : Bytes → Result DomainError Bytes
unfolding decode_from decode_char
decode_base32 value = decode_from 0 0 value

-- ===== src/Domain/Base32/Shape.antt =====
-- The length and the alphabet of what `encode_base32` writes, and the range of what
-- `decode_base32` reads.
use neuman.Prelude.{
  ℕ, zero, suc, ◌+◌, ◌-◌, ◌*◌, ◌/◌, ◌%◌, ◌^◌, ◌<◌, ◌≡◌, refl, Bool, true, ◌&&◌, ◌||◌, [], ◌∷◌,
  Bytes, AreBytes, all, ok, err, arith, length, leb, if◌then◌else◌, is_ascii_lowercase, all_below,
  all_below_sound, >>=-eq-ok, Bool-cases, inl, inr,
}
use neuman.Domain.{DomainError}
use neuman.Domain.Base32.{
  shl32, symbol, drain, encode_from, encode_base32, decode_char, decode_from, decode_base32,
}

-- A character of the alphabet: `is_ascii_lowercase() || matches!(byte, b'2'..=b'7')`.
unfoldable pub in_alphabet : ℕ → Bool
in_alphabet c = is_ascii_lowercase c || (leb b'2' c && leb c b'7')

symbols_in_alphabet : all_below 32 (λ n. in_alphabet (symbol n)) ≡ true
unfolding all_below symbol in_alphabet
symbols_in_alphabet = refl

symbol-mod : (n : ℕ) → symbol n ≡ symbol (n % 32)
unfolding symbol
symbol-mod n = let e : n % 32 ≡ n % 32 % 32 = omega arith in rw (← e)

symbol-in_alphabet : (n : ℕ) → in_alphabet (symbol n) ≡ true
symbol-in_alphabet n =
    rw symbol-mod (all_below_sound 32 _ (n % 32) symbols_in_alphabet (omega arith))

-- Both facts for one state of the loop.
encode_from_shape :
    (b B : ℕ) (xs : Bytes)
    → b < 5
    → (length (encode_from B b xs) ≡ (8 * length xs + b + 4) / 5)
      × (all in_alphabet (encode_from B b xs) ≡ true)
unfolding encode_from drain
encode_from_shape zero B [] h = (refl, refl)
encode_from_shape (suc zero) B [] h = (refl, simp symbol-in_alphabet)
encode_from_shape (suc (suc zero)) B [] h = (refl, simp symbol-in_alphabet)
encode_from_shape (suc (suc (suc zero))) B [] h = (refl, simp symbol-in_alphabet)
encode_from_shape (suc (suc (suc (suc zero)))) B [] h = (refl, simp symbol-in_alphabet)
encode_from_shape (suc (suc (suc (suc (suc b))))) B xs h = absurd (omega arith)
encode_from_shape zero B (x ∷ xs) h =
    let rest = encode_from_shape 3 (shl32 B 8 + x) xs (omega arith) in
    (omega (arith, rest.0), simp symbol-in_alphabet rest.1)
encode_from_shape (suc zero) B (x ∷ xs) h =
    let rest = encode_from_shape 4 (shl32 B 8 + x) xs (omega arith) in
    (omega (arith, rest.0), simp symbol-in_alphabet rest.1)
encode_from_shape (suc (suc zero)) B (x ∷ xs) h =
    let rest = encode_from_shape 0 (shl32 B 8 + x) xs (omega arith) in
    (omega (arith, rest.0), simp symbol-in_alphabet rest.1)
encode_from_shape (suc (suc (suc zero))) B (x ∷ xs) h =
    let rest = encode_from_shape 1 (shl32 B 8 + x) xs (omega arith) in
    (omega (arith, rest.0), simp symbol-in_alphabet rest.1)
encode_from_shape (suc (suc (suc (suc zero)))) B (x ∷ xs) h =
    let rest = encode_from_shape 2 (shl32 B 8 + x) xs (omega arith) in
    (omega (arith, rest.0), simp symbol-in_alphabet rest.1)

-- n bytes are written as ⌈8n / 5⌉ characters, all of them lowercase letters or digits 2 to 7.
pub encode_base32_shape :
    (xs : Bytes)
    → (length (encode_base32 xs) ≡ (8 * length xs + 4) / 5)
      × (all in_alphabet (encode_base32 xs) ≡ true)
unfolding encode_base32
encode_base32_shape xs =
    let shape = encode_from_shape 0 0 xs (omega arith) in (omega (arith, shape.0), shape.1)

nothing_left :
    (t : Bool) (e : DomainError) (xs : Bytes) → (if t then err e else ok []) ≡ ok xs → xs ≡ []
nothing_left t e xs h = ground arith

decode_from-AreBytes : (B b : ℕ) (s xs : Bytes) → decode_from B b s ≡ ok xs → AreBytes xs
unfolding decode_from
decode_from-AreBytes B b [] xs h = rw (nothing_left _ _ xs h) tt
decode_from-AreBytes B b (c ∷ s) xs h =
    let (part, _, after) = >>=-eq-ok (decode_char c) _ h in
    let B' = shl32 B 5 + part in
    elim (Bool-cases (leb 8 (b + 5))) [
      | inl full ↦
          let now = rw full at after in
          let (ys, later, e) = >>=-eq-ok (decode_from B' (b + 5 - 8) s) _ now in
          let split : xs ≡ (B' / 2 ^ (b + 5 - 8) % 256) ∷ ys = cc in
          rw split (omega arith, decode_from-AreBytes B' (b + 5 - 8) s ys later)
      | inr short ↦ decode_from-AreBytes B' (b + 5) s xs (rw short at after)
    ]

-- What `decode_base32` accepts it reads as bytes.
pub decode_base32-AreBytes : (s xs : Bytes) → decode_base32 s ≡ ok xs → AreBytes xs
unfolding decode_base32
decode_base32-AreBytes s xs h = decode_from-AreBytes 0 0 s xs h

-- ===== src/Domain/Base32/RoundTrip.antt =====
-- `decode_base32` on what `encode_base32` wrote.
use neuman.Prelude.{
  ℕ, zero, suc, ◌+◌, ◌-◌, ◌*◌, ◌/◌, ◌%◌, ◌^◌, ◌≡◌, refl, ◌∙◌, ap, true, [], ◌∷◌, Bytes, AreBytes,
  ◌<◌, codes, ok, err, arith, leb, ◌==◌, ==_iff, Result, ◌>>=◌, ◌≤◌, all_below, all_below_sound,
}
use neuman.Domain.{DomainError, invalid_hash}
use neuman.Domain.Base32.{
  shl32, symbol, drain, encode_from, encode_base32, decode_char, decode_from, decode_base32,
}

abbrev value_or : Result DomainError ℕ → ℕ
value_or (ok n) = n
value_or (err e) = 99

symbol_table : all_below 32 (λ n. value_or (decode_char (symbol n)) == n) ≡ true
unfolding all_below decode_char symbol
symbol_table = refl

ok_of_value : (r : Result DomainError ℕ) (n : ℕ) → n < 32 → value_or r ≡ n → r ≡ ok n
ok_of_value (ok m) n h e = ap ok e
ok_of_value (err x) n h e = absurd (omega arith)

symbol-mod : (n : ℕ) → symbol n ≡ symbol (n % 32)
unfolding symbol
symbol-mod n = let e : n % 32 ≡ n % 32 % 32 = omega arith in rw (← e)

-- Every symbol decodes to the five bits that it stands for.
pub decode_char-symbol : (n : ℕ) → decode_char (symbol n) ≡ ok (n % 32)
decode_char-symbol n = rw symbol-mod (
    ok_of_value (decode_char (symbol (n % 32))) (n % 32) (omega arith)
      ((==_iff _ (n % 32)).0 (all_below_sound 32 _ (n % 32) symbol_table (omega arith))))

-- The coupling: with `bits` pending in the encoder, the decoder has pending the other bits of the
-- byte that both are in.
abbrev pending : ℕ → ℕ
pending zero = 0
pending (suc b) = 7 - b

abbrev remaining : ℕ → ℕ → ℕ → Bytes → Bytes
remaining zero buffer buffer' xs = xs
remaining (suc b) buffer buffer' xs = (buffer' % 2 ^ (7 - b) * 2 ^ suc b + buffer % 2 ^ suc b) ∷ xs

same_head :
    {x y : ℕ} (xs : Bytes) → x ≡ y → ◌≡◌ {A = Result DomainError Bytes} (ok (x ∷ xs)) (ok (y ∷ xs))
same_head xs p = ap (λ z. ok (z ∷ xs)) p

push_head :
    {r : Result DomainError Bytes} {v w : ℕ} {zs : Bytes}
    → r ≡ ok zs
    → v ≡ w
    → (r >>= λ result. ok (v ∷ result)) ≡ ok (w ∷ zs)
push_head {r} {v} {w} {zs} e p = rw e (ap (λ z. ok (z ∷ zs)) p)

-- The last symbol carries the encoder's pending bits and zeros.
decode_last :
    (b : ℕ) (B Q : ℕ)
    → b < 5
    → decode_from Q (pending b) (encode_from B b []) ≡ ok (remaining b B Q [])
unfolding decode_from encode_from
decode_last zero B Q h = refl
decode_last (suc zero) B Q h =
    let z : (shl32 Q 5 + shl32 B 4 % 32) % 16 ≡ 0 = omega arith in
    rw decode_char-symbol (rw z (same_head [] (omega arith)))
decode_last (suc (suc zero)) B Q h =
    let z : (shl32 Q 5 + shl32 B 3 % 32) % 8 ≡ 0 = omega arith in
    rw decode_char-symbol (rw z (same_head [] (omega arith)))
decode_last (suc (suc (suc zero))) B Q h =
    let z : (shl32 Q 5 + shl32 B 2 % 32) % 4 ≡ 0 = omega arith in
    rw decode_char-symbol (rw z (same_head [] (omega arith)))
decode_last (suc (suc (suc (suc zero)))) B Q h =
    let z : (shl32 Q 5 + shl32 B 1 % 32) % 2 ≡ 0 = omega arith in
    rw decode_char-symbol (rw z (same_head [] (omega arith)))
decode_last (suc (suc (suc (suc (suc b))))) B Q h = absurd (omega arith)

-- One symbol, while fewer than 8 bits come together, and when a byte is complete.
decode_short :
    (c : ℕ) (Q n : ℕ) (s : Bytes)
    → c < 3
    → decode_from Q c (symbol n ∷ s) ≡ decode_from (shl32 Q 5 + n % 32) (c + 5) s
unfolding decode_from
decode_short c Q n s h = rw decode_char-symbol (ground arith)

decode_full :
    (c : ℕ) (Q n : ℕ) (s : Bytes)
    → 3 ≤ c
    → decode_from Q c (symbol n ∷ s) ≡ (
        decode_from (shl32 Q 5 + n % 32) (c - 3) s >>= λ result.
        ok ((shl32 Q 5 + n % 32) / 2 ^ (c - 3) % 256 ∷ result))
unfolding decode_from
decode_full c Q n s h =
    let full : leb 8 (c + 5) ≡ true = ground arith in
    let left : c + 5 - 8 ≡ c - 3 = omega arith in rw decode_char-symbol (rw full (rw left))

decode-encode_from :
    (b : ℕ) (buffer buffer' : ℕ) (xs : Bytes)
    → b < 5
    → AreBytes xs
    → decode_from buffer' (pending b) (encode_from buffer b xs) ≡ ok (remaining b buffer buffer' xs)
unfolding encode_from drain
decode-encode_from b B Q [] h k = decode_last b B Q h
decode-encode_from zero B Q (x ∷ xs) h k =
    let B' = shl32 B 8 + x in
    let Q' = shl32 Q 5 + B' / 8 % 32 in
    rw (decode_short 0 Q (B' / 8) (encode_from B' 3 xs) (omega arith))
      (decode-encode_from 3 B' Q' xs (omega arith) k.1 ∙ same_head xs (omega (arith, k.0)))
decode-encode_from (suc zero) B Q (x ∷ xs) h k =
    let B' = shl32 B 8 + x in
    let Q' = shl32 Q 5 + B' / 16 % 32 in
    rw (decode_full 7 Q (B' / 16) (encode_from B' 4 xs) (omega arith)) (
      push_head
        (decode-encode_from 4 B' Q' xs (omega arith) k.1 ∙ same_head xs (omega (arith, k.0)))
        (omega arith))
decode-encode_from (suc (suc zero)) B Q (x ∷ xs) h k =
    let B' = shl32 B 8 + x in
    let Q1 = shl32 Q 5 + B' / 32 % 32 in
    let Q2 = shl32 Q1 5 + B' / 1 % 32 in
    rw (decode_full 6 Q (B' / 32) (symbol (B' / 1) ∷ encode_from B' 0 xs) (omega arith)) (
      push_head
        (rw (decode_full 3 Q1 (B' / 1) (encode_from B' 0 xs) (omega arith))
          (push_head (decode-encode_from 0 B' Q2 xs (omega arith) k.1) (omega (arith, k.0))))
        (omega arith))
decode-encode_from (suc (suc (suc zero))) B Q (x ∷ xs) h k =
    let B' = shl32 B 8 + x in
    let Q1 = shl32 Q 5 + B' / 64 % 32 in
    let Q2 = shl32 Q1 5 + B' / 2 % 32 in
    rw (decode_full 5 Q (B' / 64) (symbol (B' / 2) ∷ encode_from B' 1 xs) (omega arith)) (
      push_head
        (rw (decode_short 2 Q1 (B' / 2) (encode_from B' 1 xs) (omega arith))
          (decode-encode_from 1 B' Q2 xs (omega arith) k.1 ∙ same_head xs (omega (arith, k.0))))
        (omega arith))
decode-encode_from (suc (suc (suc (suc zero)))) B Q (x ∷ xs) h k =
    let B' = shl32 B 8 + x in
    let Q1 = shl32 Q 5 + B' / 128 % 32 in
    let Q2 = shl32 Q1 5 + B' / 4 % 32 in
    rw (decode_full 4 Q (B' / 128) (symbol (B' / 4) ∷ encode_from B' 2 xs) (omega arith)) (
      push_head
        (rw (decode_short 1 Q1 (B' / 4) (encode_from B' 2 xs) (omega arith))
          (decode-encode_from 2 B' Q2 xs (omega arith) k.1 ∙ same_head xs (omega (arith, k.0))))
        (omega arith))
decode-encode_from (suc (suc (suc (suc (suc b))))) B Q (x ∷ xs) h k = absurd (omega arith)

-- Decoding the base32 text of any bytes gives those bytes back.
pub decode_base32-encode_base32 :
    (xs : Bytes) → AreBytes xs → decode_base32 (encode_base32 xs) ≡ ok xs
unfolding decode_base32 encode_base32
decode_base32-encode_base32 xs h = decode-encode_from 0 0 0 xs (omega arith) h

encode_foob : encode_base32 (codes "foob") ≡ codes "mzxw6yq"
unfolding encode_base32
encode_foob = refl

decode_foob : decode_base32 (codes "mzxw6yq") ≡ ok (codes "foob")
unfolding decode_base32
decode_foob = refl

decode_padding : decode_base32 (codes "mzxw6yr") ≡ err (invalid_hash "non-zero base32 padding bits")
unfolding decode_base32
decode_padding = refl

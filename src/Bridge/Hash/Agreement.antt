-- ===== src/Bridge/Hash/Agreement.antt =====
-- The base32 of bridge.rs beside that of domain.rs.
use neuman.Prelude.{
  ℕ, zero, suc, ◌+◌, ◌/◌, ◌%◌, ◌^◌, ◌<◌, ◌≡◌, refl, ap₂, [], ◌∷◌, Bytes, AreBytes, arith,
}
use neuman.Domain.Base32.{shl32, symbol, drain, encode_from, encode_base32}
use neuman.Bridge.Hash.{shl16, lower_from, base32_lower}

symbol_cong : (x y : ℕ) → x % 32 ≡ y % 32 → symbol x ≡ symbol y
unfolding symbol
symbol_cong x y h = rw h

push : (x y : ℕ) {s t : Bytes} → x % 32 ≡ y % 32 → s ≡ t → symbol x ∷ s ≡ symbol y ∷ t
push x y p q = ap₂ ◌∷◌ (symbol_cong x y p) q

lower_from-eq-encode_from :
    (b A B : ℕ) (xs : Bytes)
    → b < 5
    → A ≡ B % 2 ^ b
    → AreBytes xs
    → lower_from A b xs ≡ encode_from B b xs
unfolding lower_from encode_from drain
lower_from-eq-encode_from zero A B [] h e k = refl
lower_from-eq-encode_from (suc zero) A B [] h e k = push (shl16 A 4) (shl32 B 4) (omega arith) refl
lower_from-eq-encode_from (suc (suc zero)) A B [] h e k =
    push (shl16 A 3) (shl32 B 3) (omega arith) refl
lower_from-eq-encode_from (suc (suc (suc zero))) A B [] h e k =
    push (shl16 A 2) (shl32 B 2) (omega arith) refl
lower_from-eq-encode_from (suc (suc (suc (suc zero)))) A B [] h e k =
    push (shl16 A 1) (shl32 B 1) (omega arith) refl
lower_from-eq-encode_from (suc (suc (suc (suc (suc b))))) A B xs h e k = absurd (omega arith)
lower_from-eq-encode_from zero A B (x ∷ xs) h e k =
    let A' = shl16 A 8 + x in
    let B' = shl32 B 8 + x in
    push (A' / 8) (B' / 8) (omega arith)
      (lower_from-eq-encode_from 3 (A' % 8) B' xs (omega arith) (omega arith) k.1)
lower_from-eq-encode_from (suc zero) A B (x ∷ xs) h e k =
    let A' = shl16 A 8 + x in
    let B' = shl32 B 8 + x in
    push (A' / 16) (B' / 16) (omega arith)
      (lower_from-eq-encode_from 4 (A' % 16) B' xs (omega arith) (omega arith) k.1)
lower_from-eq-encode_from (suc (suc zero)) A B (x ∷ xs) h e k =
    let A' = shl16 A 8 + x in
    let B' = shl32 B 8 + x in
    push (A' / 32) (B' / 32) (omega arith) (
      push (A' / 1) (B' / 1) (omega arith)
        (lower_from-eq-encode_from 0 0 B' xs (omega arith) (omega arith) k.1))
lower_from-eq-encode_from (suc (suc (suc zero))) A B (x ∷ xs) h e k =
    let A' = shl16 A 8 + x in
    let B' = shl32 B 8 + x in
    push (A' / 64) (B' / 64) (omega arith) (
      push (A' / 2) (B' / 2) (omega arith)
        (lower_from-eq-encode_from 1 (A' % 2) B' xs (omega arith) (omega arith) k.1))
lower_from-eq-encode_from (suc (suc (suc (suc zero)))) A B (x ∷ xs) h e k =
    let A' = shl16 A 8 + x in
    let B' = shl32 B 8 + x in
    push (A' / 128) (B' / 128) (omega arith) (
      push (A' / 4) (B' / 4) (omega arith)
        (lower_from-eq-encode_from 2 (A' % 4) B' xs (omega arith) (omega arith) k.1))

-- The u16 encoder of bridge.rs and the u32 encoder of domain.rs write the same text for all bytes.
pub base32_lower-eq-encode_base32 : (xs : Bytes) → AreBytes xs → base32_lower xs ≡ encode_base32 xs
unfolding base32_lower encode_base32
base32_lower-eq-encode_base32 xs h =
    lower_from-eq-encode_from 0 0 0 xs (omega arith) (omega arith) h

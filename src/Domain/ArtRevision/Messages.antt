-- ===== src/Domain/ArtRevision/Messages.antt =====
-- The message that is hashed to a leaf, and the key and value in it.
use neuman.Prelude.{
  length-append_split, ℕ, ◌^◌, ◌<◌, ◌≡◌, ◌≢◌, refl, sym, ◌∙◌, ap, ◌++◌, Bytes, get_or, length,
  arith,
}
use neuman.Domain.ContentHash.{ContentHash, display, from_str}
use neuman.Domain.ContentHash.Laws.{IsDigest, from_str-display}
use neuman.Domain.ArtRevision.{empty_message, leaf_prefix, to_be_bytes, leaf_message}
use neuman.Domain.ArtRevision.Tree.{IsOuter}

to_be_bytes-injective : (n m : ℕ) → n < 2 ^ 32 → m < 2 ^ 32 → to_be_bytes n ≡ to_be_bytes m → n ≡ m
unfolding to_be_bytes
to_be_bytes-injective n m hn hm e = omega (
  arith,
  ap (λ l. get_or l 0 0) e,
  ap (λ l. get_or l 1 0) e,
  ap (λ l. get_or l 2 0) e,
  ap (λ l. get_or l 3 0) e,
)

length-to_be_bytes : (n : ℕ) → length (to_be_bytes n) ≡ 4
unfolding to_be_bytes
length-to_be_bytes n = refl

-- A length and that many bytes are read off unambiguously.
framed :
    (a b : Bytes) {s t : Bytes}
    → length a < 2 ^ 32
    → length b < 2 ^ 32
    → to_be_bytes (length a) ++ (a ++ s) ≡ to_be_bytes (length b) ++ (b ++ t)
    → (a ≡ b) × (s ≡ t)
framed a b ha hb e =
    let (n, rest) =
      length-append_split (to_be_bytes (length a)) (to_be_bytes (length b))
        (length-to_be_bytes _ ∙ sym (length-to_be_bytes _)) e in
    length-append_split a b (to_be_bytes-injective _ _ ha hb n) rest

framed_last :
    (a b : Bytes)
    → length a < 2 ^ 32
    → length b < 2 ^ 32
    → to_be_bytes (length a) ++ a ≡ to_be_bytes (length b) ++ b
    → a ≡ b
framed_last a b ha hb e =
    (length-append_split (to_be_bytes (length a)) (to_be_bytes (length b))
      (length-to_be_bytes _ ∙ sym (length-to_be_bytes _)) e).1

pub leaf_message-injective :
    (k k' v v' : Bytes)
    → length k < 2 ^ 32
    → length k' < 2 ^ 32
    → length v < 2 ^ 32
    → length v' < 2 ^ 32
    → leaf_message k v ≡ leaf_message k' v'
    → (k ≡ k') × (v ≡ v')
unfolding leaf_message
leaf_message-injective k k' v v' hk hk' hv hv' e =
    let (_, e1) = length-append_split leaf_prefix leaf_prefix refl e in
    let (p, e2) = framed k k' hk hk' e1 in (p, framed_last v v' hv hv' e2)

pub display-injective :
    (h k : ContentHash) → IsDigest h → IsDigest k → display h ≡ display k → h ≡ k
display-injective h k dh dk e = cc (from_str-display h dh, from_str-display k dk, ap from_str e)

pub empty-ne-leaf : (k v : Bytes) → empty_message ≢ leaf_message k v
unfolding leaf_message
empty-ne-leaf k v e = omega (arith, ap (λ m. get_or m 11 0) e)

pub leaf_message-IsOuter : (k v : Bytes) → IsOuter (leaf_message k v)
unfolding leaf_message
leaf_message-IsOuter k v = λ p. ground arith

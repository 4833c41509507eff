-- ===== src/Bridge/Pairing/Protocol.antt =====
-- `negotiate_protocol` of bridge.rs.
use neuman.Prelude.{
  ℕ, ◌+◌, ◌-◌, ◌*◌, ◌^◌, Bool, not, ◌&&◌, ◌||◌, ◌==◌, Option, none, some, [], ◌∷◌, Bytes, codes,
  is_ascii_digit, ltb, if◌then◌else◌, Result, ok, ok_or, reject_if, ◌>>=◌, ◌>>◌,
}
use neuman.Bridge.{BridgeError, protocol_incompatible}

abbrev pub protocol_version : Bytes
protocol_version = codes "1.0"

-- `str::split_once`
unfoldable pub split_once : ℕ → Bytes → Option (Bytes × Bytes)
split_once at [] = none
split_once at (c ∷ cs) =
    if c == at
    then some ([], cs)
    else elim (split_once at cs) [ none ↦ none | some (before, after) ↦ some (c ∷ before, after) ]

-- The loop of `u64::from_str`, with its checked arithmetic
unfoldable pub digits_from : ℕ → Bytes → Option ℕ
digits_from n [] = some n
digits_from n (c ∷ cs) =
    let m = n * 10 + (c - b'0') in
    if is_ascii_digit c && ltb m (2 ^ 64) then digits_from m cs else none

-- `u64::from_str`, which takes a plus sign
unfoldable pub parse_u64 : Bytes → Option ℕ
unfolding digits_from
parse_u64 [] = none
parse_u64 (c ∷ []) = digits_from 0 (c ∷ [])
parse_u64 (c ∷ d ∷ cs) = if c == b'+' then digits_from 0 (d ∷ cs) else digits_from 0 (c ∷ d ∷ cs)

-- The closure `parse`
unfoldable pub parse_version : Bytes → Option (ℕ × ℕ)
unfolding split_once parse_u64
parse_version version = elim (split_once b'.' version) [
  | none ↦ none
  | some (major, minor) ↦ elim (parse_u64 major) [
    | none ↦ none
    | some a ↦ elim (parse_u64 minor) [ none ↦ none | some b ↦ some (a, b) ]
  ]
]

-- `<` on pairs
abbrev pub precedes : ℕ × ℕ → ℕ × ℕ → Bool
precedes (a, b) (c, d) = ltb a c || (a == c && ltb b d)

-- `negotiate_protocol`
unfoldable pub negotiate_protocol : Bytes → Bytes → Result BridgeError Bytes
unfolding parse_version
negotiate_protocol minimum maximum = do
  min ← ok_or (parse_version minimum) protocol_incompatible
  max ← ok_or (parse_version maximum) protocol_incompatible
  reject_if
      (not (min.0 == 1)
        || not (max.0 == 1)
        || precedes (1, 0) min
        || precedes max (1, 0)
        || precedes max min)
      protocol_incompatible
  ok protocol_version

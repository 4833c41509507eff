-- ===== src/Hub/Validation.antt =====
-- The input checks of hub.rs over text. A `String` is walked by its code points; the checks that
-- count bytes only accept ASCII, where bytes and code points agree.
pub mod Sets
use Prim.Native.String
use neuman.Prelude.{
  ℕ, zero, suc, ◌/◌, ◌%◌, ◌+◌, ◌≤◌, get_or, text_append, String, Bool, true, false, not, ◌&&◌, ◌||◌,
  Option, some, none, List, [], ◌∷◌, Bytes, codes, all, any, length, leb, ltb, ◌==◌, bytes_eq,
  strip_prefix, is_ascii_alphanumeric, is_ascii_lowercase, if◌then◌else◌, Result, ok, err, ok_or,
  reject_if, ◌>>=◌, ◌>>◌, drop_while, reverse,
}
use neuman.Hub.{HubError, hub_error, invalid}

-- `char::is_whitespace`: the White_Space code points
unfoldable pub is_whitespace : ℕ → Bool
is_whitespace c =
    (leb 9 c && leb c 13)
    || c == 32
    || c == 0x85
    || c == 0xa0
    || c == 0x1680
    || (leb 0x2000 c && leb c 0x200a)
    || c == 0x2028
    || c == 0x2029
    || c == 0x202f
    || c == 0x205f
    || c == 0x3000

-- `char::is_control`: the general category Cc
unfoldable pub is_control : ℕ → Bool
is_control c = leb c 0x1f || (leb 0x7f c && leb c 0x9f)

-- `str::trim`
unfoldable pub trim : Bytes → Bytes
unfolding is_whitespace
trim s = reverse (drop_while is_whitespace (reverse (drop_while is_whitespace s)))

abbrev digit : ℕ → String
digit n = get_or ("0" ∷ "1" ∷ "2" ∷ "3" ∷ "4" ∷ "5" ∷ "6" ∷ "7" ∷ "8" ∷ "9" ∷ []) n ""

-- `{n}` of `format!` as a text, with fuel for more than the number of digits
unfoldable pub number_text : ℕ → ℕ → String
number_text zero n = ""
number_text (suc fuel) n = elim (ltb n 10) [
  | true ↦ digit n
  | false ↦ text_append (number_text fuel (n / 10)) (digit (n % 10))
]

-- The message of `validate_name`
unfoldable pub length_message : ℕ → ℕ → String → String
unfolding number_text
length_message min max name = text_append name (
    text_append " must contain " (
      text_append (number_text (suc min) min)
        (text_append "-" (text_append (number_text (suc max) max) " non-control characters."))))

-- `validate_name`
unfoldable pub validate_name : String → ℕ → ℕ → String → Result HubError (Unit {0})
unfolding trim is_control
validate_name value min max name =
    let trimmed = trim (codes value) in
    reject_if (not (leb min (length trimmed) && leb (length trimmed) max) || any is_control trimmed)
      (invalid (length_message min max name))

-- The length in bytes of the UTF-8 text
abbrev pub byte_len : String → ℕ
byte_len s = String.len s

-- `validate_hash_label`
unfoldable pub validate_hash_label : String → String → Result HubError (Unit {0})
validate_hash_label value name =
    reject_if
      (not (leb 16 (byte_len value) && leb (byte_len value) 256)
        || not (
            all (λ c. is_ascii_alphanumeric c || c == b'-' || c == b'_' || c == b':')
              (codes value)))
      (invalid (text_append name " is not a valid hash label."))

-- `validate_content_hash`
unfoldable pub validate_content_hash : String → Result HubError (Unit {0})
validate_content_hash value = do
  digest ←
      ok_or (strip_prefix (codes "b3-256:") (codes value))
        (hub_error 400 "STO_HASH_INVALID" "Content hash must use b3-256 identity.")
  reject_if
      (not (length digest == 52)
        || not (all (λ c. is_ascii_lowercase c || (leb b'2' c && leb c b'7')) digest))
      (hub_error 400 "STO_HASH_INVALID" "BLAKE3 digest must be 52 lowercase base32 characters.")

-- The order of a `BTreeSet<String>`: by bytes, which for UTF-8 is by code points.
unfoldable pub before : Bytes → Bytes → Bool
before [] [] = false
before [] (y ∷ ys) = true
before (x ∷ xs) [] = false
before (x ∷ xs) (y ∷ ys) = if x == y then before xs ys else ltb x y

-- `BTreeSet::insert`: `none` where the value is there already
unfoldable pub set_insert : String → List String → Option (List String)
set_insert v [] = some (v ∷ [])
set_insert v (x ∷ xs) =
    if bytes_eq (codes v) (codes x)
    then none
    else if before (codes v) (codes x)
    then some (v ∷ x ∷ xs)
    else elim (set_insert v xs) [ none ↦ none | some rest ↦ some (x ∷ rest) ]

-- `for value in values`
unfoldable pub collect : String → List String → List String → Result HubError (List String)
unfolding validate_name
collect name set [] = ok set
collect name set (value ∷ values) = do
  validate_name value 1 256 name
  set' ← ok_or (set_insert value set) (invalid (text_append name " must not contain duplicates."))
  collect name set' values

-- `sorted_unique`
unfoldable pub sorted_unique : List String → String → Result HubError (List String)
unfolding collect set_insert
sorted_unique values name = do
  reject_if (ltb 10000 (length values)) (invalid (text_append name " contains too many entries."))
  collect name [] values

-- ===== src/Evidence/Canonical.antt =====
-- internal/evidence/canonical.go: the canonical serialization (RFC 8785, integers only).
pub mod Keys
pub mod Line
pub mod Same
use probavi.Base.{
  ℕ, suc, ◌+◌, ◌-◌, ◌*◌, ◌/◌, ◌%◌, ◌^◌, Bool, true, false, not, ◌&&◌, ◌||◌, List, [], ◌∷◌, ◌++◌,
  ltb, leb, ◌==◌, within, if◌then◌else◌, all, codes, Bytes,
}
use probavi.Utf8.{valid_string}
use probavi.Evidence.Codes.{Sentinel, not_integer, invalid_record}
use probavi.Evidence.Result.{Result, ok, fails, ◌>>=◌, ◌>>◌, require}
use probavi.Evidence.Json.{
  Json, null, boolean, number, text, array, object, Items, nil, cons, Fields, end, field,
}
use probavi.Evidence.Canonical.Keys.{Keyed, sort}

abbrev is_digit : ℕ → Bool
is_digit = within b'0' b'9'

-- Digits, the first of them not 0: `[1-9][0-9]*`.
abbrev is_positive : Bytes → Bool
is_positive [] = false
is_positive (c ∷ s) = within b'1' b'9' c && all is_digit s

-- `integerPattern`: `^(0|-?[1-9][0-9]*)$`.
pub is_integer : Bytes → Bool
is_integer [] = false
is_integer (c ∷ []) = is_digit c
is_integer (c ∷ d ∷ s) = is_positive (c ∷ d ∷ s) || (c == b'-' && is_positive (d ∷ s))

abbrev pub max_safe_integer : ℕ
max_safe_integer = 2 ^ 53 - 1

-- The magnitude that `strconv.ParseInt` reads off the digits.
pub magnitude : ℕ → Bytes → ℕ
magnitude acc [] = acc
magnitude acc (c ∷ s) = magnitude (if c == b'-' then acc else acc * 10 + (c - b'0')) s

pub canonical_number : Bytes → Result Bytes
unfolding is_integer magnitude
canonical_number s = do
  require (is_integer s) not_integer
  require (leb (magnitude 0 s) max_safe_integer) not_integer
  ok s

-- The lowercase hexadecimal digit.
abbrev hex_digit : ℕ → ℕ
hex_digit n = if ltb n 10 then b'0' + n else b'a' + (n - 10)

-- One rune of `appendCanonicalString`. Runes from 0x80 on are written as they stand, so their bytes
-- are copied one by one.
pub escape : ℕ → Bytes
escape c =
    if c == b'"'
    then codes "\\\""
    else if c == b'\\'
    then codes "\\\\"
    else if c == 8
    then codes "\\b"
    else if c == 9
    then codes "\\t"
    else if c == 10
    then codes "\\n"
    else if c == 12
    then codes "\\f"
    else if c == 13
    then codes "\\r"
    else if ltb c 0x20
    then codes "\\u00" ++ hex_digit (c / 16) ∷ hex_digit (c % 16) ∷ []
    else c ∷ []

pub escape_all : Bytes → Bytes
unfolding escape
escape_all [] = []
escape_all (c ∷ s) = escape c ++ escape_all s

pub canonical_string : Bytes → Result Bytes
unfolding escape_all
canonical_string s = do
  require (valid_string s) invalid_record
  ok (b'"' ∷ (escape_all s ++ b'"' ∷ []))

-- The elements of an array, a comma before each but the first.
pub join_items : Bool → List (Result Bytes) → Result Bytes
join_items first [] = ok []
join_items first (r ∷ rs) = do
  b ← r
  rest ← join_items false rs
  ok ((if first then [] else b',' ∷ []) ++ (b ++ rest))

-- The members of an object, in the order of the sorted keys.
pub join_fields : Bool → List (Keyed (Result Bytes)) → Result Bytes
unfolding canonical_string
join_fields first [] = ok []
join_fields first ((k, r) ∷ rs) = do
  key ← canonical_string k
  b ← r
  rest ← join_fields false rs
  ok ((if first then [] else b',' ∷ []) ++ (key ++ (b':' ∷ (b ++ rest))))

-- `appendCanonical`. The members are serialized before they are sorted, and their results, errors
-- included, are read in the sorted order.
unfoldable mutual
  unfolding canonical_number canonical_string join_items join_fields

  pub canonicalize : Json → Result Bytes
  canonicalize null = ok (codes "null")
  canonicalize (boolean true) = ok (codes "true")
  canonicalize (boolean false) = ok (codes "false")
  canonicalize (number s) = canonical_number s
  canonicalize (text s) = canonical_string s
  canonicalize (array xs) = do
    b ← join_items true (canonical_items xs)
    ok (b'[' ∷ (b ++ b']' ∷ []))
  canonicalize (object fs) = do
    b ← join_fields true (sort (canonical_fields fs))
    ok (b'{' ∷ (b ++ b'}' ∷ []))

  pub canonical_items : Items → List (Result Bytes)
  canonical_items nil = []
  canonical_items (cons x xs) = canonicalize x ∷ canonical_items xs

  pub canonical_fields : Fields → List (Keyed (Result Bytes))
  canonical_fields end = []
  canonical_fields (field k v fs) = (k, canonicalize v) ∷ canonical_fields fs

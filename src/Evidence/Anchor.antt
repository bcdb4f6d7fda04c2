-- ===== src/Evidence/Anchor.antt =====
-- internal/evidence/anchor.go: the written form of a chain head. `ErrMalformedAnchor` is `none`.
pub mod Decimal
pub mod Reference
pub mod RoundTrip
use probavi.Base.{
  ℕ, ◌-◌, ◌+◌, ◌*◌, ◌^◌, Bool, true, false, not, ◌&&◌, ◌||◌, Option, none, some, List, [], ◌∷◌,
  ◌++◌, ltb, leb, ◌==◌, within, if◌then◌else◌, all, length, is_empty, codes, Bytes,
}
use probavi.Evidence.Marshal.{decimal}
use probavi.Evidence.Validate.{cut_prefix}
use probavi.Evidence.Walk.{Head}

-- `Head.String`.
unfoldable pub head_string : Head → Bytes
head_string h = decimal h.seq ++ b':' ∷ h.hash

abbrev pub is_decimal : ℕ → Bool
is_decimal = within b'0' b'9'

abbrev pub is_lower_hex : ℕ → Bool
is_lower_hex c = is_decimal c || within b'a' b'f' c

-- The value of decimal digits behind the value `acc`.
unfoldable pub read : ℕ → Bytes → ℕ
read acc [] = acc
read acc (c ∷ s) = read (acc * 10 + (c - b'0')) s

abbrev pub max_int64 : ℕ
max_int64 = 2 ^ 63 - 1

-- A zero in front of another digit.
abbrev pub leading_zero : Bytes → Bool
leading_zero (c ∷ d ∷ s) = c == b'0'
leading_zero _ = false

-- `parseAnchorSeq`.
unfoldable pub parse_anchor_seq : Bytes → Option ℕ
unfolding read
parse_anchor_seq s =
    if is_empty s || leading_zero s
    then none
    else if not (all is_decimal s)
    then none
    else if leb (read 0 s) max_int64
    then some (read 0 s)
    else none

-- `checkAnchorHash`: whether the error is nil.
unfoldable pub check_anchor_hash : Bytes → Bool
unfolding cut_prefix
check_anchor_hash hash = elim (cut_prefix (codes "sha256:") hash) [
  | none ↦ false
  | some hex ↦ (length hex == 64) && all is_lower_hex hex
]

abbrev in_front {ℓ} : {A : Type ℓ} → ℕ → Option (Bytes × A) → Option (Bytes × A)
in_front c none = none
in_front c (some (before, after)) = some (c ∷ before, after)

-- `strings.Cut(s, ":")`.
unfoldable pub cut : Bytes → Option (Bytes × Bytes)
cut [] = none
cut (c ∷ s) = if c == b':' then some ([], s) else in_front c (cut s)

unfoldable pub parse_hash : Bytes → Option ℕ → Option Head
unfolding check_anchor_hash
parse_hash hash none = none
parse_hash hash (some seq) =
    if check_anchor_hash hash then some (record { seq = seq; hash = hash }) else none

unfoldable pub parse_parts : Option (Bytes × Bytes) → Option Head
unfolding parse_anchor_seq parse_hash
parse_parts none = none
parse_parts (some (seq_text, hash)) = parse_hash hash (parse_anchor_seq seq_text)

-- `ParseAnchor`.
unfoldable pub parse_anchor : Bytes → Option Head
unfolding cut parse_parts
parse_anchor s = parse_parts (cut s)

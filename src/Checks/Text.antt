-- ===== src/Checks/Text.antt =====
-- What internal/checks uses of the packages strings and strconv.
use probavi.Base.{
  ℕ, zero, suc, ◌-◌, ◌^◌, Bool, not, ◌||◌, Option, none, some, List, [], ◌∷◌, ◌++◌, ltb, leb, ◌==◌,
  if◌then◌else◌, all, is_empty, length, Bytes,
}
use probavi.Base.Int.{ℤ, pos, sub_ℕ}
use probavi.Redact.{has_prefix}
use probavi.Evidence.Anchor.{is_decimal, read}

-- The length of the first key that the text starts with, and what stands for it.
unfoldable pub first_match : List (Bytes × Bytes) → Bytes → Option (ℕ × Bytes)
unfolding has_prefix
first_match [] s = none
first_match (p ∷ pairs) s =
    let rest = first_match pairs s in if has_prefix p.0 s then some (length p.0, p.1) else rest

-- `NewReplacer(pairs...).Replace(s)` and, for one pair, `ReplaceAll`, for keys that are not empty;
-- `skip` bytes of a key that was replaced are still to be passed over.
unfoldable pub replace : List (Bytes × Bytes) → ℕ → Bytes → Bytes
unfolding first_match
replace pairs skip [] = []
replace pairs (suc skip) (c ∷ s) = replace pairs skip s
replace pairs zero (c ∷ s) = elim (first_match pairs (c ∷ s)) [
  | none ↦ c ∷ replace pairs 0 s
  | some nv ↦ nv.1 ++ replace pairs (nv.0 - 1) s
]

-- `strings.Contains`.
unfoldable pub has_part : Bytes → Bytes → Bool
unfolding has_prefix
has_part part [] = is_empty part
has_part part (c ∷ s) = has_prefix part (c ∷ s) || has_part part s

-- `strings.Join`.
unfoldable pub join : Bytes → List Bytes → Bytes
join sep [] = []
join sep (p ∷ []) = p
join sep (p ∷ q ∷ ps) = p ++ sep ++ join sep (q ∷ ps)

unfoldable pub magnitude : Bytes → Option ℕ
unfolding read
magnitude s = if is_empty s || not (all is_decimal s) then none else some (read 0 s)

abbrev pub non_negative : Option ℕ → Option ℤ
non_negative none = none
non_negative (some n) = if ltb n (2 ^ 63) then some (pos n) else none

abbrev pub negated : Option ℕ → Option ℤ
negated none = none
negated (some n) = if leb n (2 ^ 63) then some (sub_ℕ 0 n) else none

-- `strconv.ParseInt(s, 10, 64)`, `none` for an error.
unfoldable pub parse_int : Bytes → Option ℤ
unfolding magnitude
parse_int [] = none
parse_int (c ∷ s) =
    if c == b'-'
    then negated (magnitude s)
    else if c == b'+'
    then non_negative (magnitude s)
    else non_negative (magnitude (c ∷ s))

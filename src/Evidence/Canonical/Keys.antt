-- ===== src/Evidence/Canonical/Keys.antt =====
-- internal/evidence/canonical.go: `lessUTF16`, and the sorting of property names by it.
pub mod Order
pub mod Decoded
pub mod Runes
pub mod Distinct
use probavi.Base.{
  ℕ, zero, suc, ◌+◌, ◌-◌, ◌*◌, ◌/◌, ◌%◌, Bool, true, false, none, some, List, [], ◌∷◌, ◌++◌, ltb,
  ◌==◌, if◌then◌else◌, Bytes,
}
use probavi.Utf8.{lead, rune_rest}

-- The bits that a leading byte gives to its rune, in front of n continuation bytes.
abbrev lead_bits : ℕ → ℕ → ℕ
lead_bits c zero = c
lead_bits c (suc zero) = c - 0xC0
lead_bits c (suc (suc zero)) = c - 0xE0
lead_bits c (suc (suc (suc n))) = c - 0xF0

-- The rune with n continuation bytes still to come.
unfoldable pub rune_value : ℕ → ℕ → Bytes → ℕ
rune_value acc zero s = acc
rune_value acc (suc n) [] = acc
rune_value acc (suc n) (c ∷ s) = rune_value (acc * 64 + (c - 0x80)) n s

-- `[]rune(s)`: a byte that belongs to no rune gives U+FFFD.
unfoldable pub runes : ℕ → Bytes → List ℕ
unfolding rune_value lead rune_rest
runes skip [] = []
runes (suc skip) (c ∷ s) = runes skip s
runes zero (c ∷ s) =
    let broken = 0xFFFD ∷ runes 0 s in
    let whole = λ (n : ℕ). rune_value (lead_bits c n) n s ∷ runes n s in
    elim (rune_rest (lead c) s) [ none ↦ broken | some n ↦ whole n ]

-- `utf16.Encode`, of one rune.
abbrev units : ℕ → List ℕ
units r =
    if ltb r 0x10000
    then r ∷ []
    else (0xD800 + (r - 0x10000) / 0x400) ∷ (0xDC00 + (r - 0x10000) % 0x400) ∷ []

pub encode : List ℕ → List ℕ
encode [] = []
encode (r ∷ rs) = units r ++ encode rs

pub less_units : List ℕ → List ℕ → Bool
less_units [] [] = false
less_units [] (y ∷ b) = true
less_units (x ∷ a) [] = false
less_units (x ∷ a) (y ∷ b) = let rest = less_units a b in if x == y then rest else ltb x y

unfoldable pub less_utf16 : Bytes → Bytes → Bool
unfolding runes encode less_units
less_utf16 a b = less_units (encode (runes 0 a)) (encode (runes 0 b))

abbrev pub Keyed {ℓ} : Type ℓ → Type ℓ
Keyed A = Bytes × A

-- `sort.Slice` by the key; the keys of a map are distinct.
module _ {ℓ} {A : Type ℓ} where
  unfoldable pub insert : Keyed A → List (Keyed A) → List (Keyed A)
  insert x [] = x ∷ []
  insert x (y ∷ ys) = if less_utf16 y.0 x.0 then y ∷ insert x ys else x ∷ y ∷ ys

  unfoldable pub sort : List (Keyed A) → List (Keyed A)
  unfolding insert less_utf16
  sort [] = []
  sort (x ∷ xs) = insert x (sort xs)

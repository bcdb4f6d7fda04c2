-- ===== src/Evidence/Anchor/Reference.antt =====
-- internal/evidence/anchor.go: what `checkAnchorHash` lets pass.
use probavi.Base.{
  ℕ, ◌≤◌, ◌≡◌, refl, sym, ap, ◌∙◌, ◌⊎◌, inl, inr, Bool, true, false, ◌&&◌, Option, none, some, [],
  ◌∷◌, ◌++◌, ◌==◌, ==_iff, all, All, arith, Bool-cases, and_left, and_right, and_intro, codes,
  length, Bytes,
}
use probavi.Evidence.Validate.{cut_prefix}
use probavi.Evidence.Anchor.{is_lower_hex, check_anchor_hash}

-- A digit, or a letter from a to f.
abbrev pub IsLowerHex : ℕ → Type 0
IsLowerHex c = ((0x30 ≤ c) × (c ≤ 0x39)) ⊎ ((0x61 ≤ c) × (c ≤ 0x66))

-- "sha256:" with 64 hexadecimal digits behind it.
pub record IsReference (hash : Bytes) : Type 0 where
  pub hex : Bytes
  pub written : hash ≡ codes "sha256:" ++ hex
  pub sized : length hex ≡ 64
  pub digits : All IsLowerHex hex

cut_prefix-some : (p s r : Bytes) → cut_prefix p s ≡ some r → s ≡ p ++ r
unfolding cut_prefix
cut_prefix-some [] s r h = cc
cut_prefix-some (a ∷ p) [] r h = cc
cut_prefix-some (a ∷ p) (c ∷ s) r h = elim (Bool-cases (a == c)) [
  | inl e ↦
      ap (λ x. x ∷ s) (sym ((==_iff a c).0 e))
      ∙ ap (λ x. a ∷ x) (cut_prefix-some p s r (rw (cut_prefix, e) at h))
  | inr e ↦ absurd (cc (rw (cut_prefix, e) at h))
]

cut_prefix-append : (p r : Bytes) → cut_prefix p (p ++ r) ≡ some r
unfolding cut_prefix
cut_prefix-append [] r = refl
cut_prefix-append (a ∷ p) r = rw (cut_prefix, (==_iff a a).1 refl) (cut_prefix-append p r)

all-IsLowerHex : (s : Bytes) → all is_lower_hex s ≡ true → All IsLowerHex s
all-IsLowerHex [] h = tt
all-IsLowerHex (c ∷ s) h =
    (one c (and_left _ _ h), all-IsLowerHex s (and_right (is_lower_hex c) _ h))
  where
    one : (c : ℕ) → is_lower_hex c ≡ true → IsLowerHex c
    one c k = ground arith

IsLowerHex-all : (s : Bytes) → All IsLowerHex s → all is_lower_hex s ≡ true
IsLowerHex-all [] h = refl
IsLowerHex-all (c ∷ s) h = and_intro _ _ (one c h.0) (IsLowerHex-all s h.1)
  where
    one : (c : ℕ) → IsLowerHex c → is_lower_hex c ≡ true
    one c (inl k) = ground arith
    one c (inr k) = ground arith

-- The test behind the prefix.
abbrev hex_test : Option Bytes → Bool
hex_test o = elim o [ none ↦ false | some hex ↦ (length hex == 64) && all is_lower_hex hex ]

check_anchor_hash-cut :
    (hash : Bytes) → check_anchor_hash hash ≡ hex_test (cut_prefix (codes "sha256:") hash)
unfolding check_anchor_hash
check_anchor_hash-cut hash = refl

pub check_anchor_hash-IsReference :
    (hash : Bytes) → check_anchor_hash hash ≡ true → IsReference hash
check_anchor_hash-IsReference hash h =
    by (cut_prefix (codes "sha256:") hash) refl (sym (check_anchor_hash-cut hash) ∙ h)
  where
    by :
        (o : Option Bytes)
        → cut_prefix (codes "sha256:") hash ≡ o
        → hex_test o ≡ true
        → IsReference hash
    by none e k = cc
    by (some hex) e k = record {
      hex = hex;
      written = cut_prefix-some (codes "sha256:") hash hex e;
      sized = (==_iff (length hex) 64).0 (and_left _ _ k);
      digits = all-IsLowerHex hex (and_right (length hex == 64) _ k);
    }

pub IsReference-check_anchor_hash :
    (hash : Bytes) → IsReference hash → check_anchor_hash hash ≡ true
IsReference-check_anchor_hash hash r =
    check_anchor_hash-cut hash
    ∙ ap (λ s. hex_test (cut_prefix (codes "sha256:") s)) r.written
    ∙ ap hex_test (cut_prefix-append (codes "sha256:") r.hex)
    ∙ and_intro _ _ ((==_iff (length r.hex) 64).1 r.sized) (IsLowerHex-all r.hex r.digits)

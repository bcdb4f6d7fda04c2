-- ===== src/Evidence/Canonical/Keys/Runes.antt =====
-- internal/evidence/canonical.go: `[]rune(s)` of a valid string, which its runes spell again.
use probavi.Base.{
  ℕ, zero, suc, ◌≤◌, ◌<◌, ◌≡◌, refl, sym, ap, ◌∙◌, true, List, [], ◌∷◌, ◌++◌, arith, length,
  length-append, and_intro, all, Bytes,
}
use probavi.Utf8.{valid_string}
use probavi.Evidence.Canonical.Keys.{runes}
use probavi.Evidence.Canonical.Keys.Decoded.{utf8, is_scalar, Decoded, decoded}

-- The text that runes spell.
abbrev pub spell : List ℕ → Bytes
spell [] = []
spell (r ∷ rs) = utf8 r ++ spell rs

pub record Spelled (s : Bytes) : Type 0 where
  pub spelled : spell (runes 0 s) ≡ s
  pub scalars : all is_scalar (runes 0 s) ≡ true

rest-is_shorter : (s : Bytes) (d : Decoded s) → length d.rest < length s
rest-is_shorter s d =
    omega (arith, ap length d.spelled, length-append (utf8 d.rune) d.rest, one_byte d.rune)
  where
    one_byte : (r : ℕ) → 1 ≤ length (utf8 r)
    one_byte r = ground arith

Spelled-within : (n : ℕ) (s : Bytes) → length s ≤ n → valid_string s ≡ true → Spelled s
unfolding runes
Spelled-within n [] l v = record { spelled = refl; scalars = refl }
Spelled-within zero (c ∷ s) l v = absurd (omega arith)
Spelled-within (suc n) (c ∷ s) l v =
    let d = decoded c s v in
    let p = Spelled-within n d.rest (omega (arith, rest-is_shorter (c ∷ s) d)) d.valid in
    record {
      spelled = ap spell d.read ∙ ap (λ t. utf8 d.rune ++ t) p.spelled ∙ sym d.spelled;
      scalars = ap (all is_scalar) d.read ∙ and_intro _ _ d.scalar p.scalars;
    }

-- A valid string is spelled by its runes, which are code points.
pub runes-Spelled : (s : Bytes) → valid_string s ≡ true → Spelled s
runes-Spelled s v = Spelled-within (length s) s (omega arith) v

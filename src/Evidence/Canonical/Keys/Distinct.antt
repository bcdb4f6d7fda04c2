-- ===== src/Evidence/Canonical/Keys/Distinct.antt =====
-- internal/evidence/canonical.go: `lessUTF16` tells different strings apart.
use probavi.Base.{
  cons_injective, ℕ, ◌+◌, ◌-◌, ◌/◌, ◌≡◌, ◌≢◌, refl, sym, ap, ◌∙◌, inl, inr, true, false, List, [],
  ◌∷◌, ◌++◌, arith, ltb, all, Bool-cases, and_left, and_right, Bytes,
}
use probavi.Utf8.{valid_string}
use probavi.Evidence.Canonical.Keys.{units, encode, less_utf16, runes}
use probavi.Evidence.Canonical.Keys.Order.{Apart, less_units-total}
use probavi.Evidence.Canonical.Keys.Decoded.{is_scalar}
use probavi.Evidence.Canonical.Keys.Runes.{spell, runes-Spelled}

-- The first unit of a pair is no scalar value.
surrogate_apart :
    (r q : ℕ)
    → is_scalar r ≡ true
    → is_scalar q ≡ true
    → ltb q 0x10000 ≡ false
    → r ≢ 0xD800 + (q - 0x10000) / 0x400
surrogate_apart r q h k j e = ground arith

units_injective :
    (r q : ℕ) (a b : List ℕ)
    → is_scalar r ≡ true
    → is_scalar q ≡ true
    → units r ++ a ≡ units q ++ b
    → (r ≡ q) × (a ≡ b)
units_injective r q a b h k e = elim (Bool-cases (ltb r 0x10000)) [
  | inl i ↦ elim (Bool-cases (ltb q 0x10000)) [
    | inl j ↦ cons_injective r q a b (rw (i, j) at e)
    | inr j ↦ absurd (surrogate_apart r q h k j (cons_injective _ _ _ _ (rw (i, j) at e)).0)
  ]
  | inr i ↦ elim (Bool-cases (ltb q 0x10000)) [
    | inl j ↦ absurd (surrogate_apart q r k h i (sym (cons_injective _ _ _ _ (rw (i, j) at e)).0))
    | inr j ↦
        (let (high, more) = cons_injective _ _ _ _ (rw (i, j) at e) in
          let (low, same) = cons_injective _ _ _ _ more in (ground (arith, high, low), same))
  ]
]

encode_injective :
    (a b : List ℕ) → all is_scalar a ≡ true → all is_scalar b ≡ true → encode a ≡ encode b → a ≡ b
unfolding encode
encode_injective [] [] h k e = refl
encode_injective [] (q ∷ b) h k e = ground arith
encode_injective (r ∷ a) [] h k e = ground arith
encode_injective (r ∷ a) (q ∷ b) h k e =
    let (same, more) =
      units_injective r q (encode a) (encode b) (and_left (is_scalar r) _ h)
        (and_left (is_scalar q) _ k) e in
    cc (same, encode_injective a b (and_right (is_scalar r) _ h) (and_right (is_scalar q) _ k) more)

-- Different strings of valid UTF-8 are told apart.
pub less_utf16-Apart :
    (k l : Bytes) → valid_string k ≡ true → valid_string l ≡ true → k ≢ l → Apart k l
unfolding less_utf16
less_utf16-Apart k l v w n = elim (less_units-total (encode (runes 0 k)) (encode (runes 0 l))) [
  | inl e ↦
      let p = runes-Spelled k v in
      let q = runes-Spelled l w in
      absurd (
        n (
          sym p.spelled
          ∙ ap spell (encode_injective (runes 0 k) (runes 0 l) p.scalars q.scalars e)
          ∙ q.spelled))
  | inr e ↦ e
]

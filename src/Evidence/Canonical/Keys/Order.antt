-- ===== src/Evidence/Canonical/Keys/Order.antt =====
-- internal/evidence/canonical.go: `lessUTF16` is a strict order on the keys, and the sorting by it does
-- not see in which order the keys come.
use probavi.Base.{
  ℕ, ◌≡◌, refl, ap, ◌⊎◌, inl, inr, true, false, not, List, [], ◌∷◌, ◌==◌, arith, Bool-cases, ==_iff,
  Bytes,
}
use probavi.Evidence.Canonical.Keys.{less_units, less_utf16, Keyed, insert, runes, encode}

pub less_units-total : (a b : List ℕ) → (a ≡ b) ⊎ (less_units a b ≡ not (less_units b a))
unfolding less_units
less_units-total [] [] = inl refl
less_units-total [] (y ∷ b) = inr refl
less_units-total (x ∷ a) [] = inr refl
less_units-total (x ∷ a) (y ∷ b) = elim (less_units-total a b) [
  | inl e ↦ elim (Bool-cases (x == y)) [
    | inl h ↦ inl (cc (e, (==_iff x y).0 h))
    | inr h ↦ inr (ground arith)
  ]
  | inr e ↦ inr (ground arith)
]

less_units-between :
    (x y z : List ℕ) → less_units z y ≡ true → less_units z x ≡ false → less_units x y ≡ true
unfolding less_units
less_units-between [] [] z h k = cc
less_units-between [] (b ∷ y) z h k = refl
less_units-between (a ∷ x) y [] h k = cc
less_units-between (a ∷ x) [] (c ∷ z) h k = cc
less_units-between (a ∷ x) (b ∷ y) (c ∷ z) h k = ground (arith, less_units-between x y z)

-- `lessUTF16` puts one of the two in front of the other.
abbrev pub Apart : Bytes → Bytes → Type 0
Apart k l = less_utf16 k l ≡ not (less_utf16 l k)

less_units_irreflexive : (a : List ℕ) → less_units a a ≡ false
unfolding less_units
less_units_irreflexive [] = refl
less_units_irreflexive (x ∷ a) = ground (arith, less_units_irreflexive a)

pub less_utf16_irreflexive : (k : Bytes) → less_utf16 k k ≡ false
unfolding less_utf16
less_utf16_irreflexive k = less_units_irreflexive (encode (runes 0 k))

pub less_utf16-between :
    (k l m : Bytes) → less_utf16 m l ≡ true → less_utf16 m k ≡ false → less_utf16 k l ≡ true
unfolding less_utf16
less_utf16-between k l m h e =
    less_units-between (encode (runes 0 k)) (encode (runes 0 l)) (encode (runes 0 m)) h e

pub insert-insert {ℓ} :
    {A : Type ℓ} (x y : Keyed A) (zs : List (Keyed A))
    → Apart x.0 y.0
    → insert x (insert y zs) ≡ insert y (insert x zs)
unfolding insert
insert-insert x y [] a = elim (Bool-cases (less_utf16 y.0 x.0)) [
  | inl h ↦ simp (h, a)
  | inr h ↦ simp (h, a)
]
insert-insert x y (z ∷ zs) a = elim (Bool-cases (less_utf16 z.0 x.0)) [
  | inl h ↦ elim (Bool-cases (less_utf16 z.0 y.0)) [
    | inl k ↦ simp (h, k) (ap (λ r. z ∷ r) (insert-insert x y zs a))
    | inr k ↦ simp (h, k, less_utf16-between y.0 x.0 z.0 h k)
  ]
  | inr h ↦ elim (Bool-cases (less_utf16 z.0 y.0)) [
    | inl k ↦ simp (h, k, less_utf16-between x.0 y.0 z.0 k h)
    | inr k ↦ elim (Bool-cases (less_utf16 y.0 x.0)) [
      | inl p ↦ simp (h, k, p, a)
      | inr p ↦ simp (h, k, p, a)
    ]
  ]
]

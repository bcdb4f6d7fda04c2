-- ===== src/Evidence/Marshal/Members.antt =====
-- internal/evidence/record.go: the members of the JSON of a struct, whatever their order.
use probavi.Base.{
  ◌≡◌, refl, ap, ◌∙◌, Option, none, some, List, [], ◌∷◌, inl, inr, Bool-cases, beq, beq_iff,
  if◌then◌else◌, Bytes, subst,
}
use probavi.Evidence.Json.{Json}
use probavi.Evidence.Canonical.Keys.{Keyed, insert, sort, less_utf16}
use probavi.Evidence.Canonical.Keys.Order.{less_utf16_irreflexive}
use probavi.Evidence.Canonical.Same.{Same}
use probavi.Evidence.Canonical.Same.Find.{find, Alike, find-Alike, fields_in-Same}
use probavi.Evidence.Marshal.{fields_of, object_of}

abbrev pub get : Bytes → List (Keyed Json) → Option Json
get k [] = none
get k ((l, v) ∷ ms) = if beq k l then some v else get k ms

find-insert :
    (k l : Bytes) (v : Json) (ys : List (Keyed Json))
    → find k (fields_of (insert (l, v) ys)) ≡ (if beq k l then some v else find k (fields_of ys))
unfolding insert fields_of
find-insert k l v [] = refl
find-insert k l v ((m, w) ∷ ys) = elim (Bool-cases (less_utf16 m l)) [
  | inl h ↦ elim (Bool-cases (beq k m)) [
    | inl i ↦ elim (Bool-cases (beq k l)) [
      | inl j ↦ absurd (cc (h, (beq_iff k m).0 i, (beq_iff k l).0 j, less_utf16_irreflexive k))
      | inr j ↦ simp (h, i, j)
    ]
    | inr i ↦ simp (h, i) (find-insert k l v ys)
  ]
  | inr h ↦ simp h
]

find-sort : (k : Bytes) (ms : List (Keyed Json)) → find k (fields_of (sort ms)) ≡ get k ms
unfolding sort fields_of
find-sort k [] = refl
find-sort k ((l, v) ∷ ms) =
    find-insert k l v (sort ms) ∙ ap (λ o. if beq k l then some v else o) (find-sort k ms)

-- Objects that are the same have the same members.
pub get-Alike :
    (ms ns : List (Keyed Json)) (k : Bytes)
    → Same (object_of ms) (object_of ns)
    → Alike (get k ms) (get k ns)
unfolding object_of
get-Alike ms ns k s =
    subst (λ o. Alike o (get k ns)) (find-sort k ms)
      (subst (λ o. Alike (find k (fields_of (sort ms))) o) (find-sort k ns)
        (find-Alike k (fields_in-Same s)))

-- ===== src/Evidence/Canonical/Same/Find.antt =====
-- internal/evidence/canonical.go: objects that are the same have the same members under each key.
use probavi.Base.{
  ◌≡◌, refl, sym, ◌∙◌, Option, none, some, inl, inr, Bool-cases, beq, beq_iff, if◌then◌else◌, Bytes,
}
use probavi.Evidence.Json.{Json, array, object, Items, nil, cons, Fields, end, field}
use probavi.Evidence.Canonical.Same.{
  Same, alike, in_array, in_object, SameItems, no_items, item, SameFields, no_members, member,
  swapped, joined,
}
use probavi.Evidence.Canonical.Same.Sorted.{same_members}

mutual
  Same-trans : {u v w : Json} → Same u v → Same v w → Same u w
  Same-trans alike t = t
  Same-trans s alike = s
  Same-trans (in_array s) (in_array t) = in_array (SameItems-trans s t)
  Same-trans (in_object s) (in_object t) = in_object (joined s t)

  SameItems-trans : {xs ys zs : Items} → SameItems xs ys → SameItems ys zs → SameItems xs zs
  SameItems-trans no_items t = t
  SameItems-trans (item s ss) (item t ts) = item (Same-trans s t) (SameItems-trans ss ts)

-- The member of a key.
abbrev pub find : Bytes → Fields → Option Json
find k end = none
find k (field l v fs) = if beq k l then some v else find k fs

-- Both are missing, or both are there and the same.
abbrev pub Alike : Option Json → Option Json → Type 0
Alike none none = Unit
Alike (some v) (some w) = Same v w
Alike _ _ = ⊥

Alike-trans : (o p q : Option Json) → Alike o p → Alike p q → Alike o q
Alike-trans none none none a b = tt
Alike-trans (some u) (some v) (some w) a b = Same-trans a b
Alike-trans none none (some w) a b = absurd b
Alike-trans none (some v) q a b = absurd a
Alike-trans (some u) none q a b = absurd a
Alike-trans (some u) (some v) none a b = absurd b

Alike-refl : (o : Option Json) → Alike o o
Alike-refl none = tt
Alike-refl (some v) = alike

pub find-Alike : {fs gs : Fields} (k : Bytes) → SameFields fs gs → Alike (find k fs) (find k gs)
find-Alike k no_members = tt
find-Alike k (member {k = l} s ss) = elim (Bool-cases (beq k l)) [
  | inl h ↦ rw h s
  | inr h ↦ rw h (find-Alike k ss)
]
find-Alike k (swapped {k = l} {l = m} {v = v} {w = w} {fs = fs} p q n) =
    elim (Bool-cases (beq k l)) [
      | inl h ↦ elim (Bool-cases (beq k m)) [
        | inl i ↦ absurd (n (sym ((beq_iff k l).0 h) ∙ (beq_iff k m).0 i))
        | inr i ↦ rw (h, i) alike
      ]
      | inr h ↦ rw h (Alike-refl _)
    ]
find-Alike k (joined s t) = Alike-trans _ _ _ (find-Alike k s) (find-Alike k t)

-- A value without what is inside of it.
abbrev pub outside : Json → Json
outside (array xs) = array nil
outside (object fs) = object end
outside v = v

pub outside-Same : {v w : Json} → Same v w → outside v ≡ outside w
outside-Same alike = refl
outside-Same (in_array s) = refl
outside-Same (in_object s) = refl

-- What is inside of it.
abbrev pub fields_in : Json → Fields
fields_in (object fs) = fs
fields_in _ = end

abbrev pub items_in : Json → Items
items_in (array xs) = xs
items_in _ = nil

pub fields_in-Same : {v w : Json} → Same v w → SameFields (fields_in v) (fields_in w)
fields_in-Same alike = same_members _
fields_in-Same (in_array s) = no_members
fields_in-Same (in_object s) = s

same_items : (xs : Items) → SameItems xs xs
same_items nil = no_items
same_items (cons v xs) = item alike (same_items xs)

pub items_in-Same : {v w : Json} → Same v w → SameItems (items_in v) (items_in w)
items_in-Same alike = same_items _
items_in-Same (in_array s) = s
items_in-Same (in_object s) = no_items

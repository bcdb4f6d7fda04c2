-- ===== src/Evidence/Canonical/Same/Sorted.antt =====
-- internal/evidence/canonical.go: an object with its members in the order in which they are written.
use probavi.Base.{◌≡◌, refl, sym, ap, ◌∙◌, true, inl, inr, Bool-cases, if◌then◌else◌, ◌∷◌, Bytes}
use probavi.Utf8.{valid_string}
use probavi.Evidence.Json.{Json, Items, Fields, end, field}
use probavi.Evidence.Canonical.{canonicalize, canonical_fields}
use probavi.Evidence.Canonical.Keys.{less_utf16, insert, sort}
use probavi.Evidence.Canonical.Keys.Order.{less_utf16_irreflexive}
use probavi.Evidence.Canonical.Same.{
  Same, alike, in_array, in_object, SameItems, no_items, item, SameFields, no_members, member,
  swapped, joined,
}

abbrev insert_field : Bytes → Json → Fields → Fields
insert_field k v end = field k v end
insert_field k v (field l w fs) =
    if less_utf16 l k then field l w (insert_field k v fs) else field k v (field l w fs)

abbrev pub sort_fields : Fields → Fields
sort_fields end = end
sort_fields (field k v fs) = insert_field k v (sort_fields fs)

-- The written members, sorted before they are written or behind it.
canonical_fields-insert_field :
    (k : Bytes) (v : Json) (fs : Fields)
    → canonical_fields (insert_field k v fs) ≡ insert (k, canonicalize v) (canonical_fields fs)
unfolding canonicalize insert
canonical_fields-insert_field k v end = refl
canonical_fields-insert_field k v (field l w fs) = elim (Bool-cases (less_utf16 l k)) [
  | inl h ↦ rw h (ap (λ r. (l, canonicalize w) ∷ r) (canonical_fields-insert_field k v fs))
  | inr h ↦ rw h refl
]

pub canonical_fields-sort_fields :
    (fs : Fields) → canonical_fields (sort_fields fs) ≡ sort (canonical_fields fs)
unfolding canonicalize sort
canonical_fields-sort_fields end = refl
canonical_fields-sort_fields (field k v fs) =
    canonical_fields-insert_field k v (sort_fields fs)
    ∙ ap (insert (k, canonicalize v)) (canonical_fields-sort_fields fs)

abbrev pub Every {ℓ} : (Bytes → Json → Type ℓ) → Fields → Type ℓ
Every P end = Unit
Every P (field k v fs) = P k v × Every P fs

module _ {ℓ} (P : Bytes → Json → Type ℓ) where
  insert_field-Every :
      (k : Bytes) (v : Json) (fs : Fields) → P k v → Every P fs → Every P (insert_field k v fs)
  insert_field-Every k v end p ps = (p, tt)
  insert_field-Every k v (field l w fs) p (q, qs) = elim (Bool-cases (less_utf16 l k)) [
    | inl h ↦ rw h (q, insert_field-Every k v fs p qs)
    | inr h ↦ rw h (p, (q, qs))
  ]

  pub sort_fields-Every : (fs : Fields) → Every P fs → Every P (sort_fields fs)
  sort_fields-Every end ps = tt
  sort_fields-Every (field k v fs) (p, ps) =
      insert_field-Every k v (sort_fields fs) p (sort_fields-Every fs ps)

  Every-insert_field :
      (k : Bytes) (v : Json) (fs : Fields) → Every P (insert_field k v fs) → P k v × Every P fs
  Every-insert_field k v end (p, ps) = (p, tt)
  Every-insert_field k v (field l w fs) ps = elim (Bool-cases (less_utf16 l k)) [
    | inl h ↦
        let both : P l w × Every P (insert_field k v fs) = rw h at ps in
        let (p, qs) = Every-insert_field k v fs both.1 in (p, (both.0, qs))
    | inr h ↦ rw h at ps
  ]

  pub Every-sort_fields : (fs : Fields) → Every P (sort_fields fs) → Every P fs
  Every-sort_fields end ps = tt
  Every-sort_fields (field k v fs) ps =
      let (p, qs) = Every-insert_field k v (sort_fields fs) ps in (p, Every-sort_fields fs qs)

-- Both keys of a swap are valid.
abbrev pub Valid : Bytes → Json → Type 0
Valid k v = valid_string k ≡ true

pub same_members : (fs : Fields) → SameFields fs fs
same_members end = no_members
same_members (field k v fs) = member alike (same_members fs)

SameFields-insert_field :
    (k : Bytes) (v : Json) (fs : Fields)
    → Valid k v
    → Every Valid fs
    → SameFields (field k v fs) (insert_field k v fs)
SameFields-insert_field k v end p ps = same_members _
SameFields-insert_field k v (field l w fs) p (q, qs) = elim (Bool-cases (less_utf16 l k)) [
  | inl h ↦ rw h (
      joined (swapped p q (λ e. cc (h, e, less_utf16_irreflexive k)))
        (member alike (SameFields-insert_field k v fs p qs)))
  | inr h ↦ rw h (same_members _)
]

pub SameFields-sort_fields : (fs : Fields) → Every Valid fs → SameFields fs (sort_fields fs)
SameFields-sort_fields end ps = no_members
SameFields-sort_fields (field k v fs) (p, ps) =
    joined (member alike (SameFields-sort_fields fs ps))
      (SameFields-insert_field k v (sort_fields fs) p (sort_fields-Every Valid fs ps))

mutual
  pub Same-sym : {v w : Json} → Same v w → Same w v
  Same-sym alike = alike
  Same-sym (in_array s) = in_array (SameItems-sym s)
  Same-sym (in_object s) = in_object (SameFields-sym s)

  SameItems-sym : {xs ys : Items} → SameItems xs ys → SameItems ys xs
  SameItems-sym no_items = no_items
  SameItems-sym (item s ss) = item (Same-sym s) (SameItems-sym ss)

  pub SameFields-sym : {fs gs : Fields} → SameFields fs gs → SameFields gs fs
  SameFields-sym no_members = no_members
  SameFields-sym (member s ss) = member (Same-sym s) (SameFields-sym ss)
  SameFields-sym (swapped p q n) = swapped q p (λ e. n (sym e))
  SameFields-sym (joined s t) = joined (SameFields-sym t) (SameFields-sym s)

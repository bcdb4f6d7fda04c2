-- ===== src/Evidence/Canonical/Same.antt =====
-- internal/evidence/canonical.go: a Go map has no order, so two values are the same if they differ in
pub mod Text
pub mod Sorted
pub mod Leaves
pub mod Find
pub mod Joined
pub mod Exact
-- the order of the members of their objects only.
use probavi.Base.{◌≡◌, ◌≢◌, refl, ap, ◌∙◌, true, ◌++◌, List, [], ◌∷◌, Bytes}
use probavi.Utf8.{valid_string}
use probavi.Evidence.Result.{Result, ok, ◌>>=◌}
use probavi.Evidence.Json.{Json, array, object, Items, nil, cons, Fields, end, field}
use probavi.Evidence.Canonical.{
  join_items, join_fields, canonicalize, canonical_items, canonical_fields,
}
use probavi.Evidence.Canonical.Keys.{Keyed, insert, sort}
use probavi.Evidence.Canonical.Keys.Order.{insert-insert}
use probavi.Evidence.Canonical.Keys.Distinct.{less_utf16-Apart}

mutual
  pub data Same : Json → Json → Type 0 where
    alike : {v : Json} → Same v v
    in_array : {xs ys : Items} → SameItems xs ys → Same (array xs) (array ys)
    in_object : {fs gs : Fields} → SameFields fs gs → Same (object fs) (object gs)

  pub data SameItems : Items → Items → Type 0 where
    no_items : SameItems nil nil
    item :
        {v w : Json} {xs ys : Items}
        → Same v w
        → SameItems xs ys
        → SameItems (cons v xs) (cons w ys)

  -- Members under different keys change places; keys are valid UTF-8, as those of decoded JSON are.
  pub data SameFields : Fields → Fields → Type 0 where
    no_members : SameFields end end
    member :
        {k : Bytes} {v w : Json} {fs gs : Fields}
        → Same v w
        → SameFields fs gs
        → SameFields (field k v fs) (field k w gs)
    swapped :
        {k l : Bytes} {v w : Json} {fs : Fields}
        → valid_string k ≡ true
        → valid_string l ≡ true
        → k ≢ l
        → SameFields (field k v (field l w fs)) (field l w (field k v fs))
    joined : {fs gs hs : Fields} → SameFields fs gs → SameFields gs hs → SameFields fs hs

mutual
  unfolding canonicalize sort

  pub canonicalize-Same : {v w : Json} → Same v w → canonicalize v ≡ canonicalize w
  canonicalize-Same alike = refl
  canonicalize-Same (in_array s) =
      ap (λ rs. join_items true rs >>= (λ b. ok (b'[' ∷ (b ++ b']' ∷ [])))) (canonical_items-Same s)
  canonicalize-Same (in_object s) =
      ap (λ rs. join_fields true rs >>= (λ b. ok (b'{' ∷ (b ++ b'}' ∷ [])))) (sort-Same s)

  canonical_items-Same : {xs ys : Items} → SameItems xs ys → canonical_items xs ≡ canonical_items ys
  canonical_items-Same no_items = refl
  canonical_items-Same (item s ss) = cc (canonicalize-Same s, canonical_items-Same ss)

  sort-Same :
      {fs gs : Fields} → SameFields fs gs → sort (canonical_fields fs) ≡ sort (canonical_fields gs)
  sort-Same no_members = refl
  sort-Same (member {k = k} s ss) = cc (canonicalize-Same s, sort-Same ss)
  sort-Same (swapped {k = k} {l = l} {v = v} {w = w} {fs = fs} a b n) =
      insert-insert (k, canonicalize v) (l, canonicalize w) (sort (canonical_fields fs))
        (less_utf16-Apart k l a b n)
  sort-Same (joined s t) = sort-Same s ∙ sort-Same t

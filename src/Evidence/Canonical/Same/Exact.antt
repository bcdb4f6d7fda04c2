-- ===== src/Evidence/Canonical/Same/Exact.antt =====
-- internal/evidence/canonical.go: a value can be told from its canonical form.
use mathlib.Core.List.{append_cancel_left}
use probavi.Base.{
  heads_apart, ◌≡◌, ◌≢◌, ◌↔◌, refl, sym, ap, ◌∙◌, Bool, true, false, [], ◌∷◌, ◌++◌, append_assoc,
  cons_injective, Bytes, subst,
}
use probavi.Evidence.Result.{ok}
use probavi.Evidence.Json.{
  Json, null, boolean, number, text, array, object, Items, nil, cons, Fields, end, field,
}
use probavi.Evidence.Canonical.{
  join_items, join_fields, canonicalize, canonical_items, canonical_fields,
}
use probavi.Evidence.Canonical.Same.{
  Same, in_array, in_object, SameItems, no_items, item, SameFields, no_members, member, joined,
  canonicalize-Same,
}
use probavi.Evidence.Canonical.Same.Sorted.{
  sort_fields, Every, sort_fields-Every, Every-sort_fields, Valid, SameFields-sort_fields,
  SameFields-sym,
}
use probavi.Evidence.Canonical.Same.Leaves.{
  kind_of_byte, quoted, quoted_injective, array-ok, object-ok, canonicalize-Starts, kind_same,
  kind-IsKind, moved, IsDetermined, null-IsDetermined, boolean-IsDetermined, number-IsDetermined,
  text-IsDetermined,
}
use probavi.Evidence.Canonical.Same.Joined.{
  comma, join_items-ok, join_fields-ok, items-ends_number, fields-ends_number, item_assoc,
  member_assoc,
}

abbrev EveryItem : Items → Type 0
EveryItem nil = Unit
EveryItem (cons v xs) = IsDetermined v × EveryItem xs

-- An element is not the bracket that ends an array.
no_bracket :
    (first : Bool) (v : Json) (b r s t : Bytes)
    → canonicalize v ≡ ok b
    → b']' ∷ s ≢ (comma first ++ (b ++ r)) ++ t
no_bracket false v b r s t h e = heads_apart b']' b',' _ _ refl e
no_bracket true v b r s t h e =
    let (c, x, p, m) = canonicalize-Starts v b h in
    kind-IsKind v (
      sym m
      ∙ ap kind_of_byte
          (cons_injective c b']' ((x ++ r) ++ t) s (sym (e ∙ ap (λ z. (z ++ r) ++ t) p))).0)

items-IsDetermined :
    (first : Bool) (xs ys : Items) (a b s t : Bytes)
    → EveryItem xs
    → join_items first (canonical_items xs) ≡ ok a
    → join_items first (canonical_items ys) ≡ ok b
    → a ++ (b']' ∷ s) ≡ b ++ (b']' ∷ t)
    → SameItems xs ys × (s ≡ t)
unfolding canonicalize join_items
items-IsDetermined first nil nil a b s t d h k e =
    (no_items, (cons_injective b']' b']' s t (moved a b [] [] _ _ (cc h) (cc k) e)).1)
items-IsDetermined first nil (cons w ys) a b s t d h k e =
    let (c, r, p, q, x) = join_items-ok first (canonicalize w) (canonical_items ys) b k in
    absurd (no_bracket first w c r s _ p (moved a b [] _ _ _ (cc h) x e))
items-IsDetermined first (cons v xs) nil a b s t d h k e =
    let (c, r, p, q, x) = join_items-ok first (canonicalize v) (canonical_items xs) a h in
    absurd (no_bracket first v c r t _ p (sym (moved a b _ [] _ _ x (cc k) e)))
items-IsDetermined first (cons v xs) (cons w ys) a b s t (d, ds) h k e =
    let (c, r, p, q, x) = join_items-ok first (canonicalize v) (canonical_items xs) a h in
    let (c', r', p', q', x') = join_items-ok first (canonicalize w) (canonical_items ys) b k in
    let (same, more) =
      d w c c' _ _ p p' (items-ends_number (canonical_items xs) r s q)
        (items-ends_number (canonical_items ys) r' t q')
        (append_cancel_left (comma first) _ _ (
          sym (item_assoc (comma first) c r _)
          ∙ moved a b _ _ _ _ x x' e
          ∙ item_assoc (comma first) c' r' _)) in
    let (rest, behind) = items-IsDetermined false xs ys r r' s t ds q q' more in
    (item same rest, behind)

-- A member is not the brace that ends an object.
no_brace : (first : Bool) (k r s t : Bytes) → b'}' ∷ s ≢ (comma first ++ (quoted k ++ r)) ++ t
no_brace false k r s t e = heads_apart b'}' b',' _ _ refl e
no_brace true k r s t e = heads_apart b'}' b'"' _ _ refl e

fields-IsDetermined :
    (first : Bool) (fs gs : Fields) (a b s t : Bytes)
    → Every (λ k. IsDetermined) fs
    → join_fields first (canonical_fields fs) ≡ ok a
    → join_fields first (canonical_fields gs) ≡ ok b
    → a ++ (b'}' ∷ s) ≡ b ++ (b'}' ∷ t)
    → SameFields fs gs × (s ≡ t)
unfolding canonicalize join_fields
fields-IsDetermined first end end a b s t d h k e =
    (no_members, (cons_injective b'}' b'}' s t (moved a b [] [] _ _ (cc h) (cc k) e)).1)
fields-IsDetermined first end (field l w gs) a b s t d h k e =
    let (c, r, v, p, q, x) = join_fields-ok first l _ _ b k in
    absurd (no_brace first l _ s _ (moved a b [] _ _ _ (cc h) x e))
fields-IsDetermined first (field l v fs) end a b s t d h k e =
    let (c, r, u, p, q, x) = join_fields-ok first l _ _ a h in
    absurd (no_brace first l _ t _ (sym (moved a b _ [] _ _ x (cc k) e)))
fields-IsDetermined first (field l v fs) (field l' w gs) a b s t (d, ds) h k e =
    let (c, r, u, p, q, x) = join_fields-ok first l _ _ a h in
    let (c', r', u', p', q', x') = join_fields-ok first l' _ _ b k in
    let (key, value) = quoted_injective l l' _ _ (
      append_cancel_left (comma first) _ _ (
        sym (member_assoc (comma first) (quoted l) c r _)
        ∙ moved a b _ _ _ _ x x' e
        ∙ member_assoc (comma first) (quoted l') c' r' _)) in
    let (same, more) =
      d w c c' _ _ p p' (fields-ends_number _ r s q) (fields-ends_number _ r' t q')
        (cons_injective b':' b':' _ _ value).1 in
    let (rest, behind) = fields-IsDetermined false fs gs r r' s t ds q q' more in
    (subst (λ z. SameFields (field l v fs) (field z w gs)) key (member same rest), behind)

array-IsDetermined : (xs : Items) → EveryItem xs → IsDetermined (array xs)
array-IsDetermined xs ds (array ys) a b s t h k m n e =
    let (x, p, i) = array-ok xs a h in
    let (y, q, j) = array-ok ys b k in
    let inner = (cons_injective b'[' b'[' _ _ (moved a b _ _ s t i j e)).1 in
    let (same, rest) =
      items-IsDetermined true xs ys x y s t ds p q
        (sym (append_assoc x (b']' ∷ []) s) ∙ inner ∙ append_assoc y (b']' ∷ []) t) in
    (in_array same, rest)
array-IsDetermined xs ds w a b s t h k m n e = cc (kind_same (array xs) w a b s t h k e)

-- The keys of an object that is written are valid.
fields-Valid :
    (first : Bool) (fs : Fields) (a : Bytes)
    → join_fields first (canonical_fields fs) ≡ ok a
    → Every Valid fs
unfolding canonicalize
fields-Valid first end a h = tt
fields-Valid first (field k v fs) a h =
    let (b, rest, u, p, q, e) = join_fields-ok first k (canonicalize v) (canonical_fields fs) a h in
    (u, fields-Valid false fs rest q)

object-IsDetermined : (fs : Fields) → Every (λ k. IsDetermined) fs → IsDetermined (object fs)
object-IsDetermined fs ds (object gs) a b s t h k m n e =
    let (x, p, i) = object-ok fs a h in
    let (y, q, j) = object-ok gs b k in
    let inner = (cons_injective b'{' b'{' _ _ (moved a b _ _ s t i j e)).1 in
    let (same, rest) =
      fields-IsDetermined true (sort_fields fs) (sort_fields gs) x y s t
        (sort_fields-Every (λ k. IsDetermined) fs ds) p q
        (sym (append_assoc x (b'}' ∷ []) s) ∙ inner ∙ append_assoc y (b'}' ∷ []) t) in
    let sorted = λ (fs : Fields) (valid : Every Valid (sort_fields fs)).
      SameFields-sort_fields fs (Every-sort_fields Valid fs valid) in
    (
      in_object (
          joined (sorted fs (fields-Valid true _ x p))
            (joined same (SameFields-sym (sorted gs (fields-Valid true _ y q))))),
      rest,
    )
object-IsDetermined fs ds w a b s t h k m n e = cc (kind_same (object fs) w a b s t h k e)

mutual
  determined : (v : Json) → IsDetermined v
  determined null = null-IsDetermined
  determined (boolean x) = boolean-IsDetermined x
  determined (number x) = number-IsDetermined x
  determined (text x) = text-IsDetermined x
  determined (array xs) = array-IsDetermined xs (IsDetermined-items xs)
  determined (object fs) = object-IsDetermined fs (IsDetermined-members fs)

  IsDetermined-items : (xs : Items) → EveryItem xs
  IsDetermined-items nil = tt
  IsDetermined-items (cons v xs) = (determined v, IsDetermined-items xs)

  IsDetermined-members : (fs : Fields) → Every (λ k. IsDetermined) fs
  IsDetermined-members end = tt
  IsDetermined-members (field k v fs) = (determined v, IsDetermined-members fs)

-- If a value has a canonical form, then another value has the same form exactly if the two are the
-- same but for the order of the members of their objects, at any depth.
pub canonicalize-Same_iff :
    (v w : Json) (a : Bytes) → canonicalize v ≡ ok a → (canonicalize w ≡ ok a) ↔ Same v w
canonicalize-Same_iff v w a h =
    (λ k. (determined v w a a [] [] h k refl refl refl).0, λ same. sym (canonicalize-Same same) ∙ h)

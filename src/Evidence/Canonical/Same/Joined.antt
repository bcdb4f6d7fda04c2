-- ===== src/Evidence/Canonical/Same/Joined.antt =====
-- internal/evidence/canonical.go: the elements of an array and the members of an object, as they are
-- joined.
use probavi.Base.{
  ◌≡◌, ap, ◌∙◌, Bool, true, false, List, [], ◌∷◌, ◌++◌, append_assoc, if◌then◌else◌, Bytes,
}
use probavi.Utf8.{valid_string}
use probavi.Evidence.Result.{Result, ok, >>=-ok}
use probavi.Evidence.Canonical.{canonical_string, join_items, join_fields}
use probavi.Evidence.Canonical.Keys.{Keyed}
use probavi.Evidence.Canonical.Same.Text.{ends_number}
use probavi.Evidence.Canonical.Same.Leaves.{quoted, canonical_string-ok}

abbrev pub comma : Bool → Bytes
comma first = if first then [] else b',' ∷ []

-- The first element or member of a list that is written, and the rest of the list.
pub join_items-ok :
    (first : Bool) (r : Result Bytes) (rs : List (Result Bytes)) (a : Bytes)
    → join_items first (r ∷ rs) ≡ ok a
    → (b rest : Bytes) × (r ≡ ok b)
      × (join_items false rs ≡ ok rest)
      × (a ≡ comma first ++ (b ++ rest))
unfolding join_items
join_items-ok first r rs a h =
    let (b, h1, p) = >>=-ok r _ h in
    let (rest, h2, q) = >>=-ok (join_items false rs) _ h1 in (b, rest, p, q, cc h2)

pub join_fields-ok :
    (first : Bool) (k : Bytes) (r : Result Bytes) (rs : List (Keyed (Result Bytes))) (a : Bytes)
    → join_fields first ((k, r) ∷ rs) ≡ ok a
    → (b rest : Bytes) × (valid_string k ≡ true)
      × (r ≡ ok b)
      × (join_fields false rs ≡ ok rest)
      × (a ≡ comma first ++ (quoted k ++ (b':' ∷ (b ++ rest))))
unfolding join_fields
join_fields-ok first k r rs a h =
    let (key, h0, n) = >>=-ok (canonical_string k) _ h in
    let (b, h1, p) = >>=-ok r _ h0 in
    let (rest, h2, q) = >>=-ok (join_fields false rs) _ h1 in
    let (v, e) = canonical_string-ok k key n in (b, rest, v, p, q, cc (h2, e))

-- Behind an element stands a comma or the bracket.
pub items-ends_number :
    (rs : List (Result Bytes)) (a s : Bytes)
    → join_items false rs ≡ ok a
    → ends_number (a ++ (b']' ∷ s)) ≡ true
unfolding join_items
items-ends_number [] a s h = ap (λ z. ends_number (z ++ (b']' ∷ s))) {x = a} {y = []} (cc h)
items-ends_number (r ∷ rs) a s h =
    let (b, rest, p, q, e) = join_items-ok false r rs a h in
    ap (λ z. ends_number (z ++ (b']' ∷ s))) e

pub fields-ends_number :
    (rs : List (Keyed (Result Bytes))) (a s : Bytes)
    → join_fields false rs ≡ ok a
    → ends_number (a ++ (b'}' ∷ s)) ≡ true
unfolding join_fields
fields-ends_number [] a s h = ap (λ z. ends_number (z ++ (b'}' ∷ s))) {x = a} {y = []} (cc h)
fields-ends_number ((k, r) ∷ rs) a s h =
    let (b, rest, v, p, q, e) = join_fields-ok false k r rs a h in
    ap (λ z. ends_number (z ++ (b'}' ∷ s))) e

pub item_assoc : (p b r s : Bytes) → (p ++ (b ++ r)) ++ s ≡ p ++ (b ++ (r ++ s))
item_assoc p b r s = append_assoc p (b ++ r) s ∙ ap (λ z. p ++ z) (append_assoc b r s)

pub member_assoc :
    (p q b r s : Bytes)
    → (p ++ (q ++ (b':' ∷ (b ++ r)))) ++ s ≡ p ++ (q ++ (b':' ∷ (b ++ (r ++ s))))
member_assoc p q b r s =
    item_assoc p q (b':' ∷ (b ++ r)) s ∙ ap (λ z. p ++ (q ++ (b':' ∷ z))) (append_assoc b r s)

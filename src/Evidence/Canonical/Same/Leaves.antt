-- ===== src/Evidence/Canonical/Same/Leaves.antt =====
-- internal/evidence/canonical.go: a null, a boolean, a number or a string can be told from its canonical
-- form, whatever follows it.
use probavi.Base.{
  heads_apart, ℕ, ◌≡◌, ◌≢◌, refl, sym, ap, ◌∙◌, Bool, true, false, [], ◌∷◌, ◌++◌, append_assoc,
  arith, ◌==◌, leb, codes, cons_injective, and_left, if◌then◌else◌, Bytes, subst,
}
use mathlib.Core.List.{append_cancel_left}
use probavi.Utf8.{valid_string}
use probavi.Evidence.Codes.{invalid_record, not_integer}
use probavi.Evidence.Result.{ok, >>-ok, >>=-ok, require, require-ok}
use probavi.Evidence.Json.{Json, null, boolean, number, text, array, object, Items, Fields}
use probavi.Evidence.Canonical.{
  is_integer, magnitude, max_safe_integer, canonical_number, escape_all, canonical_string,
  join_items, join_fields, canonicalize, canonical_items, canonical_fields,
}
use probavi.Evidence.Canonical.Keys.{sort}
use probavi.Evidence.Canonical.Same.{Same, alike}
use probavi.Evidence.Canonical.Same.Text.{
  escape_all_injective, numeric, ends_number, numbers_injective, is_integer-numeric,
}
use probavi.Evidence.Canonical.Same.Sorted.{sort_fields, canonical_fields-sort_fields}

-- What a value is, and what the first byte of a canonical form says of that.
abbrev pub kind : Json → ℕ
kind null = 0
kind (boolean b) = 1
kind (number s) = 2
kind (text s) = 3
kind (array xs) = 4
kind (object fs) = 5

abbrev pub kind_of_byte : ℕ → ℕ
kind_of_byte c =
    if c == b'n'
    then 0
    else if c == b't'
    then 1
    else if c == b'f'
    then 1
    else if numeric c
    then 2
    else if c == b'"'
    then 3
    else if c == b'['
    then 4
    else if c == b'{'
    then 5
    else 6

-- A text starts as the form of that kind does.
abbrev pub Starts : ℕ → Bytes → Type 0
Starts n s = (c : ℕ) × (r : Bytes) × (s ≡ c ∷ r) × (kind_of_byte c ≡ n)

canonical_number-ok : (s a : Bytes) → canonical_number s ≡ ok a → (is_integer s ≡ true) × (a ≡ s)
unfolding canonical_number
canonical_number-ok s a h =
    let (p, h1) = >>-ok (require (is_integer s) not_integer) _ h in
    let (q, h2) = >>-ok (require (leb (magnitude 0 s) max_safe_integer) not_integer) (ok s) h1 in
    (require-ok (is_integer s) not_integer p, cc h2)

-- A string between its quotes.
abbrev pub quoted : Bytes → Bytes
quoted s = b'"' ∷ (escape_all s ++ b'"' ∷ [])

pub canonical_string-ok :
    (s a : Bytes) → canonical_string s ≡ ok a → (valid_string s ≡ true) × (a ≡ quoted s)
unfolding canonical_string
canonical_string-ok s a h =
    let (p, h1) = >>-ok (require (valid_string s) invalid_record) (ok (quoted s)) h in
    (require-ok (valid_string s) invalid_record p, cc h1)

pub quoted_injective : (a b s t : Bytes) → quoted a ++ s ≡ quoted b ++ t → (a ≡ b) × (s ≡ t)
quoted_injective a b s t e = escape_all_injective a b s t (
    sym (append_assoc (escape_all a) (b'"' ∷ []) s)
    ∙ (cons_injective _ _ _ _ e).1
    ∙ append_assoc (escape_all b) (b'"' ∷ []) t)

integer-Starts : (s : Bytes) → is_integer s ≡ true → Starts 2 s
unfolding is_integer
integer-Starts [] h = cc
integer-Starts (c ∷ s) h =
    (c, s, refl, digit c (and_left (numeric c) _ (is_integer-numeric (c ∷ s) h)))
  where
    digit : (c : ℕ) → numeric c ≡ true → kind_of_byte c ≡ 2
    digit c h = ground arith

-- What stands between the brackets of an array, and between those of an object.
pub array-ok :
    (xs : Items) (a : Bytes)
    → canonicalize (array xs) ≡ ok a
    → (b : Bytes) × (join_items true (canonical_items xs) ≡ ok b) × (a ≡ b'[' ∷ (b ++ b']' ∷ []))
unfolding canonicalize
array-ok xs a h = let (b, e, p) = >>=-ok (join_items true (canonical_items xs)) _ h in (b, p, cc e)

pub object-ok :
    (fs : Fields) (a : Bytes)
    → canonicalize (object fs) ≡ ok a
    → (b : Bytes) × (join_fields true (canonical_fields (sort_fields fs)) ≡ ok b)
      × (a ≡ b'{' ∷ (b ++ b'}' ∷ []))
unfolding canonicalize
object-ok fs a h =
    let (b, e, p) = >>=-ok (join_fields true (sort (canonical_fields fs))) _ h in
    (b, ap (join_fields true) (canonical_fields-sort_fields fs) ∙ p, cc e)

pub canonicalize-Starts : (v : Json) (a : Bytes) → canonicalize v ≡ ok a → Starts (kind v) a
unfolding canonicalize
canonicalize-Starts null a h = (b'n', codes "ull", cc h, refl)
canonicalize-Starts (boolean true) a h = (b't', codes "rue", cc h, refl)
canonicalize-Starts (boolean false) a h = (b'f', codes "alse", cc h, refl)
canonicalize-Starts (number s) a h =
    let (p, e) = canonical_number-ok s a h in subst (Starts 2) (sym e) (integer-Starts s p)
canonicalize-Starts (text s) a h = let (p, e) = canonical_string-ok s a h in (b'"', _, e, refl)
canonicalize-Starts (array xs) a h = let (b, p, e) = array-ok xs a h in (b'[', _, e, refl)
canonicalize-Starts (object fs) a h = let (b, p, e) = object-ok fs a h in (b'{', _, e, refl)

pub kind-IsKind : (v : Json) → kind v ≢ 6
kind-IsKind null e = cc
kind-IsKind (boolean x) e = cc
kind-IsKind (number x) e = cc
kind-IsKind (text x) e = cc
kind-IsKind (array xs) e = cc
kind-IsKind (object fs) e = cc

-- Forms that start alike are forms of values of one kind.
pub kind_same :
    (v w : Json) (a b s t : Bytes)
    → canonicalize v ≡ ok a
    → canonicalize w ≡ ok b
    → a ++ s ≡ b ++ t
    → kind v ≡ kind w
kind_same v w a b s t h k e =
    let (c, r, p, m) = canonicalize-Starts v a h in
    let (d, q, x, n) = canonicalize-Starts w b k in
    let l : c ∷ (r ++ s) ≡ d ∷ (q ++ t) = ap (λ z. z ++ s) (sym p) ∙ e ∙ ap (λ z. z ++ t) x in
    sym m ∙ ap kind_of_byte (cons_injective c d _ _ l).0 ∙ n

-- The form of a value, whatever follows it, is the form of no other value.
abbrev pub IsDetermined : Json → Type 0
IsDetermined v =
    (w : Json) (a b s t : Bytes)
    → canonicalize v ≡ ok a
    → canonicalize w ≡ ok b
    → ends_number s ≡ true
    → ends_number t ≡ true
    → a ++ s ≡ b ++ t
    → Same v w × (s ≡ t)

-- The two forms, written out.
pub moved : (a b x y s t : Bytes) → a ≡ x → b ≡ y → a ++ s ≡ b ++ t → x ++ s ≡ y ++ t
moved a b x y s t p q e = ap (λ z. z ++ s) (sym p) ∙ e ∙ ap (λ z. z ++ t) q

pub null-IsDetermined : IsDetermined null
unfolding canonicalize
null-IsDetermined null a b s t h k m n e = (
  alike,
  append_cancel_left (codes "null") s t
      (moved a b (codes "null") (codes "null") s t (cc h) (cc k) e),
)
null-IsDetermined w a b s t h k m n e = cc (kind_same null w a b s t h k e)

pub boolean-IsDetermined : (x : Bool) → IsDetermined (boolean x)
unfolding canonicalize
boolean-IsDetermined true (boolean true) a b s t h k m n e = (
  alike,
  append_cancel_left (codes "true") s t
      (moved a b (codes "true") (codes "true") s t (cc h) (cc k) e),
)
boolean-IsDetermined false (boolean false) a b s t h k m n e = (
  alike,
  append_cancel_left (codes "false") s t
      (moved a b (codes "false") (codes "false") s t (cc h) (cc k) e),
)
boolean-IsDetermined true (boolean false) a b s t h k m n e =
    absurd (
      heads_apart b't' b'f' _ _ refl (moved a b (codes "true") (codes "false") s t (cc h) (cc k) e))
boolean-IsDetermined false (boolean true) a b s t h k m n e =
    absurd (
      heads_apart b'f' b't' _ _ refl (moved a b (codes "false") (codes "true") s t (cc h) (cc k) e))
boolean-IsDetermined x w a b s t h k m n e = cc (kind_same (boolean x) w a b s t h k e)

pub number-IsDetermined : (x : Bytes) → IsDetermined (number x)
unfolding canonicalize
number-IsDetermined x (number y) a b s t h k m n e =
    let (i, p) = canonical_number-ok x a h in
    let (j, q) = canonical_number-ok y b k in
    let (same, rest) =
      numbers_injective x y s t (is_integer-numeric x i) (is_integer-numeric y j) m n
        (moved a b x y s t p q e) in
    (subst (λ z. Same (number x) (number z)) same alike, rest)
number-IsDetermined x w a b s t h k m n e = cc (kind_same (number x) w a b s t h k e)

pub text-IsDetermined : (x : Bytes) → IsDetermined (text x)
unfolding canonicalize
text-IsDetermined x (text y) a b s t h k m n e =
    let (i, p) = canonical_string-ok x a h in
    let (j, q) = canonical_string-ok y b k in
    let (same, rest) = quoted_injective x y s t (moved a b _ _ s t p q e) in
    (subst (λ z. Same (text x) (text z)) same alike, rest)
text-IsDetermined x w a b s t h k m n e = cc (kind_same (text x) w a b s t h k e)

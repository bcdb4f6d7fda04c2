-- ===== src/Evidence/Canonical/Line.antt =====
-- The canonical form of a value is one line.
use probavi.Base.{
  ℕ, ◌≡◌, refl, Bool, true, false, List, [], ◌∷◌, ◌++◌, inl, inr, arith, leb, all, all-append,
  Bool-cases, has_newline, within, if◌then◌else◌, Bytes,
}
use probavi.Evidence.Codes.{Sentinel, invalid_record, not_integer}
use probavi.Evidence.Result.{Result, ok, fails, ◌>>=◌, ◌>>◌, require}
use probavi.Evidence.Json.{
  Json, null, boolean, number, text, array, object, Items, nil, cons, Fields, end, field,
}
use probavi.Utf8.{valid_string}
use probavi.Evidence.Canonical.{
  is_integer, magnitude, max_safe_integer, canonical_number, escape, escape_all, canonical_string,
  join_items, join_fields, canonicalize, canonical_items, canonical_fields,
}
use probavi.Evidence.Canonical.Keys.{Keyed, insert, sort, less_utf16}

-- No control character.
abbrev pub printable : ℕ → Bool
printable c = leb 0x20 c

-- If it is a text at all.
abbrev Clean : Result Bytes → Type 0
Clean (fails e) = Unit
Clean (ok b) = all printable b ≡ true

>>=-Clean :
    (r : Result Bytes) (k : Bytes → Result Bytes)
    → Clean r
    → ((b : Bytes) → all printable b ≡ true → Clean (k b))
    → Clean (r >>= k)
>>=-Clean (fails e) k h g = tt
>>=-Clean (ok b) k h g = g b h

digits-printable : (s : Bytes) → all (within b'0' b'9') s ≡ true → all printable s ≡ true
digits-printable [] h = refl
digits-printable (c ∷ s) h = ground (arith, digits-printable s)

is_integer-printable : (s : Bytes) → is_integer s ≡ true → all printable s ≡ true
unfolding is_integer
is_integer-printable [] h = cc
is_integer-printable (c ∷ []) h = ground arith
is_integer-printable (c ∷ d ∷ s) h = ground (arith, digits-printable s, digits-printable (d ∷ s))

require-Clean :
    (b : Bool) (e : Sentinel) (r : Result Bytes) → (b ≡ true → Clean r) → Clean (require b e >> r)
require-Clean true e r g = g refl
require-Clean false e r g = tt

canonical_number-Clean : (s : Bytes) → Clean (canonical_number s)
unfolding canonical_number
canonical_number-Clean s = require-Clean (is_integer s) not_integer _ (λ h.
    require-Clean (leb (magnitude 0 s) max_safe_integer) not_integer (ok s)
      (λ m. is_integer-printable s h))

escape-printable : (c : ℕ) → all printable (escape c) ≡ true
unfolding escape
escape-printable c = ground arith

escape_all-printable : (s : Bytes) → all printable (escape_all s) ≡ true
unfolding escape_all
escape_all-printable [] = refl
escape_all-printable (c ∷ s) =
    all-append printable (escape c) (escape_all s) (escape-printable c) (escape_all-printable s)

canonical_string-Clean : (s : Bytes) → Clean (canonical_string s)
unfolding canonical_string
canonical_string-Clean s =
    require-Clean (valid_string s) invalid_record _
      (λ h. all-append printable (escape_all s) (b'"' ∷ []) (escape_all-printable s) refl)

abbrev AllClean : List (Result Bytes) → Type 0
AllClean [] = Unit
AllClean (r ∷ rs) = Clean r × AllClean rs

abbrev EachClean : List (Keyed (Result Bytes)) → Type 0
EachClean [] = Unit
EachClean ((k, r) ∷ rs) = Clean r × EachClean rs

comma-printable :
    (first : Bool) (s : Bytes)
    → all printable s ≡ true
    → all printable ((if first then [] else b',' ∷ []) ++ s) ≡ true
comma-printable true s h = h
comma-printable false s h = h

join_items-Clean :
    (first : Bool) (rs : List (Result Bytes)) → AllClean rs → Clean (join_items first rs)
unfolding join_items
join_items-Clean first [] h = refl
join_items-Clean first (r ∷ rs) (h, hs) = >>=-Clean r _ h (λ b p.
    >>=-Clean (join_items false rs) _ (join_items-Clean false rs hs)
      (λ rest q. comma-printable first (b ++ rest) (all-append printable b rest p q)))

join_fields-Clean :
    (first : Bool) (rs : List (Keyed (Result Bytes))) → EachClean rs → Clean (join_fields first rs)
unfolding join_fields
join_fields-Clean first [] h = refl
join_fields-Clean first ((k, r) ∷ rs) (h, hs) =
    >>=-Clean (canonical_string k) _ (canonical_string-Clean k) (λ key o. >>=-Clean r _ h (λ b p.
      >>=-Clean (join_fields false rs) _ (join_fields-Clean false rs hs) (λ rest q.
        comma-printable first _
          (all-append printable key (b':' ∷ (b ++ rest)) o (all-append printable b rest p q)))))

insert-EachClean :
    (x : Keyed (Result Bytes)) (ys : List (Keyed (Result Bytes)))
    → Clean x.1
    → EachClean ys
    → EachClean (insert x ys)
unfolding insert
insert-EachClean x [] h hs = (h, tt)
insert-EachClean x (y ∷ ys) h (g, gs) = elim (Bool-cases (less_utf16 y.0 x.0)) [
  | inl e ↦ rw e (g, insert-EachClean x ys h gs)
  | inr e ↦ rw e (h, (g, gs))
]

sort-EachClean : (ys : List (Keyed (Result Bytes))) → EachClean ys → EachClean (sort ys)
unfolding sort
sort-EachClean [] h = tt
sort-EachClean (y ∷ ys) (g, gs) = insert-EachClean y (sort ys) g (sort-EachClean ys gs)

mutual
  unfolding canonicalize

  canonicalize-Clean : (v : Json) → Clean (canonicalize v)
  canonicalize-Clean null = refl
  canonicalize-Clean (boolean true) = refl
  canonicalize-Clean (boolean false) = refl
  canonicalize-Clean (number s) = canonical_number-Clean s
  canonicalize-Clean (text s) = canonical_string-Clean s
  canonicalize-Clean (array xs) =
      >>=-Clean (join_items true (canonical_items xs)) _
        (join_items-Clean true _ (canonical_items-AllClean xs))
        (λ b h. all-append printable b (b']' ∷ []) h refl)
  canonicalize-Clean (object fs) =
      >>=-Clean (join_fields true (sort (canonical_fields fs))) _
        (join_fields-Clean true _ (sort-EachClean _ (canonical_fields-EachClean fs)))
        (λ b h. all-append printable b (b'}' ∷ []) h refl)

  canonical_items-AllClean : (xs : Items) → AllClean (canonical_items xs)
  canonical_items-AllClean nil = tt
  canonical_items-AllClean (cons x xs) = (canonicalize-Clean x, canonical_items-AllClean xs)

  canonical_fields-EachClean : (fs : Fields) → EachClean (canonical_fields fs)
  canonical_fields-EachClean end = tt
  canonical_fields-EachClean (field k v fs) = (canonicalize-Clean v, canonical_fields-EachClean fs)

printable-no_newline : (s : Bytes) → all printable s ≡ true → has_newline s ≡ false
printable-no_newline [] h = refl
printable-no_newline (c ∷ s) h = ground (arith, printable-no_newline s)

-- The canonical form of a value has no control character, whatever strings are in the value: it is
-- one line.
pub canonicalize-printable : (v : Json) (s : Bytes) → canonicalize v ≡ ok s → all printable s ≡ true
canonicalize-printable v s h = rw h at (canonicalize-Clean v)

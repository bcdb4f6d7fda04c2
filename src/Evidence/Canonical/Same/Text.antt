-- ===== src/Evidence/Canonical/Same/Text.antt =====
-- internal/evidence/canonical.go: the written form of a string or a number can be read back.
use probavi.Base.{
  cons_injective, and_left, and_right, ℕ, ◌+◌, ◌-◌, ◌*◌, ◌≡◌, ◌≢◌, refl, sym, ap, ◌∙◌, Bool, true,
  not, ◌||◌, Option, none, some, [], ◌∷◌, ◌++◌, append_assoc, arith, ltb, ◌==◌, within, all,
  if◌then◌else◌, Bytes,
}
use probavi.Evidence.Canonical.{escape, escape_all, is_integer}

-- The value of a lowercase hexadecimal digit.
abbrev unhex : ℕ → ℕ
unhex h = if ltb h b'a' then h - b'0' else h - b'a' + 10

-- The byte that a letter behind a backslash stands for.
abbrev of_letter : ℕ → ℕ
of_letter c =
    if c == b'b'
    then 8
    else if c == b't'
    then 9
    else if c == b'n'
    then 10
    else if c == b'f'
    then 12
    else if c == b'r'
    then 13
    else c

-- The code behind `\u`.
abbrev read_hex : Bytes → Option (ℕ × Bytes)
read_hex (x ∷ y ∷ h ∷ l ∷ s) = some (unhex h * 16 + unhex l, s)
read_hex _ = none

-- The byte behind a backslash, and the text behind it.
abbrev read_escape : Bytes → Option (ℕ × Bytes)
read_escape [] = none
read_escape (c ∷ s) = if c == b'u' then read_hex s else some (of_letter c, s)

-- The first byte of a string in its written form, none at the closing quote.
abbrev read_byte : Bytes → Option (ℕ × Bytes)
read_byte [] = none
read_byte (c ∷ s) = if c == b'"' then none else if c == b'\\' then read_escape s else some (c, s)

read_byte-escape : (c : ℕ) (s : Bytes) → read_byte (escape c ++ s) ≡ some (c, s)
unfolding escape
read_byte-escape c s = ground arith

some_injective :
    (c d : ℕ) (s t : Bytes)
    → Path (Option (ℕ × Bytes)) (some (c, s)) (some (d, t))
    → (c ≡ d) × (s ≡ t)
some_injective c d s t e = (cc, cc)

-- Two strings in their written form, with anything behind the closing quotes.
pub escape_all_injective :
    (a b s t : Bytes) → escape_all a ++ (b'"' ∷ s) ≡ escape_all b ++ (b'"' ∷ t) → (a ≡ b) × (s ≡ t)
unfolding escape_all
escape_all_injective [] [] s t e = (refl, cc)
escape_all_injective [] (d ∷ b) s t e =
    absurd
      (quote_first d (escape_all b ++ (b'"' ∷ t)) (e ∙ append_assoc (escape d) (escape_all b) _))
  where
    quote_first : (d : ℕ) (r : Bytes) → b'"' ∷ s ≢ escape d ++ r
    quote_first d r e = cc (ap read_byte e, read_byte-escape d r)
escape_all_injective (c ∷ a) [] s t e =
    absurd (
      quote_first c (escape_all a ++ (b'"' ∷ s)) (sym e ∙ append_assoc (escape c) (escape_all a) _))
  where
    quote_first : (d : ℕ) (r : Bytes) → b'"' ∷ t ≢ escape d ++ r
    quote_first d r e = cc (ap read_byte e, read_byte-escape d r)
escape_all_injective (c ∷ a) (d ∷ b) s t e =
    let x =
      sym (append_assoc (escape c) (escape_all a) (b'"' ∷ s))
      ∙ e
      ∙ append_assoc (escape d) (escape_all b) (b'"' ∷ t) in
    let (same, more) =
      some_injective c d _ _ (sym (read_byte-escape c _) ∙ ap read_byte x ∙ read_byte-escape d _) in
    let (rest, behind) = escape_all_injective a b s t more in (cc (same, rest), behind)

abbrev pub numeric : ℕ → Bool
numeric c = within b'0' b'9' c || c == b'-'

-- What stands behind a number is no part of one.
abbrev pub ends_number : Bytes → Bool
ends_number [] = true
ends_number (c ∷ s) = not (numeric c)

pub numbers_injective :
    (a b s t : Bytes)
    → all numeric a ≡ true
    → all numeric b ≡ true
    → ends_number s ≡ true
    → ends_number t ≡ true
    → a ++ s ≡ b ++ t
    → (a ≡ b) × (s ≡ t)
numbers_injective [] [] s t h k m n e = (refl, e)
numbers_injective [] (d ∷ b) s t h k m n e = absurd (cc (rw e at m, and_left (numeric d) _ k))
numbers_injective (c ∷ a) [] s t h k m n e = absurd (cc (rw (sym e) at n, and_left (numeric c) _ h))
numbers_injective (c ∷ a) (d ∷ b) s t h k m n e =
    let (same, more) = cons_injective c d (a ++ s) (b ++ t) e in
    let (rest, behind) =
      numbers_injective a b s t (and_right (numeric c) _ h) (and_right (numeric d) _ k) m n more in
    (cc (same, rest), behind)

digits-numeric : (s : Bytes) → all (within b'0' b'9') s ≡ true → all numeric s ≡ true
digits-numeric [] h = refl
digits-numeric (c ∷ s) h = ground (arith, digits-numeric s)

pub is_integer-numeric : (s : Bytes) → is_integer s ≡ true → all numeric s ≡ true
unfolding is_integer
is_integer-numeric [] h = cc
is_integer-numeric (c ∷ []) h = ground arith
is_integer-numeric (c ∷ d ∷ s) h = ground (arith, digits-numeric s, digits-numeric (d ∷ s))

-- ===== src/Base/Lists.antt =====
-- Lists measured and indexed by native numbers, and byte strings: a Go string is the list of its
-- bytes.
use Prim.Native.Nat.{ℕ, zero, suc, ◌+◌, min}
use Prim.Native.Char.{code}
use Prim.Native.String.{String}
use mathlib.Core.Path.{◌≡◌, refl, sym, ◌∙◌}
use mathlib.Core.Logic.{◌↔◌, ◌≢◌, inl, inr}
use mathlib.Core.Bool.{Bool, true, false, true≢false, ◌&&◌, ◌||◌}
use mathlib.Core.Option.{Option, none, some}
use mathlib.Core.List.{List, [], ◌∷◌, ◌++◌}
use native.Mathlib.Omega.{arith}
use probavi.Base.Tests.{◌==◌, ==_iff, Bool-cases, or_intro_right}

module _ {ℓ} {A : Type ℓ} where
  abbrev pub length : List A → ℕ
  length [] = 0
  length (x ∷ xs) = suc (length xs)

  abbrev pub get_elem? : List A → ℕ → Option A
  get_elem? [] i = none
  get_elem? (x ∷ xs) zero = some x
  get_elem? (x ∷ xs) (suc i) = get_elem? xs i

  abbrev pub take : ℕ → List A → List A
  take zero xs = []
  take (suc n) [] = []
  take (suc n) (x ∷ xs) = x ∷ take n xs

  abbrev pub all : (A → Bool) → List A → Bool
  all p [] = true
  all p (x ∷ xs) = p x && all p xs

  abbrev pub any : (A → Bool) → List A → Bool
  any p [] = false
  any p (x ∷ xs) = p x || any p xs

  pub length-append : (xs ys : List A) → length (xs ++ ys) ≡ length xs + length ys
  length-append [] ys = omega arith
  length-append (x ∷ xs) ys = omega (arith, length-append xs ys)

  pub length-take : (n : ℕ) (xs : List A) → length (take n xs) ≡ min n (length xs)
  length-take zero xs = omega arith
  length-take (suc n) [] = omega arith
  length-take (suc n) (x ∷ xs) = omega (arith, length-take n xs)

module _ {ℓ} {A : Type ℓ} where
  pub all-append :
      (p : A → Bool) (xs ys : List A) → all p xs ≡ true → all p ys ≡ true → all p (xs ++ ys) ≡ true
  all-append p [] ys h k = k
  all-append p (x ∷ xs) ys h k = ground (arith, all-append p xs ys)

  pub all-take : (p : A → Bool) (n : ℕ) (xs : List A) → all p xs ≡ true → all p (take n xs) ≡ true
  all-take p zero xs h = refl
  all-take p (suc n) [] h = refl
  all-take p (suc n) (x ∷ xs) h = ground (arith, all-take p n xs)

pub cons_injective {ℓ} :
    {A : Type ℓ} (x y : A) (a b : List A) → ◌≡◌ {A = List A} (x ∷ a) (y ∷ b) → (x ≡ y) × (a ≡ b)
cons_injective x y a b e = (cc, cc)

abbrev pub Bytes : Type 0
Bytes = List ℕ

pub heads_apart : (c d : ℕ) (x y : Bytes) → (c == d) ≡ false → c ∷ x ≢ d ∷ y
heads_apart c d x y h e = cc (h, (==_iff c d).1 (cons_injective c d x y e).0)

-- The bytes of an ASCII literal.
abbrev pub codes : String → Bytes
codes String.[] = []
codes (String.◌∷◌ c s) = code c ∷ codes s

abbrev pub is_newline : ℕ → Bool
is_newline c = c == b'\n' || c == b'\r'

-- `strings.ContainsAny(s, "\r\n")`.
abbrev pub has_newline : Bytes → Bool
has_newline = any is_newline

-- Equality of Go strings.
unfoldable pub beq : Bytes → Bytes → Bool
beq [] [] = true
beq (x ∷ xs) (y ∷ ys) = x == y && beq xs ys
beq _ _ = false

pub beq_iff : (a b : Bytes) → (beq a b ≡ true) ↔ (a ≡ b)
unfolding beq
beq_iff (x ∷ a) (y ∷ b) = ground (arith, beq_iff a b)
beq_iff _ _ = ground arith

-- `slices.Contains` over strings.
unfoldable pub contains : List Bytes → Bytes → Bool
contains [] a = false
contains (x ∷ xs) a = beq x a || contains xs a

-- `s == ""`.
abbrev pub is_empty : Bytes → Bool
is_empty [] = true
is_empty (x ∷ xs) = false

pub ne_of_is_empty : (v : Bytes) → is_empty v ≡ false → v ≢ []
ne_of_is_empty [] h = cc
ne_of_is_empty (x ∷ v) h = λ e. cc

pub is_empty-of_ne : (x : Bytes) → x ≢ [] → is_empty x ≡ false
is_empty-of_ne [] n = absurd (n refl)
is_empty-of_ne (c ∷ x) n = refl

pub beq_refl : (x : Bytes) → beq x x ≡ true
beq_refl x = (beq_iff x x).1 refl

-- The element stands in the list.
pub data Mem {ℓ} {A : Type ℓ} (a : A) : List A → Type ℓ where
  here : {xs : List A} → Mem a (a ∷ xs)
  there : {x : A} {xs : List A} → Mem a xs → Mem a (x ∷ xs)

pub Mem-append {ℓ} : {A : Type ℓ} {a : A} (xs : List A) {ys : List A} → Mem a ys → Mem a (xs ++ ys)
Mem-append [] m = m
Mem-append (x ∷ xs) m = there (Mem-append xs m)

pub contains-Mem : (xs : List Bytes) (a : Bytes) → contains xs a ≡ true → Mem a xs
unfolding contains
contains-Mem [] a h = cc
contains-Mem (x ∷ xs) a h = elim (Bool-cases (beq x a)) [
  | inl t ↦ rw ((beq_iff x a).0 t) here
  | inr f ↦ there (contains-Mem xs a (ground arith))
]

pub Mem-contains : (xs : List Bytes) (a : Bytes) → Mem a xs → contains xs a ≡ true
unfolding contains
Mem-contains [] a m = elim m [ ]
Mem-contains (x ∷ xs) a here = rw (beq_refl a) refl
Mem-contains (x ∷ xs) a (there m) = or_intro_right (beq x a) (contains xs a) (Mem-contains xs a m)

pub contains-false_iff : (xs : List Bytes) (a : Bytes) → (contains xs a ≡ false) ↔ (¬ Mem a xs)
contains-false_iff xs a = (
  λ f m. true≢false (sym (Mem-contains xs a m) ∙ f),
  λ n. elim (Bool-cases (contains xs a)) [ inl t ↦ absurd (n (contains-Mem xs a t)) | inr f ↦ f ],
)

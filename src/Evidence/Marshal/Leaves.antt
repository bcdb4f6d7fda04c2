-- ===== src/Evidence/Marshal/Leaves.antt =====
-- internal/evidence/record.go: strings, numbers and booleans, null or not, can be told from their JSON.
use probavi.Base.{
  ℕ, suc, ◌≡◌, refl, sym, ap, ◌∙◌, true, Bool, Option, none, some, [], ◌∷◌, Bytes, ◌≢◌, and_left,
  cons_injective, all, heads_apart, arith,
}
use probavi.Base.Int.{ℤ, pos, negsuc}
use probavi.Evidence.Json.{Json, null, boolean, text}
use probavi.Evidence.Canonical.Same.{Same}
use probavi.Evidence.Canonical.Same.Find.{outside, outside-Same}
use probavi.Evidence.Anchor.{is_decimal, read}
use probavi.Evidence.Anchor.Decimal.{read-decimal, all-decimal}
use probavi.Evidence.Marshal.{nullable, int_json, format_int, decimal}

decimal_injective : (m n : ℕ) → decimal m ≡ decimal n → m ≡ n
decimal_injective m n e = sym (read-decimal m) ∙ ap (read 0) e ∙ read-decimal n

-- Digits do not start with a sign.
no_sign : (s t : Bytes) → all is_decimal s ≡ true → s ≢ b'-' ∷ t
no_sign [] t h e = cc
no_sign (c ∷ s) t h e = heads_apart c b'-' s t (ground (arith, and_left (is_decimal c) _ h)) e

format_int_injective : (a b : ℤ) → format_int a ≡ format_int b → a ≡ b
unfolding format_int
format_int_injective (pos m) (pos n) e = ap pos (decimal_injective m n e)
format_int_injective (pos m) (negsuc n) e =
    absurd (no_sign (decimal m) (decimal (suc n)) (all-decimal m) e)
format_int_injective (negsuc m) (pos n) e =
    absurd (no_sign (decimal n) (decimal (suc m)) (all-decimal n) (sym e))
format_int_injective (negsuc m) (negsuc n) e =
    let same = decimal_injective (suc m) (suc n) (cons_injective b'-' b'-' _ _ e).1 in
    ap negsuc (omega (arith, same))

pub text-Same : (a b : Bytes) → Same (text a) (text b) → a ≡ b
text-Same a b s = cc (outside-Same s)

pub boolean-Same : (a b : Bool) → Same (boolean a) (boolean b) → a ≡ b
boolean-Same a b s = cc (outside-Same s)

pub int_json-Same : (a b : ℤ) → Same (int_json a) (int_json b) → a ≡ b
int_json-Same a b s = format_int_injective a b (cc (outside-Same s))

-- Either may be null.
pub nullable-Same {ℓ} :
    {A : Type ℓ} (f : A → Json)
    → ((a b : A) → Same (f a) (f b) → a ≡ b)
    → ((a : A) → outside (f a) ≢ null)
    → (o p : Option A) → Same (nullable f o) (nullable f p)
    → o ≡ p
nullable-Same f g n none none s = refl
nullable-Same f g n none (some b) s = absurd (n b (sym (outside-Same s)))
nullable-Same f g n (some a) none s = absurd (n a (outside-Same s))
nullable-Same f g n (some a) (some b) s = ap some (g a b s)

pub nullable_text-Same : (o p : Option Bytes) → Same (nullable text o) (nullable text p) → o ≡ p
nullable_text-Same = nullable-Same text text-Same (λ a e. cc)

pub nullable_boolean-Same :
    (o p : Option Bool) → Same (nullable boolean o) (nullable boolean p) → o ≡ p
nullable_boolean-Same = nullable-Same boolean boolean-Same (λ a e. cc)

pub nullable_int-Same : (o p : Option ℤ) → Same (nullable int_json o) (nullable int_json p) → o ≡ p
nullable_int-Same = nullable-Same int_json int_json-Same (λ a e. cc)

-- ===== src/Evidence/Anchor/Decimal.antt =====
-- Decimal numbers, written and read.
use probavi.Base.{
  ℕ, zero, suc, ◌+◌, ◌-◌, ◌*◌, ◌/◌, ◌%◌, ◌≤◌, ◌<◌, ◌≡◌, refl, sym, ap, ◌∙◌, ◌⊎◌, inl, inr, true,
  false, ◌||◌, [], ◌∷◌, ◌++◌, arith, ltb, all, and_right, append-nil, is_empty, Bytes,
}
use probavi.Evidence.Marshal.{decimal, decimal_onto}
use probavi.Evidence.Anchor.{is_decimal, read, leading_zero}

-- The last digit, and the digits in front of it.
decimal_onto-one :
    (fuel n : ℕ) (acc : Bytes) → n < 10 → decimal_onto (suc fuel) n acc ≡ (b'0' + n) ∷ acc
unfolding decimal_onto
decimal_onto-one fuel n acc h = rw (lt h) refl
  where
    lt : {m : ℕ} → m < 10 → ltb m 10 ≡ true
    lt k = ground arith

decimal_onto-more :
    (fuel n : ℕ) (acc : Bytes)
    → 10 ≤ n
    → decimal_onto (suc fuel) n acc ≡ decimal_onto fuel (n / 10) ((b'0' + n % 10) ∷ acc)
unfolding decimal_onto
decimal_onto-more fuel n acc h = rw (ge h) refl
  where
    ge : {m : ℕ} → 10 ≤ m → ltb m 10 ≡ false
    ge k = ground arith

size-cases : (n : ℕ) → (n < 10) ⊎ (10 ≤ n)
size-cases n = ground arith

digit-decimal : (n : ℕ) → n < 10 → is_decimal (b'0' + n) ≡ true
digit-decimal n h = ground arith

-- What is written reads as the number in front of what follows.
read-decimal_onto :
    (fuel n : ℕ) (acc : Bytes) → n < fuel → read 0 (decimal_onto fuel n acc) ≡ read n acc
unfolding read
read-decimal_onto zero n acc h = absurd (omega (arith, h))
read-decimal_onto (suc fuel) n acc h = elim (size-cases n) [
  | inl k ↦ rw (decimal_onto-one fuel n acc k) (ap (λ (m : ℕ). read m acc) (omega arith))
  | inr k ↦
      ap (read 0) (decimal_onto-more fuel n acc k)
      ∙ read-decimal_onto fuel (n / 10) ((b'0' + n % 10) ∷ acc) (omega (arith, h, k))
      ∙ ap (λ (m : ℕ). read m acc) (omega arith)
]

pub read-decimal : (n : ℕ) → read 0 (decimal n) ≡ n
unfolding decimal read
read-decimal n = read-decimal_onto (suc n) n [] (omega arith)

all-decimal_onto :
    (fuel n : ℕ) (acc : Bytes)
    → n < fuel
    → all is_decimal acc ≡ true
    → all is_decimal (decimal_onto fuel n acc) ≡ true
all-decimal_onto zero n acc h a = absurd (omega (arith, h))
all-decimal_onto (suc fuel) n acc h a = elim (size-cases n) [
  | inl k ↦ rw (decimal_onto-one fuel n acc k) (rw (digit-decimal n k) a)
  | inr k ↦ rw (decimal_onto-more fuel n acc k) (
      all-decimal_onto fuel (n / 10) ((b'0' + n % 10) ∷ acc) (omega (arith, h, k))
        (rw (digit-decimal (n % 10) (omega arith)) a))
]

pub all-decimal : (n : ℕ) → all is_decimal (decimal n) ≡ true
unfolding decimal
all-decimal n = all-decimal_onto (suc n) n [] (omega arith) refl

-- The first digit is not a zero, but for the number zero itself.
decimal_onto-nonzero :
    (fuel n : ℕ) (acc : Bytes)
    → n < fuel
    → 1 ≤ n
    → (is_empty (decimal_onto fuel n acc) || leading_zero (decimal_onto fuel n acc)) ≡ false
decimal_onto-nonzero zero n acc h p = absurd (omega (arith, h))
decimal_onto-nonzero (suc fuel) n acc h p = elim (size-cases n) [
  | inl k ↦ rw (decimal_onto-one fuel n acc k) (first n acc p)
  | inr k ↦ rw (decimal_onto-more fuel n acc k) (
      decimal_onto-nonzero fuel (n / 10) ((b'0' + n % 10) ∷ acc) (omega (arith, h, k))
        (omega (arith, k)))
]
  where
    first : (n : ℕ) (acc : Bytes) → 1 ≤ n → leading_zero ((b'0' + n) ∷ acc) ≡ false
    first n [] h = refl
    first n (c ∷ acc) h = ground arith

pub decimal-nonzero : (n : ℕ) → (is_empty (decimal n) || leading_zero (decimal n)) ≡ false
unfolding decimal decimal_onto
decimal-nonzero zero = refl
decimal-nonzero (suc n) = decimal_onto-nonzero (suc (suc n)) (suc n) [] (omega arith) (omega arith)

-- More fuel changes nothing.
decimal_onto-fuel :
    (f g n : ℕ) (acc : Bytes) → n < f → n < g → decimal_onto f n acc ≡ decimal_onto g n acc
decimal_onto-fuel zero g n acc h k = absurd (omega (arith, h))
decimal_onto-fuel (suc f) zero n acc h k = absurd (omega (arith, k))
decimal_onto-fuel (suc f) (suc g) n acc h k = elim (size-cases n) [
  | inl z ↦ decimal_onto-one f n acc z ∙ sym (decimal_onto-one g n acc z)
  | inr z ↦
      decimal_onto-more f n acc z
      ∙ decimal_onto-fuel f g (n / 10) ((b'0' + n % 10) ∷ acc) (omega (arith, h, z))
          (omega (arith, k, z))
      ∙ sym (decimal_onto-more g n acc z)
]

-- Digits that were read behind a positive number are written behind it.
decimal_onto-read :
    (f g a : ℕ) (s acc : Bytes)
    → all is_decimal s ≡ true
    → 1 ≤ a
    → read a s < f
    → a < g
    → decimal_onto f (read a s) acc ≡ decimal_onto g a (s ++ acc)
unfolding read
decimal_onto-read f g a [] acc d p h k = decimal_onto-fuel f g a acc h k
decimal_onto-read f g a (c ∷ s) acc d p h k =
    let b = a * 10 + (c - b'0') in
    let digit : (48 ≤ c) × (c ≤ 57) = head_digit c s d in
    decimal_onto-read f (suc b) b s acc (and_right (is_decimal c) (all is_decimal s) d)
      (omega (arith, p)) h (omega arith)
    ∙ decimal_onto-more b b (s ++ acc) (omega (arith, p))
    ∙ ap (λ (m : ℕ). decimal_onto b m ((b'0' + b % 10) ∷ (s ++ acc))) (omega (arith, digit))
    ∙ ap (λ (m : ℕ). decimal_onto b a (m ∷ (s ++ acc))) (omega (arith, digit))
    ∙ decimal_onto-fuel b g a (c ∷ (s ++ acc)) (omega (arith, p)) k
  where
    head_digit : (c : ℕ) (s : Bytes) → all is_decimal (c ∷ s) ≡ true → (48 ≤ c) × (c ≤ 57)
    head_digit c s h = ground arith

start : (n : ℕ) → 0 * 10 + n ≡ n
start n = omega arith

-- A numeral without a leading zero is what is written for the number that it reads as.
pub decimal-read :
    (s : Bytes)
    → (is_empty s || leading_zero s) ≡ false
    → all is_decimal s ≡ true
    → decimal (read 0 s) ≡ s
unfolding decimal read
decimal-read [] z d = cc
decimal-read (c ∷ []) z d =
    ap (λ (m : ℕ). decimal_onto (suc m) m []) (start (c - b'0'))
    ∙ decimal_onto-one (c - b'0') (c - b'0') [] (small c d)
    ∙ ap (λ (m : ℕ). m ∷ []) (same c d)
  where
    small : (c : ℕ) → all is_decimal (c ∷ []) ≡ true → c - 48 < 10
    small c h = ground arith

    same : (c : ℕ) → all is_decimal (c ∷ []) ≡ true → 48 + (c - 48) ≡ c
    same c h = ground arith
decimal-read (c ∷ e ∷ s) z d =
    let (ge, lt, same) = first_digit c e s z d in
    ap (λ (m : ℕ). decimal_onto (suc (read m (e ∷ s))) (read m (e ∷ s)) []) (start (c - b'0'))
    ∙ decimal_onto-read (suc (read (c - b'0') (e ∷ s))) (suc (c - b'0')) (c - b'0') (e ∷ s) []
        (and_right (is_decimal c) (all is_decimal (e ∷ s)) d) ge (omega arith) (omega arith)
    ∙ decimal_onto-one (c - b'0') (c - b'0') ((e ∷ s) ++ []) lt
    ∙ ap (λ (m : ℕ). m ∷ ((e ∷ s) ++ [])) same
    ∙ ap (λ t. c ∷ t) (append-nil (e ∷ s))
  where
    first_digit :
        (c e : ℕ) (s : Bytes)
        → (is_empty (c ∷ e ∷ s) || leading_zero (c ∷ e ∷ s)) ≡ false
        → all is_decimal (c ∷ e ∷ s) ≡ true
        → (1 ≤ c - 48) × (c - 48 < 10) × (48 + (c - 48) ≡ c)
    first_digit c e s z d = (ground arith, ground arith, ground arith)

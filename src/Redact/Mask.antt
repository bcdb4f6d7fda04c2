-- ===== src/Redact/Mask.antt =====
-- What `String` leaves of a text. A secret that shares no byte with the placeholder cannot come
-- about where a replacement meets the text beside it.
use probavi.Base.{
  ℕ, zero, suc, ◌-◌, ◌≡◌, ◌≢◌, refl, Bool, true, false, not, ◌||◌, some, List, [], ◌∷◌, ◌++◌, inl,
  inr, arith, ◌==◌, Bool-cases, and_left, and_right, and_intro, or_intro_left, or_intro_right,
  or_cases, or_false, sym, ◌∙◌, length, all, any, contains, beq_iff, Bytes,
}
use probavi.Redact.{placeholder, has_prefix, replace_all, mask, new, string}
use probavi.Redact.Order.{contains-new}

-- `strings.Contains(s, x)`.
unfoldable pub occurs : Bytes → Bytes → Bool
occurs x [] = has_prefix x []
occurs x (c ∷ s) = has_prefix x (c ∷ s) || occurs x s

abbrev pub in_placeholder : ℕ → Bool
in_placeholder c = any (λ p. p == c) placeholder

-- The secret is not empty and holds no byte of the placeholder.
abbrev pub IsClear : Bytes → Type 0
IsClear x = (x ≢ []) × (all (λ c. not (in_placeholder c)) x ≡ true)

replace_all_hit :
    (y : Bytes) (c : ℕ) (s : Bytes)
    → has_prefix y (c ∷ s) ≡ true
    → replace_all y 0 (c ∷ s) ≡ placeholder ++ replace_all y (length y - 1) s
unfolding replace_all
replace_all_hit y c s e = rw e

replace_all_skip :
    (y : Bytes) (skip c : ℕ) (s : Bytes) → replace_all y (suc skip) (c ∷ s) ≡ replace_all y skip s
unfolding replace_all
replace_all_skip y skip c s = refl

replace_all_miss :
    (y : Bytes) (c : ℕ) (s : Bytes)
    → has_prefix y (c ∷ s) ≡ false
    → replace_all y 0 (c ∷ s) ≡ c ∷ replace_all y 0 s
unfolding replace_all
replace_all_miss y c s e = rw e

abbrev avoids : ℕ → Bytes → Bool
avoids a = all (λ p. not (p == a))

avoids-placeholder : (a : ℕ) → not (in_placeholder a) ≡ true → avoids a placeholder ≡ true
avoids-placeholder a h = ground arith

has_prefix-placeholder :
    (a : ℕ) (x s : Bytes)
    → not (in_placeholder a) ≡ true
    → has_prefix (a ∷ x) (placeholder ++ s) ≡ false
unfolding has_prefix
has_prefix-placeholder a x s h = ground arith

occurs-append_avoids :
    (a : ℕ) (x p s : Bytes) → avoids a p ≡ true → occurs (a ∷ x) (p ++ s) ≡ occurs (a ∷ x) s
unfolding occurs has_prefix
occurs-append_avoids a x [] s h = refl
occurs-append_avoids a x (c ∷ p) s h = ground (arith, occurs-append_avoids a x p s)

-- A match in the output of a replacement, at its start, is a match in the input.
has_prefix-replace_all :
    (x y s : Bytes)
    → all (λ c. not (in_placeholder c)) x ≡ true
    → has_prefix x (replace_all y 0 s) ≡ true
    → has_prefix x s ≡ true
unfolding has_prefix
has_prefix-replace_all [] y s d h = refl
has_prefix-replace_all (a ∷ x) y [] d h = unfold replace_all in h
has_prefix-replace_all (a ∷ x) y (c ∷ s) d h = elim (Bool-cases (has_prefix y (c ∷ s))) [
  | inl e ↦ cc (
    has_prefix-placeholder a x (replace_all y (length y - 1) s) (and_left _ _ d),
    rw (replace_all_hit y c s e) at h,
  )
  | inr e ↦ and_intro _ _ (and_left _ _ (rw (replace_all_miss y c s e) at h)) (
      has_prefix-replace_all x y s (and_right _ _ d)
        (and_right (a == c) _ (rw (replace_all_miss y c s e) at h)))
]

-- A replacement of any secret brings no clear secret about.
occurs-replace_all :
    (a : ℕ) (x y : Bytes) (skip : ℕ) (s : Bytes)
    → all (λ c. not (in_placeholder c)) (a ∷ x) ≡ true
    → occurs (a ∷ x) (replace_all y skip s) ≡ true
    → occurs (a ∷ x) s ≡ true
unfolding occurs
occurs-replace_all a x y skip [] d h = unfold replace_all in h
occurs-replace_all a x y (suc skip) (c ∷ s) d h =
    or_intro_right _ _ (occurs-replace_all a x y skip s d (unfold replace_all in h))
occurs-replace_all a x y zero (c ∷ s) d h = elim (Bool-cases (has_prefix y (c ∷ s))) [
  | inl e ↦ or_intro_right _ _ (
      occurs-replace_all a x y (length y - 1) s d (
        sym (occurs-append_avoids a x placeholder _ (avoids-placeholder a (and_left _ _ d)))
        ∙ (rw (replace_all_hit y c s e) at h)))
  | inr e ↦ elim (or_cases _ _ (rw (replace_all_miss y c s e) at h)) [
    | inl p ↦
        or_intro_left _ _
          (has_prefix-replace_all (a ∷ x) y (c ∷ s) d (rw (replace_all_miss y c s e) p))
    | inr o ↦ or_intro_right _ _ (occurs-replace_all a x y 0 s d o)
  ]
]

-- A clear secret does not survive its own replacement.
not-occurs-replace_all :
    (a : ℕ) (x : Bytes) (skip : ℕ) (s : Bytes)
    → all (λ c. not (in_placeholder c)) (a ∷ x) ≡ true
    → occurs (a ∷ x) (replace_all (a ∷ x) skip s) ≡ false
unfolding occurs
not-occurs-replace_all a x skip [] d = unfold replace_all has_prefix in refl
not-occurs-replace_all a x (suc skip) (c ∷ s) d =
    rw (replace_all_skip (a ∷ x) skip c s) (not-occurs-replace_all a x skip s d)
not-occurs-replace_all a x zero (c ∷ s) d = elim (Bool-cases (has_prefix (a ∷ x) (c ∷ s))) [
  | inl e ↦ rw (replace_all_hit (a ∷ x) c s e) (
      occurs-append_avoids a x placeholder _ (avoids-placeholder a (and_left _ _ d))
      ∙ not-occurs-replace_all a x (length (a ∷ x) - 1) s d)
  | inr e ↦
      rw (replace_all_miss (a ∷ x) c s e)
        (or_false _ _ (copied-misses e) (not-occurs-replace_all a x 0 s d))
]
  where
    copied-misses :
        has_prefix (a ∷ x) (c ∷ s) ≡ false
        → has_prefix (a ∷ x) (c ∷ replace_all (a ∷ x) 0 s) ≡ false
    copied-misses e = elim (Bool-cases (has_prefix (a ∷ x) (c ∷ replace_all (a ∷ x) 0 s))) [
      | inl m ↦ absurd (
          cc (
            e,
            has_prefix-replace_all (a ∷ x) (a ∷ x) (c ∷ s) d
                (rw (replace_all_miss (a ∷ x) c s e) m),
          ))
      | inr m ↦ m
    ]

mask-keeps :
    (secrets : List Bytes) (a : ℕ) (x s : Bytes)
    → all (λ c. not (in_placeholder c)) (a ∷ x) ≡ true
    → occurs (a ∷ x) s ≡ false
    → occurs (a ∷ x) (mask secrets s) ≡ false
unfolding mask
mask-keeps [] a x s d h = h
mask-keeps (y ∷ secrets) a x s d h =
    mask-keeps secrets a x (replace_all y 0 s) d
      (elim (Bool-cases (occurs (a ∷ x) (replace_all y 0 s))) [
        | inl o ↦ absurd (cc (h, occurs-replace_all a x y 0 s d o))
        | inr o ↦ o
      ])

mask_hides :
    (secrets : List Bytes) (a : ℕ) (x s : Bytes)
    → all (λ c. not (in_placeholder c)) (a ∷ x) ≡ true
    → contains secrets (a ∷ x) ≡ true
    → occurs (a ∷ x) (mask secrets s) ≡ false
unfolding contains mask
mask_hides [] a x s d h = cc
mask_hides (y ∷ secrets) a x s d h = elim (or_cases _ _ h) [
  | inl e ↦
      rw ((beq_iff y (a ∷ x)).0 e)
        (mask-keeps secrets a x (replace_all (a ∷ x) 0 s) d (not-occurs-replace_all a x 0 s d))
  | inr m ↦ mask_hides secrets a x (replace_all y 0 s) d m
]

-- Whatever the text and the other values, a value that the redactor was built with does not occur
-- in the result, if it is not empty and shares no byte with the placeholder.
pub string_hides :
    (values : List Bytes) (x s : Bytes)
    → IsClear x
    → contains values x ≡ true
    → occurs x (string (some (new values)) s) ≡ false
unfolding string
string_hides values [] s d h = absurd (d.0 refl)
string_hides values (a ∷ x) s d h =
    mask_hides (new values).secrets a x s d.1 (contains-new values (a ∷ x) d.0 h)

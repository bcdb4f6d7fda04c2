-- ===== src/Evidence/Truncate/Laws.antt =====
-- What `TruncateLine` promises of every string and every budget.
use probavi.Base.{
  ◌↔◌, not, is_newline, has_newline, ℕ, zero, suc, ◌-◌, ◌≤◌, ◌<◌, ◌≡◌, refl, sym, Bool, true, false,
  ◌⊎◌, inl, inr, some, List, [], ◌∷◌, ◌++◌, arith, leb, leb→le, Bool-cases, length, length-append,
  length-take, get_elem?, take, all, all-append, all-take, Bytes,
}
use probavi.Utf8.{valid_string}
use probavi.Utf8.Laws.{valid_string-take, valid_string-append}
use probavi.Evidence.Truncate.{ellipsis, starts_at, walk_back, truncate_line}

walk_back-le : (s : Bytes) (cut : ℕ) → walk_back s cut ≤ cut
unfolding walk_back
walk_back-le s zero = omega arith
walk_back-le s (suc cut) = ground (arith, walk_back-le s cut)

-- The walk stops at 0, or where a rune starts.
walk_back_stops :
    (s : Bytes) (cut : ℕ) → (walk_back s cut ≡ 0) ⊎ (starts_at s (walk_back s cut) ≡ true)
unfolding walk_back
walk_back_stops s zero = inl refl
walk_back_stops s (suc cut) = elim (Bool-cases (starts_at s (suc cut))) [
  | inl e ↦ rw e (inr e)
  | inr e ↦ rw e (walk_back_stops s cut)
]

get_elem?-lt {ℓ} :
    {A : Type ℓ} (s : List A) (i : ℕ) → i < length s → (c : A) × (get_elem? s i ≡ some c)
get_elem?-lt [] i h = elim h [ ]
get_elem?-lt (x ∷ s) zero h = (x, refl)
get_elem?-lt (x ∷ s) (suc i) h = get_elem?-lt s i (omega arith)

valid_string-cut :
    (s : Bytes) (cut : ℕ)
    → cut < length s
    → valid_string s ≡ true
    → (cut ≡ 0) ⊎ (starts_at s cut ≡ true)
    → valid_string (take cut s) ≡ true
unfolding starts_at
valid_string-cut s cut l v (inl e) = rw e (unfold valid_string in refl)
valid_string-cut s cut l v (inr e) =
    let (c, g) = get_elem?-lt s cut l in valid_string-take s cut v g (rw (g, starts_at) at e)

-- The result fits the budget; it is the input where that fits, and else a head of the input and
-- the ellipsis as far as the budget has room for one; and it is one line and valid UTF-8 if the input is.
pub record Shortens (s : Bytes) (max : ℕ) (t : Bytes) : Type 0 where
  pub fits : length t ≤ max
  pub valid : valid_string s ≡ true → valid_string t ≡ true
  pub single : has_newline s ≡ false → has_newline t ≡ false
  pub kept : length s ≤ max → t ≡ s
  pub marked : max < length s → 3 < max → (cut : ℕ) × (cut ≤ max - 3) × (t ≡ take cut s ++ ellipsis)

length-walk_back-take :
    (s : Bytes) (max : ℕ) → 3 < max → length (take (walk_back s (max - 3)) s ++ ellipsis) ≤ max
length-walk_back-take s max h = omega (
  arith,
  length-append (take (walk_back s (max - 3)) s) ellipsis,
  length-take (walk_back s (max - 3)) s,
  walk_back-le s (max - 3),
)

valid_string-ellipsis : (n : ℕ) → n ≤ 3 → valid_string (take n ellipsis) ≡ true
unfolding valid_string
valid_string-ellipsis zero h = refl
valid_string-ellipsis (suc zero) h = refl
valid_string-ellipsis (suc (suc zero)) h = refl
valid_string-ellipsis (suc (suc (suc zero))) h = refl
valid_string-ellipsis (suc (suc (suc (suc n)))) h = absurd (omega arith)

length-eq-zero : (s : Bytes) → length s ≤ 0 → s ≡ []
length-eq-zero [] h = refl
length-eq-zero (x ∷ s) h = elim h [ ]

leb-false : (a b : ℕ) → leb a b ≡ false → b < a
leb-false a b h = ground arith

-- The three ways out that do not cut the input at a rune.
truncate_line_cases :
    (s : Bytes) (max : ℕ)
    → (max ≡ 0) × (truncate_line s max ≡ [])
      ⊎ (length s ≤ max) × (truncate_line s max ≡ s)
      ⊎ (max < length s) × (max ≤ 3) × (truncate_line s max ≡ take max ellipsis)
      ⊎ (max < length s)
        × (3 < max)
        × (truncate_line s max ≡ take (walk_back s (max - 3)) s ++ ellipsis)
unfolding truncate_line
truncate_line_cases s max = elim (Bool-cases (leb max 0)) [
  | inl z ↦ inl (omega (arith, leb→le max 0 z), rw z)
  | inr z ↦ elim (Bool-cases (leb (length s) max)) [
    | inl f ↦ inr (inl (leb→le _ _ f, rw (z, f)))
    | inr f ↦ elim (Bool-cases (leb max 3)) [
      | inl t ↦ inr (inr (inl (leb-false _ _ f, leb→le max 3 t, rw (z, f, t))))
      | inr t ↦ inr (inr (inr (leb-false _ _ f, leb-false max 3 t, rw (z, f, t))))
    ]
  ]
]

pub all-truncate_line :
    (p : ℕ → Bool) (s : Bytes) (max : ℕ)
    → all p ellipsis ≡ true
    → all p s ≡ true
    → all p (truncate_line s max) ≡ true
all-truncate_line p s max d h = elim (truncate_line_cases s max) [
  | inl (z, e) ↦ rw e
  | inr (inl (f, e)) ↦ rw e h
  | inr (inr (inl (l, t, e))) ↦ rw e (all-take p max ellipsis d)
  | inr (inr (inr (l, t, e))) ↦ rw e (all-append p _ ellipsis (all-take p _ s h) d)
]

abbrev single_line : ℕ → Bool
single_line c = not (is_newline c)

has_newline-all : (s : Bytes) → (has_newline s ≡ false) ↔ (all single_line s ≡ true)
has_newline-all [] = (λ h. refl, λ h. refl)
has_newline-all (c ∷ s) = ground (arith, has_newline-all s)

truncate_line_single :
    (s : Bytes) (max : ℕ) → has_newline s ≡ false → has_newline (truncate_line s max) ≡ false
truncate_line_single s max h =
    (has_newline-all (truncate_line s max)).1
      (all-truncate_line single_line s max refl ((has_newline-all s).0 h))

-- Whatever the text and the limit: the result fits the limit, is one line if the text was and valid
-- UTF-8 if the text was, is the text where that fits, and else, under a limit above 3, a head of the
-- text with an ellipsis behind it.
pub truncate_line-Shortens : (s : Bytes) (max : ℕ) → Shortens s max (truncate_line s max)
truncate_line-Shortens s max = elim (truncate_line_cases s max) [
  | inl (z, e) ↦ rw e (record {
    fits = omega arith;
    valid = λ v. unfold valid_string in refl;
    single = λ n. rw e at (truncate_line_single s max n);
    kept = λ h. sym (length-eq-zero s (omega arith));
    marked = λ h k. absurd (omega arith);
  })
  | inr (inl (f, e)) ↦ rw e (record {
    fits = f;
    valid = λ v. v;
    single = λ n. n;
    kept = λ h. refl;
    marked = λ h k. absurd (omega arith);
  })
  | inr (inr (inl (l, t, e))) ↦ rw e (record {
    fits = omega (arith, length-take max ellipsis);
    valid = λ v. valid_string-ellipsis max t;
    single = λ n. rw e at (truncate_line_single s max n);
    kept = λ h. absurd (omega arith);
    marked = λ h k. absurd (omega arith);
  })
  | inr (inr (inr (l, t, e))) ↦ rw e (record {
    fits = length-walk_back-take s max t;
    valid = λ v.
        valid_string-append _ ellipsis
          (valid_string-cut s (walk_back s (max - 3)) (omega (arith, walk_back-le s (max - 3))) v
            (walk_back_stops s (max - 3)))
          (unfold valid_string in refl);
    single = λ n. rw e at (truncate_line_single s max n);
    kept = λ h. absurd (omega arith);
    marked = λ h k. (walk_back s (max - 3), walk_back-le s (max - 3), refl);
  })
]

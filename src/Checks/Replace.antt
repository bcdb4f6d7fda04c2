-- ===== src/Checks/Replace.antt =====
-- What `ReplaceAll` of the package strings does: from the left, each place where the mark stands.
use probavi.Base.{
  ℕ, zero, suc, ◌-◌, ◌≤◌, ◌≡◌, ◌≢◌, refl, sym, ap, ◌∙◌, inl, inr, Bool, true, false, Option, none,
  some, List, [], ◌∷◌, ◌++◌, arith, ◌==◌, Bool-cases, ==_iff, length-append, ◌&&◌, and_left,
  and_right, subst, length, if◌then◌else◌, Bytes,
}
use probavi.Redact.{has_prefix}
use probavi.Checks.Text.{first_match, replace}

-- `Replaced mark v s t`: the text `t` is `s` with `v` for each mark.
pub data Replaced (mark v : Bytes) : Bytes → Bytes → Type 0 where
  nothing : Replaced mark v [] []
  copy :
      (c : ℕ) (s t : Bytes)
      → ((rest : Bytes) → c ∷ s ≢ mark ++ rest)
      → Replaced mark v s t
      → Replaced mark v (c ∷ s) (c ∷ t)
  put : (s t : Bytes) → Replaced mark v s t → Replaced mark v (mark ++ s) (v ++ t)

prefix_rest : (p s : Bytes) → has_prefix p s ≡ true → (rest : Bytes) × (s ≡ p ++ rest)
unfolding has_prefix
prefix_rest [] s h = (s, refl)
prefix_rest (a ∷ p) [] h = cc
prefix_rest (a ∷ p) (c ∷ s) h =
    let (rest, e) = prefix_rest p s (and_right _ _ h) in
    (rest, ap (λ x. x ∷ s) (sym ((==_iff a c).0 (and_left _ _ h))) ∙ ap (λ x. a ∷ x) e)

no_prefix_rest : (p s : Bytes) → has_prefix p s ≡ false → (rest : Bytes) → s ≢ p ++ rest
unfolding has_prefix
no_prefix_rest [] s h rest e = cc
no_prefix_rest (a ∷ p) [] h rest e = cc
no_prefix_rest (a ∷ p) (c ∷ s) h rest e =
    no_prefix_rest p s (or_same (a == c) (has_prefix p s) ((==_iff a c).1 (sym (first e))) h) rest
      (behind e)
  where
    or_same : (x y : Bool) → x ≡ true → (x && y) ≡ false → y ≡ false
    or_same x y p q = ground arith

    first : {x y : ℕ} {xs ys : Bytes} → x ∷ xs ≡ y ∷ ys → x ≡ y
    first q = cc

    behind : {x y : ℕ} {xs ys : Bytes} → x ∷ xs ≡ y ∷ ys → xs ≡ ys
    behind q = cc

replace-skip :
    (pairs : List (Bytes × Bytes)) (p rest : Bytes)
    → replace pairs (length p) (p ++ rest) ≡ replace pairs 0 rest
unfolding replace
replace-skip pairs [] rest = refl
replace-skip pairs (a ∷ p) rest = replace-skip pairs p rest

first_match-one :
    (k v s : Bytes) (b : Bool)
    → has_prefix k s ≡ b
    → first_match ((k, v) ∷ []) s ≡ (if b then some (length k, v) else none)
unfolding first_match
first_match-one k v s b h = rw h refl

-- The text behind a first byte, by what was found there.
abbrev found : List (Bytes × Bytes) → ℕ → Bytes → Option (ℕ × Bytes) → Bytes
found pairs c s o = elim o [
  | none ↦ c ∷ replace pairs 0 s
  | some nv ↦ nv.1 ++ replace pairs (nv.0 - 1) s
]

replace-found :
    (pairs : List (Bytes × Bytes)) (c : ℕ) (s : Bytes) (o : Option (ℕ × Bytes))
    → first_match pairs (c ∷ s) ≡ o
    → replace pairs 0 (c ∷ s) ≡ found pairs c s o
unfolding replace
replace-found pairs c s o h = ap (found pairs c s) h

one_less : (n : ℕ) → suc n - 1 ≡ n
one_less n = omega arith

replace-within :
    (n m : ℕ) (mark v s : Bytes)
    → length s ≤ n
    → Replaced (m ∷ mark) v s (replace ((m ∷ mark, v) ∷ []) 0 s)
replace-within n m mark v [] l = unfold replace in nothing
replace-within zero m mark v (c ∷ s) l = absurd (omega arith)
replace-within (suc n) m mark v (c ∷ s) l =
    let pairs : List (Bytes × Bytes) = (m ∷ mark, v) ∷ [] in
    elim (Bool-cases (has_prefix (m ∷ mark) (c ∷ s))) [
      | inl h ↦
          let (rest, e) = prefix_rest (m ∷ mark) (c ∷ s) h in
          subst (Replaced (m ∷ mark) v (c ∷ s))
            (sym (
              replace-found pairs c s _ (first_match-one (m ∷ mark) v (c ∷ s) true h)
              ∙ ap (λ k. v ++ replace pairs k s) (one_less (length mark))
              ∙ ap (λ x. v ++ replace pairs (length mark) x) (behind e)
              ∙ ap (λ x. v ++ x) (replace-skip pairs mark rest)))
            (subst (λ x. Replaced (m ∷ mark) v x (v ++ replace pairs 0 rest)) (sym e)
              (put rest _ (replace-within n m mark v rest (fewer rest e l))))
      | inr h ↦
          subst (Replaced (m ∷ mark) v (c ∷ s))
            (sym (replace-found pairs c s _ (first_match-one (m ∷ mark) v (c ∷ s) false h)))
            (copy c s _ (no_prefix_rest (m ∷ mark) (c ∷ s) h)
              (replace-within n m mark v s (omega arith)))
    ]
  where
    behind : {x y : ℕ} {xs ys : Bytes} → x ∷ xs ≡ y ∷ ys → xs ≡ ys
    behind q = cc

    fewer : (rest : Bytes) → c ∷ s ≡ m ∷ mark ++ rest → length (c ∷ s) ≤ suc n → length rest ≤ n
    fewer rest q h = omega (arith, ap (λ x. length x) q, length-append mark rest)

pub replace-Replaced :
    (m : ℕ) (mark v s : Bytes) → Replaced (m ∷ mark) v s (replace ((m ∷ mark, v) ∷ []) 0 s)
replace-Replaced m mark v s = replace-within (length s) m mark v s (omega arith)

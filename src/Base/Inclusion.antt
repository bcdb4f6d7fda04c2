-- ===== src/Base/Inclusion.antt =====
-- Lists without repetition, and how long one may be inside another.
use Prim.Native.Nat.{suc, ◌≤◌}
use mathlib.Core.Path.{◌≡◌, refl, ap}
use mathlib.Core.Logic.{◌⊎◌, ◌↔◌, inl, inr}
use mathlib.Core.List.{List, [], ◌∷◌, ◌++◌}
use native.Mathlib.Omega.{arith}
use probavi.Base.Lists.{length, Mem, here, there}

module _ {ℓ} {A : Type ℓ} where
  abbrev pub Distinct : List A → Type ℓ
  Distinct [] = Unit
  Distinct (x ∷ xs) = (¬ Mem x xs) × Distinct xs

  abbrev pub Within : List A → List A → Type ℓ
  Within xs ys = (a : A) → Mem a xs → Mem a ys

  pub Mem-cons : {a x : A} {xs : List A} → Mem a (x ∷ xs) → (a ≡ x) ⊎ Mem a xs
  Mem-cons here = inl refl
  Mem-cons (there m) = inr m

  pub Mem-cases : {a : A} (xs : List A) {ys : List A} → Mem a (xs ++ ys) → Mem a xs ⊎ Mem a ys
  Mem-cases [] m = inr m
  Mem-cases (x ∷ xs) here = inl here
  Mem-cases (x ∷ xs) (there m) = elim (Mem-cases xs m) [ inl k ↦ inl (there k) | inr k ↦ inr k ]

  pub Mem-left : {a : A} {xs : List A} (ys : List A) → Mem a xs → Mem a (xs ++ ys)
  Mem-left ys here = here
  Mem-left ys (there m) = there (Mem-left ys m)

  -- The list without one place of the element.
  without : {a : A} (xs : List A) → Mem a xs → List A
  without [] m = elim m [ ]
  without (x ∷ xs) here = xs
  without (x ∷ xs) (there m) = x ∷ without xs m

  length-without : {a : A} (xs : List A) (m : Mem a xs) → length xs ≡ suc (length (without xs m))
  unfolding without
  length-without [] m = elim m [ ]
  length-without (x ∷ xs) here = refl
  length-without (x ∷ xs) (there m) = ap suc (length-without xs m)

  Mem-without : {a b : A} (xs : List A) (m : Mem a xs) → Mem b xs → (b ≡ a) ⊎ Mem b (without xs m)
  unfolding without
  Mem-without [] m k = elim m [ ]
  Mem-without (x ∷ xs) here k = Mem-cons k
  Mem-without (x ∷ xs) (there m) here = inr here
  Mem-without (x ∷ xs) (there m) (there k) = elim (Mem-without xs m k) [
    | inl e ↦ inl e
    | inr n ↦ inr (there n)
  ]

  without-Within : {a : A} (xs : List A) (m : Mem a xs) → Within (without xs m) xs
  unfolding without
  without-Within [] m b k = elim m [ ]
  without-Within (x ∷ xs) here b k = there k
  without-Within (x ∷ xs) (there m) b here = here
  without-Within (x ∷ xs) (there m) b (there k) = there (without-Within xs m b k)

  Within-without :
      {x : A} (xs ys : List A) (m : Mem x ys)
      → ¬ Mem x xs
      → Within (x ∷ xs) ys
      → Within xs (without ys m)
  Within-without xs ys m fresh w b k = elim (Mem-without ys m (w b (there k))) [
    | inl e ↦ absurd (fresh (rw (← e) k))
    | inr n ↦ n
  ]

  pub length-Within : (xs ys : List A) → Distinct xs → Within xs ys → length xs ≤ length ys
  length-Within [] ys d w = omega arith
  length-Within (x ∷ xs) ys d w = omega (
    arith,
    length-without ys (w x here),
    length-Within xs (without ys (w x here)) d.1 (Within-without xs ys (w x here) d.0 w),
  )

  -- A list without repetition that is as long as the one around it holds all of that.
  pub Within-fills :
      (xs ys : List A) → Distinct xs → Within xs ys → length ys ≤ length xs → Within ys xs
  Within-fills [] [] d w h b m = m
  Within-fills [] (y ∷ ys) d w h b m = absurd (omega arith)
  Within-fills (x ∷ xs) ys d w h b m = elim (Mem-without ys (w x here) m) [
    | inl e ↦ rw e here
    | inr n ↦ there (
        Within-fills xs (without ys (w x here)) d.1 (Within-without xs ys (w x here) d.0 w)
          (omega (arith, length-without ys (w x here))) b n)
  ]

  pub Distinct-snoc : (xs : List A) {a : A} → Distinct xs → ¬ Mem a xs → Distinct (xs ++ a ∷ [])
  Distinct-snoc [] d f = (λ m. elim m [ ], tt)
  Distinct-snoc (x ∷ xs) d f = (
    λ m. elim (Mem-cases xs m) [
      | inl k ↦ d.0 k
      | inr k ↦ elim (Mem-cons k) [ inl e ↦ f (rw (← e) here) | inr n ↦ elim n [ ] ]
    ],
    Distinct-snoc xs d.1 (λ m. f (there m)),
  )

  pub Mem-move : {a x : A} (xs ys : List A) → Mem a (xs ++ x ∷ ys) → Mem a (x ∷ xs ++ ys)
  Mem-move [] ys m = m
  Mem-move (y ∷ xs) ys here = there here
  Mem-move (y ∷ xs) ys (there m) = elim (Mem-cons (Mem-move xs ys m)) [
    | inl e ↦ rw e here
    | inr k ↦ there (there k)
  ]

  pub Mem-put : {a x : A} (xs ys : List A) → Mem a (x ∷ xs ++ ys) → Mem a (xs ++ x ∷ ys)
  Mem-put [] ys m = m
  Mem-put (y ∷ xs) ys here = there (Mem-put xs ys here)
  Mem-put (y ∷ xs) ys (there here) = here
  Mem-put (y ∷ xs) ys (there (there m)) = there (Mem-put xs ys (there m))

  pub Distinct-move : {x : A} (xs ys : List A) → Distinct (xs ++ x ∷ ys) → Distinct (x ∷ xs ++ ys)
  Distinct-move [] ys d = d
  Distinct-move (y ∷ xs) ys d =
      let (fresh, rest) = Distinct-move xs ys d.1 in
      (
        λ m. elim (Mem-cons m) [ inl e ↦ d.0 (Mem-put xs ys (rw (← e) here)) | inr k ↦ fresh k ],
        ((λ m. d.0 (Mem-put xs ys (there m))), rest),
      )

  pub Distinct-left : (xs ys : List A) → Distinct (xs ++ ys) → Distinct xs
  Distinct-left [] ys d = tt
  Distinct-left (x ∷ xs) ys d = ((λ m. d.0 (Mem-left ys m)), Distinct-left xs ys d.1)

  abbrev pub All {κ} : (A → Type κ) → List A → Type κ
  All P [] = Unit
  All P (x ∷ xs) = P x × All P xs

  pub All-Mem {κ} : (P : A → Type κ) {a : A} (xs : List A) → All P xs → Mem a xs → P a
  All-Mem P [] h m = elim m [ ]
  All-Mem P (x ∷ xs) h here = h.0
  All-Mem P (x ∷ xs) h (there m) = All-Mem P xs h.1 m

  pub All-append {κ} : (P : A → Type κ) (xs ys : List A) → All P xs → All P ys → All P (xs ++ ys)
  All-append P [] ys h k = k
  All-append P (x ∷ xs) ys h k = (h.0, All-append P xs ys h.1 k)

  pub append-nil_iff : (xs ys : List A) → (xs ++ ys ≡ []) ↔ ((xs ≡ []) × (ys ≡ []))
  append-nil_iff [] ys = ((λ e. (refl, e)), λ h. h.1)
  append-nil_iff (x ∷ xs) ys = ((λ e. cc), λ h. cc)

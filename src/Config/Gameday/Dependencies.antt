-- ===== src/Config/Gameday/Dependencies.antt =====
-- `validateDependencies` has no complaint exactly if every dependency is a member.
use probavi.Base.{
  ℕ, suc, ◌≡◌, ◌↔◌, refl, sym, subst, ◌∙◌, ◌⊎◌, inl, inr, false, true≢false, not, ◌&&◌, none, List,
  [], ◌∷◌, beq, beq_iff, contains, Bool-cases, Option-cases, Mem, here, there, Mem-cons,
  append-nil_iff, contains-Mem, contains-false_iff, Bytes,
}
use probavi.Config.Gameday.Cycle.{Member}
use probavi.Config.Gameday.Cycle.Pop.{names-intro}
use probavi.Config.Gameday.Order.{names, Known}
use probavi.Config.Gameday.{
  add_if, find_index, validate_members, unknown_deps, missing, validate_dependencies,
  member_unknown_dep,
}
use probavi.Config.Gameday.Shape.{add_if-nil_iff, validate_members-index_iff}

unknown_deps-nil_iff :
    (i : ℕ) (name : Bytes) (index : List (Bytes × ℕ)) (deps : List Bytes)
    → (unknown_deps i name index deps ≡ [])
      ↔ ((d : Bytes) → Mem d deps → (missing (find_index index d) && not (beq d name)) ≡ false)
unfolding unknown_deps
unknown_deps-nil_iff i name index [] = ((λ e d m. elim m [ ]), λ h. refl)
unknown_deps-nil_iff i name index (dep ∷ deps) = (
  λ e d m.
      let (now, later) = (append-nil_iff (add_if _ (member_unknown_dep i dep)) _).0 e in
      elim (Mem-cons m) [
        | inl q ↦ rw q ((add_if-nil_iff _ (member_unknown_dep i dep)).0 now)
        | inr k ↦ (unknown_deps-nil_iff i name index deps).0 later d k
      ],
  λ h. (append-nil_iff (add_if _ (member_unknown_dep i dep)) _).1 (
    (add_if-nil_iff _ (member_unknown_dep i dep)).1 (h dep here),
    (unknown_deps-nil_iff i name index deps).1 (λ d m. h d (there m)),
  ),
)

validate_dependencies-nil_iff :
    (i : ℕ) (index : List (Bytes × ℕ)) (ms : List Member)
    → (validate_dependencies i index ms ≡ []) ↔ (
        (m : Member)
        → Mem m ms
        → (d : Bytes) → Mem d m.depends_on
        → (missing (find_index index d) && not (beq d m.name)) ≡ false)
unfolding validate_dependencies
validate_dependencies-nil_iff i index [] = ((λ e m k. elim k [ ]), λ h. refl)
validate_dependencies-nil_iff i index (m ∷ ms) = (
  λ e n k d l.
      let (now, later) = (append-nil_iff (unknown_deps i m.name index m.depends_on) _).0 e in
      elim (Mem-cons k) [
        | inl q ↦ rw q (
            (unknown_deps-nil_iff i m.name index m.depends_on).0 now d
              (subst (λ z. Mem d z.depends_on) q l))
        | inr j ↦ (validate_dependencies-nil_iff (suc i) index ms).0 later n j d l
      ],
  λ h. (append-nil_iff (unknown_deps i m.name index m.depends_on) _).1 (
    (unknown_deps-nil_iff i m.name index m.depends_on).1 (λ d l. h m here d l),
    (validate_dependencies-nil_iff (suc i) index ms).1 (λ n k. h n (there k)),
  ),
)

Mem-or : (x : Bytes) (xs : List Bytes) → Mem x xs ⊎ (¬ Mem x xs)
Mem-or x xs = elim (Bool-cases (contains xs x)) [
  | inl t ↦ inl (contains-Mem xs x t)
  | inr f ↦ inr ((contains-false_iff xs x).0 f)
]

-- Over members without a problem, that says that every dependency is a member.
pub dependencies-Known_iff :
    (ms : List Member)
    → (validate_members 0 [] ms).0 ≡ []
    → (validate_dependencies 0 (validate_members 0 [] ms).1 ms ≡ []) ↔ Known ms
unfolding find_index
dependencies-Known_iff ms e = (
  λ h m k d l. elim (Mem-or d (names ms)) [
    | inl j ↦ j
    | inr n ↦ absurd (
        n (
          rw
            (own d m.name ((validate_members-index_iff 0 [] ms d e).1 (refl, n))
              ((validate_dependencies-nil_iff 0 (validate_members 0 [] ms).1 ms).0 h m k d l))
            (names-intro ms m k)))
  ],
  λ known. (validate_dependencies-nil_iff 0 (validate_members 0 [] ms).1 ms).1 λ m k d l.
      elim (Option-cases (find_index (validate_members 0 [] ms).1 d)) [
        | inl f ↦ absurd (((validate_members-index_iff 0 [] ms d e).0 f).1 (known m k d l))
        | inr (p, f) ↦ rw f refl
      ],
)
  where
    own :
        (d x : Bytes)
        → find_index (validate_members 0 [] ms).1 d ≡ none
        → (missing (find_index (validate_members 0 [] ms).1 d) && not (beq d x)) ≡ false
        → d ≡ x
    own d x f g = elim (Bool-cases (beq d x)) [
      | inl t ↦ (beq_iff d x).0 t
      | inr b ↦ absurd (true≢false (sym (rw (f, b) refl) ∙ g))
    ]

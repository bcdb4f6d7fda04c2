-- ===== src/Core/Request/Laws.antt =====
-- What an adapter can learn and choose through a request.
use probavi.Base.{
  ◌≡◌, refl, sym, ap, ◌∙◌, inl, inr, true, false, Option, some, List, [], ◌∷◌, Bool-cases,
  if◌then◌else◌, beq, beq_iff, beq_refl, contains, is_empty, Bytes,
}
use probavi.Core.World.{Drill, Source}
use probavi.Core.Request.{select_param, resolve_password, lookup, assign, source_params}

-- Two environments that agree on the variables which the drill declared give one password: no name
-- that an adapter asks for lets it see another variable of the process.
pub resolve_password_declared :
    (d : Drill) (env env' : Bytes → Option Bytes) (name : Bytes)
    → ((n : Bytes) → contains d.config.source.credential_env n ≡ true → env n ≡ env' n)
    → resolve_password d env name ≡ resolve_password d env' name
unfolding resolve_password
resolve_password_declared d env env' name agree =
    elim (Bool-cases (contains d.config.source.credential_env name)) [
      | inl k ↦ rw (agree name k) refl
      | inr k ↦ rw k refl
    ]

lookup-assign_same :
    (key value : Bytes) (ps : List (Bytes × Bytes)) → lookup key (assign key value ps) ≡ some value
unfolding lookup assign
lookup-assign_same key value [] = rw (beq_refl key) refl
lookup-assign_same key value ((k, v) ∷ ps) = elim (Bool-cases (beq k key)) [
  | inl e ↦ rw e (rw (beq_refl key) refl)
  | inr e ↦ rw e (rw e (lookup-assign_same key value ps))
]

lookup-assign_other :
    (other key value : Bytes) (ps : List (Bytes × Bytes))
    → beq key other ≡ false
    → lookup other (assign key value ps) ≡ lookup other ps
unfolding lookup assign
lookup-assign_other other key value [] h = rw h refl
lookup-assign_other other key value ((k, v) ∷ ps) h = elim (Bool-cases (beq k key)) [
  | inl e ↦
      let same : k ≡ key = (beq_iff k key).0 e in
      rw e (rw h (rw (ap (λ x. beq x other) same ∙ h) refl))
  | inr e ↦
      rw e (ap (λ r. if beq k other then some v else r) (lookup-assign_other other key value ps h))
]

-- The parameters that an adapter gets are the operator's, but for the selection, which is there
-- under its own name if the drill has one.
pub lookup-source_params :
    (src : Source) (key : Bytes)
    → lookup key (source_params src) ≡ (
        if is_empty src.select
        then lookup key src.params
        else if beq select_param key
        then some src.select
        else lookup key src.params)
unfolding source_params
lookup-source_params src key = elim (Bool-cases (is_empty src.select)) [
  | inl e ↦ rw e refl
  | inr e ↦ elim (Bool-cases (beq select_param key)) [
    | inl k ↦
        let same : select_param ≡ key = (beq_iff select_param key).0 k in
        rw e (
          rw k (
            ap (λ x. lookup x (assign select_param src.select src.params)) (sym same)
            ∙ lookup-assign_same select_param src.select src.params))
    | inr k ↦ rw e (rw k (lookup-assign_other key select_param src.select src.params k))
  ]
]

-- ===== src/Config/Check/Kinds.antt =====
-- The validation of a check, kind by kind, against what a check of the kind must be.
use probavi.Base.{
  not-false, ◌≡◌, ◌≢◌, ◌↔◌, refl, sym, subst, ◌∙◌, ◌⊎◌, inl, inr, Bool, true, false, not, ◌&&◌,
  Option, none, some, List, [], ◌∷◌, ◌++◌, if◌then◌else◌, beq, beq_iff, is_empty, ne_of_is_empty,
  is_empty-of_ne, Bool-cases, All, append-nil_iff, Bytes, arith,
}
use probavi.Base.Int.{pos, eq_int}
use probavi.Manifest.{given}
use probavi.Config.Check.{
  CheckConfig, Flaw, unknown_builtin, builtin_or_sql, builtin_or_sql_not_both, freshness_max_age,
  freshness_column, baseline_manifest, sql_expect, expect_only_sql, name_only_sql, flaw_if,
  check_kinds, lookup_check_kind, require_table, forbid, validate_bounds, validate_row_count,
  validate_freshness, validate_baseline, validate_kind, validate_found, validate_builtin,
  validate_sql, validate_check, validate_each, check_service_healthy, check_table_exists,
  check_row_count, check_freshness, check_baseline, check_sql,
}
use probavi.Config.Check.Runnable.{
  Bounds, Bare, IsBuiltin, Runnable, healthy, exists_table, counts, fresh, reconciles, asserts,
  flaw_if-nil_iff, forbid-nil_iff, bounds-nil_iff, empty_iff,
}

-- Which kind a word names.
data Kind (id : Bytes) : Type 0 where
  is_healthy : id ≡ check_service_healthy → Kind id
  is_exists : id ≡ check_table_exists → Kind id
  is_counts : id ≡ check_row_count → Kind id
  is_fresh : id ≡ check_freshness → Kind id
  is_baseline : id ≡ check_baseline → Kind id
  is_sql : id ≡ check_sql → Kind id
  is_none : lookup_check_kind check_kinds id ≡ none → Kind id

kind : (id : Bytes) → Kind id
unfolding lookup_check_kind
kind id = elim (Bool-cases (beq check_service_healthy id)) [
  | inl t ↦ is_healthy (sym ((beq_iff check_service_healthy id).0 t))
  | inr a ↦ elim (Bool-cases (beq check_table_exists id)) [
    | inl t ↦ is_exists (sym ((beq_iff check_table_exists id).0 t))
    | inr b ↦ elim (Bool-cases (beq check_row_count id)) [
      | inl t ↦ is_counts (sym ((beq_iff check_row_count id).0 t))
      | inr c ↦ elim (Bool-cases (beq check_freshness id)) [
        | inl t ↦ is_fresh (sym ((beq_iff check_freshness id).0 t))
        | inr d ↦ elim (Bool-cases (beq check_baseline id)) [
          | inl t ↦ is_baseline (sym ((beq_iff check_baseline id).0 t))
          | inr e ↦ elim (Bool-cases (beq check_sql id)) [
            | inl t ↦ is_sql (sym ((beq_iff check_sql id).0 t))
            | inr f ↦ is_none (rw (a, b, c, d, e, f) refl)
          ]
        ]
      ]
    ]
  ]
]

-- What the registry leads to for each kind.
module _ (m : Bool) (ch : CheckConfig) where
  abbrev found : Bytes → List Flaw
  found id = validate_found m ch (lookup_check_kind check_kinds id)

  found-kind :
      (found check_service_healthy
        ≡ forbid ch (record { table = true; column = true; minmax = true; max_age = true }))
      × (found check_table_exists
          ≡ require_table ch
            ++ forbid ch (record { table = false; column = true; minmax = true; max_age = true }))
      × (found check_row_count ≡ validate_row_count ch)
      × (found check_freshness ≡ validate_freshness ch)
      × (found check_baseline ≡ validate_baseline m ch)
      × (found check_sql ≡ unknown_builtin ∷ [])
  unfolding lookup_check_kind validate_found validate_kind beq
  found-kind = (refl, refl, refl, refl, refl, refl)

  require_iff : (require_table ch ≡ []) ↔ (ch.table ≢ [])
  unfolding require_table
  require_iff = (
    λ e. ne_of_is_empty ch.table ((flaw_if-nil_iff _ Flaw.requires_table).0 e),
    λ h. (flaw_if-nil_iff _ Flaw.requires_table).1 (is_empty-of_ne ch.table h),
  )

  row_count_iff :
      (validate_row_count ch ≡ [])
      ↔ ((ch.table ≢ []) × Bare ch false true false true × Bounds ch.min ch.max)
  unfolding validate_row_count
  row_count_iff = (
    λ e.
        let (ab, c) = (append-nil_iff _ (validate_bounds ch.min ch.max)).0 e in
        let (a, b) = (append-nil_iff (require_table ch) _).0 ab in
        (require_iff.0 a, (forbid-nil_iff ch _).0 b, (bounds-nil_iff ch.min ch.max).0 c),
    λ h. (append-nil_iff _ _).1 (
      (append-nil_iff _ _).1 (require_iff.1 h.0, (forbid-nil_iff ch _).1 h.1),
      (bounds-nil_iff ch.min ch.max).1 h.2,
    ),
  )

  freshness_iff : (validate_freshness ch ≡ []) ↔ (
      (ch.table ≢ [])
      × Bare ch false false true false
      × (ch.column ≢ [])
      × (eq_int ch.max_age (pos 0) ≡ false))
  unfolding validate_freshness
  freshness_iff = (
    λ e.
        let (abc, d) =
          (append-nil_iff _ (flaw_if (eq_int ch.max_age (pos 0)) freshness_max_age)).0 e in
        let (ab, c) = (append-nil_iff _ (flaw_if (is_empty ch.column) freshness_column)).0 abc in
        let (a, b) = (append-nil_iff (require_table ch) _).0 ab in
        (
          require_iff.0 a,
          (forbid-nil_iff ch _).0 b,
          ne_of_is_empty ch.column ((flaw_if-nil_iff _ freshness_column).0 c),
          (flaw_if-nil_iff _ freshness_max_age).0 d,
        ),
    λ h. (append-nil_iff _ _).1 (
      (append-nil_iff _ _).1 (
        (append-nil_iff _ _).1 (require_iff.1 h.0, (forbid-nil_iff ch _).1 h.1),
        (flaw_if-nil_iff _ freshness_column).1 (is_empty-of_ne ch.column h.2),
      ),
      (flaw_if-nil_iff _ freshness_max_age).1 h.3,
    ),
  )

  baseline_iff : (validate_baseline m ch ≡ []) ↔ (Bare ch true true true true × (m ≡ true))
  unfolding validate_baseline
  baseline_iff = (
    λ e.
        let (a, b) = (append-nil_iff _ (flaw_if (not m) baseline_manifest)).0 e in
        ((forbid-nil_iff ch _).0 a, not-false m ((flaw_if-nil_iff _ baseline_manifest).0 b)),
    λ h. (append-nil_iff _ _).1 ((forbid-nil_iff ch _).1 h.0, rw h.1 refl),
  )

  builtin_iff :
      (id : Bytes)
      → (validate_builtin m ch ≡ [])
        ↔ ((ch.expect ≡ none) × (ch.name ≡ []) × (found ch.builtin ≡ []))
  unfolding validate_builtin
  builtin_iff id = (
    λ e.
        let (ab, c) = (append-nil_iff _ (found ch.builtin)).0 e in
        let (a, b) = (append-nil_iff _ (flaw_if (not (is_empty ch.name)) name_only_sql)).0 ab in
        (
          not_given ch.expect ((flaw_if-nil_iff _ expect_only_sql).0 a),
          (empty_iff ch.name).0 ((flaw_if-nil_iff _ name_only_sql).0 b),
          c,
        ),
    λ h. (append-nil_iff _ (found ch.builtin)).1 (rw (h.0, h.1) refl, h.2),
  )
    where
      not_given : (o : Option Bytes) → given o ≡ false → o ≡ none
      not_given none e = refl
      not_given (some x) e = cc

  -- The builtin kinds, under a word that is theirs.
  builtin-Runnable : ch.sql ≡ [] → validate_builtin m ch ≡ [] → Runnable m ch
  builtin-Runnable q e =
      let (x, n, o) = (builtin_iff ch.builtin).0 e in
      let (f, g, h, i, j, k) = found-kind in
      elim (kind ch.builtin) [
        | is_healthy w ↦ healthy (w, q, x, n) ((forbid-nil_iff ch _).0 (sym f ∙ at w o))
        | is_exists w ↦
            let (a, b) = (append-nil_iff (require_table ch) _).0 (sym g ∙ at w o) in
            exists_table (w, q, x, n) (require_iff.0 a) ((forbid-nil_iff ch _).0 b)
        | is_counts w ↦
            let (a, b, c) = row_count_iff.0 (sym h ∙ at w o) in counts (w, q, x, n) a b c
        | is_fresh w ↦
            let (a, b, c, d) = freshness_iff.0 (sym i ∙ at w o) in fresh (w, q, x, n) a b c d
        | is_baseline w ↦
            let (a, b) = baseline_iff.0 (sym j ∙ at w o) in reconciles (w, q, x, n) a b
        | is_sql w ↦ let z = sym k ∙ at w o in cc
        | is_none w ↦ let z = sym (not_found w) ∙ o in cc
      ]
    where
      at : {id : Bytes} → ch.builtin ≡ id → found ch.builtin ≡ [] → found id ≡ []
      at w o = subst (λ id. found id ≡ []) w o

      not_found :
          lookup_check_kind check_kinds ch.builtin ≡ none → found ch.builtin ≡ unknown_builtin ∷ []
      not_found w = rw w (unfold validate_found in refl)

  -- The branches of `validate_check`.
  choice_iff : (validate_check m ch ≡ []) ↔ (
      ((is_empty ch.builtin ≡ false) × (is_empty ch.sql ≡ true) × (validate_builtin m ch ≡ []))
      ⊎ ((is_empty ch.builtin ≡ true) × (is_empty ch.sql ≡ false) × (validate_sql ch ≡ [])))
  unfolding validate_check
  choice_iff =
      choose (is_empty ch.builtin) (is_empty ch.sql) (validate_builtin m ch) (validate_sql ch)
    where
      choose :
          (a b : Bool) (x y : List Flaw)
          → ((if not a && not b
                then builtin_or_sql_not_both ∷ []
                else if not a
                then x
                else if not b
                then y
                else builtin_or_sql ∷ [])
              ≡ [])
            ↔ (((a ≡ false) × (b ≡ true) × (x ≡ [])) ⊎ ((a ≡ true) × (b ≡ false) × (y ≡ [])))
      choose false false x y = ((λ e. cc), λ h. ground arith)
      choose false true x y = ((λ e. inl (refl, refl, e)), λ h. elim h [ inl k ↦ k.2 | inr k ↦ cc ])
      choose true false x y = ((λ e. inr (refl, refl, e)), λ h. elim h [ inl k ↦ cc | inr k ↦ k.2 ])
      choose true true x y = ((λ e. cc), λ h. ground arith)

  builtin-intro :
      (id : Bytes)
      → IsBuiltin ch id
      → found id ≡ []
      → is_empty id ≡ false
      → validate_check m ch ≡ []
  builtin-intro id (w, q, x, n) o e = choice_iff.1 (
      inl (
        subst (λ z. is_empty z ≡ false) (sym w) e,
        subst (λ z. is_empty z ≡ true) (sym q) refl,
        (builtin_iff id).1 (x, n, subst (λ z. found z ≡ []) (sym w) o),
      ))

  sql_iff : (validate_sql ch ≡ []) ↔ ((given ch.expect ≡ true) × Bare ch true true true true)
  unfolding validate_sql
  sql_iff = (
    λ e.
        let (a, b) = (append-nil_iff (flaw_if (not (given ch.expect)) sql_expect) _).0 e in
        (
          not-false (given ch.expect) ((flaw_if-nil_iff _ sql_expect).0 a),
          (forbid-nil_iff ch _).0 b,
        ),
    λ h. (append-nil_iff _ _).1 (rw h.0 refl, (forbid-nil_iff ch _).1 h.1),
  )

  pub Runnable-validate_check : Runnable m ch → validate_check m ch ≡ []
  Runnable-validate_check (healthy b f) =
      builtin-intro check_service_healthy b (found-kind.0 ∙ (forbid-nil_iff ch _).1 f) refl
  Runnable-validate_check (exists_table b t f) =
      builtin-intro check_table_exists b
        (found-kind.1 ∙ (append-nil_iff _ _).1 (require_iff.1 t, (forbid-nil_iff ch _).1 f)) refl
  Runnable-validate_check (counts b t f n) =
      builtin-intro check_row_count b (found-kind.2 ∙ row_count_iff.1 (t, f, n)) refl
  Runnable-validate_check (fresh b t f c a) =
      builtin-intro check_freshness b (found-kind.3 ∙ freshness_iff.1 (t, f, c, a)) refl
  Runnable-validate_check (reconciles b f h) =
      builtin-intro check_baseline b (found-kind.4 ∙ baseline_iff.1 (f, h)) refl
  Runnable-validate_check (asserts b s x f) =
      choice_iff.1 (
        inr
          (subst (λ z. is_empty z ≡ true) (sym b) refl, is_empty-of_ne ch.sql s, sql_iff.1 (x, f)))

  pub validate_check-Runnable : validate_check m ch ≡ [] → Runnable m ch
  validate_check-Runnable e = elim (choice_iff.0 e) [
    | inl (a, b, c) ↦ builtin-Runnable (empty_of ch.sql b) c
    | inr (a, b, c) ↦
        asserts (empty_of ch.builtin a) (ne_of_is_empty ch.sql b) (sql_iff.0 c).0 (sql_iff.0 c).1
  ]
    where
      empty_of : (x : Bytes) → is_empty x ≡ true → x ≡ []
      empty_of [] h = refl
      empty_of (c ∷ x) h = cc

pub validate_each_iff :
    (m : Bool) (chs : List CheckConfig) → (validate_each m chs ≡ []) ↔ All (Runnable m) chs
unfolding validate_each
validate_each_iff m [] = ((λ e. tt), λ h. refl)
validate_each_iff m (ch ∷ chs) = (
  λ e.
      let (a, b) = (append-nil_iff (validate_check m ch) _).0 e in
      (validate_check-Runnable m ch a, (validate_each_iff m chs).0 b),
  λ h. (append-nil_iff _ _).1 (Runnable-validate_check m ch h.0, (validate_each_iff m chs).1 h.1),
)

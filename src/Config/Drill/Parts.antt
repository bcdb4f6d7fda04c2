-- ===== src/Config/Drill/Parts.antt =====
-- The target of a drill: what its source and its point in time must be, and that its validation
-- says so.
use probavi.Base.{
  ◌≡◌, ◌≢◌, ◌↔◌, refl, sym, subst, ◌⊎◌, inl, inr, Bool, true, false, true≢false, not, Option, none,
  some, List, [], ◌∷◌, contains, contains-Mem, Mem-contains, is_empty, codes, Mem, All,
  append-nil_iff, Bytes,
}
use probavi.Base.Int.{ℤ, pos, le_int, eq_int, add_int}
use probavi.Config.Drill.{
  Pitr, SourceConfig, Target, Host, Defect, defect_if, is_adapter_name, is_env_name,
  select_policies, has_key, validate_credential_env, validate_source, validate_select,
  validate_pitr_by, validate_adapter, pitr_clock_skew_grace, validate_target_time, validate_pitr,
  pitr_defects, validate_target, credential_env_name, source_select_value, source_select_twice,
  adapter_name_pattern, target_name_required, source_kind_required, pitr_future_target_time,
}

pub defect_if-nil_iff : (b : Bool) (f : Defect) → (defect_if b f ≡ []) ↔ (b ≡ false)
defect_if-nil_iff true f = ((λ e. cc), λ e. cc)
defect_if-nil_iff false f = ((λ e. refl), λ e. refl)

pub unless_nil_iff : (b : Bool) (f : Defect) → (defect_if (not b) f ≡ []) ↔ (b ≡ true)
unless_nil_iff true f = ((λ e. refl), λ e. refl)
unless_nil_iff false f = ((λ e. cc), λ e. cc)

pub empty_nil_iff : (s : Bytes) (f : Defect) → (defect_if (is_empty s) f ≡ []) ↔ (s ≢ [])
empty_nil_iff [] f = ((λ e. cc), λ h. absurd (h refl))
empty_nil_iff (c ∷ s) f = ((λ e q. cc), λ h. refl)

pub empty_of : (x : Bytes) → is_empty x ≡ true → x ≡ []
empty_of [] h = refl
empty_of (c ∷ x) h = cc

credential_env_iff :
    (names : List Bytes)
    → (validate_credential_env names ≡ []) ↔ All (λ n. is_env_name n ≡ true) names
unfolding validate_credential_env
credential_env_iff [] = ((λ e. tt), λ h. refl)
credential_env_iff (n ∷ ns) = (
  λ e.
      let (a, b) = (append-nil_iff (defect_if (not (is_env_name n)) credential_env_name) _).0 e in
      ((unless_nil_iff _ credential_env_name).0 a, (credential_env_iff ns).0 b),
  λ h.
      (append-nil_iff _ _).1
        ((unless_nil_iff _ credential_env_name).1 h.0, (credential_env_iff ns).1 h.1),
)

-- The names of variables are names, and a selection is a policy that is not set twice.
pub record IsSource (src : SourceConfig) : Type 0 where
  pub variables : All (λ n. is_env_name n ≡ true) src.credential_env
  pub selection :
      (src.select ≡ [])
      ⊎ (Mem src.select select_policies × (has_key (codes "select") src.params ≡ false))

select_iff :
    (s : Bytes) (params : List (Bytes × Bytes))
    → (validate_select s params ≡ [])
      ↔ ((s ≡ []) ⊎ (Mem s select_policies × (has_key (codes "select") params ≡ false)))
unfolding validate_select
select_iff [] params = ((λ e. inl refl), λ h. refl)
select_iff (c ∷ s) params = (
  λ e.
      let (a, b) =
        (append-nil_iff (defect_if (not (contains select_policies (c ∷ s))) source_select_value)
            _).0
          e in
      inr (
        contains-Mem select_policies (c ∷ s) ((unless_nil_iff _ source_select_value).0 a),
        (defect_if-nil_iff _ source_select_twice).0 b,
      ),
  λ h. elim h [
    | inl e ↦ cc
    | inr (m, k) ↦ (append-nil_iff _ _).1 (
      (unless_nil_iff _ source_select_value).1 (Mem-contains select_policies (c ∷ s) m),
      (defect_if-nil_iff _ source_select_twice).1 k,
    )
  ],
)

validate_source-IsSource_iff : (src : SourceConfig) → (validate_source src ≡ []) ↔ IsSource src
unfolding validate_source
validate_source-IsSource_iff src = (
  λ e.
      let (a, b) = (append-nil_iff (validate_credential_env src.credential_env) _).0 e in
      record {
        variables = (credential_env_iff src.credential_env).0 a;
        selection = (select_iff src.select src.params).0 b;
      },
  λ h. (append-nil_iff _ _).1 (
    (credential_env_iff src.credential_env).1 h.variables,
    (select_iff src.select src.params).1 h.selection,
  ),
)

-- An instant that is not in the future, or an age.
abbrev pub IsPitr : Host → Option Pitr → Type 0
IsPitr host none = Unit
IsPitr host (some p) =
    ((p.target_time ≡ []) × (eq_int p.target_age (pos 0) ≡ false))
    ⊎ ((eq_int p.target_age (pos 0) ≡ true)
        × (p.target_time ≢ [])
        × (ts : ℤ) × (host.parse_time p.target_time ≡ some ts)
        × (le_int ts (add_int host.now pitr_clock_skew_grace) ≡ true))

time_iff :
    (host : Host) (o : Option ℤ)
    → (validate_target_time host o ≡ [])
      ↔ ((ts : ℤ) × (o ≡ some ts) × (le_int ts (add_int host.now pitr_clock_skew_grace) ≡ true))
unfolding validate_target_time
time_iff host none = ((λ e. cc), λ h. let x = h.1 in cc)
time_iff host (some t) = (
  λ e. (t, refl, (unless_nil_iff _ pitr_future_target_time).0 e),
  λ h. (unless_nil_iff _ pitr_future_target_time).1 (
      subst (λ x. le_int x (add_int host.now pitr_clock_skew_grace) ≡ true) (sym (of_some h.1))
        h.2),
)
  where
    of_some : {a b : ℤ} → some a ≡ some b → a ≡ b
    of_some e = cc

pitr_by_iff :
    (host : Host) (time : Bytes) (age : ℤ)
    → (validate_pitr_by host time (not (eq_int age (pos 0))) ≡ []) ↔ (
        ((time ≡ []) × (eq_int age (pos 0) ≡ false))
        ⊎ ((eq_int age (pos 0) ≡ true)
            × (time ≢ [])
            × (ts : ℤ) × (host.parse_time time ≡ some ts)
            × (le_int ts (add_int host.now pitr_clock_skew_grace) ≡ true)))
unfolding validate_pitr_by
pitr_by_iff host time age = by time (eq_int age (pos 0))
  where
    by :
        (t : Bytes) (b : Bool)
        → (validate_pitr_by host t (not b) ≡ []) ↔ (
            ((t ≡ []) × (b ≡ false))
            ⊎ ((b ≡ true)
                × (t ≢ [])
                × (ts : ℤ) × (host.parse_time t ≡ some ts)
                × (le_int ts (add_int host.now pitr_clock_skew_grace) ≡ true)))
    by [] false = ((λ e. inl (refl, refl)), λ h. refl)
    by [] true =
        ((λ e. cc), λ h. elim h [ inl k ↦ absurd (true≢false k.1) | inr k ↦ absurd (k.1 refl) ])
    by (c ∷ s) false = (
      (λ e. cc),
      λ h. elim h [ inl k ↦ let x = k.0 in cc | inr k ↦ absurd (true≢false (sym k.0)) ],
    )
    by (c ∷ s) true = (
      λ e.
          let (ts, read, past) = (time_iff host (host.parse_time (c ∷ s))).0 e in
          inr (refl, (λ q. cc), ts, read, past),
      λ h. elim h [
        | inl k ↦ let x = k.0 in cc
        | inr k ↦ (time_iff host (host.parse_time (c ∷ s))).1 (k.2, k.3, k.4)
      ],
    )

pitr_iff : (host : Host) (p : Option Pitr) → (pitr_defects host p ≡ []) ↔ IsPitr host p
unfolding validate_pitr
pitr_iff host none = ((λ e. tt), λ h. refl)
pitr_iff host (some p) = pitr_by_iff host p.target_time p.target_age

pub record IsTarget (host : Host) (t : Target) : Type 0 where
  pub named : t.name ≢ []
  pub adapter : is_adapter_name t.adapter ≡ true
  pub kind : t.source.kind ≢ []
  pub source : IsSource t.source
  pub pitr : IsPitr host t.pitr

adapter_iff : (a : Bytes) → (validate_adapter a ≡ []) ↔ (is_adapter_name a ≡ true)
unfolding validate_adapter is_adapter_name
adapter_iff [] = ((λ e. cc), λ h. cc)
adapter_iff (c ∷ s) = unless_nil_iff _ adapter_name_pattern

pub validate_target-IsTarget_iff :
    (host : Host) (t : Target) → (validate_target host t ≡ []) ↔ IsTarget host t
unfolding validate_target
validate_target-IsTarget_iff host t = (
  λ e.
      let (abcd, p) = (append-nil_iff _ (pitr_defects host t.pitr)).0 e in
      let (abc, d) = (append-nil_iff _ (validate_source t.source)).0 abcd in
      let (ab, c) =
        (append-nil_iff _ (defect_if (is_empty t.source.kind) source_kind_required)).0 abc in
      let (a, b) = (append-nil_iff _ (validate_adapter t.adapter)).0 ab in
      record {
        named = (empty_nil_iff t.name target_name_required).0 a;
        adapter = (adapter_iff t.adapter).0 b;
        kind = (empty_nil_iff t.source.kind source_kind_required).0 c;
        source = (validate_source-IsSource_iff t.source).0 d;
        pitr = (pitr_iff host t.pitr).0 p;
      },
  λ h.
      rw
        (
          (empty_nil_iff t.name target_name_required).1 h.named,
          (adapter_iff t.adapter).1 h.adapter,
          (empty_nil_iff t.source.kind source_kind_required).1 h.kind,
          (validate_source-IsSource_iff t.source).1 h.source,
          (pitr_iff host t.pitr).1 h.pitr,
        )
        refl,
)

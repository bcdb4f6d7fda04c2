-- ===== src/Core/Refuse/Laws.antt =====
-- When a drill is refused before a sandbox exists, and with which code.
use probavi.Base.{
  All, ne_of_beq, beq_iff, sym, ap, ◌∙◌, ◌++◌, true≢false, ◌≡◌, refl, ◌↔◌, ◌⊎◌, inl, inr, Bool,
  true, false, not, ◌&&◌, Option, none, some, List, [], ◌∷◌, arith, Bool-cases, beq, is_empty,
  Bytes,
}
use probavi.Evidence.Codes.{code_unsupported_source, code_invalid_request}
use probavi.Core.World.{Config, Probe, SourceKind}
use probavi.Core.Refuse.{
  supports_kind, supports_pitr, selects_a_backup, select_or, is_some, refusal,
}

-- Only configuration mistakes are refused here.
abbrev pub IsRefusal : Option (Bytes × Bytes) → Type 0
IsRefusal none = Unit
IsRefusal (some cm) = (cm.0 ≡ code_unsupported_source) ⊎ (cm.0 ≡ code_invalid_request)

pub refusal-IsRefusal : (cfg : Config) (p : Probe) → IsRefusal (refusal cfg p)
unfolding refusal
refusal-IsRefusal cfg p = elim (Bool-cases (supports_kind p.sources cfg.source.kind)) [
  | inr k ↦ rw k (inl refl)
  | inl k ↦ elim (Bool-cases (is_some cfg.pitr && not (supports_pitr p.sources cfg.source.kind))) [
    | inl t ↦ rw (k, t) (inl refl)
    | inr t ↦
        elim (Bool-cases
          (not (is_empty cfg.source.select) && not (selects_a_backup p.sources cfg.source.kind))) [
            | inl s ↦ rw (k, t, s) (inr refl)
            | inr s ↦ rw (k, t, s) tt
          ]
  ]
]

-- The first source of a kind that the adapter declared.
unfoldable pub first_of_kind : List SourceKind → Bytes → Option SourceKind
first_of_kind [] kind = none
first_of_kind (s ∷ ss) kind =
    let rest = first_of_kind ss kind in elim (beq s.kind kind) [ true ↦ some s | false ↦ rest ]

supports_kind-first_of_kind :
    (ss : List SourceKind) (kind : Bytes) → supports_kind ss kind ≡ is_some (first_of_kind ss kind)
unfolding supports_kind first_of_kind
supports_kind-first_of_kind [] kind = refl
supports_kind-first_of_kind (s ∷ ss) kind = ground (arith, supports_kind-first_of_kind ss kind)

abbrev pitr_of : Option SourceKind → Bool
pitr_of none = false
pitr_of (some s) = s.pitr

supports_pitr-first_of_kind :
    (ss : List SourceKind) (kind : Bytes) → supports_pitr ss kind ≡ pitr_of (first_of_kind ss kind)
unfolding supports_pitr first_of_kind
supports_pitr-first_of_kind [] kind = refl
supports_pitr-first_of_kind (s ∷ ss) kind = ground (arith, supports_pitr-first_of_kind ss kind)

-- The adapter declares of the kind that it chooses no backup: the first source of it that declares
-- anything of the choice declares that.
pub record Declines (ss : List SourceKind) (kind : Bytes) : Type 0 where
  pub front : List SourceKind
  pub source : SourceKind
  pub rest : List SourceKind
  pub splits : ss ≡ front ++ source ∷ rest
  pub of_kind : source.kind ≡ kind
  pub declared : source.select ≡ some false
  pub silent : All (λ s. s.kind ≡ kind → s.select ≡ none) front

Declines-later :
    (s : SourceKind) (ss : List SourceKind) (kind : Bytes)
    → (s.kind ≡ kind → s.select ≡ none)
    → Declines ss kind
    → Declines (s ∷ ss) kind
Declines-later s ss kind n d = record {
  front = s ∷ d.front;
  source = d.source;
  rest = d.rest;
  splits = cc (d.splits);
  of_kind = d.of_kind;
  declared = d.declared;
  silent = (n, d.silent);
}

selects_a_backup-Declines :
    (ss : List SourceKind) (kind : Bytes) → selects_a_backup ss kind ≡ false → Declines ss kind
unfolding selects_a_backup
selects_a_backup-Declines [] kind h = cc
selects_a_backup-Declines (s ∷ ss) kind h = elim (Bool-cases (beq s.kind kind)) [
  | inl e ↦ by s.select refl e (rw e at h) (selects_a_backup-Declines ss kind)
  | inr e ↦
      Declines-later s ss kind (λ same. absurd (ne_of_beq s.kind kind e same))
        (selects_a_backup-Declines ss kind (rw e at h))
]
  where
    by :
        (o : Option Bool)
        → s.select ≡ o
        → beq s.kind kind ≡ true
        → select_or o (selects_a_backup ss kind) ≡ false
        → (selects_a_backup ss kind ≡ false → Declines ss kind)
        → Declines (s ∷ ss) kind
    by none q e k later = Declines-later s ss kind (λ same. q) (later k)
    by (some true) q e k later = cc
    by (some false) q e k later = record {
      front = [];
      source = s;
      rest = ss;
      splits = refl;
      of_kind = (beq_iff s.kind kind).0 e;
      declared = q;
      silent = tt;
    }

declined :
    (front : List SourceKind) (source : SourceKind) (rest : List SourceKind) (kind : Bytes)
    → source.kind ≡ kind
    → source.select ≡ some false
    → All (λ s. s.kind ≡ kind → s.select ≡ none) front
    → selects_a_backup (front ++ source ∷ rest) kind ≡ false
unfolding selects_a_backup
declined [] source rest kind e d q = simp ((beq_iff source.kind kind).1 e, d)
declined (s ∷ front) source rest kind e d (n, q) = elim (Bool-cases (beq s.kind kind)) [
  | inl k ↦ simp (k, n ((beq_iff s.kind kind).0 k)) (declined front source rest kind e d q)
  | inr k ↦ simp k (declined front source rest kind e d q)
]

Declines-selects_a_backup :
    (ss : List SourceKind) (kind : Bytes) → selects_a_backup ss kind ≡ true → ¬ Declines ss kind
Declines-selects_a_backup ss kind h d = true≢false (
    sym h
    ∙ ap (λ x. selects_a_backup x kind) d.splits
    ∙ declined d.front d.source d.rest kind d.of_kind d.declared d.silent)

-- What the drill asks of the adapter is there: a source of its kind, the first of which recovers to a
-- point in time if the configuration wants it, and no declaration that the kind chooses no backup if a
-- policy is set.
pub record IsServed (cfg : Config) (p : Probe) : Type 0 where
  pub source : SourceKind
  pub first : first_of_kind p.sources cfg.source.kind ≡ some source
  pub recovers : is_some cfg.pitr ≡ true → source.pitr ≡ true
  pub chooses : is_empty cfg.source.select ≡ false → ¬ Declines p.sources cfg.source.kind

is_some-first_of_kind : (o : Option SourceKind) → is_some o ≡ true → (s : SourceKind) × (o ≡ some s)
is_some-first_of_kind none h = cc
is_some-first_of_kind (some s) h = (s, refl)

record Passes (cfg : Config) (p : Probe) : Type 0 where
  supported : supports_kind p.sources cfg.source.kind ≡ true
  recovers : is_some cfg.pitr ≡ true → supports_pitr p.sources cfg.source.kind ≡ true
  chooses : is_empty cfg.source.select ≡ false → selects_a_backup p.sources cfg.source.kind ≡ true

refusal-Passes : (cfg : Config) (p : Probe) → refusal cfg p ≡ none → Passes cfg p
unfolding refusal
refusal-Passes cfg p h = record {
  supported = ground arith;
  recovers = λ t. ground arith;
  chooses = λ t. ground arith;
}

Passes-refusal : (cfg : Config) (p : Probe) → Passes cfg p → refusal cfg p ≡ none
unfolding refusal
Passes-refusal cfg p h = ground arith

-- A drill is not refused by the probe exactly if the adapter declares a source of its kind, the first of
-- which recovers to a point in time if the drill wants one, and, if the drill has a policy of selection,
-- the first source of that kind that declares anything of the choice does not decline it.
pub refusal-none_iff : (cfg : Config) (p : Probe) → (refusal cfg p ≡ none) ↔ IsServed cfg p
refusal-none_iff cfg p = (to_served, from_served)
  where
    to_served : refusal cfg p ≡ none → IsServed cfg p
    to_served h =
        let q = refusal-Passes cfg p h in
        let (s, e) =
          is_some-first_of_kind (first_of_kind p.sources cfg.source.kind)
            (rw (supports_kind-first_of_kind p.sources cfg.source.kind) at q.supported) in
        record {
          source = s;
          first = e;
          recovers =
              λ t. rw (supports_pitr-first_of_kind p.sources cfg.source.kind, e) at (q.recovers t);
          chooses = λ t. Declines-selects_a_backup p.sources cfg.source.kind (q.chooses t);
        }

    from_served : IsServed cfg p → refusal cfg p ≡ none
    from_served s = Passes-refusal cfg p (record {
      supported = rw (supports_kind-first_of_kind p.sources cfg.source.kind, s.first) refl;
      recovers =
          λ t. rw (supports_pitr-first_of_kind p.sources cfg.source.kind, s.first) (s.recovers t);
      chooses = λ t. elim (Bool-cases (selects_a_backup p.sources cfg.source.kind)) [
        | inl k ↦ k
        | inr k ↦ absurd (s.chooses t (selects_a_backup-Declines p.sources cfg.source.kind k))
      ];
    })

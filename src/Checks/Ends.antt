-- ===== src/Checks/Ends.antt =====
-- How a run goes through the sandbox: what holds of what was sent so far, and of the fault, if each
-- query keeps it.
use probavi.Base.{
  ℕ, suc, ◌≡◌, refl, Bool, true, false, not, Option, none, some, List, [], ◌∷◌, ◌++◌, if◌then◌else◌,
  beq, is_empty, not-false, subst, codes, All, Bytes,
}
use probavi.Base.Int.{ℤ}
use probavi.Manifest.{Expectation, sorted}
use probavi.Config.Check.{
  CheckConfig, check_baseline, check_service_healthy, check_table_exists, check_row_count,
  check_freshness,
}
use probavi.Checks.Runner.{
  Deps, Session, Fault, Ran, done, stopped, and_then, invalid_identifier, nil_dereference,
  unrunnable, healthcheck_failed, QueryResult, succeeded, exited, quote, query,
}
use probavi.Checks.Text.{parse_int}
use probavi.Checks.Kinds.{
  Found, with_ident, judge_sql, run_sql, judge_exists, run_table_exists, count_rows, found_or_panic,
  judge_number, judge_count, judge_bounds, run_row_count, judge_expectation, run_one_baseline,
  run_healthcheck, scalar_text,
}
use probavi.Checks.Freshness.{judge_newest, judge_freshness, parse_timestamp, run_freshness}
use probavi.Checks.Loop.{
  run_kind, check_name, report, Progress, behind, proceed, run_tables, run_baseline, run_one,
  run_check, run_from,
}

-- `I` holds of the session at the end, and `B` of the fault, if there is one.
abbrev pub Ends {ℓ} : {A : Type ℓ} → (Session → Type 0) → (Fault → Type 0) → Ran A → Type 0
Ends I B (done a s) = I s
Ends I B (stopped f s) = I s × B f

pub record Left (I : Session → Type 0) (B : Fault → Type 0) (p : Progress) : Type 0 where
  pub kept : I p.session
  pub blamed : (f : Fault) → p.fault ≡ some f → B f

module _ (deps : Deps) (I : Session → Type 0) (B : Fault → Type 0)
    (asks : (sql : Bytes) (s : Session) → I s → Ends I B (query deps sql s))
    (misnamed : B invalid_identifier) (ill : B healthcheck_failed) where
  then-Ends {ℓ κ} :
      {A : Type ℓ} {C : Type κ} (r : Ran A) (k : A → Session → Ran C)
      → Ends I B r
      → ((a : A) (s : Session) → I s → Ends I B (k a s))
      → Ends I B (and_then r k)
  unfolding and_then
  then-Ends (done a s) k h g = g a s h
  then-Ends (stopped f s) k h g = h

  ident-Ends :
      (name : Bytes) (s : Session) (k : Bytes → Ran Found)
      → I s
      → ((ident : Bytes) → Ends I B (k ident))
      → Ends I B (with_ident deps name s k)
  unfolding with_ident
  ident-Ends name s k h g =
      elim (quote deps.dialect name)
        as (λ (o : Option Bytes).
          Ends I B (elim o [ none ↦ stopped invalid_identifier s | some ident ↦ k ident ])) [
            | none ↦ (h, misnamed)
            | some ident ↦ g ident
          ]

  sql-Ends : (sql expect : Bytes) (s : Session) → I s → Ends I B (run_sql deps sql expect s)
  unfolding run_sql judge_sql
  sql-Ends sql expect s h = then-Ends (query deps sql s) (judge_sql expect) (asks sql s h) judged
    where
      answer :
          (b : Bool) (v w : Found) (t : Session) → I t → Ends I B (if b then done v t else done w t)
      answer true v w t i = i
      answer false v w t i = i

      judged : (out : QueryResult) (t : Session) → I t → Ends I B (judge_sql expect out t)
      judged (exited code) t i = i
      judged (succeeded v) t i = answer (beq v expect) _ _ t i

  exists-Ends : (table : Bytes) (s : Session) → I s → Ends I B (run_table_exists deps table s)
  unfolding run_table_exists judge_exists
  exists-Ends table s h =
      ident-Ends table s _ h λ ident. then-Ends (query deps _ s) judge_exists (asks _ s h) judged
    where
      judged : (out : QueryResult) (t : Session) → I t → Ends I B (judge_exists out t)
      judged (exited code) t i = i
      judged (succeeded v) t i = i

  -- A judgement of every number, or a nil pointer to blame.
  abbrev Judges : (ℤ → Option Found) → Type 0
  Judges judge = (n : ℤ) → judge n ≡ none → B nil_dereference

  count-Ends :
      (ident : Bytes) (judge : ℤ → Option Found) (s : Session)
      → I s
      → Judges judge
      → Ends I B (and_then (count_rows deps ident s) (judge_count judge))
  unfolding count_rows judge_count
  count-Ends ident judge s h j = then-Ends (query deps _ s) (judge_count judge) (asks _ s h) judged
    where
      panic :
          (o : Option Found) (t : Session)
          → I t
          → (o ≡ none → B nil_dereference)
          → Ends I B (found_or_panic o t)
      panic none t i b = (i, b refl)
      panic (some v) t i b = i

      number : (o : Option ℤ) (t : Session) → I t → Ends I B (judge_number o judge t)
      number none t i = i
      number (some n) t i = panic (judge n) t i (j n)

      judged : (out : QueryResult) (t : Session) → I t → Ends I B (judge_count judge out t)
      judged (exited code) t i = i
      judged (succeeded v) t i = number (parse_int v) t i

  freshness-Ends : (c : CheckConfig) (s : Session) → I s → Ends I B (run_freshness deps c s)
  unfolding run_freshness judge_newest judge_freshness
  freshness-Ends c s h = ident-Ends c.table s _ h λ table.
      ident-Ends c.column s _ h
        λ column. then-Ends (query deps _ s) (judge_freshness deps c.max_age) (asks _ s h) judged
    where
      newest : (o : Option ℕ) (t : Session) → I t → Ends I B (judge_newest deps c.max_age o t)
      newest none t i = i
      newest (some at) t i = i

      judged :
          (out : QueryResult) (t : Session) → I t → Ends I B (judge_freshness deps c.max_age out t)
      judged (exited code) t i = i
      judged (succeeded []) t i = i
      judged (succeeded (v ∷ vs)) t i = newest (parse_timestamp deps (v ∷ vs)) t i

  healthcheck-Ends : (s : Session) → I s → Ends I B (run_healthcheck deps s)
  unfolding run_healthcheck
  healthcheck-Ends s h = by (deps.healthcheck s.requests)
    where
      by :
          (o : Option (Bool × Bytes))
          → Ends I B (elim o as (λ _. Ran Found) [
            | none ↦ stopped healthcheck_failed s
            | some hd ↦ done (record { ok = hd.0; detail = hd.1; newest = none }) s
          ])
      by none = (h, ill)
      by (some hd) = h

  tables_one-Ends :
      (t : Bytes × Expectation) (s : Session)
      → I s
      → Judges (judge_expectation t.1)
      → Ends I B (run_one_baseline deps t s)
  unfolding run_one_baseline
  tables_one-Ends (table, want) s h j =
      ident-Ends table s _ h λ ident. count-Ends ident (judge_expectation want) s h j

  if-Ends :
      (b : Bool) (x y : Ran Found)
      → (b ≡ true → Ends I B x)
      → (b ≡ false → Ends I B y)
      → Ends I B (if b then x else y)
  if-Ends true x y f g = f refl
  if-Ends false x y f g = g refl

  -- Who is to blame if the kind of a check is none, or if a count has no bounds.
  pub record Fits (c : CheckConfig) : Type 0 where
    pub known :
        is_empty c.sql ≡ true
        → beq c.builtin check_service_healthy ≡ false
        → beq c.builtin check_table_exists ≡ false
        → beq c.builtin check_row_count ≡ false
        → beq c.builtin check_freshness ≡ false
        → B unrunnable
    pub bounded :
        is_empty c.sql ≡ true
        → beq c.builtin check_row_count ≡ true
        → Judges (judge_bounds c.min c.max)

  kind-Ends : (c : CheckConfig) (s : Session) → I s → Fits c → Ends I B (run_kind deps c s)
  unfolding run_kind run_row_count
  kind-Ends c s h f =
      if-Ends (not (is_empty c.sql)) _ _ (λ e. sql-Ends c.sql (scalar_text c.expect) s h)
        λ e.
          if-Ends (beq c.builtin check_service_healthy) _ _ (λ e1. healthcheck-Ends s h)
            λ e1.
              if-Ends (beq c.builtin check_table_exists) _ _ (λ e2. exists-Ends c.table s h)
                λ e2.
                  if-Ends (beq c.builtin check_row_count) _ _
                    (λ e3. ident-Ends c.table s _ h λ ident.
                      count-Ends ident (judge_bounds c.min c.max) s h
                        (f.bounded (not-false _ e) e3))
                    λ e3.
                      if-Ends (beq c.builtin check_freshness) _ _ (λ e4. freshness-Ends c s h)
                        λ e4. (h, f.known (not-false _ e) e1 e2 e3 e4)

  report-Left : (name : Bytes) (r : Ran Found) → Ends I B r → Left I B (report deps name r)
  unfolding report
  report-Left name (done v s) h = record { kept = h; blamed = λ f e. cc }
  report-Left name (stopped g s) h = record { kept = h.0; blamed = λ f e. subst B (of_some e) h.1 }
    where
      of_some : {a b : Fault} → some a ≡ some b → a ≡ b
      of_some e = cc

  proceed-Left : (p q : Progress) → Left I B p → Left I B q → Left I B (proceed p q)
  unfolding proceed
  proceed-Left p q a b = by p.fault
    where
      by : (o : Option Fault) → Left I B (elim o [ some f ↦ p | none ↦ behind p.results q ])
      by none = record { kept = b.kept; blamed = b.blamed }
      by (some f) = a

  tables-Left :
      (ts : List (Bytes × Expectation)) (s : Session)
      → I s
      → All (λ t. Judges (judge_expectation t.1)) ts
      → Left I B (run_tables deps ts s)
  unfolding run_tables
  tables-Left [] s h j = record { kept = h; blamed = λ f e. cc }
  tables-Left (t ∷ ts) s h j =
      let first =
        report-Left (check_baseline ++ codes ":" ++ t.0) (run_one_baseline deps t s)
          (tables_one-Ends t s h j.0) in
      proceed-Left _ (run_tables deps ts _) first (tables-Left ts _ first.kept j.1)

  check-Left :
      (c : CheckConfig) (i : ℕ) (s : Session)
      → I s
      → (beq c.builtin check_baseline ≡ false → Fits c)
      → All (λ t. Judges (judge_expectation t.1)) (sorted deps.baseline)
      → Left I B (run_check deps c i s)
  unfolding run_check run_baseline run_one
  check-Left c i s h f j = by (beq c.builtin check_baseline) f
    where
      by :
          (b : Bool)
          → (b ≡ false → Fits c)
          → Left I B (if b then run_tables deps (sorted deps.baseline) s else run_one deps c i s)
      by true f = tables-Left (sorted deps.baseline) s h j
      by false f = report-Left (check_name c i) (run_kind deps c s) (kind-Ends c s h (f refl))

  pub from-Left :
      (i : ℕ) (cs : List CheckConfig) (s : Session)
      → I s
      → All (λ c. beq c.builtin check_baseline ≡ false → Fits c) cs
      → All (λ t. Judges (judge_expectation t.1)) (sorted deps.baseline)
      → Left I B (run_from deps i cs s)
  unfolding run_from
  from-Left i [] s h f j = record { kept = h; blamed = λ f e. cc }
  from-Left i (c ∷ cs) s h f j =
      let first = check-Left c i s h f.0 j in
      proceed-Left (run_check deps c i s) (run_from deps (suc i) cs _) first
        (from-Left (suc i) cs _ first.kept f.1 j)

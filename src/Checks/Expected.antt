-- ===== src/Checks/Expected.antt =====
-- The checks of a configuration that was validated, on the baseline of a manifest that was: the
-- faults that the code calls bugs do not happen.
use probavi.Base.{
  ◌≡◌, ◌≢◌, refl, sym, ap, ◌∙◌, Bool, true, false, Option, none, some, List, [], ◌∷◌, is_empty,
  is_empty-of_ne, beq, beq_iff, true≢false, inl, inr, subst, if◌then◌else◌, All, Option-cases,
  Bytes,
}
use probavi.Base.Int.{ℤ, pos, eq_int}
use probavi.Manifest.{Expectation, Manifest, satisfied, validate, tables_of, sorted}
use probavi.Manifest.Usable.{IsCounted, Each, count-satisfied, validate-IsUsable}
use probavi.Manifest.Complete.{Each-sorted}
use probavi.Config.Check.{
  CheckConfig, validate_each, check_service_healthy, check_table_exists, check_row_count,
  check_freshness, check_baseline,
}
use probavi.Config.Check.Runnable.{
  Bounds, Runnable, healthy, exists_table, counts, fresh, reconciles, asserts,
}
use probavi.Config.Check.Kinds.{validate_each_iff}
use probavi.Checks.Runner.{
  Deps, Session, Fault, ExecRequest, ExecResult, done, invalid_identifier, healthcheck_failed,
  unrunnable, nil_dereference, render_argv, render_runner, render_command, filled_request,
  execute_request, answer_query, query, QueryResult, sent, render_env,
}
use probavi.Checks.Kinds.{bounds_text, judge_bounds, judge_expectation}
use probavi.Checks.Ends.{Ends, Fits, from-Left}
use probavi.Checks.Loop.{run_checks}

-- A fault of the world or of the names that the checks are about.
record IsOutside (f : Fault) : Type 0 where
  runnable : f ≢ unrunnable
  no_panic : f ≢ nil_dereference

abbrev Anything : Session → Type 0
Anything s = Unit

filled-Ends :
    (deps : Deps) (sql : Bytes) (o : Option (List Bytes)) (s : Session)
    → Ends Anything IsOutside
        (execute_request deps (filled_request deps.runner deps.target sql o) s)
unfolding answer_query
filled-Ends deps sql none s = (tt, record { runnable = λ e. cc; no_panic = λ e. cc })
filled-Ends deps sql (some argv) s = answered (deps.exec s.requests (request argv)) (request argv)
  where
    request : List Bytes → ExecRequest
    request argv = record { argv = argv; env = render_env deps.target sql deps.runner.env }

    read :
        (b : Bool) (x y : QueryResult) (t u : Session)
        → Ends Anything IsOutside (if b then done x t else done y u)
    read true x y t u = tt
    read false x y t u = tt

    answered :
        (o : Option ExecResult) (req : ExecRequest)
        → Ends Anything IsOutside (answer_query deps req o (sent req s))
    answered none req = (tt, record { runnable = λ e. cc; no_panic = λ e. cc })
    answered (some res) req = read (eq_int res.exit_code (pos 0)) _ _ _ _

query-Ends :
    (deps : Deps) (sql : Bytes) (s : Session)
    → Anything s
    → Ends Anything IsOutside (query deps sql s)
unfolding query render_runner
query-Ends deps sql s h = by deps.runner.argv
  where
    by :
        (argv : List Bytes)
        → Ends Anything IsOutside
            (execute_request deps (render_command deps.runner deps.target sql argv) s)
    by [] = (tt, record { runnable = λ e. cc; no_panic = λ e. cc })
    by (a ∷ argv) = filled-Ends deps sql (render_argv deps.target sql (a ∷ argv)) s

-- No judgement panics.
judge_bounds-total : (lo hi : Option ℤ) → Bounds lo hi → (n : ℤ) → judge_bounds lo hi n ≢ none
unfolding judge_bounds bounds_text
judge_bounds-total (some lo) none b n = λ e. cc
judge_bounds-total (some lo) (some hi) b n = λ e. cc
judge_bounds-total none (some hi) b n = λ e. cc
judge_bounds-total none none b n = elim b [ ]

judge_expectation-total :
    (t : Bytes × Expectation) → IsCounted t → (n : ℤ) → judge_expectation t.1 n ≢ none
unfolding judge_expectation
judge_expectation-total (table, want) h n = elim (Option-cases (satisfied want n)) [
  | inl e ↦ absurd ((count-satisfied want h.1).0 n e)
  | inr (ok, e) ↦ rw (e, judge_expectation) (λ q. cc)
]

outside : (f : Fault) → f ≢ unrunnable → f ≢ nil_dereference → IsOutside f
outside f a b = record { runnable = a; no_panic = b }

misnamed-IsOutside : IsOutside invalid_identifier
misnamed-IsOutside = outside _ (λ e. cc) (λ e. cc)

ill-IsOutside : IsOutside healthcheck_failed
ill-IsOutside = outside _ (λ e. cc) (λ e. cc)

module _ (deps : Deps) where
  abbrev FitsOutside : CheckConfig → Type 0
  FitsOutside c = Fits deps Anything IsOutside (query-Ends deps) misnamed-IsOutside ill-IsOutside c

  is_kind : (x k : Bytes) → x ≡ k → ¬ (beq x k ≡ false)
  is_kind x k e f = true≢false (sym ((beq_iff x k).1 e) ∙ f)

  other_kind : (x k j : Bytes) → x ≡ k → beq k j ≡ false → ¬ (beq x j ≡ true)
  other_kind x k j e f t = true≢false (sym t ∙ ap (λ z. beq z j) e ∙ f)

  has_sql : (s : Bytes) → s ≢ [] → ¬ (is_empty s ≡ true)
  has_sql s n e = true≢false (sym e ∙ is_empty-of_ne s n)

  Runnable-Fits :
      (m : Bool) (c : CheckConfig)
      → Runnable m c
      → beq c.builtin check_baseline ≡ false
      → FitsOutside c
  unfolding beq
  Runnable-Fits m c (healthy b f) e = record {
    known = λ q h1 h2 h3 h4. absurd (is_kind _ check_service_healthy b.0 h1);
    bounded = λ q h. absurd (other_kind _ check_service_healthy check_row_count b.0 refl h);
  }
  Runnable-Fits m c (exists_table b t f) e = record {
    known = λ q h1 h2 h3 h4. absurd (is_kind _ check_table_exists b.0 h2);
    bounded = λ q h. absurd (other_kind _ check_table_exists check_row_count b.0 refl h);
  }
  Runnable-Fits m c (counts b t f r) e = record {
    known = λ q h1 h2 h3 h4. absurd (is_kind _ check_row_count b.0 h3);
    bounded = λ q h n k. absurd (judge_bounds-total c.min c.max r n k);
  }
  Runnable-Fits m c (fresh b t f k a) e = record {
    known = λ q h1 h2 h3 h4. absurd (is_kind _ check_freshness b.0 h4);
    bounded = λ q h. absurd (other_kind _ check_freshness check_row_count b.0 refl h);
  }
  Runnable-Fits m c (reconciles b f d) e = absurd (is_kind _ check_baseline b.0 e)
  Runnable-Fits m c (asserts b s x f) e = record {
    known = λ q h1 h2 h3 h4. absurd (has_sql c.sql s q);
    bounded = λ q h. absurd (has_sql c.sql s q);
  }

  All-Fits :
      (m : Bool) (cs : List CheckConfig)
      → All (Runnable m) cs
      → All (λ c. beq c.builtin check_baseline ≡ false → FitsOutside c) cs
  All-Fits m [] h = tt
  All-Fits m (c ∷ cs) h = (Runnable-Fits m c h.0, All-Fits m cs h.1)

  judges :
      (ts : List (Bytes × Expectation))
      → Each IsCounted ts
      → All {0, 0} (λ t. (n : ℤ) → judge_expectation t.1 n ≡ none → IsOutside nil_dereference) ts
  judges [] h = tt
  judges (t ∷ ts) (p, ps) = ((λ n e. absurd (judge_expectation-total t p n e)), judges ts ps)

-- If the checks of a configuration passed its validation, and the baseline is that of a manifest
-- without a fault, then a run of the checks comes to no check that cannot be run and dereferences
-- no nil pointer.
pub run_checks-IsOutside :
    (deps : Deps) (m : Manifest) (has_manifest : Bool) (list : List CheckConfig) (f : Fault)
    → validate_each has_manifest list ≡ []
    → validate m ≡ none
    → deps.baseline ≡ tables_of m
    → (run_checks deps list).fault ≡ some f
    → (f ≢ unrunnable) × (f ≢ nil_dereference)
unfolding run_checks
run_checks-IsOutside deps m has_manifest list f v w b e =
    let counted =
      subst (λ ts. Each IsCounted (sorted ts)) (sym b)
        (Each-sorted (tables_of m) (validate-IsUsable m w).counted) in
    let run =
      from-Left deps Anything IsOutside (query-Ends deps) misnamed-IsOutside ill-IsOutside 0 list _
        tt (All-Fits deps has_manifest list ((validate_each_iff has_manifest list).0 v))
        (judges deps (sorted deps.baseline) counted) in
    let o = run.blamed f e in (o.runnable, o.no_panic)

-- ===== src/Checks/Reports.antt =====
-- What a run reports: a result for each check that was run, under its name, in the order of the
-- configuration.
use probavi.Base.{
  ℕ, suc, ◌≤◌, ◌≡◌, refl, sym, ap, ◌∙◌, Bool, true, false, Option, none, some, List, [], ◌∷◌, ◌++◌,
  append-nil, append_assoc, if◌then◌else◌, beq, length, codes, All, All-append, Bytes,
}
use probavi.Redact.{string}
use probavi.Evidence.Truncate.{max_detail_bytes}
use probavi.Evidence.Truncate.Laws.{truncate_line-Shortens}
use probavi.Manifest.{Expectation, sorted}
use probavi.Config.Check.{CheckConfig, check_baseline}
use probavi.Core.World.{CheckResult}
use probavi.Checks.Runner.{Deps, Session, Fault, Ran, done, stopped}
use probavi.Checks.Kinds.{Found, truncate_detail, run_one_baseline}
use probavi.Checks.Loop.{
  check_name, run_kind, result_of, Progress, behind, run_tables, run_baseline, run_one, report,
  proceed, run_check, run_from, run_checks,
}

unfoldable pub names_of : List CheckResult → List Bytes
names_of [] = []
names_of (r ∷ rs) = r.name ∷ names_of rs

unfoldable pub table_names : List (Bytes × Expectation) → List Bytes
table_names [] = []
table_names (t ∷ ts) = (check_baseline ++ codes ":" ++ t.0) ∷ table_names ts

-- The names of the results of one check: a reconciliation has one for each declared table.
unfoldable pub names_for : Deps → CheckConfig → ℕ → List Bytes
unfolding table_names
names_for deps c i =
    if beq c.builtin check_baseline then table_names (sorted deps.baseline) else check_name c i ∷ []

unfoldable pub expected_names : Deps → ℕ → List CheckConfig → List Bytes
unfolding names_for
expected_names deps i [] = []
expected_names deps i (c ∷ cs) = names_for deps c i ++ expected_names deps (suc i) cs

-- The results stand under the first of the names, and under all of them unless the run stopped.
pub record Reports (names : List Bytes) (p : Progress) : Type 0 where
  pub missing : List Bytes
  pub named : names_of p.results ++ missing ≡ names
  pub complete : p.fault ≡ none → missing ≡ []
  pub short : All (λ r. length r.detail ≤ max_detail_bytes) p.results

result_of-short :
    (deps : Deps) (name : Bytes) (v : Found)
    → length (result_of deps name v).detail ≤ max_detail_bytes
unfolding result_of truncate_detail
result_of-short deps name v =
    (truncate_line-Shortens (string deps.redact v.detail) max_detail_bytes).fits

report-Reports :
    (deps : Deps) (name : Bytes) (r : Ran Found) → Reports (name ∷ []) (report deps name r)
unfolding report names_of
report-Reports deps name (stopped f s) = record {
  missing = name ∷ [];
  named = refl;
  complete = λ e. cc;
  short = tt;
}
report-Reports deps name (done v s) = record {
  missing = [];
  named = refl;
  complete = λ e. refl;
  short = (result_of-short deps name v, tt);
}

names_of-append : (rs qs : List CheckResult) → names_of (rs ++ qs) ≡ names_of rs ++ names_of qs
unfolding names_of
names_of-append [] qs = refl
names_of-append (r ∷ rs) qs = ap (λ ns. r.name ∷ ns) (names_of-append rs qs)

-- A part that ended, and what follows it.
behind-Reports :
    {names more : List Bytes} {p q : Progress}
    → Reports names p
    → p.fault ≡ none
    → Reports more q
    → Reports (names ++ more) (behind p.results q)
behind-Reports {names} {more} {p} {q} a e b = record {
  missing = b.missing;
  named =
      ap (λ ns. ns ++ b.missing) (names_of-append p.results q.results)
      ∙ append_assoc (names_of p.results) (names_of q.results) b.missing
      ∙ ap (λ ns. names_of p.results ++ ns) b.named
      ∙ ap (λ ns. ns ++ more) all_named;
  complete = b.complete;
  short = All-append _ p.results q.results a.short b.short;
}
  where
    all_named : names_of p.results ≡ names
    all_named =
        sym (append-nil (names_of p.results))
        ∙ ap (λ ns. names_of p.results ++ ns) (sym (a.complete e))
        ∙ a.named

-- A part that stopped the run.
broken-Reports :
    {names : List Bytes} (more : List Bytes) {p : Progress} {f : Fault}
    → Reports names p
    → p.fault ≡ some f
    → Reports (names ++ more) p
broken-Reports more {p} a e = record {
  missing = a.missing ++ more;
  named = sym (append_assoc (names_of p.results) a.missing more) ∙ ap (λ ns. ns ++ more) a.named;
  complete = λ k. cc;
  short = a.short;
}

proceed-Reports :
    {names : List Bytes} (more : List Bytes) {p q : Progress}
    → Reports names p
    → Reports more q
    → Reports (names ++ more) (proceed p q)
unfolding proceed
proceed-Reports {names} more {p} {q} a b = by p.fault refl
  where
    by :
        (o : Option Fault)
        → p.fault ≡ o
        → Reports (names ++ more) (elim o [ some f ↦ p | none ↦ behind p.results q ])
    by none e = behind-Reports a e b
    by (some f) e = broken-Reports more a e

run_tables-Reports :
    (deps : Deps) (ts : List (Bytes × Expectation)) (s : Session)
    → Reports (table_names ts) (run_tables deps ts s)
unfolding run_tables table_names names_of
run_tables-Reports deps [] s = record {
  missing = [];
  named = refl;
  complete = λ e. refl;
  short = tt;
}
run_tables-Reports deps (t ∷ ts) s =
    let name = check_baseline ++ codes ":" ++ t.0 in
    let p = report deps name (run_one_baseline deps t s) in
    proceed-Reports (table_names ts) (report-Reports deps name (run_one_baseline deps t s))
      (run_tables-Reports deps ts p.session)

run_check-Reports :
    (deps : Deps) (c : CheckConfig) (i : ℕ) (s : Session)
    → Reports (names_for deps c i) (run_check deps c i s)
unfolding run_check names_for run_baseline run_one
run_check-Reports deps c i s = by (beq c.builtin check_baseline)
  where
    by :
        (b : Bool)
        → Reports
            (if b then table_names (sorted deps.baseline) else check_name c i ∷ [])
            (if b then run_tables deps (sorted deps.baseline) s else run_one deps c i s)
    by true = run_tables-Reports deps (sorted deps.baseline) s
    by false = report-Reports deps (check_name c i) (run_kind deps c s)

run_from-Reports :
    (deps : Deps) (i : ℕ) (cs : List CheckConfig) (s : Session)
    → Reports (expected_names deps i cs) (run_from deps i cs s)
unfolding run_from expected_names names_of
run_from-Reports deps i [] s = record {
  missing = [];
  named = refl;
  complete = λ e. refl;
  short = tt;
}
run_from-Reports deps i (c ∷ cs) s =
    proceed-Reports (expected_names deps (suc i) cs) (run_check-Reports deps c i s)
      (run_from-Reports deps (suc i) cs (run_check deps c i s).session)

-- A run reports the checks in the order of the configuration, each under its name and a
-- reconciliation under the name of each declared table; no detail is over its limit, and no result
-- is missing unless the run stopped.
pub run_checks-Reports :
    (deps : Deps) (list : List CheckConfig)
    → Reports (expected_names deps 0 list) (run_checks deps list)
unfolding run_checks
run_checks-Reports deps list = run_from-Reports deps 0 list (record { requests = []; log = [] })

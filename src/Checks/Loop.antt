-- ===== src/Checks/Loop.antt =====
-- internal/checks/checks.go: the run over the checks of a drill.
use probavi.Base.{
  ℕ, suc, not, Option, none, some, List, [], ◌∷◌, ◌++◌, if◌then◌else◌, beq, is_empty, codes, Bytes,
}
use probavi.Evidence.Marshal.{decimal}
use probavi.Manifest.{Expectation, sorted}
use probavi.Config.Check.{
  CheckConfig, check_service_healthy, check_table_exists, check_row_count, check_freshness,
  check_baseline,
}
use probavi.Core.World.{CheckResult}
use probavi.Checks.Runner.{Deps, Session, Fault, Ran, done, stopped, unrunnable}
use probavi.Checks.Freshness.{run_freshness}
use probavi.Checks.Kinds.{
  Found, scalar_text, truncate_detail, run_sql, run_healthcheck, run_table_exists, run_row_count,
  run_one_baseline,
}

-- `checkName`.
unfoldable pub check_name : CheckConfig → ℕ → Bytes
check_name c i =
    if not (is_empty c.sql)
    then (if not (is_empty c.name) then codes "sql:" ++ c.name else codes "sql:" ++ decimal i)
    else if beq c.builtin check_table_exists
    then c.builtin ++ codes ":" ++ c.table
    else if beq c.builtin check_row_count
    then c.builtin ++ codes ":" ++ c.table
    else if beq c.builtin check_freshness
    then c.builtin ++ codes ":" ++ c.table ++ codes "." ++ c.column
    else c.builtin

-- The switch of `runOne`.
unfoldable pub run_kind : Deps → CheckConfig → Session → Ran Found
unfolding run_sql run_healthcheck run_table_exists run_row_count run_freshness
run_kind deps c s =
    if not (is_empty c.sql)
    then run_sql deps c.sql (scalar_text c.expect) s
    else if beq c.builtin check_service_healthy
    then run_healthcheck deps s
    else if beq c.builtin check_table_exists
    then run_table_exists deps c.table s
    else if beq c.builtin check_row_count
    then run_row_count deps c s
    else if beq c.builtin check_freshness
    then run_freshness deps c s
    else stopped unrunnable s

unfoldable pub result_of : Deps → Bytes → Found → CheckResult
unfolding truncate_detail
result_of deps name v = record {
  name = name;
  passed = v.ok;
  newest_data = v.newest;
  detail = truncate_detail deps v.detail;
}

-- The results so far, and why the run stopped, if it did.
pub record Progress : Type 0 where
  pub results : List CheckResult
  pub fault : Option Fault
  pub session : Session

abbrev pub behind : List CheckResult → Progress → Progress
behind rs p = record p { results = rs ++ p.results }

-- One check's result, or why there is none.
unfoldable pub report : Deps → Bytes → Ran Found → Progress
unfolding result_of
report deps name (stopped f s) = record { results = []; fault = some f; session = s }
report deps name (done v s) = record {
  results = result_of deps name v ∷ [];
  fault = none;
  session = s;
}

-- A part of the run, and what follows it unless the part stopped the run.
unfoldable pub proceed : Progress → Progress → Progress
proceed p rest = elim p.fault [ some f ↦ p | none ↦ behind p.results rest ]

-- The loop of `runBaseline` over the sorted tables.
unfoldable pub run_tables : Deps → List (Bytes × Expectation) → Session → Progress
unfolding run_one_baseline report proceed
run_tables deps [] s = record { results = []; fault = none; session = s }
run_tables deps (t ∷ ts) s =
    let p = report deps (check_baseline ++ codes ":" ++ t.0) (run_one_baseline deps t s) in
    proceed p (run_tables deps ts p.session)

-- `runBaseline`.
unfoldable pub run_baseline : Deps → Session → Progress
unfolding run_tables sorted
run_baseline deps s = run_tables deps (sorted deps.baseline) s

-- `runOne` at a position, as results.
unfoldable pub run_one : Deps → CheckConfig → ℕ → Session → Progress
unfolding run_kind check_name report
run_one deps c i s = report deps (check_name c i) (run_kind deps c s)

-- One turn of the loop of `Run`.
unfoldable pub run_check : Deps → CheckConfig → ℕ → Session → Progress
unfolding run_baseline run_one
run_check deps c i s =
    if beq c.builtin check_baseline then run_baseline deps s else run_one deps c i s

-- The loop of `Run`, from a position on.
unfoldable pub run_from : Deps → ℕ → List CheckConfig → Session → Progress
unfolding run_check proceed
run_from deps i [] s = record { results = []; fault = none; session = s }
run_from deps i (c ∷ cs) s =
    let p = run_check deps c i s in proceed p (run_from deps (suc i) cs p.session)

-- `Run`.
unfoldable pub run_checks : Deps → List CheckConfig → Progress
unfolding run_from
run_checks deps list = run_from deps 0 list (record { requests = []; log = [] })

-- ===== src/Checks/Kinds.antt =====
-- internal/checks/checks.go: one check of each kind.
use probavi.Base.{
  ℕ, Bool, true, false, ◌&&◌, Option, none, some, [], ◌∷◌, ◌++◌, if◌then◌else◌, beq, codes, Bytes,
}
use probavi.Base.Int.{ℤ, le_int}
use probavi.Redact.{string}
use probavi.Evidence.Marshal.{format_int}
use probavi.Evidence.Truncate.{truncate_line, max_detail_bytes}
use probavi.Manifest.{Expectation, satisfied}
use probavi.Config.Check.{CheckConfig, check_table_exists, check_row_count}
use probavi.Checks.Text.{parse_int}
use probavi.Checks.Runner.{
  Deps, Session, Ran, done, stopped, and_then, invalid_identifier, nil_dereference,
  healthcheck_failed, QueryResult, succeeded, exited, quote, statement, query,
}

-- What one check found: `ok`, its detail, and the instant that it read.
pub record Found : Type 0 where
  pub ok : Bool
  pub detail : Bytes
  pub newest : Option ℕ

abbrev pub found : Bool → Bytes → Found
found ok detail = record { ok = ok; detail = detail; newest = none }

-- `truncateDetail`.
unfoldable pub truncate_detail : Deps → Bytes → Bytes
unfolding string truncate_line
truncate_detail deps s = truncate_line (string deps.redact s) max_detail_bytes

-- `runnerFailure`.
unfoldable pub runner_failure : ℤ → Bytes
runner_failure code = codes "sql_runner exited " ++ format_int code

-- `quote`, and then what needs the identifier.
unfoldable pub with_ident : Deps → Bytes → Session → (Bytes → Ran Found) → Ran Found
unfolding quote
with_ident deps name s k = elim (quote deps.dialect name) [
  | none ↦ stopped invalid_identifier s
  | some ident ↦ k ident
]

unfoldable pub judge_sql : Bytes → QueryResult → Session → Ran Found
unfolding runner_failure
judge_sql expect (exited code) s =
    done (found false (codes "query failed: " ++ runner_failure code)) s
judge_sql expect (succeeded value) s =
    if beq value expect
    then done (found true (codes "matched expectation")) s
    else done (found false (codes "query returned a different value than expected")) s

-- `Scalar.String`.
abbrev pub scalar_text : Option Bytes → Bytes
scalar_text none = []
scalar_text (some v) = v

-- `runSQL`.
unfoldable pub run_sql : Deps → Bytes → Bytes → Session → Ran Found
unfolding and_then query judge_sql
run_sql deps sql expect s = and_then (query deps sql s) (judge_sql expect)

unfoldable pub judge_exists : QueryResult → Session → Ran Found
unfolding runner_failure
judge_exists (exited code) s =
    done (found false (codes "table is not queryable: " ++ runner_failure code)) s
judge_exists (succeeded value) s = done (found true (codes "table exists")) s

-- `runTableExists`.
unfoldable pub run_table_exists : Deps → Bytes → Session → Ran Found
unfolding with_ident and_then query statement judge_exists
run_table_exists deps table s = with_ident deps table s λ ident.
    and_then
      (query deps
        (statement deps.dialect check_table_exists
          (codes "SELECT count(*) FROM " ++ ident ++ codes " WHERE 1=0") ident [])
        s)
      judge_exists

-- The statement that counts, of `runRowCount` and `runOneBaseline`.
unfoldable pub count_rows : Deps → Bytes → Session → Ran QueryResult
unfolding query statement
count_rows deps ident s =
    query deps
      (statement deps.dialect check_row_count (codes "SELECT count(*) FROM " ++ ident) ident []) s

-- The verdict on a number that was read, `none` if a nil pointer was dereferenced for it.
abbrev pub found_or_panic : Option Found → Session → Ran Found
found_or_panic none s = stopped nil_dereference s
found_or_panic (some v) s = done v s

abbrev pub judge_number : Option ℤ → (ℤ → Option Found) → Session → Ran Found
judge_number none judge s = done (found false (codes "count query returned unexpected output")) s
judge_number (some n) judge s = found_or_panic (judge n) s

unfoldable pub judge_count : (ℤ → Option Found) → QueryResult → Session → Ran Found
unfolding runner_failure parse_int
judge_count judge (exited code) s =
    done (found false (codes "count query failed: " ++ runner_failure code)) s
judge_count judge (succeeded value) s = judge_number (parse_int value) judge s

-- `boundsText`, `none` for the dereference of a nil bound.
unfoldable pub bounds_text : Option ℤ → Option ℤ → Option Bytes
bounds_text (some lo) (some hi) =
    some (codes "min " ++ format_int lo ++ codes ", max " ++ format_int hi)
bounds_text (some lo) none = some (codes "min " ++ format_int lo)
bounds_text none (some hi) = some (codes "max " ++ format_int hi)
bounds_text none none = none

abbrev pub at_least : Option ℤ → ℤ → Bool
at_least none n = true
at_least (some lo) n = le_int lo n

abbrev pub at_most : Option ℤ → ℤ → Bool
at_most none n = true
at_most (some hi) n = le_int n hi

unfoldable pub judge_bounds : Option ℤ → Option ℤ → ℤ → Option Found
unfolding bounds_text
judge_bounds lo hi n = elim (bounds_text lo hi) [
  | none ↦ none
  | some text ↦
      some (
        found (at_least lo n && at_most hi n)
          (format_int n ++ codes " rows (" ++ text ++ codes ")"))
]

-- `runRowCount`.
unfoldable pub run_row_count : Deps → CheckConfig → Session → Ran Found
unfolding with_ident and_then count_rows judge_count judge_bounds
run_row_count deps c s =
    with_ident deps c.table s
      λ ident. and_then (count_rows deps ident s) (judge_count (judge_bounds c.min c.max))

-- `Expectation.String` under the verb %s, which prints a panic of it.
unfoldable pub expectation_text : Expectation → Bytes
expectation_text e = elim e.rows [
  | some n ↦ format_int n
  | none ↦ elim e.rows_min [
    | none ↦ panicked
    | some lo ↦ elim e.rows_max [
      | none ↦ panicked
      | some hi ↦ format_int lo ++ (226 ∷ 128 ∷ 147 ∷ []) ++ format_int hi
    ]
  ]
]
  where
    panicked : Bytes
    panicked =
        codes
          "%!s(PANIC=String method: runtime error: invalid memory address or nil pointer dereference)"

unfoldable pub judge_expectation : Expectation → ℤ → Option Found
unfolding satisfied expectation_text
judge_expectation want n = elim (satisfied want n) [
  | none ↦ none
  | some ok ↦ some (
      found ok (
        format_int n
        ++ codes " rows (backup manifest states "
        ++ expectation_text want
        ++ codes ")"))
]

-- `runOneBaseline`.
unfoldable pub run_one_baseline : Deps → Bytes × Expectation → Session → Ran Found
unfolding with_ident and_then count_rows judge_count judge_expectation
run_one_baseline deps (table, want) s =
    with_ident deps table s
      λ ident. and_then (count_rows deps ident s) (judge_count (judge_expectation want))

-- `Healthcheck`, as `runOne` calls it.
unfoldable pub run_healthcheck : Deps → Session → Ran Found
run_healthcheck deps s = elim (deps.healthcheck s.requests) [
  | none ↦ stopped healthcheck_failed s
  | some hd ↦ done (found hd.0 hd.1) s
]

-- ===== src/Checks/Runner.antt =====
-- internal/checks/runner.go, and the dialect of checks.go: a statement is put into the runner's
-- template and executed in the sandbox.
use probavi.Base.{
  ℕ, Bool, ◌⊎◌, inl, inr, Option, none, some, List, [], ◌∷◌, ◌++◌, if◌then◌else◌, beq, is_empty,
  codes, Bytes,
}
use probavi.Base.Int.{ℤ, pos, eq_int}
use probavi.Redact.{Redactor, string, replace_all}
use probavi.Manifest.{Expectation, split_dots, is_identifier}
use probavi.Checks.Text.{replace, has_part, join}

-- `Runner`, its environment by names and values.
pub record Runner : Type 0 where
  pub argv : List Bytes
  pub env : List (Bytes × Bytes)

pub record Login : Type 0 where
  pub user : Bytes
  pub database : Bytes
  pub password : Bytes

-- `Dialect`; a statement stands under its kind.
pub record Dialect : Type 0 where
  pub statements : List (Bytes × Bytes)
  pub opening : Bytes
  pub closing : Bytes
  pub separator : Bytes

pub record ExecRequest : Type 0 where
  pub argv : List Bytes
  pub env : List (Bytes × Bytes)

pub record ExecResult : Type 0 where
  pub exit_code : ℤ
  pub stdout : Bytes
  pub stderr : Bytes
  pub truncated : Bool

-- What `logRunnerFailure` writes.
pub record Warning : Type 0 where
  pub runner : Bytes
  pub exit_code : ℤ
  pub stderr : Bytes
  pub stderr_truncated : Bool

-- What a run has done so far, the latest first.
pub record Session : Type 0 where
  pub requests : List ExecRequest
  pub log : List Warning

-- `Deps`. A collaborator may answer by what was executed before it is asked; `none` is an error of
-- it. The texts of blanks, durations and instants are those of the packages strings and time; an
-- instant counts the nanoseconds from one before any that a layout spells.
pub record Deps : Type 0 where
  pub exec : List ExecRequest → ExecRequest → Option ExecResult
  pub healthcheck : List ExecRequest → Option (Bool × Bytes)
  pub runner : Runner
  pub target : Login
  pub now : List ExecRequest → ℕ
  pub redact : Option Redactor
  pub dialect : Dialect
  pub baseline : List (Bytes × Expectation)
  pub trim_space : Bytes → Bytes
  pub duration_text : ℤ → Bytes
  pub parse_in_utc : Bytes → Bytes → Option ℕ

-- Why a run stops: its errors, and the dereference of a nil pointer.
pub data Fault : Type 0 where
  template_empty password_in_argv exec_failed healthcheck_failed : Fault
  invalid_identifier unrunnable nil_dereference : Fault

pub data Ran {ℓ} (A : Type ℓ) : Type ℓ where
  done : A → Session → Ran A
  stopped : Fault → Session → Ran A

unfoldable pub and_then {ℓ κ} : {A : Type ℓ} {B : Type κ} → Ran A → (A → Session → Ran B) → Ran B
and_then (done a s) k = k a s
and_then (stopped f s) k = stopped f s

abbrev pub lookup : List (Bytes × Bytes) → Bytes → Option Bytes
lookup [] k = none
lookup (p ∷ ps) k = if beq p.0 k then some p.1 else lookup ps k

-- `Dialect.statement`.
unfoldable pub statement : Dialect → Bytes → Bytes → Bytes → Bytes → Bytes
unfolding replace
statement d kind composed table column = elim (lookup d.statements kind) [
  | none ↦ composed
  | some tmpl ↦ replace ((codes "{{table}}", table) ∷ (codes "{{column}}", column) ∷ []) 0 tmpl
]

unfoldable pub quote_each : Bytes → Bytes → List Bytes → List Bytes
quote_each opening closing [] = []
quote_each opening closing (part ∷ parts) =
    (opening ++ part ++ closing) ∷ quote_each opening closing parts

unfoldable pub quote_parts : Bytes → Bytes → Bytes → Bytes → Option Bytes
unfolding quote_each join is_identifier split_dots
quote_parts opening closing sep name =
    if is_identifier name
    then some (join sep (quote_each opening closing (split_dots name)))
    else none

-- `Dialect.quote`, `none` for its error.
unfoldable pub quote : Dialect → Bytes → Option Bytes
unfolding quote_parts
quote d name =
    if is_empty d.separator
    then quote_parts (codes "\"") (codes "\"") (codes ".") name
    else quote_parts d.opening d.closing d.separator name

-- The closure `replace` of `renderRunner`.
unfoldable pub fill : Login → Bytes → Bytes → Bytes
unfolding replace
fill t sql s = replace ((codes "{{sql}}", sql) ∷ []) 0 (
    replace ((codes "{{database}}", t.database) ∷ []) 0
      (replace ((codes "{{user}}", t.user) ∷ []) 0 s))

abbrev pub password_mark : Bytes
password_mark = codes "{{password}}"

unfoldable pub render_argv : Login → Bytes → List Bytes → Option (List Bytes)
unfolding has_part fill
render_argv t sql [] = some []
render_argv t sql (a ∷ argv) =
    if has_part password_mark a
    then none
    else elim (render_argv t sql argv) [ none ↦ none | some rest ↦ some (fill t sql a ∷ rest) ]

unfoldable pub render_env : Login → Bytes → List (Bytes × Bytes) → List (Bytes × Bytes)
unfolding fill replace
render_env t sql [] = []
render_env t sql (kv ∷ env) =
    (kv.0, replace ((password_mark, t.password) ∷ []) 0 (fill t sql kv.1)) ∷ render_env t sql env

abbrev pub filled_request : Runner → Login → Bytes → Option (List Bytes) → Fault ⊎ ExecRequest
filled_request r t sql none = inl password_in_argv
filled_request r t sql (some argv) = inr (record { argv = argv; env = render_env t sql r.env })

abbrev pub render_command : Runner → Login → Bytes → List Bytes → Fault ⊎ ExecRequest
render_command r t sql [] = inl template_empty
render_command r t sql (a ∷ argv) = filled_request r t sql (render_argv t sql (a ∷ argv))

-- `renderRunner`.
unfoldable pub render_runner : Runner → Login → Bytes → Fault ⊎ ExecRequest
unfolding render_argv render_env
render_runner r t sql = render_command r t sql r.argv

-- `mask`.
unfoldable pub mask : Bytes → Bytes → Bytes
unfolding replace_all
mask s secret = if is_empty secret then s else replace_all secret 0 s

abbrev pub first_arg : List Bytes → Bytes
first_arg [] = []
first_arg (a ∷ argv) = a

-- `logRunnerFailure`.
unfoldable pub log_runner_failure : Deps → Bytes → ExecResult → Warning
unfolding string mask
log_runner_failure deps runner res = record {
  runner = runner;
  exit_code = res.exit_code;
  stderr = string deps.redact (mask (deps.trim_space res.stderr) deps.target.password);
  stderr_truncated = res.truncated;
}

-- `queryResult`.
pub data QueryResult : Type 0 where
  succeeded : Bytes → QueryResult
  exited : ℤ → QueryResult

abbrev pub sent : ExecRequest → Session → Session
sent req s = record s { requests = req ∷ s.requests }

-- `query`, on what the sandbox answered to the request.
unfoldable pub answer_query : Deps → ExecRequest → Option ExecResult → Session → Ran QueryResult
unfolding log_runner_failure
answer_query deps req none s = stopped exec_failed s
answer_query deps req (some res) s =
    if eq_int res.exit_code (pos 0)
    then done (succeeded (deps.trim_space res.stdout)) s
    else done (exited res.exit_code)
        (record s { log = log_runner_failure deps (first_arg req.argv) res ∷ s.log })

abbrev pub execute_request : Deps → Fault ⊎ ExecRequest → Session → Ran QueryResult
execute_request deps (inl f) s = stopped f s
execute_request deps (inr req) s = answer_query deps req (deps.exec s.requests req) (sent req s)

-- `query`.
unfoldable pub query : Deps → Bytes → Session → Ran QueryResult
unfolding render_runner answer_query
query deps sql s = execute_request deps (render_runner deps.runner deps.target sql) s

-- ===== src/Tests/Checking.antt =====
-- Runs of three checks.
use probavi.Base.{
  ◌≡◌, ◌≢◌, refl, true, false, Option, none, some, List, [], ◌∷◌, beq, contains, codes,
  if◌then◌else◌, Bytes,
}
use probavi.Base.Int.{pos}
use probavi.Manifest.{Manifest, manifest_schema, validate, tables_of}
use probavi.Config.Check.{CheckConfig, validate_each, check_baseline, check_service_healthy}
use probavi.Redact.{text_le}
use probavi.Checks.Runner.{Deps, ExecRequest, ExecResult, exec_failed, unrunnable, nil_dereference}
use probavi.Checks.Loop.{run_checks}
use probavi.Checks.Reports.{Reports, names_of, expected_names, run_checks-Reports}
use probavi.Checks.Sent.{AllTemplated, run_checks-Templated}
use probavi.Checks.Expected.{run_checks-IsOutside}
use probavi.Tests.Configs.{check, counted, fresh}

abbrev declared : Manifest
declared = record {
  schema = manifest_schema;
  expected_checksum = [];
  expected_size_bytes = some (pos 4096);
  baseline = some (
      (codes "users", record { rows = some (pos 7); rows_min = none; rows_max = none })
      ∷ (codes "orders", record { rows = none; rows_min = some (pos 5); rows_max = some (pos 9) })
      ∷ []);
}

abbrev answered : Bytes → Option ExecResult
answered s = some (record { exit_code = pos 0; stdout = s; stderr = []; truncated = false })

-- A sandbox that counts seven rows, and whose newest row is a text of one second.
abbrev exec : List ExecRequest → ExecRequest → Option ExecResult
exec before req =
    if contains req.argv (codes "SELECT max(\"placed_at\") FROM \"orders\"")
    then answered (codes "T")
    else answered (codes "7")

abbrev deps : Deps
deps = record {
  exec = exec;
  healthcheck = λ before. some (true, codes "up");
  runner = record {
    argv = codes "psql" ∷ codes "-U{{user}}" ∷ codes "{{sql}}" ∷ [];
    env = (codes "PGPASSWORD", codes "{{password}}") ∷ [];
  };
  target = record { user = codes "u"; database = codes "d"; password = codes "p" };
  now = λ before. 61000000000;
  redact = none;
  dialect = record { statements = []; opening = []; closing = []; separator = [] };
  baseline = tables_of declared;
  trim_space = λ s. s;
  duration_text = λ d. codes "1m0s";
  parse_in_utc = λ layout s. if beq s (codes "T") then some 1000000000 else none;
}

abbrev list : List CheckConfig
list = counted ∷ fresh ∷ check check_baseline ∷ check check_service_healthy ∷ []

names_reported :
    names_of (run_checks deps list).results
    ≡ codes "row_count:orders"
      ∷ codes "freshness:orders.placed_at"
      ∷ codes "baseline:orders"
      ∷ codes "baseline:users"
      ∷ codes "service_healthy"
      ∷ []
unfolding names_of run_checks beq contains text_le
names_reported = refl

run_checks-Reports_example : Reports (expected_names deps 0 list) (run_checks deps list)
run_checks-Reports_example = run_checks-Reports deps list

run_checks-Templated_example : AllTemplated deps (run_checks deps list).session
run_checks-Templated_example = run_checks-Templated deps list

-- The same in a sandbox that is gone.
abbrev gone : Deps
gone = record deps { exec = λ before req. none }

list_valid : validate_each true list ≡ []
unfolding validate_each beq
list_valid = refl

declared_valid : validate declared ≡ none
unfolding validate beq contains text_le
declared_valid = refl

gone_stops : (run_checks gone list).fault ≡ some exec_failed
unfolding run_checks beq contains
gone_stops = refl

run_checks-IsOutside_example : (exec_failed ≢ unrunnable) × (exec_failed ≢ nil_dereference)
run_checks-IsOutside_example =
    run_checks-IsOutside gone declared true list exec_failed list_valid declared_valid refl
      gone_stops

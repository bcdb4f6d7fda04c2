-- ===== src/Tests/Drills.antt =====
-- Drills, run to their record.
use probavi.Base.{
  Option, Bytes, ◌≡◌, refl, ◌↔◌, true, false, none, some, [], ◌∷◌, arith, codes, beq, contains,
}
use probavi.Utf8.{valid_string}
use probavi.Evidence.Codes.{is_error_code}
use probavi.Evidence.Result.{ok}
use probavi.Evidence.Record.{pass, cancelled}
use probavi.Evidence.Timestamp.{is_timestamp, validate_ts}
use probavi.Evidence.Validate.{is_sha256_ref, is_host_id, validate}
use probavi.Core.World.{World, Source, Probe, canceled}
use probavi.Core.Classify.{classify, verdict}
use probavi.Core.Classify.Laws.{IsVerdict, Decided, Told, Reports, classify-IsVerdict}
use probavi.Core.Refuse.{refusal, check_backup_manifest}
use probavi.Core.Refuse.Laws.{IsServed, refusal-none_iff}
use probavi.Core.Execute.{base_record, execute, host_id, validate_restored}
use probavi.Core.Execute.Cleanup.{IsClosed, follow, absent, execute-IsClosed}
use probavi.Core.Execute.Verdict.{execute-IsVerdict}
use probavi.Core.Request.{resolve_password}
use probavi.Core.Request.Laws.{resolve_password_declared}
use probavi.Core.Run.{composed, degraded}
use probavi.Core.Run.Laws.{IsSound, degraded-composed_validate}
use probavi.Tests.Samples.{drill, world, interrupted, crash}

world_passes : (execute drill world (base_record drill)).0.outcome ≡ pass
unfolding execute refusal beq check_backup_manifest validate_restored
world_passes = refl

interrupted_cancelled : (execute drill interrupted (base_record drill)).0.outcome ≡ cancelled
unfolding execute refusal beq check_backup_manifest classify contains is_error_code
interrupted_cancelled = refl

world_validates : validate (composed drill world) ≡ ok tt
unfolding validate composed execute refusal beq check_backup_manifest validate_restored valid_string
    is_sha256_ref
world_validates = refl

sound : IsSound drill world
unfolding is_timestamp is_sha256_ref is_host_id validate_ts host_id valid_string
sound = record {
  stamped = refl;
  hash = refl;
  target = refl;
  adapter_digest = refl;
  self_digest = refl;
  monotonic = omega arith;
  os = record { valid = refl; fits = omega arith; single = refl };
  os_ne_nil = λ h. cc;
  arch = record { valid = refl; fits = omega arith; single = refl };
  arch_ne_nil = λ h. cc;
  host = refl;
}

degraded-composed_validate_example :
    validate (degraded drill world (composed drill world) (codes "too large")) ≡ ok tt
degraded-composed_validate_example =
    degraded-composed_validate drill world (codes "too large") sound

execute-IsVerdict_example : IsVerdict (execute drill interrupted (base_record drill)).0
unfolding base_record
execute-IsVerdict_example = execute-IsVerdict drill interrupted (base_record drill) refl

-- An interrupted drill of which neither the data nor the sandbox would go away.
abbrev persistent : World
persistent = record interrupted { torn_down = false; destroyed = false }

execute-IsClosed_example :
    IsClosed persistent (follow absent (execute drill persistent (base_record drill)).1)
execute-IsClosed_example = execute-IsClosed drill persistent (base_record drill)

classify-IsVerdict_example :
    Decided (some canceled) crash (verdict drill (some canceled) crash).0
    × Told
        (classify drill (some canceled) crash (base_record drill)).outcome
        (verdict drill (some canceled) crash).0
    × Reports
        (classify drill (some canceled) crash (base_record drill))
        (verdict drill (some canceled) crash).0
    × (is_error_code (verdict drill (some canceled) crash).0 ≡ true)
classify-IsVerdict_example = classify-IsVerdict drill (some canceled) crash (base_record drill)

abbrev probe : Probe
probe = record {
  name = codes "postgres";
  adapter_version = codes "1";
  sources = record { kind = codes "pg_dump"; pitr = false; select = none } ∷ [];
}

refusal-none_iff_example : (refusal drill.config probe ≡ none) ↔ IsServed drill.config probe
refusal-none_iff_example = refusal-none_iff drill.config probe

-- An adapter that asks for a variable which the drill did not declare.
abbrev secret_env : Bytes → Option Bytes
secret_env n = some (codes "hidden")

abbrev empty_env : Bytes → Option Bytes
empty_env n = none

undeclared : resolve_password drill secret_env (codes "AWS_SECRET_ACCESS_KEY") ≡ []
unfolding resolve_password beq contains
undeclared = refl

none_declared :
    (n : Bytes) → contains drill.config.source.credential_env n ≡ true → secret_env n ≡ empty_env n
unfolding contains
none_declared n h = cc

resolve_password_declared_example :
    resolve_password drill secret_env (codes "AWS_SECRET_ACCESS_KEY")
    ≡ resolve_password drill empty_env (codes "AWS_SECRET_ACCESS_KEY")
resolve_password_declared_example =
    resolve_password_declared drill secret_env empty_env (codes "AWS_SECRET_ACCESS_KEY")
      none_declared

abbrev newest : Source
newest = record drill.config.source {
  select = codes "newest";
  params = (codes "format", codes "custom") ∷ [];
}

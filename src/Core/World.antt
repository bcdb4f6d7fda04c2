-- ===== src/Core/World.antt =====
-- What one drill is given: its configuration as internal/core reads it, and the answers of its
-- collaborators (adapter, sandbox provider, checks, host), each of which the core asks once.
use probavi.Base.{ℕ, Bool, Option, List, Bytes}
use probavi.Base.Int.{ℤ}
use probavi.Redact.{Redactor}

-- `config.Source`, `config.Target` and the rest of `config.Config`, as far as the core reads them.
pub record Source : Type 0 where
  pub kind : Bytes
  pub path : Bytes
  pub manifest : Bytes
  pub select : Bytes
  pub params : List (Bytes × Bytes)
  pub credential_env : List Bytes

-- `pitr` is the instant that `PITR.Resolve` gives, in the format of a record.
pub record Config : Type 0 where
  pub name : Bytes
  pub hash : Bytes
  pub adapter : Bytes
  pub source : Source
  pub pitr : Option Bytes
  pub provider : Bytes
  pub sandbox_params : Option (List (Bytes × Bytes))
  pub builtins : List Bytes

-- The fields of `Drill` that are not collaborators. `host_name` is what `Hostname` answered,
-- `adapter_digest` and `self_digest` what `FileDigest` did.
pub record Drill : Type 0 where
  pub config : Config
  pub version : Bytes
  pub os : Bytes
  pub arch : Bytes
  pub redactor : Option Redactor
  pub sandbox_password : Bytes
  pub host_name : Option Bytes
  pub adapter_digest : Option Bytes
  pub self_digest : Option Bytes
  -- `hex.EncodeToString` of `sha256.Sum256`, and the verb %q of fmt.
  pub sha256_hex : Bytes → Bytes
  pub quote : Bytes → Bytes

-- An error: what `errors.As` finds of an `adapter.Error` in it, and its text.
pub record Failure : Type 0 where
  pub adapter : Option (Bytes × Bytes)
  pub text : Bytes

pub data Answer {ℓ} (A : Type ℓ) : Type ℓ where
  answered : A → Answer A
  failed : Failure → Answer A

-- `ctx.Err()` of a context that is done.
pub data CtxErr : Type 0 where
  deadline_exceeded canceled : CtxErr

pub record SourceKind : Type 0 where
  pub kind : Bytes
  pub pitr : Bool
  pub select : Option Bool

pub record Probe : Type 0 where
  pub name : Bytes
  pub adapter_version : Bytes
  pub sources : List SourceKind

-- `manifest.Fault`, and what `manifest.Check` returns; `baseline` lists the declared names.
pub record Fault : Type 0 where
  pub code : Bytes
  pub message : Bytes

pub record ManifestResult : Type 0 where
  pub hash : Option Bytes
  pub matched : Option Bool
  pub baseline : List Bytes

pub record Facts : Type 0 where
  pub image_digest : Option Bytes
  pub memory_bytes : Option ℤ
  pub cpus_milli : Option ℤ

-- `adapter.ProvisionResult`; the timings are those of `secondsToMS`.
pub record Provisioned : Type 0 where
  pub state : Bytes
  pub checksum : Bytes
  pub size_bytes : ℤ
  pub created_at : Option Bytes
  pub engine_ready : ℤ
  pub transfer : ℤ
  pub restore : ℤ

pub record CheckResult : Type 0 where
  pub name : Bytes
  pub passed : Bool
  pub newest_data : Option ℕ
  pub detail : Bytes

-- Where the drill's context is asked for its error.
pub data Phase : Type 0 where
  at_probe at_create at_provision at_checks : Phase

-- Clock readings are nanoseconds on the monotonic clock.
pub record World : Type 0 where
  pub clock_answer : Option Bytes
  pub probe : Answer Probe
  pub protocol : Bytes
  pub manifest : ManifestResult × Option Fault
  pub create : Answer Facts
  pub provision : Answer Provisioned
  pub checks : List CheckResult × Option Failure
  pub ctx : Phase → Option CtxErr
  -- Whether `Teardown` and `Destroy` return without an error.
  pub torn_down : Bool
  pub destroyed : Bool
  pub started : ℕ
  pub provision_started : ℕ
  pub provision_ended : ℕ
  pub validate_started : ℕ
  pub validate_ended : ℕ
  pub ended : ℕ
  -- The instant of the record, and `Format(evidence.TimestampFormat)` of an instant.
  pub now : ℕ
  -- The instant that `appendDegraded` reads.
  pub degraded_now : ℕ
  pub format : ℕ → Bytes

-- What `execute` does, in its order. `create_sandbox` says whether a sandbox came of it, `tear_down`
-- and `destroy_sandbox` whether they returned without an error; an error of theirs is logged.
pub data Call : Type 0 where
  sweep_orphans probe_adapter check_manifest provision_backup run_checks : Call
  create_sandbox : Bool → Call
  tear_down : Bytes → Bool → Call
  destroy_sandbox : Bool → Call
  log_teardown_failed log_destroy_failed : Call

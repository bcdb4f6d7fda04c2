-- ===== src/Core/Run.antt =====
-- internal/core/core.go: `Run` and `appendDegraded`, the one record that a drill leaves.
pub mod Degraded
pub mod Laws
pub mod Ledger
use probavi.Base.{
  ℕ, Bool, true, false, Option, none, some, List, [], ◌∷◌, ◌++◌, if◌then◌else◌, codes, Bytes,
}
use probavi.Base.Int.{pos}
use probavi.Evidence.Codes.{
  Sentinel, not_integer, record_too_large, invalid_record, code_internal, schema_id,
}
use probavi.Evidence.Record.{
  Outcome, pass, fail, error, cancelled, other, Record, no_timings, no_resources,
}
use probavi.Core.Message.{record_message, safe_text}
use probavi.Core.World.{Drill, World, Call}
use probavi.Core.Execute.{base_record, execute, host_id, ms_since}

abbrev pub protocol_version : Bytes
protocol_version = codes "probavi-adapter/1"

-- An error of `Appender.Append`: the sentinel in it, if any, and its text.
pub record AppendError : Type 0 where
  pub sentinel : Option Sentinel
  pub text : Bytes

-- `rejectedByShape`.
unfoldable pub rejected_by_shape : AppendError → Bool
rejected_by_shape e = elim e.sentinel [
  | some invalid_record ↦ true
  | some record_too_large ↦ true
  | some not_integer ↦ true
  | some _ ↦ false
  | none ↦ false
]

-- The verb %q, of an outcome.
abbrev outcome_text : Outcome → Bytes
outcome_text pass = codes "pass"
outcome_text fail = codes "fail"
outcome_text error = codes "error"
outcome_text cancelled = codes "cancelled"
outcome_text (other s) = s

-- The record of `appendDegraded`.
unfoldable pub degraded : Drill → World → Record → Bytes → Record
unfolding host_id
degraded d w rejected cause = record {
  schema = schema_id;
  seq = pos 0;
  prev_hash = [];
  ts = w.format w.degraded_now;
  drill = record {
    name = safe_text d.config.name (codes "unknown-drill");
    config_hash = d.config.hash;
    pitr_target = rejected.drill.pitr_target;
  };
  backup = record {
    kind = safe_text d.config.source.kind (codes "unknown");
    checksum = none;
    size_bytes = none;
    created_at = none;
    manifest_hash = none;
    manifest_match = none;
    newest_data_at = none;
  };
  adapter = record {
    name = safe_text d.config.adapter (codes "unknown");
    version = none;
    protocol = protocol_version;
    digest = rejected.adapter.digest;
  };
  sandbox = record {
    provider = safe_text d.config.provider (codes "unknown");
    params = some [];
    image_digest = none;
    resources = no_resources;
  };
  timings = record no_timings { total = rejected.timings.total };
  checks = some [];
  outcome = error;
  failure = some (record {
    code = code_internal;
    message = record_message d.redactor (
        codes "evidence record replaced: the composed record was rejected ("
        ++ cause
        ++ codes "); the drill reached outcome "
        ++ d.quote (outcome_text rejected.outcome));
  });
  env = record {
    probavi_version = safe_text d.version (codes "unknown");
    os = d.os;
    arch = d.arch;
    host_id = host_id d;
    probavi_digest = rejected.env.probavi_digest;
    clock_synchronised = none;
  };
  sig = none;
}

-- The record that `Run` composes.
unfoldable pub composed : Drill → World → Record
unfolding execute base_record ms_since
composed d w =
    let rec = (execute d w (base_record d)).0 in
    record rec {
      timings = record rec.timings { total = some (ms_since w.started w.ended) };
      ts = w.format w.now;
    }

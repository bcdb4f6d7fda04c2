-- ===== src/Core/Execute.antt =====
-- internal/core/core.go: `baseRecord` and `execute`, the phases of a drill. The deferred calls are
-- made at the end, the teardown before the destruction.
pub mod Cleanup
pub mod Keeps
pub mod Pass
pub mod Verdict
use probavi.Base.{
  ℕ, ◌+◌, ◌-◌, ◌*◌, ◌/◌, Bool, true, false, not, Option, none, some, List, [], ◌∷◌, ◌++◌, ltb, leb,
  ◌==◌, if◌then◌else◌, beq, codes, is_empty, take, length, Bytes,
}
use probavi.Base.Int.{ℤ, pos, negsuc}
use probavi.Evidence.Codes.{code_internal, code_sandbox_error, code_check_failed, schema_id}
use probavi.Evidence.Record.{
  Outcome, pass, fail, error, cancelled, other, Check, DrillError, Record, Timings, no_timings,
  no_resources,
}
use probavi.Evidence.Marshal.{decimal}
use probavi.Core.Classify.{classify, record_fault, teardown_reason}
use probavi.Core.Refuse.{refusal, refuse, check_backup_manifest}
use probavi.Core.World.{
  Drill, Failure, Answer, answered, failed, Phase, at_probe, at_create, at_provision, at_checks,
  Probe, Fault, ManifestResult, Facts, Provisioned, CheckResult, World, Call, sweep_orphans,
  probe_adapter, check_manifest, create_sandbox, provision_backup, run_checks, tear_down,
  destroy_sandbox, log_teardown_failed, log_destroy_failed,
}

abbrev protocol_floor : Bytes
protocol_floor = codes "probavi-adapter/0"

-- `hostID`.
unfoldable pub host_id : Drill → Bytes
host_id d = take 16 (d.sha256_hex (elim d.host_name [ none ↦ codes "unknown-host" | some n ↦ n ]))

abbrev or_empty {ℓ} : {A : Type ℓ} → Option (List A) → List A
or_empty none = []
or_empty (some xs) = xs

-- `baseRecord`. The seq and the previous hash are the store's to fill, the outcome is still "".
unfoldable pub base_record : Drill → Record
unfolding host_id
base_record d = record {
  schema = schema_id;
  seq = pos 0;
  prev_hash = [];
  ts = [];
  drill = record { name = d.config.name; config_hash = d.config.hash; pitr_target = d.config.pitr };
  backup = record {
    kind = d.config.source.kind;
    checksum = none;
    size_bytes = none;
    created_at = none;
    manifest_hash = none;
    manifest_match = none;
    newest_data_at = none;
  };
  adapter = record {
    name = d.config.adapter;
    version = none;
    protocol = protocol_floor;
    digest = d.adapter_digest;
  };
  sandbox = record {
    provider = d.config.provider;
    params = some (or_empty d.config.sandbox_params);
    image_digest = none;
    resources = no_resources;
  };
  timings = no_timings;
  checks = some [];
  outcome = other [];
  failure = none;
  env = record {
    probavi_version = d.version;
    os = d.os;
    arch = d.arch;
    host_id = host_id d;
    probavi_digest = d.self_digest;
    clock_synchronised = none;
  };
  sig = none;
}

-- `msSince`: whole milliseconds, toward zero.
unfoldable pub ms_since : ℕ → ℕ → ℤ
ms_since start now =
    if leb start now
    then pos ((now - start) / 1000000)
    else if ltb (start - now) 1000000
    then pos 0
    else negsuc ((start - now) / 1000000 - 1)

-- `clockSynchronised`, of the trimmed answer.
unfoldable pub clock_synchronised : Option Bytes → Option Bool
clock_synchronised none = none
clock_synchronised (some s) =
    if beq s (codes "yes") then some true else if beq s (codes "no") then some false else none

unfoldable pub map_check : CheckResult → Check
map_check r = record {
  name = r.name;
  passed = r.passed;
  detail = if is_empty r.detail then none else some r.detail;
}

unfoldable pub map_checks : List CheckResult → List Check
unfolding map_check
map_checks [] = []
map_checks (r ∷ rs) = map_check r ∷ map_checks rs

unfoldable pub count_failed : List CheckResult → ℕ
count_failed [] = 0
count_failed (r ∷ rs) = (if r.passed then 0 else 1) + count_failed rs

-- The later of two instants; a nil pointer is before any.
unfoldable pub newer : Option ℕ → Option ℕ → Option ℕ
newer old none = old
newer none (some at) = some at
newer (some t) (some at) = if ltb t at then some at else some t

-- The loop of `newestDataAt`.
unfoldable pub newest_from : Option ℕ → List CheckResult → Option ℕ
unfolding newer
newest_from newest [] = newest
newest_from newest (r ∷ rs) = newest_from (newer newest r.newest_data) rs

unfoldable pub newest_data_at : (ℕ → Bytes) → List CheckResult → Option Bytes
unfolding newest_from
newest_data_at format rs = elim (newest_from none rs) [ none ↦ none | some t ↦ some (format t) ]

unfoldable pub record_provision : Record → Provisioned → Record
record_provision rec p = record rec {
  backup = record rec.backup {
    checksum = some p.checksum;
    size_bytes = some p.size_bytes;
    created_at = p.created_at;
  };
  timings = record rec.timings {
    engine_ready = some p.engine_ready;
    transfer = some p.transfer;
    restore = some p.restore;
  };
}

-- What `checks.Run` measured, whatever it returned.
unfoldable pub record_checks : World → List CheckResult → Record → Record
unfolding map_checks newest_data_at ms_since
record_checks w results rec = record rec {
  checks = some (map_checks results);
  backup = record rec.backup { newest_data_at = newest_data_at w.format results };
  timings = record rec.timings { validate = some (ms_since w.validate_started w.validate_ended) };
}

-- The end of `execute`, behind the checks.
unfoldable pub judge_counted : ℕ → ℕ → Record → Record
judge_counted failures total rec =
    if ltb 0 failures
    then record rec {
      outcome = fail;
      failure = some (record {
        code = code_check_failed;
        message = decimal failures ++ codes " of " ++ decimal total ++ codes " checks failed";
      });
    }
    else record rec { outcome = pass }

unfoldable pub judge : Drill → World → List CheckResult → Option Failure → Record → Record
unfolding count_failed judge_counted
judge d w results (some f) rec = classify d (w.ctx at_checks) f rec
judge d w results none rec = judge_counted (count_failed results) (length results) rec

-- The checks, on a backup that was restored.
unfoldable pub validate_restored : Drill → World → Provisioned → Record → Record
unfolding record_provision record_checks judge
validate_restored d w p rec =
    judge d w w.checks.0 w.checks.1 (record_checks w w.checks.0 (record_provision rec p))

-- `teardown`, with its answer.
abbrev pub teardown : Bool → Bytes → List Call → List Call
teardown true reason rest = tear_down reason true ∷ rest
teardown false reason rest = tear_down reason false ∷ log_teardown_failed ∷ rest

-- `destroySandbox`, with its answer: a sandbox that is not destroyed is left to the next run.
abbrev pub destroy : Bool → List Call
destroy true = destroy_sandbox true ∷ []
destroy false = destroy_sandbox false ∷ log_destroy_failed ∷ []

-- `defer d.teardown` and `defer d.destroySandbox`.
unfoldable pub close_sandbox : World → Record → List Call
close_sandbox w rec = teardown w.torn_down (teardown_reason rec) (destroy w.destroyed)

-- The restore, in a sandbox that was created.
unfoldable pub in_sandbox : Drill → World → Answer Provisioned → Record → Record × List Call
unfolding close_sandbox
in_sandbox d w (failed f) rec =
    let rec' = classify d (w.ctx at_provision) f rec in
    (rec', provision_backup ∷ close_sandbox w rec')
in_sandbox d w (answered p) rec =
    let rec' = validate_restored d w p rec in
    (rec', provision_backup ∷ run_checks ∷ close_sandbox w rec')

unfoldable pub record_facts : World → Facts → Record → Record
unfolding ms_since
record_facts w facts rec = record rec {
  timings = record rec.timings {
    provision = some (ms_since w.provision_started w.provision_ended);
  };
  sandbox = record rec.sandbox {
    image_digest = facts.image_digest;
    resources = record { memory_bytes = facts.memory_bytes; cpus_milli = facts.cpus_milli };
  };
}

-- `fmt.Errorf("create sandbox: %w", err)`.
abbrev create_failure : Failure → Failure
create_failure f = record f { text = codes "create sandbox: " ++ f.text }

unfoldable pub blame_sandbox : Option DrillError → Option DrillError
blame_sandbox none = none
blame_sandbox (some e) =
    if beq e.code code_internal then some (record e { code = code_sandbox_error }) else some e

unfoldable pub with_sandbox : Drill → World → Answer Facts → Record → Record × List Call
unfolding blame_sandbox in_sandbox record_facts
with_sandbox d w (failed f) rec =
    let rec' = classify d (w.ctx at_create) (create_failure f) rec in
    (record rec' { failure = blame_sandbox rec'.failure }, create_sandbox false ∷ [])
with_sandbox d w (answered facts) rec =
    let (rec', calls) = in_sandbox d w w.provision (record_facts w facts rec) in
    (rec', create_sandbox true ∷ calls)

unfoldable pub record_manifest : ManifestResult → Record → Record
record_manifest res rec = record rec {
  backup = record rec.backup { manifest_hash = res.hash; manifest_match = res.matched };
}

unfoldable pub with_manifest :
    Drill → World → ManifestResult × Option Fault → Record → Record × List Call
unfolding with_sandbox record_manifest
with_manifest d w (res, some f) rec =
    (record_fault d f (record_manifest res rec), check_manifest ∷ [])
with_manifest d w (res, none) rec =
    let (rec', calls) = with_sandbox d w w.create (record_manifest res rec) in
    (rec', check_manifest ∷ calls)

unfoldable pub record_probe : World → Probe → Record → Record
record_probe w p rec = record rec {
  adapter = record rec.adapter { version = some p.adapter_version; protocol = w.protocol };
}

unfoldable pub unless_refused : Drill → World → Option (Bytes × Bytes) → Record → Record × List Call
unfolding with_manifest
unless_refused d w (some cm) rec = (refuse rec cm, [])
unless_refused d w none rec = with_manifest d w (check_backup_manifest d.config w) rec

unfoldable pub with_probe : Drill → World → Answer Probe → Record → Record × List Call
unfolding unless_refused record_probe
with_probe d w (failed f) rec = (classify d (w.ctx at_probe) f rec, [])
with_probe d w (answered p) rec = unless_refused d w (refusal d.config p) (record_probe w p rec)

unfoldable pub execute : Drill → World → Record → Record × List Call
unfolding with_probe clock_synchronised
execute d w rec =
    let rec' = record rec {
      env = record rec.env { clock_synchronised = clock_synchronised w.clock_answer };
    } in
    let (rec'', calls) = with_probe d w w.probe rec' in
    (rec'', sweep_orphans ∷ probe_adapter ∷ calls)

-- ===== src/Core/Classify.antt =====
-- internal/core/core.go: `classify`, `recordFault` and `teardownReason`, which turn a failure into
-- the verdict of a record.
pub mod Laws
use probavi.Base.{
  ℕ, Bool, true, false, not, Option, none, some, List, [], ◌∷◌, ◌++◌, if◌then◌else◌, beq, contains,
  codes, Bytes,
}
use probavi.Evidence.Codes.{
  code_source_not_found, code_source_unreadable, code_source_corrupt, code_restore_failed,
  code_check_failed, code_timeout, code_cancelled, code_internal, is_error_code,
}
use probavi.Evidence.Record.{Outcome, pass, fail, error, cancelled, other, DrillError, Record}
use probavi.Core.Message.{record_message}
use probavi.Core.World.{Drill, Failure, CtxErr, deadline_exceeded, canceled, Fault}

abbrev pub fail_codes : List Bytes
fail_codes =
    code_source_not_found ∷ code_source_unreadable ∷ code_source_corrupt ∷ code_restore_failed
    ∷ code_check_failed ∷ []

-- `errors.As(fails, &aerr)`: the adapter's own code and message, if it sent one.
unfoldable pub coded : Failure → Bytes × Bytes
coded f = elim f.adapter [ none ↦ (code_internal, f.text) | some cm ↦ cm ]

-- The context of the drill outranks what the adapter said.
unfoldable pub outranked : Option CtxErr → Bytes × Bytes → Bytes × Bytes
outranked none cm = cm
outranked (some deadline_exceeded) cm =
    (code_timeout, codes "drill wall-clock limit exceeded: " ++ cm.1)
outranked (some canceled) cm = (code_cancelled, codes "drill cancelled: " ++ cm.1)

-- A code outside the published vocabulary is kept in the message alone.
unfoldable pub registered : Drill → Bytes × Bytes → Bytes × Bytes
registered d cm =
    if not (is_error_code cm.0)
    then (
      code_internal,
      codes "adapter "
          ++ d.config.adapter
          ++ codes " reported unregistered error code "
          ++ d.quote cm.0
          ++ codes ": "
          ++ cm.1,
    )
    else cm

unfoldable pub outcome_of : Bytes → Outcome
outcome_of code =
    if contains fail_codes code then fail else if beq code code_cancelled then cancelled else error

unfoldable pub verdict : Drill → Option CtxErr → Failure → Bytes × Bytes
unfolding coded outranked registered
verdict d ctx f = registered d (outranked ctx (coded f))

unfoldable pub classify : Drill → Option CtxErr → Failure → Record → Record
unfolding verdict outcome_of
classify d ctx f rec =
    let cm = verdict d ctx f in
    record rec {
      outcome = outcome_of cm.0;
      failure = some (record { code = cm.0; message = record_message d.redactor cm.1 });
    }

unfoldable pub record_fault : Drill → Fault → Record → Record
record_fault d fault rec = record rec {
  outcome = if contains fail_codes fault.code then fail else error;
  failure = some (record { code = fault.code; message = record_message d.redactor fault.message });
}

abbrev has_code : Bytes → Option DrillError → Bool
has_code code none = false
has_code code (some e) = beq e.code code

pub reason_of : Outcome → Option DrillError → Bytes
reason_of pass e = codes "completed"
reason_of cancelled e = codes "cancelled"
reason_of fail e = if has_code (codes "timeout") e then codes "timeout" else codes "failed"
reason_of error e = if has_code (codes "timeout") e then codes "timeout" else codes "failed"
reason_of (other s) e = if has_code (codes "timeout") e then codes "timeout" else codes "failed"

unfoldable pub teardown_reason : Record → Bytes
unfolding reason_of
teardown_reason rec = reason_of rec.outcome rec.failure

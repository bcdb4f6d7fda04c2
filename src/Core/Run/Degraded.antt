-- ===== src/Core/Run/Degraded.antt =====
-- The record that replaces a rejected one is always valid.
use probavi.Base.{
  ◌≡◌, ◌≢◌, refl, true, false, not, [], arith, is_empty-of_ne, beq_refl, le→leb, has_newline,
  length, codes, leb, Bytes,
}
use probavi.Base.Int.{is_negative}
use probavi.Utf8.{valid_string}
use probavi.Evidence.Codes.{invalid_record, code_internal, schema_id}
use probavi.Evidence.Result.{ok, require}
use probavi.Evidence.Record.{Record}
use probavi.Evidence.Timestamp.{is_timestamp, validate_ts}
use probavi.Evidence.Validate.{
  is_sha256_ref, is_host_id, validate_line, validate_utf8, validate_identity, validate_failure,
  validate_outcome, validate_checks, validate_timings, validate_env, utf8_checks, utf8_params,
  validate_each, validate_nested, validate, if_some,
}
use probavi.Core.Message.{record_message}
use probavi.Core.Message.Laws.{IsLine, safe_text-IsLine, record_message-IsLine}
use probavi.Core.World.{Drill, World}
use probavi.Core.Execute.{host_id}
use probavi.Core.Run.{degraded, protocol_version}

-- What a degraded record still takes from the drill and from the rejected record.
pub record IsPlain (d : Drill) (w : World) (rejected : Record) : Type 0 where
  pub stamped : is_timestamp (w.format w.degraded_now) ≡ true
  pub hash : is_sha256_ref d.config.hash ≡ true
  pub target : if_some rejected.drill.pitr_target validate_ts ≡ ok tt
  pub adapter_digest :
      if_some rejected.adapter.digest (λ s. require (is_sha256_ref s) invalid_record) ≡ ok tt
  pub total :
      if_some rejected.timings.total (λ n. require (not (is_negative n)) invalid_record) ≡ ok tt
  pub os : IsLine 256 d.os
  pub os_ne_nil : d.os ≢ []
  pub arch : IsLine 256 d.arch
  pub arch_ne_nil : d.arch ≢ []
  pub host : is_host_id (host_id d) ≡ true
  pub self_digest :
      if_some rejected.env.probavi_digest (λ s. require (is_sha256_ref s) invalid_record) ≡ ok tt

module _ (d : Drill) (w : World) (rejected : Record) (cause : Bytes)
    (p : IsPlain d w rejected) where
  abbrev replacement : Record
  replacement = degraded d w rejected cause

  unknown-IsLine : IsLine 256 (codes "unknown")
  unfolding valid_string
  unknown-IsLine = record { valid = refl; fits = omega arith; single = refl }

  unknown_drill-IsLine : IsLine 256 (codes "unknown-drill")
  unfolding valid_string
  unknown_drill-IsLine = record { valid = refl; fits = omega arith; single = refl }

  name-IsLine : IsLine 256 replacement.drill.name × (replacement.drill.name ≢ [])
  unfolding degraded
  name-IsLine =
      safe_text-IsLine d.config.name (codes "unknown-drill") unknown_drill-IsLine (λ h. cc)

  kind-IsLine : IsLine 256 replacement.backup.kind × (replacement.backup.kind ≢ [])
  unfolding degraded
  kind-IsLine = safe_text-IsLine d.config.source.kind (codes "unknown") unknown-IsLine (λ h. cc)

  adapter-IsLine : IsLine 256 replacement.adapter.name × (replacement.adapter.name ≢ [])
  unfolding degraded
  adapter-IsLine = safe_text-IsLine d.config.adapter (codes "unknown") unknown-IsLine (λ h. cc)

  provider-IsLine : IsLine 256 replacement.sandbox.provider × (replacement.sandbox.provider ≢ [])
  unfolding degraded
  provider-IsLine = safe_text-IsLine d.config.provider (codes "unknown") unknown-IsLine (λ h. cc)

  version-IsLine :
      IsLine 256 replacement.env.probavi_version × (replacement.env.probavi_version ≢ [])
  unfolding degraded
  version-IsLine = safe_text-IsLine d.version (codes "unknown") unknown-IsLine (λ h. cc)

  message-fits : (s : Bytes) → leb (length (record_message d.redactor s)) 512 ≡ true
  message-fits s = le→leb _ _ (record_message-IsLine d.redactor s).fits

  message-single : (s : Bytes) → has_newline (record_message d.redactor s) ≡ false
  message-single s = (record_message-IsLine d.redactor s).single

  message-valid : (s : Bytes) → valid_string (record_message d.redactor s) ≡ true
  message-valid s = (record_message-IsLine d.redactor s).valid

  protocol-valid : valid_string protocol_version ≡ true
  unfolding valid_string
  protocol-valid = refl

  internal-valid : valid_string code_internal ≡ true
  unfolding valid_string
  internal-valid = refl

  degraded-utf8 : validate_utf8 replacement ≡ ok tt
  unfolding validate_utf8 degraded utf8_checks utf8_params
  degraded-utf8 = simp (
    name-IsLine.0.valid, kind-IsLine.0.valid, adapter-IsLine.0.valid, provider-IsLine.0.valid,
    version-IsLine.0.valid, protocol-valid, internal-valid, message-valid, p.os.valid, p.arch.valid,
  )

  degraded-identity : validate_identity replacement ≡ ok tt
  unfolding validate_identity degraded validate_ts
  degraded-identity =
      simp (beq_refl schema_id, p.stamped, is_empty-of_ne _ name-IsLine.1, p.hash, p.target)

  degraded-outcome : validate_outcome replacement ≡ ok tt
  unfolding validate_outcome degraded validate_failure validate_line
  degraded-outcome = simp (message-fits, message-single)

  degraded-checks : validate_checks replacement ≡ ok tt
  unfolding validate_checks validate_each degraded
  degraded-checks = refl

  degraded-timings : validate_timings replacement.timings ≡ ok tt
  unfolding validate_timings degraded
  degraded-timings = simp p.total

  degraded-env : validate_env replacement.env ≡ ok tt
  unfolding validate_env degraded
  degraded-env = simp (
    is_empty-of_ne _ version-IsLine.1,
    is_empty-of_ne _ p.os_ne_nil,
    is_empty-of_ne _ p.arch_ne_nil,
    p.host,
    p.self_digest,
  )

  degraded-nested : validate_nested replacement ≡ ok tt
  unfolding validate_nested degraded
  degraded-nested = simp (
    is_empty-of_ne _ kind-IsLine.1,
    is_empty-of_ne _ adapter-IsLine.1,
    is_empty-of_ne _ provider-IsLine.1,
    p.adapter_digest,
    degraded-timings,
    degraded-env,
  )

  -- Whatever the configuration, the adapter, the secrets and the rejection said, the record that
  -- replaces a rejected one passes the validation that the store makes.
  pub degraded-validate : validate replacement ≡ ok tt
  unfolding validate
  degraded-validate =
      simp (degraded-utf8, degraded-identity, degraded-outcome, degraded-checks, degraded-nested)

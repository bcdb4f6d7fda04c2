-- ===== src/Adapter/Provision.antt =====
-- internal/adapter/protocol.go: what the answer to a provision must be (`validateProvisionResult`).
pub mod Accepted
pub mod Recordable
use probavi.Base.{
  ℕ, ◌-◌, ◌/◌, ◌^◌, Bool, true, false, not, ◌⊎◌, inl, inr, Option, none, some, List, [], ◌∷◌,
  if◌then◌else◌, is_empty, Bytes,
}
use probavi.Base.Int.{ℤ, is_negative}
use probavi.Evidence.Validate.{is_sha256_ref}

-- What the code asks of float64: `math.IsNaN`, `math.IsInf`, `<`, the value of an integer constant,
-- the product, `math.Round` and the conversion to int64.
pub record Seconds (W : Type 0) : Type 0 where
  pub is_nan : W → Bool
  pub is_inf : W → Bool
  pub lt : W → W → Bool
  pub of_nat : ℕ → W
  pub mul : W → W → W
  pub round : W → W
  pub to_int : W → ℤ

-- `time.Parse` under RFC 3339, `strings.ToUpper`, and an instant in UTC cut to milliseconds and
-- formatted for a record.
pub record Calendar : Type 0 where
  pub parse : Bytes → Option ℤ
  pub to_upper : Bytes → Bytes
  pub format : ℤ → Bytes

pub record SourceIdentity : Type 0 where
  pub checksum : Bytes
  pub size_bytes : ℤ
  pub created_at : Option Bytes

pub record PhaseTimings (W : Type 0) : Type 0 where
  pub engine_ready_seconds : W
  pub transfer_seconds : W
  pub restore_seconds : W

-- `ProvisionResult`, with the scheme of its connection.
pub record ProvisionResult (W : Type 0) : Type 0 where
  pub scheme : Bytes
  pub source_identity : SourceIdentity
  pub timings : PhaseTimings W
  pub state : Bytes

pub data Malformed : Type 0 where
  checksum_pattern size_negative created_at_format scheme_empty : Malformed
  timing_nan timing_infinite timing_negative timing_too_long : Malformed

-- `maxTimingSeconds`, a constant of whole seconds.
abbrev pub max_timing_seconds : {W : Type 0} → Seconds W → W
max_timing_seconds f = f.of_nat ((2 ^ 53 - 1) / 1000)

-- `secondsToMS` of internal/core.
abbrev pub seconds_to_ms : {W : Type 0} → Seconds W → W → ℤ
seconds_to_ms f s = f.to_int (f.round (f.mul s (f.of_nat 1000)))

-- `validateTimingSeconds`.
unfoldable pub validate_timing_seconds : {W : Type 0} → Seconds W → W → Option Malformed
validate_timing_seconds f s =
    if f.is_nan s
    then some timing_nan
    else if f.is_inf s
    then some timing_infinite
    else if f.lt s (f.of_nat 0)
    then some timing_negative
    else if f.lt (max_timing_seconds f) s
    then some timing_too_long
    else none

abbrev pub first_of : Option Malformed → Option Malformed → Option Malformed
first_of (some m) rest = some m
first_of none rest = rest

-- The loop over the timings.
unfoldable pub validate_timing_list : {W : Type 0} → Seconds W → List W → Option Malformed
unfolding validate_timing_seconds
validate_timing_list f [] = none
validate_timing_list f (s ∷ ss) = first_of (validate_timing_seconds f s) (validate_timing_list f ss)

abbrev pub or_upper : Calendar → Bytes → Option ℤ → Option ℤ
or_upper cal s (some t) = some t
or_upper cal s none = cal.parse (cal.to_upper s)

-- `parseRFC3339`.
unfoldable pub parse_rfc3339 : Calendar → Bytes → Option ℤ
parse_rfc3339 cal s = or_upper cal s (cal.parse s)

abbrev pub formatted : Calendar → Option ℤ → Malformed ⊎ Option Bytes
formatted cal none = inl created_at_format
formatted cal (some t) = inr (some (cal.format t))

-- `normalizeCreatedAt`.
unfoldable pub normalize_created_at : Calendar → Option Bytes → Malformed ⊎ Option Bytes
unfolding parse_rfc3339
normalize_created_at cal none = inr none
normalize_created_at cal (some s) = formatted cal (parse_rfc3339 cal s)

abbrev pub validate_scheme : {W : Type 0} → ProvisionResult W → Malformed ⊎ ProvisionResult W
validate_scheme r = if is_empty r.scheme then inl scheme_empty else inr r

abbrev pub unless_malformed :
    {W : Type 0} → Option Malformed → ProvisionResult W → Malformed ⊎ ProvisionResult W
unless_malformed (some m) r = inl m
unless_malformed none r = validate_scheme r

-- `validateProvisionResult`, behind the instant.
abbrev pub with_created :
    {W : Type 0}
    → Seconds W
    → ProvisionResult W
    → Malformed ⊎ Option Bytes
    → Malformed ⊎ ProvisionResult W
with_created f r (inl m) = inl m
with_created f r (inr created) =
    unless_malformed
      (validate_timing_list f (
        r.timings.engine_ready_seconds ∷ r.timings.transfer_seconds ∷ r.timings.restore_seconds
        ∷ []))
      (record r { source_identity = record r.source_identity { created_at = created } })

-- `validateProvisionResult`: the first fault, or the result with its instant normalized.
unfoldable pub validate_provision_result :
    {W : Type 0} → Seconds W → Calendar → ProvisionResult W → Malformed ⊎ ProvisionResult W
unfolding validate_timing_list normalize_created_at
validate_provision_result f cal r =
    if not (is_sha256_ref r.source_identity.checksum)
    then inl checksum_pattern
    else if is_negative r.source_identity.size_bytes
    then inl size_negative
    else with_created f r (normalize_created_at cal r.source_identity.created_at)

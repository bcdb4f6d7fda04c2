-- ===== src/Evidence/Validate.antt =====
-- internal/evidence/record.go: `Record.Validate`, the shape rules that a writer enforces.
use probavi.Base.{
  ℕ, Bool, true, false, not, ◌&&◌, ◌||◌, Option, none, some, List, [], ◌∷◌, ◌++◌, leb, ◌==◌, within,
  length, all, has_newline, beq, codes, is_empty, Bytes,
}
use probavi.Base.Int.{ℤ, is_negative}
use probavi.Utf8.{valid_string}
use probavi.Evidence.Codes.{invalid_record, schema_id}
use probavi.Evidence.Result.{Result, ok, fails, ◌>>◌, require}
use probavi.Evidence.Record.{Outcome, pass, other, Timings, Check, DrillError, Env, Record}
use probavi.Evidence.Timestamp.{validate_ts}
use probavi.Evidence.Truncate.{max_detail_bytes, max_error_message_bytes}

abbrev is_hex : ℕ → Bool
is_hex c = within b'0' b'9' c || within b'a' b'f' c

-- The rest of a text behind a prefix.
unfoldable pub cut_prefix : Bytes → Bytes → Option Bytes
cut_prefix [] s = some s
cut_prefix (a ∷ x) [] = none
cut_prefix (a ∷ x) (c ∷ s) =
    let rest = cut_prefix x s in elim (a == c) [ true ↦ rest | false ↦ none ]

-- `sha256RefPattern`: `^sha256:[0-9a-f]{64}$`.
unfoldable pub is_sha256_ref : Bytes → Bool
unfolding cut_prefix
is_sha256_ref s = elim (cut_prefix (codes "sha256:") s) [
  | none ↦ false
  | some hex ↦ length hex == 64 && all is_hex hex
]

-- `hostIDPattern`: `^[0-9a-f]{16}$`.
unfoldable pub is_host_id : Bytes → Bool
is_host_id s = length s == 16 && all is_hex s

-- A rule about a nullable field holds where the field is null.
abbrev pub if_some {ℓ} : {A : Type ℓ} → Option A → (A → Result (Unit {0})) → Result (Unit {0})
if_some none rule = ok tt
if_some (some a) rule = rule a

unfoldable pub validate_line : ℕ → Bytes → Result (Unit {0})
validate_line max s = do
  require (leb (length s) max) invalid_record
  require (not (has_newline s)) invalid_record

abbrev utf8_rule : Bytes → Result (Unit {0})
utf8_rule s = require (valid_string s) invalid_record

unfoldable pub utf8_checks : List Check → Result (Unit {0})
utf8_checks [] = ok tt
utf8_checks (c ∷ cs) = do utf8_rule c.name; if_some c.detail utf8_rule; utf8_checks cs

-- Key and value are joined by a NUL.
unfoldable pub utf8_params : List (Bytes × Bytes) → Result (Unit {0})
utf8_params [] = ok tt
utf8_params ((k, v) ∷ ps) = do utf8_rule (k ++ (0 ∷ v)); utf8_params ps

abbrev elements {ℓ} : {A : Type ℓ} → Option (List A) → List A
elements none = []
elements (some xs) = xs

unfoldable pub validate_utf8 : Record → Result (Unit {0})
unfolding utf8_checks utf8_params
validate_utf8 r = do
  utf8_rule r.drill.name
  utf8_rule r.backup.kind
  utf8_rule r.adapter.name
  utf8_rule r.adapter.protocol
  utf8_rule r.sandbox.provider
  utf8_rule r.env.probavi_version
  utf8_rule r.env.os
  utf8_rule r.env.arch
  if_some r.adapter.version utf8_rule
  if_some r.failure (λ e. utf8_rule e.code >> utf8_rule e.message)
  utf8_checks (elements r.checks)
  utf8_params (elements r.sandbox.params)

unfoldable pub validate_identity : Record → Result (Unit {0})
unfolding validate_ts
validate_identity r = do
  require (beq r.schema schema_id) invalid_record
  validate_ts r.ts
  require (not (is_empty r.drill.name)) invalid_record
  require (is_sha256_ref r.drill.config_hash) invalid_record
  if_some r.drill.pitr_target validate_ts

abbrev is_known : Outcome → Bool
is_known (other s) = false
is_known _ = true

abbrev is_pass : Outcome → Bool
is_pass pass = true
is_pass _ = false

abbrev pub is_none {ℓ} : {A : Type ℓ} → Option A → Bool
is_none none = true
is_none (some a) = false

-- `a == b` on Booleans.
abbrev same : Bool → Bool → Bool
same true b = b
same false b = not b

unfoldable pub validate_failure : DrillError → Result (Unit {0})
unfolding validate_line
validate_failure e = do
  require (not (is_empty e.code)) invalid_record
  validate_line max_error_message_bytes e.message

unfoldable pub validate_outcome : Record → Result (Unit {0})
unfolding validate_failure
validate_outcome r = do
  require (is_known r.outcome) invalid_record
  require (same (is_pass r.outcome) (is_none r.failure)) invalid_record
  if_some r.failure validate_failure

unfoldable pub validate_each : List Check → Result (Unit {0})
unfolding validate_line
validate_each [] = ok tt
validate_each (c ∷ cs) = do
  require (not (is_empty c.name)) invalid_record
  if_some c.detail (validate_line max_detail_bytes)
  validate_each cs

unfoldable pub validate_checks : Record → Result (Unit {0})
unfolding validate_each
validate_checks r = elim r.checks [ none ↦ fails invalid_record | some cs ↦ validate_each cs ]

abbrev pub not_negative : Option ℤ → Result (Unit {0})
not_negative n = if_some n (λ v. require (not (is_negative v)) invalid_record)

abbrev pub sha256_rule : Bytes → Result (Unit {0})
sha256_rule s = require (is_sha256_ref s) invalid_record

unfoldable pub validate_timings : Timings → Result (Unit {0})
validate_timings t = do
  not_negative t.provision
  not_negative t.engine_ready
  not_negative t.transfer
  not_negative t.restore
  not_negative t.validate
  not_negative t.total

unfoldable pub validate_env : Env → Result (Unit {0})
unfolding is_host_id
validate_env e = do
  require (not (is_empty e.probavi_version || is_empty e.os || is_empty e.arch)) invalid_record
  require (is_host_id e.host_id) invalid_record
  if_some e.probavi_digest sha256_rule

unfoldable pub validate_nested : Record → Result (Unit {0})
unfolding validate_timings validate_env
validate_nested r = do
  require (not (is_empty r.backup.kind)) invalid_record
  if_some r.backup.checksum sha256_rule
  if_some r.backup.created_at validate_ts
  not_negative r.backup.size_bytes
  require (not (is_empty r.adapter.name || is_empty r.adapter.protocol)) invalid_record
  if_some r.adapter.digest sha256_rule
  require (not (is_empty r.sandbox.provider)) invalid_record
  require (not (is_none r.sandbox.params)) invalid_record
  validate_timings r.timings
  validate_env r.env

unfoldable pub validate : Record → Result (Unit {0})
unfolding validate_utf8 validate_identity validate_outcome validate_checks validate_nested
validate r = do
  validate_utf8 r
  validate_identity r
  validate_outcome r
  validate_checks r
  validate_nested r

-- ===== src/Config/Drill.antt =====
-- internal/config/config.go: the configuration of one drill and its validation. A diagnostic is a
-- `Defect`; where it stands and its words are left out.
pub mod Parts
pub mod Sound
pub mod Webhooks
use probavi.Base.{
  ℕ, suc, ◌+◌, ◌*◌, Bool, true, false, not, ◌&&◌, ◌||◌, Option, none, some, List, [], ◌∷◌, ◌++◌,
  within, ◌==◌, if◌then◌else◌, all, beq, contains, is_empty, codes, Bytes,
}
use probavi.Base.Int.{ℤ, pos, le_int, eq_int, add_int}
use probavi.Manifest.{is_identifier_part}
use probavi.Config.Check.{CheckConfig, Flaw, validate_each}

pub record Pitr : Type 0 where
  pub target_time : Bytes
  pub target_age : ℤ

-- `Source`; `params` is a map, by its keys and values.
pub record SourceConfig : Type 0 where
  pub kind : Bytes
  pub path : Bytes
  pub manifest : Bytes
  pub select : Bytes
  pub params : List (Bytes × Bytes)
  pub credential_env : List Bytes

pub record Target : Type 0 where
  pub name : Bytes
  pub adapter : Bytes
  pub source : SourceConfig
  pub pitr : Option Pitr

pub record SandboxConfig : Type 0 where
  pub provider : Bytes
  pub timeout : ℤ

pub record EvidenceConfig : Type 0 where
  pub path : Bytes
  pub sign_key : Bytes

pub record NotifyWebhook : Type 0 where
  pub url : Bytes
  pub url_env : Bytes
  pub secret_env : Bytes
  pub on : List Bytes

-- `Config`; `metrics` is the path of the text file, `notify` the webhooks.
pub record DrillConfig : Type 0 where
  pub target : Target
  pub sandbox : SandboxConfig
  pub checks : List CheckConfig
  pub evidence : EvidenceConfig
  pub metrics : Option Bytes
  pub notify : Option (List NotifyWebhook)

pub data Defect : Type 0 where
  target_name_required adapter_required adapter_name_pattern source_kind_required : Defect
  credential_env_name source_select_value source_select_twice : Defect
  pitr_exactly_one pitr_bad_target_time pitr_future_target_time : Defect
  provider_required sandbox_timeout_required checks_required : Defect
  evidence_path_required sign_key_required metrics_textfile notify_webhooks_required : Defect
  webhook_url_not_both webhook_url_neither webhook_url_env_name webhook_url_shape : Defect
  webhook_secret_env_name webhook_unknown_outcome webhook_duplicate_outcome : Defect
  in_check : Flaw → Defect

abbrev pub defect_if : Bool → Defect → List Defect
defect_if bad f = if bad then f ∷ [] else []

-- `^[a-z0-9][a-z0-9-]*$`.
unfoldable pub is_adapter_name : Bytes → Bool
is_adapter_name [] = false
is_adapter_name (c ∷ s) =
    (within b'a' b'z' c || within b'0' b'9' c)
    && all (λ d. within b'a' b'z' d || within b'0' b'9' d || d == b'-') s

-- `envNamePattern`, which is the pattern of a part of an identifier.
unfoldable pub is_env_name : Bytes → Bool
unfolding is_identifier_part
is_env_name s = is_identifier_part s

abbrev pub select_policies : List Bytes
select_policies = codes "newest" ∷ codes "oldest" ∷ codes "random" ∷ []

abbrev pub notify_outcomes : List Bytes
notify_outcomes = codes "pass" ∷ codes "fail" ∷ codes "error" ∷ codes "cancelled" ∷ []

unfoldable pub has_key : Bytes → List (Bytes × Bytes) → Bool
has_key k [] = false
has_key k (p ∷ ps) = beq p.0 k || has_key k ps

unfoldable pub validate_credential_env : List Bytes → List Defect
unfolding is_env_name
validate_credential_env [] = []
validate_credential_env (name ∷ names) =
    defect_if (not (is_env_name name)) credential_env_name ++ validate_credential_env names

-- A selection that is set.
unfoldable pub validate_select : Bytes → List (Bytes × Bytes) → List Defect
unfolding has_key
validate_select [] params = []
validate_select (c ∷ s) params =
    defect_if (not (contains select_policies (c ∷ s))) source_select_value
    ++ defect_if (has_key (codes "select") params) source_select_twice

-- `Source.validate`.
unfoldable pub validate_source : SourceConfig → List Defect
unfolding validate_credential_env validate_select
validate_source src =
    validate_credential_env src.credential_env ++ validate_select src.select src.params

-- What the standard library answers: `url.Parse`, by scheme and host, `time.Parse` under RFC 3339,
-- in nanoseconds of the epoch, and the clock.
pub record Host : Type 0 where
  pub parse_url : Bytes → Option (Bytes × Bytes)
  pub parse_time : Bytes → Option ℤ
  pub now : ℤ

-- `pitrClockSkewGrace`, in nanoseconds.
abbrev pub pitr_clock_skew_grace : ℕ
pitr_clock_skew_grace = 60000000000

unfoldable pub validate_target_time : Host → Option ℤ → List Defect
validate_target_time host none = pitr_bad_target_time ∷ []
validate_target_time host (some ts) =
    defect_if (not (le_int ts (add_int host.now pitr_clock_skew_grace))) pitr_future_target_time

-- By the target time, and whether an age is given: one of them is.
unfoldable pub validate_pitr_by : Host → Bytes → Bool → List Defect
unfolding validate_target_time
validate_pitr_by host [] false = pitr_exactly_one ∷ []
validate_pitr_by host [] true = []
validate_pitr_by host (c ∷ s) true = pitr_exactly_one ∷ []
validate_pitr_by host (c ∷ s) false = validate_target_time host (host.parse_time (c ∷ s))

-- `PITR.validate`.
unfoldable pub validate_pitr : Host → Pitr → List Defect
unfolding validate_pitr_by
validate_pitr host p = validate_pitr_by host p.target_time (not (eq_int p.target_age (pos 0)))

abbrev pub pitr_defects : Host → Option Pitr → List Defect
pitr_defects host none = []
pitr_defects host (some p) = validate_pitr host p

unfoldable pub validate_adapter : Bytes → List Defect
unfolding is_adapter_name
validate_adapter [] = adapter_required ∷ []
validate_adapter (c ∷ s) = defect_if (not (is_adapter_name (c ∷ s))) adapter_name_pattern

-- `Target.validate`.
unfoldable pub validate_target : Host → Target → List Defect
unfolding validate_adapter validate_source validate_pitr
validate_target host t =
    defect_if (is_empty t.name) target_name_required
    ++ validate_adapter t.adapter
    ++ defect_if (is_empty t.source.kind) source_kind_required
    ++ validate_source t.source
    ++ pitr_defects host t.pitr

-- The condition on a URL that was parsed.
unfoldable pub is_http : Option (Bytes × Bytes) → Bool
is_http none = false
is_http (some u) = not (is_empty u.1) && (beq u.0 (codes "http") || beq u.0 (codes "https"))

-- The switch over `url` and `url_env`.
unfoldable pub validate_url : Host → Bytes → Bytes → List Defect
unfolding is_env_name is_http
validate_url host (c ∷ u) (d ∷ e) = webhook_url_not_both ∷ []
validate_url host [] (d ∷ e) = defect_if (not (is_env_name (d ∷ e))) webhook_url_env_name
validate_url host (c ∷ u) [] = defect_if (not (is_http (host.parse_url (c ∷ u)))) webhook_url_shape
validate_url host [] [] = webhook_url_neither ∷ []

unfoldable pub validate_secret_env : Bytes → List Defect
unfolding is_env_name
validate_secret_env [] = []
validate_secret_env (c ∷ s) = defect_if (not (is_env_name (c ∷ s))) webhook_secret_env_name

-- The loop over `on`, with the keys of `seen`.
unfoldable pub validate_on : List Bytes → List Bytes → List Defect
validate_on seen [] = []
validate_on seen (o ∷ os) =
    (if not (contains notify_outcomes o)
      then webhook_unknown_outcome ∷ []
      else defect_if (contains seen o) webhook_duplicate_outcome)
    ++ validate_on (o ∷ seen) os

-- `NotifyWebhook.validate`.
unfoldable pub validate_webhook : Host → NotifyWebhook → List Defect
unfolding validate_url validate_secret_env validate_on
validate_webhook host w =
    validate_url host w.url w.url_env ++ validate_secret_env w.secret_env ++ validate_on [] w.on

unfoldable pub validate_webhooks : Host → List NotifyWebhook → List Defect
unfolding validate_webhook
validate_webhooks host [] = []
validate_webhooks host (w ∷ ws) = validate_webhook host w ++ validate_webhooks host ws

-- `Notify.validate`.
unfoldable pub validate_notify : Host → Option (List NotifyWebhook) → List Defect
unfolding validate_webhooks
validate_notify host none = []
validate_notify host (some []) = notify_webhooks_required ∷ []
validate_notify host (some (w ∷ ws)) = validate_webhooks host (w ∷ ws)

unfoldable pub in_checks : List Flaw → List Defect
in_checks [] = []
in_checks (f ∷ fs) = in_check f ∷ in_checks fs

-- `validateChecks`.
unfoldable pub validate_checks : Bool → List CheckConfig → List Defect
unfolding validate_each in_checks
validate_checks has_manifest [] = checks_required ∷ []
validate_checks has_manifest (ch ∷ chs) = in_checks (validate_each has_manifest (ch ∷ chs))

abbrev pub metrics_defects : Option Bytes → List Defect
metrics_defects none = []
metrics_defects (some file) = defect_if (is_empty file) metrics_textfile

-- `Sandbox.validate` and `Evidence.validate`.
unfoldable pub validate_sandbox : SandboxConfig → List Defect
validate_sandbox s =
    defect_if (is_empty s.provider) provider_required
    ++ defect_if (eq_int s.timeout (pos 0)) sandbox_timeout_required

unfoldable pub validate_evidence : EvidenceConfig → List Defect
validate_evidence e =
    defect_if (is_empty e.path) evidence_path_required
    ++ defect_if (is_empty e.sign_key) sign_key_required

abbrev pub has_manifest : DrillConfig → Bool
has_manifest c = not (is_empty c.target.source.manifest)

-- `Config.validate`.
unfoldable pub validate_drill : Host → DrillConfig → List Defect
unfolding validate_target validate_sandbox validate_checks validate_evidence validate_notify
validate_drill host c =
    validate_target host c.target
    ++ validate_sandbox c.sandbox
    ++ validate_checks (has_manifest c) c.checks
    ++ validate_evidence c.evidence
    ++ metrics_defects c.metrics
    ++ validate_notify host c.notify

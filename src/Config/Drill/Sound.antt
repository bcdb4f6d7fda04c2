-- ===== src/Config/Drill/Sound.antt =====
-- The configuration of a drill that `validate` lets pass.
use probavi.Base.{
  ◌≡◌, ◌≢◌, ◌↔◌, refl, subst, Bool, false, Option, none, some, List, [], ◌∷◌, is_empty, All,
  append-nil_iff, Bytes,
}
use probavi.Base.Int.{pos, eq_int}
use probavi.Config.Check.{CheckConfig, Flaw}
use probavi.Config.Check.Runnable.{Runnable}
use probavi.Config.Check.Kinds.{validate_each_iff}
use probavi.Config.Drill.{
  DrillConfig, SandboxConfig, EvidenceConfig, Host, defect_if, in_checks, validate_checks,
  validate_sandbox, validate_evidence, validate_notify, metrics_defects, has_manifest,
  validate_drill, provider_required, sandbox_timeout_required, evidence_path_required,
  sign_key_required, metrics_textfile,
}
use probavi.Config.Drill.Parts.{
  defect_if-nil_iff, empty_nil_iff, IsTarget, validate_target-IsTarget_iff,
}
use probavi.Config.Drill.Webhooks.{IsNotify, validate_notify-IsNotify_iff}

pub record IsDrill (host : Host) (c : DrillConfig) : Type 0 where
  pub target : IsTarget host c.target
  pub provider : c.sandbox.provider ≢ []
  pub timeout : eq_int c.sandbox.timeout (pos 0) ≡ false
  pub checked : c.checks ≢ []
  pub runnable : All (Runnable (has_manifest c)) c.checks
  pub log : c.evidence.path ≢ []
  pub key : c.evidence.sign_key ≢ []
  pub metrics : (file : Bytes) → c.metrics ≡ some file → file ≢ []
  pub notify : IsNotify host c.notify

in_checks-nil : (fs : List Flaw) → (in_checks fs ≡ []) ↔ (fs ≡ [])
unfolding in_checks
in_checks-nil [] = ((λ e. refl), λ h. refl)
in_checks-nil (f ∷ fs) = ((λ e. cc), λ h. cc)

checks_iff :
    (m : Bool) (chs : List CheckConfig)
    → (validate_checks m chs ≡ []) ↔ ((chs ≢ []) × All (Runnable m) chs)
unfolding validate_checks
checks_iff m [] = ((λ e. cc), λ h. absurd (h.0 refl))
checks_iff m (ch ∷ chs) = (
  λ e. ((λ q. cc), (validate_each_iff m (ch ∷ chs)).0 ((in_checks-nil _).0 e)),
  λ h. (in_checks-nil _).1 ((validate_each_iff m (ch ∷ chs)).1 h.1),
)

metrics_iff :
    (o : Option Bytes) → (metrics_defects o ≡ []) ↔ ((file : Bytes) → o ≡ some file → file ≢ [])
metrics_iff none = ((λ e file q. cc), λ h. refl)
metrics_iff (some f) = (
  λ e file q. subst (λ x. x ≢ []) (of_some q) ((empty_nil_iff f metrics_textfile).0 e),
  λ h. (empty_nil_iff f metrics_textfile).1 (h f refl),
)
  where
    of_some : {a b : Bytes} → some a ≡ some b → a ≡ b
    of_some e = cc

sandbox_iff :
    (s : SandboxConfig)
    → (validate_sandbox s ≡ []) ↔ ((s.provider ≢ []) × (eq_int s.timeout (pos 0) ≡ false))
unfolding validate_sandbox
sandbox_iff s = (
  λ e.
      let (a, b) = (append-nil_iff (defect_if (is_empty s.provider) provider_required) _).0 e in
      (
        (empty_nil_iff s.provider provider_required).0 a,
        (defect_if-nil_iff _ sandbox_timeout_required).0 b,
      ),
  λ h. rw ((empty_nil_iff s.provider provider_required).1 h.0, h.1) refl,
)

evidence_iff :
    (e : EvidenceConfig) → (validate_evidence e ≡ []) ↔ ((e.path ≢ []) × (e.sign_key ≢ []))
unfolding validate_evidence
evidence_iff e = (
  λ q.
      let (a, b) = (append-nil_iff (defect_if (is_empty e.path) evidence_path_required) _).0 q in
      (
        (empty_nil_iff e.path evidence_path_required).0 a,
        (empty_nil_iff e.sign_key sign_key_required).0 b,
      ),
  λ h.
      rw
        (
          (empty_nil_iff e.path evidence_path_required).1 h.0,
          (empty_nil_iff e.sign_key sign_key_required).1 h.1,
        )
        refl,
)

-- The configuration of a drill has no defect exactly if its target, its sandbox, its log and its
-- webhooks are complete, of the published words and not set twice, and there is a check, each of
-- which has what its kind needs and nothing else.
pub validate_drill-IsDrill_iff :
    (host : Host) (c : DrillConfig) → (validate_drill host c ≡ []) ↔ IsDrill host c
unfolding validate_drill
validate_drill-IsDrill_iff host c = (
  λ e.
      let (abcde, n) = (append-nil_iff _ (validate_notify host c.notify)).0 e in
      let (abcd, m) = (append-nil_iff _ (metrics_defects c.metrics)).0 abcde in
      let (abc, v) = (append-nil_iff _ (validate_evidence c.evidence)).0 abcd in
      let (ab, k) = (append-nil_iff _ (validate_checks (has_manifest c) c.checks)).0 abc in
      let (t, s) = (append-nil_iff _ (validate_sandbox c.sandbox)).0 ab in
      let (checked, runnable) = (checks_iff (has_manifest c) c.checks).0 k in
      record {
        target = (validate_target-IsTarget_iff host c.target).0 t;
        provider = ((sandbox_iff c.sandbox).0 s).0;
        timeout = ((sandbox_iff c.sandbox).0 s).1;
        checked = checked;
        runnable = runnable;
        log = ((evidence_iff c.evidence).0 v).0;
        key = ((evidence_iff c.evidence).0 v).1;
        metrics = (metrics_iff c.metrics).0 m;
        notify = (validate_notify-IsNotify_iff host c.notify).0 n;
      },
  λ h.
      rw
        (
          (validate_target-IsTarget_iff host c.target).1 h.target,
          (sandbox_iff c.sandbox).1 (h.provider, h.timeout),
          (checks_iff (has_manifest c) c.checks).1 (h.checked, h.runnable),
          (evidence_iff c.evidence).1 (h.log, h.key),
          (metrics_iff c.metrics).1 h.metrics,
          (validate_notify-IsNotify_iff host c.notify).1 h.notify,
        )
        refl,
)

-- ===== src/Core/Execute/Verdict.antt =====
-- The verdict that a drill reaches: it agrees with its error on every path, and a pass is recorded
-- exactly if every phase went through and every check passed.
use probavi.Base.{
  ℕ, ◌≡◌, refl, true, false, Option, none, some, List, ltb, Bool-cases, beq, beq_iff, contains,
  length, inl, inr, Bytes,
}
use probavi.Evidence.Codes.{code_internal, code_sandbox_error, code_cancelled}
use probavi.Evidence.Record.{Outcome, pass, fail, error, cancelled, other, DrillError, Record}
use probavi.Core.Classify.{fail_codes}
use probavi.Core.Classify.Laws.{Agrees, IsVerdict, classified-IsVerdict, record_fault-IsVerdict}
use probavi.Core.Refuse.{refusal, refuse, check_backup_manifest}
use probavi.Core.Refuse.Laws.{IsRefusal, refusal-IsRefusal}
use probavi.Core.World.{
  Drill, Failure, Answer, answered, failed, at_create, at_provision, at_probe, at_checks, Probe,
  Fault, ManifestResult, Facts, Provisioned, CheckResult, World,
}
use probavi.Core.Execute.{
  count_failed, judge_counted, judge, validate_restored, in_sandbox, blame_sandbox, create_failure,
  with_sandbox, record_facts, record_manifest, with_manifest, record_probe, unless_refused,
  with_probe, execute, record_checks, record_provision,
}

not_fail : contains fail_codes code_internal ≡ true → ⊥
unfolding contains beq
not_fail h = cc

not_cancelled : ◌≡◌ {A = Bytes} code_internal code_cancelled → ⊥
not_cancelled h = cc

-- Renaming the code `internal` changes no verdict: neither name says more than an error.
blame_sandbox-Agrees :
    (o : Outcome) (e : Option DrillError) → Agrees o e → Agrees o (blame_sandbox e)
unfolding blame_sandbox
blame_sandbox-Agrees o none h = h
blame_sandbox-Agrees o (some e) h = elim (Bool-cases (beq e.code code_internal)) [
  | inr n ↦ rw n h
  | inl i ↦ rw i (renamed o ((beq_iff e.code code_internal).0 i) h)
]
  where
    renamed :
        (o : Outcome)
        → e.code ≡ code_internal
        → Agrees o (some e)
        → Agrees o (some (record e { code = code_sandbox_error }))
    renamed pass q h = h
    renamed fail q h = absurd (not_fail (rw q at h))
    renamed error q h = unfold contains beq in refl
    renamed cancelled q h = absurd (not_cancelled (rw q at h))
    renamed (other s) q h = h

judge_counted-IsVerdict :
    (n m : ℕ) (rec : Record) → rec.failure ≡ none → IsVerdict (judge_counted n m rec)
unfolding judge_counted
judge_counted-IsVerdict n m rec h = elim (Bool-cases (ltb 0 n)) [
  | inl e ↦ rw e (unfold contains beq in refl)
  | inr e ↦ rw e (rw h tt)
]

judge-IsVerdict :
    (d : Drill) (w : World) (rs : List CheckResult) (f : Option Failure) (rec : Record)
    → rec.failure ≡ none
    → IsVerdict (judge d w rs f rec)
unfolding judge
judge-IsVerdict d w rs (some f) rec h = classified-IsVerdict d (w.ctx at_checks) f rec
judge-IsVerdict d w rs none rec h = judge_counted-IsVerdict (count_failed rs) (length rs) rec h

in_sandbox-IsVerdict :
    (d : Drill) (w : World) (a : Answer Provisioned) (rec : Record)
    → rec.failure ≡ none
    → IsVerdict (in_sandbox d w a rec).0
unfolding in_sandbox
in_sandbox-IsVerdict d w (failed f) rec h = classified-IsVerdict d (w.ctx at_provision) f rec
in_sandbox-IsVerdict d w (answered p) rec h =
    unfold validate_restored record_checks record_provision in
    judge-IsVerdict d w w.checks.0 w.checks.1 (record_checks w w.checks.0 (record_provision rec p))
      h

with_sandbox-IsVerdict :
    (d : Drill) (w : World) (a : Answer Facts) (rec : Record)
    → rec.failure ≡ none
    → IsVerdict (with_sandbox d w a rec).0
unfolding with_sandbox
with_sandbox-IsVerdict d w (failed f) rec h =
    blame_sandbox-Agrees _ _ (classified-IsVerdict d (w.ctx at_create) (create_failure f) rec)
with_sandbox-IsVerdict d w (answered facts) rec h =
    unfold record_facts in in_sandbox-IsVerdict d w w.provision (record_facts w facts rec) h

with_manifest-IsVerdict :
    (d : Drill) (w : World) (m : ManifestResult × Option Fault) (rec : Record)
    → rec.failure ≡ none
    → IsVerdict (with_manifest d w m rec).0
unfolding with_manifest
with_manifest-IsVerdict d w (res, some f) rec h =
    record_fault-IsVerdict d f (record_manifest res rec)
with_manifest-IsVerdict d w (res, none) rec h =
    unfold record_manifest in with_sandbox-IsVerdict d w w.create (record_manifest res rec) h

refusal-Agrees : (cm : Bytes × Bytes) → IsRefusal (some cm) → contains fail_codes cm.0 ≡ false
unfolding contains beq
refusal-Agrees cm (inl e) = rw e refl
refusal-Agrees cm (inr e) = rw e refl

unless_refused-IsVerdict :
    (d : Drill) (w : World) (o : Option (Bytes × Bytes)) (rec : Record)
    → IsRefusal o
    → rec.failure ≡ none
    → IsVerdict (unless_refused d w o rec).0
unfolding unless_refused
unless_refused-IsVerdict d w (some cm) rec r h = unfold refuse in refusal-Agrees cm r
unless_refused-IsVerdict d w none rec r h =
    with_manifest-IsVerdict d w (check_backup_manifest d.config w) rec h

with_probe-IsVerdict :
    (d : Drill) (w : World) (a : Answer Probe) (rec : Record)
    → rec.failure ≡ none
    → IsVerdict (with_probe d w a rec).0
unfolding with_probe
with_probe-IsVerdict d w (failed f) rec h = classified-IsVerdict d (w.ctx at_probe) f rec
with_probe-IsVerdict d w (answered p) rec h =
    unfold record_probe in
    unless_refused-IsVerdict d w (refusal d.config p) (record_probe w p rec)
      (refusal-IsRefusal d.config p) h

-- Whatever the collaborators answer: the record passes exactly if it has no error, fails exactly
-- with a code that blames the backup, and is cancelled with the code of that.
pub execute-IsVerdict :
    (d : Drill) (w : World) (rec : Record) → rec.failure ≡ none → IsVerdict (execute d w rec).0
unfolding execute
execute-IsVerdict d w rec h = with_probe-IsVerdict d w w.probe _ h

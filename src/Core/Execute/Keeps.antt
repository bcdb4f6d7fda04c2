-- ===== src/Core/Execute/Keeps.antt =====
-- What no phase of a drill changes in its record: which drill it was and which builds ran it.
use probavi.Base.{ℕ, ◌≡◌, refl, Option, none, some, List, ltb, Bool-cases, length, inl, inr, Bytes}
use probavi.Base.Int.{ℤ}
use probavi.Evidence.Record.{Drill as DrillPart, Signature, Record}
use probavi.Core.Classify.{classify, record_fault}
use probavi.Core.Refuse.{refusal, refuse, check_backup_manifest}
use probavi.Core.World.{
  Drill, Failure, Answer, answered, failed, Probe, Fault, ManifestResult, Facts, Provisioned,
  CheckResult, World,
}
use probavi.Core.Execute.{
  count_failed, judge_counted, judge, validate_restored, in_sandbox, with_sandbox, record_facts,
  record_manifest, with_manifest, record_probe, unless_refused, with_probe, execute, record_checks,
  record_provision,
}

-- The part of a record that is known before the drill starts.
pub record Origin : Type 0 where
  pub schema : Bytes
  pub drill : DrillPart
  pub kind : Bytes
  pub adapter : Bytes
  pub digest : Option Bytes
  pub provider : Bytes
  pub params : Option (List (Bytes × Bytes))
  pub self_digest : Option Bytes
  pub total : Option ℤ
  pub sig : Option Signature

abbrev pub origin : Record → Origin
origin rec = record {
  schema = rec.schema;
  drill = rec.drill;
  kind = rec.backup.kind;
  adapter = rec.adapter.name;
  digest = rec.adapter.digest;
  provider = rec.sandbox.provider;
  params = rec.sandbox.params;
  self_digest = rec.env.probavi_digest;
  total = rec.timings.total;
  sig = rec.sig;
}

origin-judge_counted : (n m : ℕ) (rec : Record) → origin (judge_counted n m rec) ≡ origin rec
unfolding judge_counted
origin-judge_counted n m rec = elim (Bool-cases (ltb 0 n)) [ inl e ↦ rw e | inr e ↦ rw e ]

origin-judge :
    (d : Drill) (w : World) (rs : List CheckResult) (f : Option Failure) (rec : Record)
    → origin (judge d w rs f rec) ≡ origin rec
unfolding judge classify
origin-judge d w rs (some f) rec = refl
origin-judge d w rs none rec = origin-judge_counted (count_failed rs) (length rs) rec

origin-in_sandbox :
    (d : Drill) (w : World) (a : Answer Provisioned) (rec : Record)
    → origin (in_sandbox d w a rec).0 ≡ origin rec
unfolding in_sandbox classify validate_restored record_checks record_provision
origin-in_sandbox d w (failed f) rec = refl
origin-in_sandbox d w (answered p) rec =
    origin-judge d w w.checks.0 w.checks.1 (record_checks w w.checks.0 (record_provision rec p))

origin-with_sandbox :
    (d : Drill) (w : World) (a : Answer Facts) (rec : Record)
    → origin (with_sandbox d w a rec).0 ≡ origin rec
unfolding with_sandbox classify record_facts
origin-with_sandbox d w (failed f) rec = refl
origin-with_sandbox d w (answered facts) rec =
    origin-in_sandbox d w w.provision (record_facts w facts rec)

origin-with_manifest :
    (d : Drill) (w : World) (m : ManifestResult × Option Fault) (rec : Record)
    → origin (with_manifest d w m rec).0 ≡ origin rec
unfolding with_manifest record_fault record_manifest
origin-with_manifest d w (res, some f) rec = refl
origin-with_manifest d w (res, none) rec =
    origin-with_sandbox d w w.create (record_manifest res rec)

origin-unless_refused :
    (d : Drill) (w : World) (o : Option (Bytes × Bytes)) (rec : Record)
    → origin (unless_refused d w o rec).0 ≡ origin rec
unfolding unless_refused refuse
origin-unless_refused d w (some cm) rec = refl
origin-unless_refused d w none rec = origin-with_manifest d w (check_backup_manifest d.config w) rec

origin-with_probe :
    (d : Drill) (w : World) (a : Answer Probe) (rec : Record)
    → origin (with_probe d w a rec).0 ≡ origin rec
unfolding with_probe classify record_probe
origin-with_probe d w (failed f) rec = refl
origin-with_probe d w (answered p) rec =
    origin-unless_refused d w (refusal d.config p) (record_probe w p rec)

-- Whatever the collaborators answer, the record still names the drill that was asked for, its
-- configuration, its recovery target, its sandbox parameters, and the two executables.
pub origin-execute :
    (d : Drill) (w : World) (rec : Record) → origin (execute d w rec).0 ≡ origin rec
unfolding execute
origin-execute d w rec = origin-with_probe d w w.probe _

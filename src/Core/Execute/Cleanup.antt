-- ===== src/Core/Execute/Cleanup.antt =====
-- Every restore that a drill attempts is torn down, and every sandbox that it creates is destroyed or
-- left to the next run.
use probavi.Base.{◌≡◌, refl, Bool, true, false, Option, none, some, List, [], ◌∷◌, Bytes}
use probavi.Evidence.Record.{Record}
use probavi.Core.Refuse.{refusal, check_backup_manifest}
use probavi.Core.World.{
  Drill, Answer, answered, failed, Probe, Fault, ManifestResult, Facts, Provisioned, World, Call,
  sweep_orphans, probe_adapter, check_manifest, create_sandbox, provision_backup, run_checks,
  tear_down, destroy_sandbox, log_teardown_failed, log_destroy_failed,
}
use probavi.Core.Execute.{
  teardown, destroy, in_sandbox, with_sandbox, with_manifest, unless_refused, record_probe,
  with_probe, execute,
}

-- How far the one sandbox of a drill has come. `unreported` and `undestroyed` wait for the log.
pub data Stage : Type 0 where
  absent live attempted unreported torn undestroyed orphaned : Stage

-- The order that the protocol wants of the calls, `none` where they break it: nothing in a sandbox that
-- is not there, a restore at most once and only in a live one, its teardown before `Destroy`, that at
-- most once, and an error of either in the log.
unfoldable pub follow : Stage → List Call → Option Stage
follow stage [] = some stage
follow absent (sweep_orphans ∷ cs) = follow absent cs
follow absent (probe_adapter ∷ cs) = follow absent cs
follow absent (check_manifest ∷ cs) = follow absent cs
follow absent (create_sandbox false ∷ cs) = follow absent cs
follow absent (create_sandbox true ∷ cs) = follow live cs
follow live (provision_backup ∷ cs) = follow attempted cs
follow attempted (run_checks ∷ cs) = follow attempted cs
follow attempted (tear_down reason true ∷ cs) = follow torn cs
follow attempted (tear_down reason false ∷ cs) = follow unreported cs
follow unreported (log_teardown_failed ∷ cs) = follow torn cs
follow torn (destroy_sandbox true ∷ cs) = follow absent cs
follow torn (destroy_sandbox false ∷ cs) = follow undestroyed cs
follow undestroyed (log_destroy_failed ∷ cs) = follow orphaned cs
follow _ _ = none

-- Where a drill may end: without a sandbox, or with one that `Destroy` failed to remove.
abbrev pub IsClosed : World → Option Stage → Type 0
IsClosed w (some absent) = Unit
IsClosed w (some orphaned) = w.destroyed ≡ false
IsClosed w _ = ⊥

close-IsClosed :
    (w : World) (reason : Bytes) (t x : Bool)
    → w.destroyed ≡ x
    → IsClosed w (follow attempted (teardown t reason (destroy x)))
unfolding follow
close-IsClosed w reason true true e = tt
close-IsClosed w reason false true e = tt
close-IsClosed w reason true false e = e
close-IsClosed w reason false false e = e

in_sandbox-IsClosed :
    (d : Drill) (w : World) (a : Answer Provisioned) (rec : Record)
    → IsClosed w (follow live (in_sandbox d w a rec).1)
unfolding in_sandbox follow
in_sandbox-IsClosed d w (failed f) rec = close-IsClosed w _ w.torn_down w.destroyed refl
in_sandbox-IsClosed d w (answered p) rec = close-IsClosed w _ w.torn_down w.destroyed refl

with_sandbox-IsClosed :
    (d : Drill) (w : World) (a : Answer Facts) (rec : Record)
    → IsClosed w (follow absent (with_sandbox d w a rec).1)
unfolding with_sandbox follow
with_sandbox-IsClosed d w (failed f) rec = tt
with_sandbox-IsClosed d w (answered facts) rec = in_sandbox-IsClosed d w w.provision _

with_manifest-IsClosed :
    (d : Drill) (w : World) (m : ManifestResult × Option Fault) (rec : Record)
    → IsClosed w (follow absent (with_manifest d w m rec).1)
unfolding with_manifest follow
with_manifest-IsClosed d w (res, none) rec = with_sandbox-IsClosed d w w.create _
with_manifest-IsClosed d w (res, some f) rec = tt

unless_refused-IsClosed :
    (d : Drill) (w : World) (o : Option (Bytes × Bytes)) (rec : Record)
    → IsClosed w (follow absent (unless_refused d w o rec).1)
unfolding unless_refused follow
unless_refused-IsClosed d w (some cm) rec = tt
unless_refused-IsClosed d w none rec =
    with_manifest-IsClosed d w (check_backup_manifest d.config w) rec

with_probe-IsClosed :
    (d : Drill) (w : World) (a : Answer Probe) (rec : Record)
    → IsClosed w (follow absent (with_probe d w a rec).1)
unfolding with_probe follow
with_probe-IsClosed d w (failed f) rec = tt
with_probe-IsClosed d w (answered p) rec =
    unless_refused-IsClosed d w (refusal d.config p) (record_probe w p rec)

-- Whatever the collaborators answer, the calls of a drill keep this order: it attempts a restore at most
-- once and only in a live sandbox, tears it down before it calls `Destroy`, and ends without a sandbox
-- unless that call failed, which it logs.
pub execute-IsClosed :
    (d : Drill) (w : World) (rec : Record) → IsClosed w (follow absent (execute d w rec).1)
unfolding execute follow
execute-IsClosed d w rec = with_probe-IsClosed d w w.probe _

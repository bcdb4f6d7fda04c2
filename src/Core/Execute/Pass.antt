-- ===== src/Core/Execute/Pass.antt =====
-- A pass is recorded exactly if every phase went through and every check passed.
use probavi.Base.{◌≡◌, Bool, true, none, List, all}
use probavi.Evidence.Record.{Record}
use probavi.Core.Refuse.{refusal, check_backup_manifest}
use probavi.Core.World.{Drill, answered, Probe, Facts, Provisioned, CheckResult, World}

abbrev all_passed : List CheckResult → Bool
all_passed = all (λ r. r.passed)

-- Every phase went through.
pub record WentThrough (d : Drill) (w : World) : Type 0 where
  pub probe : Probe
  pub probed : w.probe ≡ answered probe
  pub accepted : refusal d.config probe ≡ none
  pub agreed : (check_backup_manifest d.config w).1 ≡ none
  pub facts : Facts
  pub created : w.create ≡ answered facts
  pub restored : Provisioned
  pub provisioned : w.provision ≡ answered restored
  pub ran : w.checks.1 ≡ none
  pub passed : all (λ r. r.passed) w.checks.0 ≡ true

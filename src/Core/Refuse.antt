-- ===== src/Core/Refuse.antt =====
-- internal/core/core.go: what is settled before a sandbox exists, by the probe and by the manifest.
pub mod Laws
use probavi.Base.{
  Bool, true, false, not, ◌&&◌, ◌||◌, Option, none, some, List, [], ◌∷◌, ◌++◌, if◌then◌else◌, beq,
  contains, codes, is_empty, Bytes,
}
use probavi.Evidence.Codes.{code_unsupported_source, code_invalid_request}
use probavi.Evidence.Record.{error, Record}
use probavi.Core.World.{Drill, Config, Source, Probe, SourceKind, Fault, ManifestResult, World}

unfoldable pub supports_kind : List SourceKind → Bytes → Bool
supports_kind [] kind = false
supports_kind (s ∷ ss) kind = beq s.kind kind || supports_kind ss kind

unfoldable pub supports_pitr : List SourceKind → Bytes → Bool
supports_pitr [] kind = false
supports_pitr (s ∷ ss) kind = if beq s.kind kind then s.pitr else supports_pitr ss kind

abbrev pub select_or : Option Bool → Bool → Bool
select_or none b = b
select_or (some a) b = a

unfoldable pub selects_a_backup : List SourceKind → Bytes → Bool
selects_a_backup [] kind = true
selects_a_backup (s ∷ ss) kind =
    let rest = selects_a_backup ss kind in if beq s.kind kind then select_or s.select rest else rest

abbrev is_some {ℓ} : {A : Type ℓ} → Option A → Bool
is_some none = false
is_some (some a) = true

-- `refusedByProbe`: the code and the message of the refusal, if there is one.
unfoldable pub refusal : Config → Probe → Option (Bytes × Bytes)
unfolding supports_kind supports_pitr selects_a_backup
refusal cfg p =
    let kind = cfg.source.kind in
    if not (supports_kind p.sources kind)
    then some (
      code_unsupported_source,
      codes "adapter " ++ p.name ++ codes " does not support source kind " ++ kind,
    )
    else if is_some cfg.pitr && not (supports_pitr p.sources kind)
    then some (
      code_unsupported_source,
      codes "source kind "
          ++ kind
          ++ codes " does not support point-in-time recovery (adapter "
          ++ p.name
          ++ codes ")",
    )
    else if not (is_empty cfg.source.select) && not (selects_a_backup p.sources kind)
    then some (
      code_invalid_request,
      codes "source kind "
          ++ kind
          ++ codes " chooses no backup, so select="
          ++ cfg.source.select
          ++ codes " cannot apply (adapter "
          ++ p.name
          ++ codes ")",
    )
    else none

unfoldable pub refuse : Record → Bytes × Bytes → Record
refuse rec cm = record rec {
  outcome = error;
  failure = some (record { code = cm.0; message = cm.1 });
}

abbrev check_baseline : Bytes
check_baseline = codes "baseline"

abbrev no_manifest : ManifestResult
no_manifest = record { hash = none; matched = none; baseline = [] }

abbrev is_nil {ℓ} : {A : Type ℓ} → List A → Bool
is_nil [] = true
is_nil (x ∷ xs) = false

-- The end of `checkBackupManifest`, behind `manifest.Check`.
unfoldable pub baseline_fault :
    Config → ManifestResult × Option Fault → ManifestResult × Option Fault
baseline_fault cfg (res, some fault) = (res, some fault)
baseline_fault cfg (res, none) =
    if is_nil res.baseline && contains cfg.builtins check_baseline
    then (
      res,
      some (record {
        code = code_invalid_request;
        message =
            codes "a baseline check is configured, but the backup manifest at "
            ++ cfg.source.manifest
            ++ codes
                " declares no baseline; a check that would reconcile nothing is a configuration mistake";
      }),
    )
    else (res, none)

unfoldable pub check_backup_manifest : Config → World → ManifestResult × Option Fault
unfolding baseline_fault
check_backup_manifest cfg w =
    if is_empty cfg.source.manifest then (no_manifest, none) else baseline_fault cfg w.manifest

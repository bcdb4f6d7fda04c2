-- ===== src/Evidence/Marshal/Parts.antt =====
-- internal/evidence/record.go: the parts of a record can be told from their JSON.
use probavi.Base.{◌≡◌, refl, List, [], ◌∷◌, Bytes, codes, beq}
use probavi.Evidence.Record.{
  Drill, Backup, Adapter, Resources, Timings, Check, DrillError, Env, Signature,
}
use probavi.Evidence.Canonical.Same.{Same, SameItems, item}
use probavi.Evidence.Marshal.{
  object_of, drill_members, drill_json, backup_members, backup_json, adapter_members, adapter_json,
  resources_members, resources_json, timings_members, timings_json, check_members, check_json,
  checks_json, failure_members, failure_json, env_members, env_json, signature_members,
  signature_json,
}
use probavi.Evidence.Marshal.Members.{get-Alike}
use probavi.Evidence.Marshal.Leaves.{
  text-Same, boolean-Same, nullable_text-Same, nullable_boolean-Same, nullable_int-Same,
}

pub drill_json-Same : (a b : Drill) → Same (drill_json a) (drill_json b) → a ≡ b
unfolding drill_json object_of beq
drill_json-Same a b s =
    let at = λ (k : Bytes). get-Alike (drill_members a) (drill_members b) k s in
    λ i. record {
      name = text-Same a.name b.name (at (codes "name")) i;
      config_hash = text-Same a.config_hash b.config_hash (at (codes "config_hash")) i;
      pitr_target = nullable_text-Same a.pitr_target b.pitr_target (at (codes "pitr_target")) i;
    }

pub backup_json-Same : (a b : Backup) → Same (backup_json a) (backup_json b) → a ≡ b
unfolding backup_json object_of beq
backup_json-Same a b s =
    let at = λ (k : Bytes). get-Alike (backup_members a) (backup_members b) k s in
    λ i. record {
      kind = text-Same a.kind b.kind (at (codes "kind")) i;
      checksum = nullable_text-Same a.checksum b.checksum (at (codes "checksum")) i;
      size_bytes = nullable_int-Same a.size_bytes b.size_bytes (at (codes "size_bytes")) i;
      created_at = nullable_text-Same a.created_at b.created_at (at (codes "created_at")) i;
      manifest_hash =
          nullable_text-Same a.manifest_hash b.manifest_hash (at (codes "manifest_hash")) i;
      manifest_match =
          nullable_boolean-Same a.manifest_match b.manifest_match (at (codes "manifest_match")) i;
      newest_data_at =
          nullable_text-Same a.newest_data_at b.newest_data_at (at (codes "newest_data_at")) i;
    }

pub adapter_json-Same : (a b : Adapter) → Same (adapter_json a) (adapter_json b) → a ≡ b
unfolding adapter_json object_of beq
adapter_json-Same a b s =
    let at = λ (k : Bytes). get-Alike (adapter_members a) (adapter_members b) k s in
    λ i. record {
      name = text-Same a.name b.name (at (codes "name")) i;
      version = nullable_text-Same a.version b.version (at (codes "version")) i;
      protocol = text-Same a.protocol b.protocol (at (codes "protocol")) i;
      digest = nullable_text-Same a.digest b.digest (at (codes "digest")) i;
    }

pub resources_json-Same : (a b : Resources) → Same (resources_json a) (resources_json b) → a ≡ b
unfolding resources_json object_of beq
resources_json-Same a b s =
    let at = λ (k : Bytes). get-Alike (resources_members a) (resources_members b) k s in
    λ i. record {
      memory_bytes = nullable_int-Same a.memory_bytes b.memory_bytes (at (codes "memory_bytes")) i;
      cpus_milli = nullable_int-Same a.cpus_milli b.cpus_milli (at (codes "cpus_milli")) i;
    }

pub timings_json-Same : (a b : Timings) → Same (timings_json a) (timings_json b) → a ≡ b
unfolding timings_json object_of beq
timings_json-Same a b s =
    let at = λ (k : Bytes). get-Alike (timings_members a) (timings_members b) k s in
    λ i. record {
      provision = nullable_int-Same a.provision b.provision (at (codes "provision")) i;
      engine_ready = nullable_int-Same a.engine_ready b.engine_ready (at (codes "engine_ready")) i;
      transfer = nullable_int-Same a.transfer b.transfer (at (codes "transfer")) i;
      restore = nullable_int-Same a.restore b.restore (at (codes "restore")) i;
      validate = nullable_int-Same a.validate b.validate (at (codes "validate")) i;
      total = nullable_int-Same a.total b.total (at (codes "total")) i;
    }

pub check_json-Same : (a b : Check) → Same (check_json a) (check_json b) → a ≡ b
unfolding check_json object_of beq
check_json-Same a b s =
    let at = λ (k : Bytes). get-Alike (check_members a) (check_members b) k s in
    λ i. record {
      name = text-Same a.name b.name (at (codes "name")) i;
      passed = boolean-Same a.passed b.passed (at (codes "ok")) i;
      detail = nullable_text-Same a.detail b.detail (at (codes "detail")) i;
    }

pub failure_json-Same : (a b : DrillError) → Same (failure_json a) (failure_json b) → a ≡ b
unfolding failure_json object_of beq
failure_json-Same a b s =
    let at = λ (k : Bytes). get-Alike (failure_members a) (failure_members b) k s in
    λ i. record {
      code = text-Same a.code b.code (at (codes "code")) i;
      message = text-Same a.message b.message (at (codes "message")) i;
    }

pub env_json-Same : (a b : Env) → Same (env_json a) (env_json b) → a ≡ b
unfolding env_json object_of beq
env_json-Same a b s =
    let at = λ (k : Bytes). get-Alike (env_members a) (env_members b) k s in
    λ i. record {
      probavi_version =
          text-Same a.probavi_version b.probavi_version (at (codes "probavi_version")) i;
      os = text-Same a.os b.os (at (codes "os")) i;
      arch = text-Same a.arch b.arch (at (codes "arch")) i;
      host_id = text-Same a.host_id b.host_id (at (codes "host_id")) i;
      probavi_digest =
          nullable_text-Same a.probavi_digest b.probavi_digest (at (codes "probavi_digest")) i;
      clock_synchronised =
          nullable_boolean-Same a.clock_synchronised b.clock_synchronised
            (at (codes "clock_synchronised")) i;
    }

pub signature_json-Same : (a b : Signature) → Same (signature_json a) (signature_json b) → a ≡ b
unfolding signature_json object_of beq
signature_json-Same a b s =
    let at = λ (k : Bytes). get-Alike (signature_members a) (signature_members b) k s in
    λ i. record {
      alg = text-Same a.alg b.alg (at (codes "alg")) i;
      key_id = text-Same a.key_id b.key_id (at (codes "key_id")) i;
      sig_b64 = text-Same a.sig_b64 b.sig_b64 (at (codes "sig_b64")) i;
    }

-- The checks in their order.
pub checks_json-Same : (cs ds : List Check) → SameItems (checks_json cs) (checks_json ds) → cs ≡ ds
unfolding checks_json
checks_json-Same [] [] s = refl
checks_json-Same [] (d ∷ ds) s = elim s [ ]
checks_json-Same (c ∷ cs) [] s = elim s [ ]
checks_json-Same (c ∷ cs) (d ∷ ds) (item one more) =
    λ i. check_json-Same c d one i ∷ checks_json-Same cs ds more i

-- ===== src/Evidence/Marshal.antt =====
-- internal/evidence/record.go, read by encoding/json: the JSON value of a record, by the `json` tags
-- of its structs, and `CanonicalizeRecord`. Maps are listed in the order of their sorted keys.
pub mod Members
pub mod Leaves
pub mod Parts
pub mod Says
pub mod Utf8
pub mod Exact
use probavi.Base.{
  ℕ, zero, suc, ◌+◌, ◌/◌, ◌%◌, Option, none, some, List, [], ◌∷◌, ltb, if◌then◌else◌, codes, Bytes,
  String, Bool, true, false, ◌||◌, beq, ◌++◌,
}
use probavi.Base.Int.{ℤ, pos, negsuc}
use probavi.Evidence.Result.{Result}
use probavi.Evidence.Json.{
  Json, null, boolean, number, text, array, object, Items, nil, cons, Fields, end, field,
}
use probavi.Evidence.Canonical.{canonicalize}
use probavi.Evidence.Canonical.Keys.{Keyed, sort, runes}
use probavi.Evidence.Canonical.Keys.Runes.{spell}
use probavi.Redact.{text_le}
use probavi.Evidence.Record.{
  Outcome, pass, fail, error, cancelled, other, Drill, Backup, Adapter, Resources, Sandbox, Timings,
  Check, DrillError, Env, Signature, Record,
}

-- `strconv.FormatInt`; the fuel n + 1 is more than the digits of n.
unfoldable pub decimal_onto : ℕ → ℕ → Bytes → Bytes
decimal_onto zero n acc = acc
decimal_onto (suc fuel) n acc =
    let rest = decimal_onto fuel (n / 10) ((b'0' + n % 10) ∷ acc) in
    if ltb n 10 then (b'0' + n) ∷ acc else rest

unfoldable pub decimal : ℕ → Bytes
unfolding decimal_onto
decimal n = decimal_onto (suc n) n []

unfoldable pub format_int : ℤ → Bytes
unfolding decimal
format_int (pos n) = decimal n
format_int (negsuc n) = b'-' ∷ decimal (suc n)

pub fields_of : List (Keyed Json) → Fields
fields_of [] = end
fields_of ((k, v) ∷ rest) = field k v (fields_of rest)

unfoldable pub object_of : List (Keyed Json) → Json
unfolding fields_of sort
object_of members = object (fields_of (sort members))

abbrev nullable {ℓ} : {A : Type ℓ} → (A → Json) → Option A → Json
nullable f none = null
nullable f (some a) = f a

abbrev int_json : ℤ → Json
int_json n = number (format_int n)

abbrev of : String → Json → Keyed Json
of name v = (codes name, v)

abbrev drill_members : Drill → List (Keyed Json)
drill_members d =
    of "name" (text d.name)
    ∷ of "config_hash" (text d.config_hash)
    ∷ of "pitr_target" (nullable text d.pitr_target)
    ∷ []

pub drill_json : Drill → Json
unfolding object_of
drill_json d = object_of (drill_members d)

abbrev backup_members : Backup → List (Keyed Json)
backup_members b =
    of "kind" (text b.kind)
    ∷ of "checksum" (nullable text b.checksum)
    ∷ of "size_bytes" (nullable int_json b.size_bytes)
    ∷ of "created_at" (nullable text b.created_at)
    ∷ of "manifest_hash" (nullable text b.manifest_hash)
    ∷ of "manifest_match" (nullable boolean b.manifest_match)
    ∷ of "newest_data_at" (nullable text b.newest_data_at)
    ∷ []

pub backup_json : Backup → Json
unfolding object_of
backup_json b = object_of (backup_members b)

abbrev adapter_members : Adapter → List (Keyed Json)
adapter_members a =
    of "name" (text a.name)
    ∷ of "version" (nullable text a.version)
    ∷ of "protocol" (text a.protocol)
    ∷ of "digest" (nullable text a.digest)
    ∷ []

pub adapter_json : Adapter → Json
unfolding object_of
adapter_json a = object_of (adapter_members a)

abbrev resources_members : Resources → List (Keyed Json)
resources_members r =
    of "memory_bytes" (nullable int_json r.memory_bytes)
    ∷ of "cpus_milli" (nullable int_json r.cpus_milli)
    ∷ []

pub resources_json : Resources → Json
unfolding object_of
resources_json r = object_of (resources_members r)

pub params_of : List (Bytes × Bytes) → List (Keyed Json)
params_of [] = []
params_of ((k, v) ∷ ps) = (k, text v) ∷ params_of ps

abbrev params_json : List (Bytes × Bytes) → Json
params_json ps = object_of (params_of ps)

pub sandbox_members : Sandbox → List (Keyed Json)
unfolding resources_json params_of
sandbox_members s =
    of "provider" (text s.provider)
    ∷ of "params" (nullable params_json s.params)
    ∷ of "image_digest" (nullable text s.image_digest)
    ∷ of "resources" (resources_json s.resources)
    ∷ []

pub sandbox_json : Sandbox → Json
unfolding object_of sandbox_members
sandbox_json s = object_of (sandbox_members s)

abbrev timings_members : Timings → List (Keyed Json)
timings_members t =
    of "provision" (nullable int_json t.provision)
    ∷ of "engine_ready" (nullable int_json t.engine_ready)
    ∷ of "transfer" (nullable int_json t.transfer)
    ∷ of "restore" (nullable int_json t.restore)
    ∷ of "validate" (nullable int_json t.validate)
    ∷ of "total" (nullable int_json t.total)
    ∷ []

pub timings_json : Timings → Json
unfolding object_of
timings_json t = object_of (timings_members t)

abbrev check_members : Check → List (Keyed Json)
check_members c =
    of "name" (text c.name) ∷ of "ok" (boolean c.passed) ∷ of "detail" (nullable text c.detail) ∷ []

pub check_json : Check → Json
unfolding object_of
check_json c = object_of (check_members c)

pub checks_json : List Check → Items
unfolding check_json
checks_json [] = nil
checks_json (c ∷ cs) = cons (check_json c) (checks_json cs)

abbrev outcome_text : Outcome → Bytes
outcome_text pass = codes "pass"
outcome_text fail = codes "fail"
outcome_text error = codes "error"
outcome_text cancelled = codes "cancelled"
outcome_text (other s) = s

abbrev failure_members : DrillError → List (Keyed Json)
failure_members e = of "code" (text e.code) ∷ of "message" (text e.message) ∷ []

pub failure_json : DrillError → Json
unfolding object_of
failure_json e = object_of (failure_members e)

abbrev env_members : Env → List (Keyed Json)
env_members e =
    of "probavi_version" (text e.probavi_version)
    ∷ of "os" (text e.os)
    ∷ of "arch" (text e.arch)
    ∷ of "host_id" (text e.host_id)
    ∷ of "probavi_digest" (nullable text e.probavi_digest)
    ∷ of "clock_synchronised" (nullable boolean e.clock_synchronised)
    ∷ []

pub env_json : Env → Json
unfolding object_of
env_json e = object_of (env_members e)

abbrev signature_members : Signature → List (Keyed Json)
signature_members s =
    of "alg" (text s.alg) ∷ of "key_id" (text s.key_id) ∷ of "sig_b64" (text s.sig_b64) ∷ []

pub signature_json : Signature → Json
unfolding object_of
signature_json s = object_of (signature_members s)

-- `json:"sig,omitempty"`: a nil pointer leaves the member out.
abbrev sig_member : Option Signature → List (Keyed Json)
sig_member none = []
sig_member (some s) = of "sig" (signature_json s) ∷ []

pub members : Record → List (Keyed Json)
unfolding drill_json backup_json adapter_json sandbox_json timings_json checks_json failure_json
    env_json signature_json
members r =
    of "schema" (text r.schema)
    ∷ of "seq" (int_json r.seq)
    ∷ of "prev_hash" (text r.prev_hash)
    ∷ of "ts" (text r.ts)
    ∷ of "drill" (drill_json r.drill)
    ∷ of "backup" (backup_json r.backup)
    ∷ of "adapter" (adapter_json r.adapter)
    ∷ of "sandbox" (sandbox_json r.sandbox)
    ∷ of "timings_ms" (timings_json r.timings)
    ∷ of "checks" (nullable (λ cs. array (checks_json cs)) r.checks)
    ∷ of "outcome" (text (outcome_text r.outcome))
    ∷ of "error" (nullable failure_json r.failure)
    ∷ of "env" (env_json r.env)
    ∷ sig_member r.sig

-- What stands for a string that is no valid UTF-8: U+FFFD for each byte that belongs to no rune.
unfoldable pub replaced_text : Bytes → Bytes
unfolding runes
replaced_text s = spell (runes 0 s)

abbrev pub replaced_option : Option Bytes → Option Bytes
replaced_option none = none
replaced_option (some s) = some (replaced_text s)

-- `encoding/json` writes a map in the byte order of its keys.
unfoldable pub insert_param : Bytes × Bytes → List (Bytes × Bytes) → List (Bytes × Bytes)
unfolding text_le
insert_param p [] = p ∷ []
insert_param p (q ∷ ps) = if text_le p.0 q.0 then p ∷ q ∷ ps else q ∷ insert_param p ps

unfoldable pub sort_params : List (Bytes × Bytes) → List (Bytes × Bytes)
unfolding insert_param
sort_params [] = []
sort_params (p ∷ ps) = insert_param p (sort_params ps)

abbrev pub holds_key : Bytes → List (Bytes × Bytes) → Bool
holds_key k [] = false
holds_key k (p ∷ ps) = beq k p.0 || holds_key k ps

-- Of the members whose keys became one, the decoder keeps the last.
unfoldable pub keep_last : List (Bytes × Bytes) → List (Bytes × Bytes)
unfolding replaced_text
keep_last [] = []
keep_last (p ∷ ps) =
    let rest = keep_last ps in
    let key = replaced_text p.0 in
    if holds_key key rest then rest else (key, replaced_text p.1) ∷ rest

abbrev pub replaced_params : Option (List (Bytes × Bytes)) → Option (List (Bytes × Bytes))
replaced_params none = none
replaced_params (some ps) = some (keep_last (sort_params ps))

abbrev pub replaced_outcome : Outcome → Outcome
replaced_outcome (other s) = other (replaced_text s)
replaced_outcome o = o

unfoldable pub replaced_checks : List Check → List Check
unfolding replaced_text
replaced_checks [] = []
replaced_checks (c ∷ cs) =
    record c { name = replaced_text c.name; detail = replaced_option c.detail } ∷ replaced_checks cs

abbrev pub replaced_failure : Option DrillError → Option DrillError
replaced_failure none = none
replaced_failure (some e) =
    some (record { code = replaced_text e.code; message = replaced_text e.message })

abbrev pub replaced_signature : Option Signature → Option Signature
replaced_signature none = none
replaced_signature (some s) = some (record {
  alg = replaced_text s.alg;
  key_id = replaced_text s.key_id;
  sig_b64 = replaced_text s.sig_b64;
})

abbrev pub replaced_lists : Option (List Check) → Option (List Check)
replaced_lists none = none
replaced_lists (some cs) = some (replaced_checks cs)

-- What `json.Marshal` replaces in the strings of a record.
unfoldable pub replaced : Record → Record
unfolding replaced_text keep_last sort_params replaced_checks
replaced r = record r {
  schema = replaced_text r.schema;
  prev_hash = replaced_text r.prev_hash;
  ts = replaced_text r.ts;
  drill = record {
    name = replaced_text r.drill.name;
    config_hash = replaced_text r.drill.config_hash;
    pitr_target = replaced_option r.drill.pitr_target;
  };
  backup = record r.backup {
    kind = replaced_text r.backup.kind;
    checksum = replaced_option r.backup.checksum;
    created_at = replaced_option r.backup.created_at;
    manifest_hash = replaced_option r.backup.manifest_hash;
    newest_data_at = replaced_option r.backup.newest_data_at;
  };
  adapter = record {
    name = replaced_text r.adapter.name;
    version = replaced_option r.adapter.version;
    protocol = replaced_text r.adapter.protocol;
    digest = replaced_option r.adapter.digest;
  };
  sandbox = record r.sandbox {
    provider = replaced_text r.sandbox.provider;
    params = replaced_params r.sandbox.params;
    image_digest = replaced_option r.sandbox.image_digest;
  };
  checks = replaced_lists r.checks;
  outcome = replaced_outcome r.outcome;
  failure = replaced_failure r.failure;
  env = record r.env {
    probavi_version = replaced_text r.env.probavi_version;
    os = replaced_text r.env.os;
    arch = replaced_text r.env.arch;
    host_id = replaced_text r.env.host_id;
    probavi_digest = replaced_option r.env.probavi_digest;
  };
  sig = replaced_signature r.sig;
}

-- The value that `CanonicalizeRecord` reads back of `json.Marshal(r)`.
unfoldable pub record_json : Record → Json
unfolding members object_of replaced
record_json r = object_of (members (replaced r))

unfoldable pub canonicalize_record : Record → Result Bytes
unfolding record_json
canonicalize_record r = canonicalize (record_json r)

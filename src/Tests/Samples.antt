-- ===== src/Tests/Samples.antt =====
-- A codec over two lines, and a drill with its answers.
use probavi.Base.{
  ℕ, zero, suc, true, false, none, some, [], ◌∷◌, ◌++◌, beq, codes, if◌then◌else◌, Bytes,
}
use probavi.Base.Int.{pos}
use probavi.Evidence.Codes.{genesis_prev_hash, schema_id}
use probavi.Evidence.Json.{object, field, end, number}
use probavi.Evidence.Record.{Record, Signature, no_timings, no_resources, pass}
use probavi.Evidence.Codec.{Codec}
use probavi.Evidence.Walk.{Keyring}
use probavi.Core.World.{Drill, World, answered, failed, Failure, canceled}

abbrev pub filler : ℕ → Bytes
filler zero = []
filler (suc n) = b'a' ∷ filler n

abbrev pub first : Bytes
first = codes "{\"seq\":1}"

abbrev pub second : Bytes
second = codes "{\"seq\":2}"

abbrev pub signature : Signature
signature = record { alg = codes "ed25519"; key_id = codes "k"; sig_b64 = filler 64 }

abbrev stored : ℕ → Bytes → Record
stored n prev = record {
  schema = schema_id;
  seq = pos n;
  prev_hash = prev;
  ts = [];
  drill = record { name = []; config_hash = []; pitr_target = none };
  backup = record {
    kind = [];
    checksum = none;
    size_bytes = none;
    created_at = none;
    manifest_hash = none;
    manifest_match = none;
    newest_data_at = none;
  };
  adapter = record { name = []; version = none; protocol = []; digest = none };
  sandbox = record { provider = []; params = none; image_digest = none; resources = no_resources };
  timings = no_timings;
  checks = none;
  outcome = pass;
  failure = none;
  env = record {
    probavi_version = [];
    os = [];
    arch = [];
    host_id = [];
    probavi_digest = none;
    clock_synchronised = none;
  };
  sig = some signature;
}

-- The hash is the line itself, and every signature verifies.
abbrev pub table : Codec
table = record {
  decode_strict = λ b.
      if beq b first
      then some (object (field (codes "seq") (number (codes "1")) end))
      else if beq b second
      then some (object (field (codes "seq") (number (codes "2")) end))
      else none;
  unmarshal = λ b.
      if beq b first
      then some (stored 1 genesis_prev_hash)
      else if beq b second
      then some (stored 2 (codes "sha256:" ++ first))
      else none;
  sha256_hex = λ b. b;
  sign = λ k m. filler 64;
  verify = λ k m s. true;
  encode_base64 = λ b. b;
  decode_base64 = λ b. some b;
}

abbrev pub keyring : Keyring
keyring id = some []

-- A log of one record, and the same with a crash artifact and a second record.
abbrev pub short_log : Bytes
short_log = first ++ codes "\n"

abbrev pub long_log : Bytes
long_log = first ++ codes "\n{\"se\n" ++ second ++ codes "\n"

abbrev pub drill : Drill
drill = record {
  config = record {
    name = codes "nightly";
    hash = codes "sha256:" ++ filler 64;
    adapter = codes "postgres";
    source = record {
      kind = codes "pg_dump";
      path = codes "/b";
      manifest = [];
      select = [];
      params = [];
      credential_env = [];
    };
    pitr = none;
    provider = codes "docker";
    sandbox_params = none;
    builtins = [];
  };
  version = codes "1.0";
  os = codes "linux";
  arch = codes "amd64";
  redactor = none;
  sandbox_password = codes "pw";
  host_name = none;
  adapter_digest = none;
  self_digest = none;
  sha256_hex = λ s. filler 64;
  quote = λ s. s;
}

abbrev pub world : World
world = record {
  clock_answer = some (codes "yes");
  probe = answered (record {
    name = codes "postgres";
    adapter_version = codes "1";
    sources = record { kind = codes "pg_dump"; pitr = false; select = none } ∷ [];
  });
  protocol = codes "probavi-adapter/1";
  manifest = (record { hash = none; matched = none; baseline = [] }, none);
  create = answered (record { image_digest = none; memory_bytes = none; cpus_milli = none });
  provision = answered (record {
    state = [];
    checksum = codes "sha256:" ++ filler 64;
    size_bytes = pos 7;
    created_at = none;
    engine_ready = pos 1;
    transfer = pos 2;
    restore = pos 3;
  });
  checks =
      (record { name = codes "tables"; passed = true; newest_data = none; detail = [] } ∷ [], none);
  ctx = λ p. none;
  started = 0;
  provision_started = 1000000;
  provision_ended = 3000000;
  validate_started = 4000000;
  validate_ended = 5000000;
  ended = 6000000;
  now = 0;
  degraded_now = 1;
  torn_down = true;
  destroyed = true;
  format = λ t. codes "2026-01-02T03:04:05.006Z";
}

abbrev pub crash : Failure
crash = record { adapter = some (codes "adapter_crash", codes "killed"); text = codes "killed" }

-- The same, interrupted in the restore.
abbrev pub interrupted : World
interrupted = record world { provision = failed crash; ctx = λ p. some canceled }

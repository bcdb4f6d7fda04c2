-- ===== src/Tests/Talks.antt =====
-- Operations of an adapter.
use probavi.Base.{
  ◌≡◌, ◌≢◌, refl, ◌↔◌, Bool, true, false, Option, none, some, List, [], ◌∷◌, beq, contains, codes,
  if◌then◌else◌, Bytes,
}
use probavi.Adapter.Verbs.{SandboxCall, SandboxVerbs, Operation}
use probavi.Adapter.Talk.{Envelope, Scanned, line, clean, broken, payload, operate, read_loop}
use probavi.Adapter.Answers.{Conversation, operate-payload_iff}
use probavi.Adapter.Permits.{Permits, read_loop-Permits}
use probavi.Adapter.Environment.{PassesOn, build_env, build_env-PassesOn}

abbrev sandbox : SandboxVerbs
sandbox = record { exec = λ args. some (codes "0"); put_file = λ source args. some (codes "7") }

-- A provision from one directory, with one secret.
abbrev provision : Operation
provision = record {
  protocol = codes "probavi-adapter/1";
  request_id = codes "r-1";
  verbs = some sandbox;
  guard = some (λ p. if beq p (codes "/b/dump") then some p else none);
  secrets = codes "s" ∷ [];
  decode_base64 = λ s. some s;
  write_fails = λ d. false;
}

abbrev message : Option SandboxCall → Option Bool → Scanned
message c ok = line (
    some (record {
      protocol = codes "probavi-adapter/1";
      request_id = codes "r-1";
      payload = codes "{}";
      sandbox_call = c;
      ok = ok;
      failure = none;
    }))

abbrev copy : SandboxCall
copy = record {
  call_id = codes "c-1";
  verb = codes "put_file";
  exec_args = none;
  put_file_args =
      some
        (record { source_path = codes "/b/dump"; dest_path = codes "/tmp/d"; mode = codes "0600" });
}

abbrev leak : SandboxCall
leak = record {
  call_id = codes "c-2";
  verb = codes "exec";
  exec_args = some (record {
    argv = codes "restore" ∷ [];
    env = (codes "PW", codes "s") ∷ [];
    stdin_b64 = [];
    timeout_seconds = [];
  });
  put_file_args = none;
}

abbrev lines : List Scanned
lines = message (some copy) none ∷ message (some leak) none ∷ message none (some true) ∷ []

lines_answered : operate provision true lines clean ≡ payload (codes "{}")
unfolding operate beq contains
lines_answered = refl

operate-payload_iff_example : (operate provision true lines clean ≡ payload (codes "{}")) ↔ (
    (true ≡ true)
    × (clean ≢ broken)
    × (r : Envelope) × (r.ok ≡ some true)
    × (r.payload ≡ codes "{}")
    × Conversation provision lines r)
operate-payload_iff_example = operate-payload_iff provision true lines clean (codes "{}")

read_loop-Permits_example : Permits provision (read_loop provision lines).calls
read_loop-Permits_example = read_loop-Permits provision lines

abbrev look_up : Bytes → Option Bytes
look_up name = if beq name (codes "PATH") then some (codes "/bin") else none

build_env-PassesOn_example :
    PassesOn look_up
      (codes "PATH" ∷ [])
      ((codes "X", codes "y") ∷ [])
      (build_env look_up (codes "PATH" ∷ []) ((codes "X", codes "y") ∷ []))
build_env-PassesOn_example =
    build_env-PassesOn look_up (codes "PATH" ∷ []) ((codes "X", codes "y") ∷ [])

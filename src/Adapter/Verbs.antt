-- ===== src/Adapter/Verbs.antt =====
-- internal/adapter/verbs.go: the calls of an adapter on its sandbox.
use probavi.Base.{
  Bool, true, false, ◌||◌, Option, none, some, List, [], ◌∷◌, ◌++◌, if◌then◌else◌, beq, contains,
  is_empty, codes, Bytes,
}
use probavi.Evidence.Codes.{code_invalid_request, code_sandbox_error}

-- `execArgs` and `putFileArgs`; `env` is a map, in the order of its names, and the timeout the text of
-- a float.
pub record ExecArgs : Type 0 where
  pub argv : List Bytes
  pub env : List (Bytes × Bytes)
  pub stdin_b64 : Bytes
  pub timeout_seconds : Bytes

pub record PutFileArgs : Type 0 where
  pub source_path : Bytes
  pub dest_path : Bytes
  pub mode : Bytes

-- `sandboxCall`, with what the decoder makes of its arguments for each verb.
pub record SandboxCall : Type 0 where
  pub call_id : Bytes
  pub verb : Bytes
  pub exec_args : Option ExecArgs
  pub put_file_args : Option PutFileArgs

-- What is asked of the sandbox, and what the audit warns of.
pub data Effect : Type 0 where
  execute : List Bytes → List (Bytes × Bytes) → Bytes → Bytes → Effect
  copy_in : Bytes → Bytes → Bytes → Effect
  warned : Bytes → Effect

-- `Value` is what the sandbox answered, encoded.
pub data VerbAnswer : Type 0 where
  value : Bytes → VerbAnswer
  refused : Bytes → Bool → VerbAnswer

-- `sandboxResult`, and what was done for it.
pub record Dispatched : Type 0 where
  pub call_id : Bytes
  pub answer : VerbAnswer
  pub effects : List Effect

-- `SandboxVerbs`; `none` is an error.
pub record SandboxVerbs : Type 0 where
  pub exec : ExecArgs → Option Bytes
  pub put_file : Bytes → PutFileArgs → Option Bytes

-- What one operation may use: no verbs in a probe, and no guard but in a provision. A guard answers
-- with the path that is opened. `write_fails` is an error of the pipe, but for a closed one.
pub record Operation : Type 0 where
  pub protocol : Bytes
  pub request_id : Bytes
  pub verbs : Option SandboxVerbs
  pub guard : Option (Bytes → Option Bytes)
  pub secrets : List Bytes
  pub decode_base64 : Bytes → Option Bytes
  pub write_fails : Dispatched → Bool

-- `execAudit.check`.
unfoldable pub audit : List Bytes → List (Bytes × Bytes) → List Effect
audit secrets [] = []
audit secrets (kv ∷ env) =
    let rest = audit secrets env in if contains secrets kv.1 then warned kv.0 ∷ rest else rest

abbrev pub no_args : List Bytes → Bool
no_args [] = true
no_args (a ∷ argv) = false

unfoldable pub refuse_call : SandboxCall → Bytes → Bool → Dispatched
refuse_call call code retryable = record {
  call_id = call.call_id;
  answer = refused code retryable;
  effects = [];
}

abbrev pub answer_of : Option Bytes → VerbAnswer
answer_of none = refused code_sandbox_error true
answer_of (some v) = value v

unfoldable pub exec_decoded :
    Operation → SandboxVerbs → SandboxCall → ExecArgs → Option Bytes → Dispatched
unfolding audit
exec_decoded o verbs call args none = record {
  call_id = call.call_id;
  answer = refused code_invalid_request false;
  effects = audit o.secrets args.env;
}
exec_decoded o verbs call args (some stdin) = record {
  call_id = call.call_id;
  answer = answer_of (verbs.exec args);
  effects = audit o.secrets args.env ++ execute args.argv args.env stdin args.timeout_seconds ∷ [];
}

-- `dispatchExec`.
unfoldable pub dispatch_exec : Operation → SandboxVerbs → SandboxCall → Option ExecArgs → Dispatched
unfolding refuse_call exec_decoded
dispatch_exec o verbs call none = refuse_call call code_invalid_request false
dispatch_exec o verbs call (some args) =
    if no_args args.argv
    then refuse_call call code_invalid_request false
    else exec_decoded o verbs call args (o.decode_base64 args.stdin_b64)

unfoldable pub put_opened : SandboxVerbs → SandboxCall → PutFileArgs → Option Bytes → Dispatched
unfolding refuse_call
put_opened verbs call args none = refuse_call call code_invalid_request false
put_opened verbs call args (some source) = record {
  call_id = call.call_id;
  answer = answer_of (verbs.put_file source args);
  effects = copy_in source args.dest_path args.mode ∷ [];
}

unfoldable pub put_guarded :
    Option (Bytes → Option Bytes) → SandboxVerbs → SandboxCall → PutFileArgs → Dispatched
unfolding refuse_call put_opened
put_guarded none verbs call args = refuse_call call code_invalid_request false
put_guarded (some guard) verbs call args = put_opened verbs call args (guard args.source_path)

-- `dispatchPutFile`.
unfoldable pub dispatch_put_file :
    Operation → SandboxVerbs → SandboxCall → Option PutFileArgs → Dispatched
unfolding refuse_call put_guarded
dispatch_put_file o verbs call none = refuse_call call code_invalid_request false
dispatch_put_file o verbs call (some args) =
    if is_empty args.source_path || is_empty args.dest_path
    then refuse_call call code_invalid_request false
    else put_guarded o.guard verbs call args

-- `dispatchVerb`.
unfoldable pub dispatch_verb : Operation → SandboxVerbs → SandboxCall → Dispatched
unfolding refuse_call dispatch_exec dispatch_put_file
dispatch_verb o verbs call =
    if beq call.verb (codes "exec")
    then dispatch_exec o verbs call call.exec_args
    else if beq call.verb (codes "put_file")
    then dispatch_put_file o verbs call call.put_file_args
    else refuse_call call code_invalid_request false

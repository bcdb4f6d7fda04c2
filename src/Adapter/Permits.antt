-- ===== src/Adapter/Permits.antt =====
-- What the calls of an adapter can do.
use probavi.Base.{
  ◌≡◌, refl, subst, ◌⊎◌, inl, inr, Bool, true, false, ◌||◌, Option, none, some, List, [], ◌∷◌,
  if◌then◌else◌, beq, contains, is_empty, codes, Bool-cases, Mem, here, there, Mem-cons, Mem-cases,
  Mem-left, All, Bytes,
}
use probavi.Evidence.Codes.{code_invalid_request}
use probavi.Adapter.Verbs.{
  ExecArgs, PutFileArgs, SandboxCall, Effect, execute, copy_in, warned, Dispatched, SandboxVerbs,
  Operation, audit, refuse_call, exec_decoded, dispatch_exec, put_opened, put_guarded,
  dispatch_put_file, dispatch_verb, no_args,
}
use probavi.Adapter.Talk.{
  Envelope, Scanned, line, too_long, unreadable, Crash, Talk, check_message, after_write, on_call,
  on_final, on_kind, on_message, read_loop,
}

-- A copy is of a path that the guard answered, and a command with a secret in its environment is
-- one that was warned of.
pub record IsAllowed (o : Operation) (d : Dispatched) : Type 0 where
  pub guarded :
      (source dest mode : Bytes)
      → Mem (copy_in source dest mode) d.effects
      → (guard : (Bytes → Option Bytes)) × (asked : Bytes) × (o.guard ≡ some guard)
        × (guard asked ≡ some source)
  pub noticed :
      (argv : List Bytes) (env : List (Bytes × Bytes)) (stdin timeout name secret : Bytes)
      → Mem (execute argv env stdin timeout) d.effects
      → Mem (name, secret) env
      → contains o.secrets secret ≡ true
      → Mem (warned name) d.effects

refuse_call-IsAllowed :
    (o : Operation) (call : SandboxCall) (code : Bytes) (b : Bool)
    → IsAllowed o (refuse_call call code b)
unfolding refuse_call
refuse_call-IsAllowed o call code b = record {
  guarded = λ s d m k. elim k [ ];
  noticed = λ a e i t n s k. elim k [ ];
}

audit-warned :
    (secrets : List Bytes) (env : List (Bytes × Bytes)) (x : Effect)
    → Mem x (audit secrets env)
    → (n : Bytes) × (x ≡ warned n)
unfolding audit
audit-warned secrets [] x m = elim m [ ]
audit-warned secrets (kv ∷ env) x m = elim (Bool-cases (contains secrets kv.1)) [
  | inr f ↦ audit-warned secrets env x (rw f at m)
  | inl t ↦
      let k : Mem x (warned kv.0 ∷ audit secrets env) = rw t at m in
      elim (Mem-cons k) [ inl e ↦ (kv.0, e) | inr j ↦ audit-warned secrets env x j ]
]

audit-notices :
    (secrets : List Bytes) (env : List (Bytes × Bytes)) (name secret : Bytes)
    → Mem (name, secret) env
    → contains secrets secret ≡ true
    → Mem (warned name) (audit secrets env)
unfolding audit
audit-notices secrets [] name secret m h = elim m [ ]
audit-notices secrets (kv ∷ env) name secret m h = elim (Mem-cons m) [
  | inl e ↦ subst (λ z. Mem (warned name) (audit secrets (z ∷ env))) e (rw h here)
  | inr j ↦ by (contains secrets kv.1) (audit-notices secrets env name secret j h)
]
  where
    by :
        (b : Bool)
        → Mem (warned name) (audit secrets env)
        → Mem (warned name) (if b then warned kv.0 ∷ audit secrets env else audit secrets env)
    by true k = there k
    by false k = k

exec_decoded-IsAllowed :
    (o : Operation) (verbs : SandboxVerbs) (call : SandboxCall) (args : ExecArgs) (s : Option Bytes)
    → IsAllowed o (exec_decoded o verbs call args s)
unfolding exec_decoded
exec_decoded-IsAllowed o verbs call args none = record {
  guarded = λ s d m k. let (n, e) = audit-warned o.secrets args.env _ k in cc;
  noticed = λ a e i t n s k. let (n, e) = audit-warned o.secrets args.env _ k in cc;
}
exec_decoded-IsAllowed o verbs call args (some stdin) = record {
  guarded = λ s d m k. elim (Mem-cases (audit o.secrets args.env) k) [
    | inl j ↦ let (n, e) = audit-warned o.secrets args.env _ j in cc
    | inr j ↦ elim (Mem-cons j) [ inl e ↦ cc | inr z ↦ elim z [ ] ]
  ];
  noticed = λ a env i t n s k m h. elim (Mem-cases (audit o.secrets args.env) k) [
    | inl j ↦ let (n, e) = audit-warned o.secrets args.env _ j in cc
    | inr j ↦ elim (Mem-cons j) [
      | inl e ↦
          Mem-left _
            (audit-notices o.secrets args.env n s (subst (λ z. Mem (n, s) z) (env_of e) m) h)
      | inr z ↦ elim z [ ]
    ]
  ];
}
  where
    env_of :
        {a b : List Bytes} {x y : List (Bytes × Bytes)} {i j t u : Bytes}
        → execute a x i t ≡ execute b y j u
        → x ≡ y
    env_of e = cc

dispatch_exec-IsAllowed :
    (o : Operation) (verbs : SandboxVerbs) (call : SandboxCall) (args : Option ExecArgs)
    → IsAllowed o (dispatch_exec o verbs call args)
unfolding dispatch_exec
dispatch_exec-IsAllowed o verbs call none = refuse_call-IsAllowed o call code_invalid_request false
dispatch_exec-IsAllowed o verbs call (some args) = by (no_args args.argv)
  where
    by :
        (b : Bool)
        → IsAllowed o (
            if b
            then refuse_call call code_invalid_request false
            else exec_decoded o verbs call args (o.decode_base64 args.stdin_b64))
    by true = refuse_call-IsAllowed o call code_invalid_request false
    by false = exec_decoded-IsAllowed o verbs call args (o.decode_base64 args.stdin_b64)

put_opened-IsAllowed :
    (o : Operation) (verbs : SandboxVerbs) (call : SandboxCall) (args : PutFileArgs)
    (guard : Bytes → Option Bytes) (opened : Option Bytes)
    → o.guard ≡ some guard
    → guard args.source_path ≡ opened
    → IsAllowed o (put_opened verbs call args opened)
unfolding put_opened
put_opened-IsAllowed o verbs call args guard none g e =
    refuse_call-IsAllowed o call code_invalid_request false
put_opened-IsAllowed o verbs call args guard (some source) g e = record {
  guarded = λ s d m k. elim (Mem-cons k) [
    | inl q ↦
        (guard, args.source_path, g, subst (λ z. guard args.source_path ≡ some z) (source_of q) e)
    | inr z ↦ elim z [ ]
  ];
  noticed = λ a env i t n s k. elim (Mem-cons k) [ inl q ↦ cc | inr z ↦ elim z [ ] ];
}
  where
    source_of : {a b x y i j : Bytes} → copy_in a x i ≡ copy_in b y j → b ≡ a
    source_of q = cc

put_guarded-IsAllowed :
    (o : Operation) (verbs : SandboxVerbs) (call : SandboxCall) (args : PutFileArgs)
    (g : Option (Bytes → Option Bytes))
    → o.guard ≡ g
    → IsAllowed o (put_guarded g verbs call args)
unfolding put_guarded
put_guarded-IsAllowed o verbs call args none e =
    refuse_call-IsAllowed o call code_invalid_request false
put_guarded-IsAllowed o verbs call args (some guard) e =
    put_opened-IsAllowed o verbs call args guard (guard args.source_path) e refl

dispatch_put_file-IsAllowed :
    (o : Operation) (verbs : SandboxVerbs) (call : SandboxCall) (args : Option PutFileArgs)
    → IsAllowed o (dispatch_put_file o verbs call args)
unfolding dispatch_put_file
dispatch_put_file-IsAllowed o verbs call none =
    refuse_call-IsAllowed o call code_invalid_request false
dispatch_put_file-IsAllowed o verbs call (some args) =
    by (is_empty args.source_path || is_empty args.dest_path)
  where
    by :
        (b : Bool)
        → IsAllowed o (
            if b
            then refuse_call call code_invalid_request false
            else put_guarded o.guard verbs call args)
    by true = refuse_call-IsAllowed o call code_invalid_request false
    by false = put_guarded-IsAllowed o verbs call args o.guard refl

dispatch_verb-IsAllowed :
    (o : Operation) (verbs : SandboxVerbs) (call : SandboxCall)
    → IsAllowed o (dispatch_verb o verbs call)
unfolding dispatch_verb
dispatch_verb-IsAllowed o verbs call =
    by (beq call.verb (codes "exec")) (beq call.verb (codes "put_file"))
  where
    by :
        (a b : Bool)
        → IsAllowed o (
            if a
            then dispatch_exec o verbs call call.exec_args
            else if b
            then dispatch_put_file o verbs call call.put_file_args
            else refuse_call call code_invalid_request false)
    by true b = dispatch_exec-IsAllowed o verbs call call.exec_args
    by false true = dispatch_put_file-IsAllowed o verbs call call.put_file_args
    by false false = refuse_call-IsAllowed o call code_invalid_request false

-- Each call is allowed, and there is none in an operation without verbs.
pub record Permits (o : Operation) (calls : List Dispatched) : Type 0 where
  pub allowed : All (IsAllowed o) calls
  pub forbidden : o.verbs ≡ none → calls ≡ []

without_calls-Permits : (o : Operation) → Permits o []
without_calls-Permits o = record { allowed = tt; forbidden = λ e. refl }

call-Permits :
    (o : Operation) (v : Option SandboxVerbs) (call : SandboxCall) (rest : Talk)
    → o.verbs ≡ v
    → Permits o rest.calls
    → Permits o (on_call o v call rest).calls
call-Permits o none call rest e h = without_calls-Permits o
call-Permits o (some verbs) call rest e h = by (o.write_fails (dispatch_verb o verbs call))
  where
    by : (b : Bool) → Permits o (after_write b (dispatch_verb o verbs call) rest).calls
    by true = record { allowed = (dispatch_verb-IsAllowed o verbs call, tt); forbidden = λ k. cc }
    by false = record {
      allowed = (dispatch_verb-IsAllowed o verbs call, h.allowed);
      forbidden = λ k. cc;
    }

message-Permits :
    (o : Operation) (x : Crash ⊎ Envelope) (rest : Talk)
    → Permits o rest.calls
    → Permits o (on_message o x rest).calls
message-Permits o (inl c) rest h = without_calls-Permits o
message-Permits o (inr e) rest h = kind e.sandbox_call
  where
    ended : (ok : Option Bool) → Permits o (on_final e ok).calls
    ended none = without_calls-Permits o
    ended (some b) = without_calls-Permits o

    kind : (c : Option SandboxCall) → Permits o (on_kind o e c rest).calls
    kind (some call) = call-Permits o o.verbs call rest refl h
    kind none = ended e.ok

-- Whatever an adapter asks for in an operation, a file is copied only from a path that the guard of
-- the operation answered, a command whose environment holds a secret of the drill is one that is
-- warned of under the name of the variable, and without verbs nothing is done at all.
pub read_loop-Permits : (o : Operation) (ms : List Scanned) → Permits o (read_loop o ms).calls
unfolding read_loop
read_loop-Permits o [] = without_calls-Permits o
read_loop-Permits o (too_long ∷ ms) = without_calls-Permits o
read_loop-Permits o (unreadable ∷ ms) = without_calls-Permits o
read_loop-Permits o (line l ∷ ms) =
    message-Permits o (check_message o l) (read_loop o ms) (read_loop-Permits o ms)

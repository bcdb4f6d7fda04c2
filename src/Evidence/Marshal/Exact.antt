-- ===== src/Evidence/Marshal/Exact.antt =====
-- internal/evidence/record.go: a record can be told from its canonical form.
use probavi.Base.{
  ◌≡◌, refl, sym, ◌∙◌, subst, ap, Option, none, some, List, [], ◌∷◌, Bytes, codes, beq, inl, inr,
  Bool-cases,
}
use probavi.Evidence.Result.{ok}
use probavi.Evidence.Json.{Json, text, array}
use probavi.Evidence.Record.{Check, DrillError, Signature, Record}
use probavi.Evidence.Canonical.Same.{Same}
use probavi.Evidence.Canonical.Same.Exact.{canonicalize-Same_iff}
use probavi.Evidence.Canonical.Same.Find.{outside-Same, items_in-Same, Alike}
use probavi.Evidence.Marshal.{
  object_of, nullable, params_of, params_json, sandbox_members, sandbox_json, checks_json,
  outcome_text, failure_json, sig_member, members, replaced_params, replaced, record_json,
  canonicalize_record,
}
use probavi.Evidence.Marshal.Says.{param, SameParams}
use probavi.Evidence.Marshal.Utf8.{IsUtf8, ValidMap, reordered, replaced-IsUtf8, params-kept}
use probavi.Evidence.Marshal.Members.{get, get-Alike}
use probavi.Evidence.Marshal.Leaves.{text-Same, int_json-Same, nullable-Same, nullable_text-Same}
use probavi.Evidence.Marshal.Parts.{
  drill_json-Same, backup_json-Same, adapter_json-Same, resources_json-Same, timings_json-Same,
  checks_json-Same, failure_json-Same, env_json-Same, signature_json-Same,
}

-- Two records say the same: an outcome is its text, and parameters have no order.
pub record SaysSame (r q : Record) : Type 0 where
  pub schema : r.schema ≡ q.schema
  pub seq : r.seq ≡ q.seq
  pub prev_hash : r.prev_hash ≡ q.prev_hash
  pub ts : r.ts ≡ q.ts
  pub drill : r.drill ≡ q.drill
  pub backup : r.backup ≡ q.backup
  pub adapter : r.adapter ≡ q.adapter
  pub provider : r.sandbox.provider ≡ q.sandbox.provider
  pub params : SameParams r.sandbox.params q.sandbox.params
  pub image_digest : r.sandbox.image_digest ≡ q.sandbox.image_digest
  pub resources : r.sandbox.resources ≡ q.sandbox.resources
  pub timings : r.timings ≡ q.timings
  pub checks : r.checks ≡ q.checks
  pub outcome : outcome_text r.outcome ≡ outcome_text q.outcome
  pub failure : r.failure ≡ q.failure
  pub env : r.env ≡ q.env
  pub sig : r.sig ≡ q.sig

abbrev as_text : Option Bytes → Option Json
as_text none = none
as_text (some s) = some (text s)

get-params_of :
    (k : Bytes) (ps : List (Bytes × Bytes)) → get k (params_of ps) ≡ as_text (param k ps)
unfolding params_of
get-params_of k [] = refl
get-params_of k ((l, v) ∷ ps) = elim (Bool-cases (beq k l)) [
  | inl h ↦ simp h
  | inr h ↦ simp h (get-params_of k ps)
]

as_text-Alike : (o p : Option Bytes) → Alike (as_text o) (as_text p) → o ≡ p
as_text-Alike none none s = refl
as_text-Alike none (some b) s = absurd s
as_text-Alike (some a) none s = absurd s
as_text-Alike (some a) (some b) s = ap some (text-Same a b s)

params-Same :
    (o p : Option (List (Bytes × Bytes)))
    → Same (nullable params_json o) (nullable params_json p)
    → SameParams o p
unfolding object_of
params-Same none none s = tt
params-Same none (some qs) s = cc (outside-Same s)
params-Same (some ps) none s = cc (outside-Same s)
params-Same (some ps) (some qs) s = λ k.
    as_text-Alike (param k ps) (param k qs)
      (rw (get-params_of k ps, get-params_of k qs) at (get-Alike (params_of ps) (params_of qs) k s))

checks-Same :
    (o p : Option (List Check))
    → Same (nullable (λ cs. array (checks_json cs)) o) (nullable (λ cs. array (checks_json cs)) p)
    → o ≡ p
checks-Same =
    nullable-Same (λ cs. array (checks_json cs)) (λ a b s. checks_json-Same a b (items_in-Same s))
      (λ a e. cc)

failure-Same :
    (o p : Option DrillError) → Same (nullable failure_json o) (nullable failure_json p) → o ≡ p
unfolding failure_json
failure-Same = nullable-Same failure_json failure_json-Same (λ a e. cc)

sig_member-Same :
    (o p : Option Signature)
    → Alike (get (codes "sig") (sig_member o)) (get (codes "sig") (sig_member p))
    → o ≡ p
unfolding beq
sig_member-Same none none s = refl
sig_member-Same none (some b) s = absurd s
sig_member-Same (some a) none s = absurd s
sig_member-Same (some a) (some b) s = ap some (signature_json-Same a b s)

members-Same : (r q : Record) → Same (object_of (members r)) (object_of (members q)) → SaysSame r q
unfolding members sandbox_json sandbox_members object_of beq
members-Same r q s =
    let at = λ (k : Bytes). get-Alike (members r) (members q) k s in
    let inner = λ (k : Bytes).
      get-Alike (sandbox_members r.sandbox) (sandbox_members q.sandbox) k (at (codes "sandbox")) in
    record {
      schema = text-Same r.schema q.schema (at (codes "schema"));
      seq = int_json-Same r.seq q.seq (at (codes "seq"));
      prev_hash = text-Same r.prev_hash q.prev_hash (at (codes "prev_hash"));
      ts = text-Same r.ts q.ts (at (codes "ts"));
      drill = drill_json-Same r.drill q.drill (at (codes "drill"));
      backup = backup_json-Same r.backup q.backup (at (codes "backup"));
      adapter = adapter_json-Same r.adapter q.adapter (at (codes "adapter"));
      provider = text-Same r.sandbox.provider q.sandbox.provider (inner (codes "provider"));
      params = params-Same r.sandbox.params q.sandbox.params (inner (codes "params"));
      image_digest =
          nullable_text-Same r.sandbox.image_digest q.sandbox.image_digest
            (inner (codes "image_digest"));
      resources =
          resources_json-Same r.sandbox.resources q.sandbox.resources (inner (codes "resources"));
      timings = timings_json-Same r.timings q.timings (at (codes "timings_ms"));
      checks = checks-Same r.checks q.checks (at (codes "checks"));
      outcome = text-Same (outcome_text r.outcome) (outcome_text q.outcome) (at (codes "outcome"));
      failure = failure-Same r.failure q.failure (at (codes "error"));
      env = env_json-Same r.env q.env (at (codes "env"));
      sig = sig_member-Same r.sig q.sig (at (codes "sig"));
    }

replaced-SameParams :
    (o p : Option (List (Bytes × Bytes)))
    → ValidMap o
    → ValidMap p
    → SameParams (replaced_params o) (replaced_params p)
    → SameParams o p
replaced-SameParams none none u v s = tt
replaced-SameParams none (some qs) u v s = absurd s
replaced-SameParams (some ps) none u v s = absurd s
replaced-SameParams (some ps) (some qs) u v s =
    λ k. sym (params-kept ps u k) ∙ s k ∙ params-kept qs v k

replaced-SaysSame :
    (r q : Record) → IsUtf8 r → IsUtf8 q → SaysSame (replaced r) (replaced q) → SaysSame r q
replaced-SaysSame r q u v s =
    let first : SaysSame (reordered r) (replaced q) =
      subst (λ x. SaysSame x (replaced q)) (replaced-IsUtf8 r u) s in
    let t : SaysSame (reordered r) (reordered q) =
      subst (λ y. SaysSame (reordered r) y) (replaced-IsUtf8 q v) first in
    record {
      schema = t.schema;
      seq = t.seq;
      prev_hash = t.prev_hash;
      ts = t.ts;
      drill = t.drill;
      backup = t.backup;
      adapter = t.adapter;
      provider = t.provider;
      params = replaced-SameParams r.sandbox.params q.sandbox.params u.params v.params t.params;
      image_digest = t.image_digest;
      resources = t.resources;
      timings = t.timings;
      checks = t.checks;
      outcome = t.outcome;
      failure = t.failure;
      env = t.env;
      sig = t.sig;
    }

-- Two records of valid UTF-8 with one canonical form, the bytes that are signed and hashed, agree in
-- every field: the outcome in its text, the parameters of the sandbox in what they hold under each key,
-- and all other fields as they are.
pub canonicalize_record-SaysSame :
    (r q : Record) (a : Bytes)
    → IsUtf8 r
    → IsUtf8 q
    → canonicalize_record r ≡ ok a
    → canonicalize_record q ≡ ok a
    → SaysSame r q
unfolding canonicalize_record record_json
canonicalize_record-SaysSame r q a u v h k = replaced-SaysSame r q u v (
    members-Same (replaced r) (replaced q)
      ((canonicalize-Same_iff (record_json r) (record_json q) a h).0 k))

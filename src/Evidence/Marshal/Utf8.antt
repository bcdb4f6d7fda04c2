-- ===== src/Evidence/Marshal/Utf8.antt =====
-- internal/evidence/record.go, written by encoding/json: nothing is replaced in valid UTF-8.
use probavi.Base.{
  ◌≡◌, refl, sym, ap, ◌∙◌, inl, inr, true, false, Option, none, some, List, [], ◌∷◌, Bool-cases,
  beq, beq_iff, beq-false, ne_of_beq, if◌then◌else◌, Bytes,
}
use probavi.Utf8.{valid_string}
use probavi.Redact.{text_le}
use probavi.Evidence.Record.{
  Outcome, pass, fail, error, cancelled, other, Check, DrillError, Signature, Record,
}
use probavi.Evidence.Canonical.Keys.Runes.{runes-Spelled}
use probavi.Evidence.Marshal.{
  replaced_text, replaced_option, replaced_outcome, replaced_checks, replaced_lists,
  replaced_failure, replaced_signature, replaced_params, replaced, insert_param, sort_params,
  keep_last, holds_key,
}
use probavi.Evidence.Marshal.Says.{param}

abbrev pub Valid : Bytes → Type 0
Valid s = valid_string s ≡ true

abbrev pub ValidOption : Option Bytes → Type 0
ValidOption none = Unit
ValidOption (some s) = Valid s

-- The keys of a map of parameters are apart.
abbrev pub ValidParams : List (Bytes × Bytes) → Type 0
ValidParams [] = Unit
ValidParams (p ∷ ps) = Valid p.0 × Valid p.1 × (param p.0 ps ≡ none) × ValidParams ps

abbrev pub ValidMap : Option (List (Bytes × Bytes)) → Type 0
ValidMap none = Unit
ValidMap (some ps) = ValidParams ps

abbrev pub ValidOutcome : Outcome → Type 0
ValidOutcome (other s) = Valid s
ValidOutcome _ = Unit

abbrev pub ValidChecks : List Check → Type 0
ValidChecks [] = Unit
ValidChecks (c ∷ cs) = Valid c.name × ValidOption c.detail × ValidChecks cs

abbrev pub ValidLists : Option (List Check) → Type 0
ValidLists none = Unit
ValidLists (some cs) = ValidChecks cs

abbrev pub ValidFailure : Option DrillError → Type 0
ValidFailure none = Unit
ValidFailure (some e) = Valid e.code × Valid e.message

abbrev pub ValidSignature : Option Signature → Type 0
ValidSignature none = Unit
ValidSignature (some s) = Valid s.alg × Valid s.key_id × Valid s.sig_b64

-- Every string of a record is valid UTF-8.
pub record IsUtf8 (r : Record) : Type 0 where
  pub schema : Valid r.schema
  pub prev_hash : Valid r.prev_hash
  pub ts : Valid r.ts
  pub drill : Valid r.drill.name × Valid r.drill.config_hash × ValidOption r.drill.pitr_target
  pub backup :
      Valid r.backup.kind
      × ValidOption r.backup.checksum
      × ValidOption r.backup.created_at
      × ValidOption r.backup.manifest_hash
      × ValidOption r.backup.newest_data_at
  pub adapter :
      Valid r.adapter.name
      × ValidOption r.adapter.version
      × Valid r.adapter.protocol
      × ValidOption r.adapter.digest
  pub sandbox : Valid r.sandbox.provider × ValidOption r.sandbox.image_digest
  pub params : ValidMap r.sandbox.params
  pub checks : ValidLists r.checks
  pub outcome : ValidOutcome r.outcome
  pub failure : ValidFailure r.failure
  pub env :
      Valid r.env.probavi_version
      × Valid r.env.os
      × Valid r.env.arch
      × Valid r.env.host_id
      × ValidOption r.env.probavi_digest
  pub sig : ValidSignature r.sig

kept : (s : Bytes) → Valid s → replaced_text s ≡ s
unfolding replaced_text
kept s v = (runes-Spelled s v).spelled

kept_option : (o : Option Bytes) → ValidOption o → replaced_option o ≡ o
kept_option none v = refl
kept_option (some s) v = ap some (kept s v)

kept_outcome : (o : Outcome) → ValidOutcome o → replaced_outcome o ≡ o
kept_outcome pass v = refl
kept_outcome fail v = refl
kept_outcome error v = refl
kept_outcome cancelled v = refl
kept_outcome (other s) v = ap other (kept s v)

kept_checks : (cs : List Check) → ValidChecks cs → replaced_checks cs ≡ cs
unfolding replaced_checks
kept_checks [] v = refl
kept_checks (c ∷ cs) v = rw (kept c.name v.0, kept_option c.detail v.1, kept_checks cs v.2) refl

kept_lists : (o : Option (List Check)) → ValidLists o → replaced_lists o ≡ o
kept_lists none v = refl
kept_lists (some cs) v = ap some (kept_checks cs v)

kept_failure : (o : Option DrillError) → ValidFailure o → replaced_failure o ≡ o
kept_failure none v = refl
kept_failure (some e) v = rw (kept e.code v.0, kept e.message v.1) refl

kept_signature : (o : Option Signature) → ValidSignature o → replaced_signature o ≡ o
kept_signature none v = refl
kept_signature (some s) v = rw (kept s.alg v.0, kept s.key_id v.1, kept s.sig_b64 v.2) refl

abbrev pub reordered : Record → Record
reordered r = record r { sandbox = record r.sandbox { params = replaced_params r.sandbox.params } }

-- A record of valid UTF-8 is written as it is, but for the order of its parameters.
pub replaced-IsUtf8 : (r : Record) → IsUtf8 r → replaced r ≡ reordered r
unfolding replaced
replaced-IsUtf8 r u =
    rw
      (
        kept r.schema u.schema,
        kept r.prev_hash u.prev_hash,
        kept r.ts u.ts,
        kept r.drill.name u.drill.0,
        kept r.drill.config_hash u.drill.1,
        kept_option r.drill.pitr_target u.drill.2,
        kept r.backup.kind u.backup.0,
        kept_option r.backup.checksum u.backup.1,
        kept_option r.backup.created_at u.backup.2,
        kept_option r.backup.manifest_hash u.backup.3,
        kept_option r.backup.newest_data_at u.backup.4,
        kept r.adapter.name u.adapter.0,
        kept_option r.adapter.version u.adapter.1,
        kept r.adapter.protocol u.adapter.2,
        kept_option r.adapter.digest u.adapter.3,
        kept r.sandbox.provider u.sandbox.0,
        kept_option r.sandbox.image_digest u.sandbox.1,
        kept_lists r.checks u.checks,
        kept_outcome r.outcome u.outcome,
        kept_failure r.failure u.failure,
        kept r.env.probavi_version u.env.0,
        kept r.env.os u.env.1,
        kept r.env.arch u.env.2,
        kept r.env.host_id u.env.3,
        kept_option r.env.probavi_digest u.env.4,
        kept_signature r.sig u.sig,
      )
      refl

-- A map is the same for another order of its keys.
record Reordered (ps qs : List (Bytes × Bytes)) : Type 0 where
  valid : ValidParams qs
  same : (k : Bytes) → param k qs ≡ param k ps

absent-behind :
    (k : Bytes) (q : Bytes × Bytes) (ps : List (Bytes × Bytes))
    → param k (q ∷ ps) ≡ none
    → (beq k q.0 ≡ false) × (param k ps ≡ none)
absent-behind k q ps h = elim (Bool-cases (beq k q.0)) [
  | inl e ↦ absurd (cc (rw e at h))
  | inr e ↦ (e, rw e at h)
]

beq_sym : (a b : Bytes) → beq a b ≡ false → beq b a ≡ false
beq_sym a b h = beq-false b a (λ e. ne_of_beq a b h (sym e))

swapped :
    (k : Bytes) (p q : Bytes × Bytes) (ps : List (Bytes × Bytes))
    → beq p.0 q.0 ≡ false
    → param k (q ∷ p ∷ ps) ≡ param k (p ∷ q ∷ ps)
swapped k p q ps n = elim (Bool-cases (beq k p.0)) [
  | inl e ↦
      let apart : beq k q.0 ≡ false = ap (λ x. beq x q.0) ((beq_iff k p.0).0 e) ∙ n in
      rw (e, apart) refl
  | inr e ↦ rw e refl
]

insert_param-Reordered :
    (p : Bytes × Bytes) (ps : List (Bytes × Bytes))
    → ValidParams (p ∷ ps)
    → Reordered (p ∷ ps) (insert_param p ps)
unfolding insert_param
insert_param-Reordered p [] v = record { valid = v; same = λ k. refl }
insert_param-Reordered p (q ∷ ps) v = elim (Bool-cases (text_le p.0 q.0)) [
  | inl e ↦ rw e (record { valid = v; same = λ k. refl })
  | inr e ↦
      let (n, absent) = absent-behind p.0 q ps v.2 in
      let (qk, qv, alone, rest) = v.3 in
      let ih = insert_param-Reordered p ps (v.0, v.1, absent, rest) in
      rw e (record {
        valid = (qk, qv, ih.same q.0 ∙ rw (beq_sym p.0 q.0 n) alone, ih.valid);
        same = λ k. onto k q (insert_param p ps) (p ∷ ps) (ih.same k) ∙ swapped k p q ps n;
      })
]
  where
    onto :
        (k : Bytes) (q : Bytes × Bytes) (xs ys : List (Bytes × Bytes))
        → param k xs ≡ param k ys
        → param k (q ∷ xs) ≡ param k (q ∷ ys)
    onto k q xs ys h = ap (λ o. if beq k q.0 then some q.1 else o) h

sort_params-Reordered : (ps : List (Bytes × Bytes)) → ValidParams ps → Reordered ps (sort_params ps)
unfolding sort_params
sort_params-Reordered [] v = record { valid = tt; same = λ k. refl }
sort_params-Reordered (p ∷ ps) v =
    let ih = sort_params-Reordered ps v.3 in
    let put = insert_param-Reordered p (sort_params ps) (v.0, v.1, ih.same p.0 ∙ v.2, ih.valid) in
    record {
      valid = put.valid;
      same = λ k. put.same k ∙ ap (λ o. if beq k p.0 then some p.1 else o) (ih.same k);
    }

holds_key-none :
    (k : Bytes) (ps : List (Bytes × Bytes)) → param k ps ≡ none → holds_key k ps ≡ false
holds_key-none k [] h = refl
holds_key-none k (q ∷ ps) h =
    let (n, absent) = absent-behind k q ps h in rw (n, holds_key-none k ps absent) refl

keep_last-same :
    (ps : List (Bytes × Bytes)) → ValidParams ps → (k : Bytes) → param k (keep_last ps) ≡ param k ps
unfolding keep_last
keep_last-same [] v k = refl
keep_last-same (p ∷ ps) v k =
    rw
      (
        kept p.0 v.0,
        kept p.1 v.1,
        holds_key-none p.0 (keep_last ps) (keep_last-same ps v.3 p.0 ∙ v.2),
      )
      (ap (λ o. if beq k p.0 then some p.1 else o) (keep_last-same ps v.3 k))

pub params-kept :
    (ps : List (Bytes × Bytes))
    → ValidParams ps
    → (k : Bytes) → param k (keep_last (sort_params ps)) ≡ param k ps
params-kept ps v k =
    let sorted = sort_params-Reordered ps v in
    keep_last-same (sort_params ps) sorted.valid k ∙ sorted.same k

-- ===== src/Evidence/Store/Sealed.antt =====
-- What `sealed` returns.
use probavi.Base.{
  ◌≡◌, refl, sym, ap, ◌∙◌, Bool, true, false, not, all, ltb, length, beq, beq_iff, Bytes,
}
use probavi.Evidence.Canonical.Line.{printable, canonicalize-printable}
use probavi.Evidence.Codes.{schema_id, supported_schema, invalid_record, record_too_large}
use probavi.Evidence.Result.{ok, require, >>-ok, >>=-ok, require-ok}
use probavi.Evidence.Record.{Record}
use probavi.Evidence.Validate.{validate, validate_utf8, validate_identity}
use probavi.Evidence.Marshal.{canonicalize_record, record_json}
use probavi.Evidence.Codec.{Codec}
use probavi.Evidence.Walk.{max_record_bytes}
use probavi.Evidence.Store.{Signer, seal, sealed}

-- The signed record has the chain fields of the unsigned one and a schema that the walk supports;
-- its line is its canonical form, a single line.
pub record IsSealed (rec signed : Record) (line : Bytes) : Type 0 where
  pub seq_is : signed.seq ≡ rec.seq
  pub prev_is : signed.prev_hash ≡ rec.prev_hash
  pub schema : supported_schema signed.schema ≡ true
  pub form : canonicalize_record signed ≡ ok line
  pub single : all printable line ≡ true
  pub fits : ltb max_record_bytes (length line) ≡ false

supported : (s : Bytes) → s ≡ schema_id → supported_schema s ≡ true
unfolding supported_schema beq
supported s e = rw e refl

validate-schema : (rec : Record) → validate rec ≡ ok tt → rec.schema ≡ schema_id
unfolding validate validate_identity
validate-schema rec h =
    let (u, rest) = >>-ok (validate_utf8 rec) _ h in
    let (i, rest') = >>-ok (validate_identity rec) _ rest in
    let (s, rest'') = >>-ok (require (beq rec.schema schema_id) invalid_record) _ i in
    (beq_iff rec.schema schema_id).0 (require-ok _ _ s)

form-printable :
    (rec : Record) (line : Bytes) → canonicalize_record rec ≡ ok line → all printable line ≡ true
unfolding canonicalize_record
form-printable rec line h = canonicalize-printable (record_json rec) line h

not-false : (b : Bool) → not b ≡ true → b ≡ false
not-false true h = cc
not-false false h = refl

pub sealed-ok :
    (c : Codec) (s : Signer) (rec signed : Record) (line : Bytes)
    → sealed c s rec ≡ ok (signed, line)
    → IsSealed rec signed line
unfolding sealed seal
sealed-ok c s rec signed line h =
    let (v, rest) = >>-ok (validate rec) _ h in
    let (message, rest', m) = >>=-ok (canonicalize_record rec) _ rest in
    let (l, rest'', f) = >>=-ok (canonicalize_record (seal c s rec message)) _ rest' in
    let (z, last) =
      >>-ok (require (not (ltb max_record_bytes (length l))) record_too_large) _ rest'' in
    let one : seal c s rec message ≡ signed = cc last in
    let two : l ≡ line = cc last in
    let form : canonicalize_record signed ≡ ok line =
      ap canonicalize_record (sym one) ∙ f ∙ ap (λ x. ok x) two in
    let fits : ltb max_record_bytes (length l) ≡ false = not-false _ (require-ok _ _ z) in
    record {
      seq_is = ap (λ (r : Record). r.seq) (sym one);
      prev_is = ap (λ (r : Record). r.prev_hash) (sym one);
      schema = supported _ (ap (λ (r : Record). r.schema) (sym one) ∙ validate-schema rec v);
      form = form;
      single = form-printable signed line form;
      fits = ap (λ (x : Bytes). ltb max_record_bytes (length x)) (sym two) ∙ fits;
    }

-- ===== src/Tests/Log.antt =====
-- Logs, verified.
use probavi.Base.{
  true, codes, suc, ◌≡◌, refl, ◌⊎◌, none, some, List, ◌++◌, length, beq, contains, Bytes,
}
use probavi.Utf8.{valid_string}
use probavi.Evidence.Codes.{supported_schema}
use probavi.Evidence.Canonical.{canonicalize}
use probavi.Evidence.Canonical.Keys.{sort}
use probavi.Evidence.Walk.{
  Head, valid, valid_with_damage, verify, walk, walk_lines, lines, put, finish, step, step_on,
  accept, meet_anchor, miss_anchor, parse_canonical, parse_decoded, parse_form, parse_object,
  parse_struct, verify_signature, verify_key, verify_bytes, verify_message, delete,
}
use probavi.Evidence.Walk.Chain.{Chain, Collision}
use probavi.Evidence.Walk.Integrity.{entries, verify-Chain, tamper_evident, anchor_holds}
use probavi.Evidence.Walk.{Report}
use probavi.Evidence.Witness.{Host, Witness, succeeded, witnessed, attested_at}
use probavi.Evidence.Witness.Verdict.{IsAttested, witnessed-IsAttested}
use probavi.Tests.Samples.{table, keyring, short_log, long_log}

abbrev anchor : Head
anchor = (verify table keyring none short_log).head

short_valid : (verify table keyring none short_log).status ≡ valid
unfolding verify walk walk_lines lines put finish step step_on accept meet_anchor miss_anchor
    parse_canonical parse_decoded parse_form parse_object parse_struct verify_signature verify_key
    verify_bytes verify_message delete canonicalize sort supported_schema beq contains valid_string
short_valid = refl

long_valid : (verify table keyring none long_log).status ≡ valid_with_damage
unfolding verify walk walk_lines lines put finish step step_on accept meet_anchor miss_anchor
    parse_canonical parse_decoded parse_form parse_object parse_struct verify_signature verify_key
    verify_bytes verify_message delete canonicalize sort supported_schema beq contains valid_string
long_valid = refl

long_anchored : (verify table keyring (some anchor) long_log).status ≡ valid_with_damage
unfolding verify walk walk_lines lines put finish step step_on accept meet_anchor miss_anchor
    parse_canonical parse_decoded parse_form parse_object parse_struct verify_signature verify_key
    verify_bytes verify_message delete canonicalize sort supported_schema beq contains valid_string
long_anchored = refl

long_records : (verify table keyring none long_log).records ≡ 2
unfolding verify walk walk_lines lines put finish step step_on accept meet_anchor miss_anchor
    parse_canonical parse_decoded parse_form parse_object parse_struct verify_signature verify_key
    verify_bytes verify_message delete canonicalize sort supported_schema beq contains valid_string
long_records = refl

verify-Chain_example :
    Chain table
      (some keyring)
      (entries table long_log)
      (suc (verify table keyring none long_log).head.seq)
      (verify table keyring none long_log).head.hash
    × ((verify table keyring none long_log).records ≡ length (entries table long_log))
    × ((verify table keyring none long_log).head.seq ≡ length (entries table long_log))
verify-Chain_example = verify-Chain table keyring none long_log (λ h. cc (h, long_valid))

tamper_evident_example :
    (entries table long_log ≡ entries table long_log)
    ⊎ Collision table (entries table long_log) (entries table long_log)
tamper_evident_example =
    tamper_evident table keyring keyring none none long_log long_log (λ h. cc (h, long_valid))
      (λ h. cc (h, long_valid)) refl

anchor_holds_example :
    ((newer : List Bytes) × (entries table long_log ≡ newer ++ entries table short_log))
    ⊎ Collision table (entries table long_log) (entries table short_log)
anchor_holds_example =
    anchor_holds table keyring keyring none short_log long_log (λ h. cc (h, short_valid))
      (λ h. cc (h, long_anchored))

-- A witness that attests every head.
abbrev notary : Host
notary = record {
  run = λ command head. succeeded (codes "2026-01-02T03:04:05Z\n");
  trim_space = λ s. s;
  is_rfc3339 = λ s. true;
}

abbrev short_report : Report
short_report = verify table keyring none short_log

abbrev witness_of_short : Witness
witness_of_short = record {
  command = codes "notary";
  attested = true;
  attested_at = attested_at notary (codes "2026-01-02T03:04:05Z\n");
}

short_witnessed :
    witnessed notary short_report (codes "notary")
    ≡ some (record { report = short_report; witness = some witness_of_short })
unfolding witnessed verify walk walk_lines lines put finish step step_on accept meet_anchor
    miss_anchor parse_canonical parse_decoded parse_form parse_object parse_struct verify_signature
    verify_key verify_bytes verify_message delete canonicalize sort supported_schema beq contains
    valid_string
short_witnessed = refl

witnessed-IsAttested_example :
    IsAttested notary short_report
      (codes "notary")
      (record { report = short_report; witness = some witness_of_short })
witnessed-IsAttested_example =
    witnessed-IsAttested notary short_report (codes "notary")
      (record { report = short_report; witness = some witness_of_short }) (λ h. cc) short_witnessed
      (λ h. cc (h, short_valid))

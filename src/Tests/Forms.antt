-- ===== src/Tests/Forms.antt =====
-- Canonical forms of small values.
use probavi.Base.{List, beq, some, ◌≡◌, ◌↔◌, refl, true, [], ◌∷◌, codes, Bytes}
use probavi.Utf8.{valid_string}
use probavi.Evidence.Codes.{not_integer}
use probavi.Evidence.Result.{Result, ok, fails}
use probavi.Evidence.Json.{Json, boolean, number, text, array, object, nil, cons, end, field}
use probavi.Evidence.Canonical.{canonicalize}
use probavi.Evidence.Canonical.Keys.{sort, less_utf16}
use probavi.Evidence.Canonical.Same.{Same}
use probavi.Evidence.Record.{Outcome, pass, other, Record}
use probavi.Evidence.Validate.{is_sha256_ref}
use probavi.Evidence.Marshal.{replaced_text, replaced, canonicalize_record, format_int}
use probavi.Evidence.Marshal.Utf8.{ValidParams, ValidOutcome, IsUtf8}
use probavi.Evidence.Marshal.Exact.{SaysSame, canonicalize_record-SaysSame}
use probavi.Core.Refuse.{refusal, check_backup_manifest}
use probavi.Core.Execute.{execute, validate_restored}
use probavi.Core.Run.{composed}
use probavi.Tests.Samples.{drill, world}
use probavi.Evidence.Canonical.Same.Exact.{canonicalize-Same_iff}

abbrev list : Json
list = array (cons (text (codes "x\"y")) (cons (boolean true) nil))

abbrev ordered : Json
ordered = object (field (codes "a") list (field (codes "b") (number (codes "12")) end))

abbrev unsorted : Json
unsorted = object (field (codes "b") (number (codes "12")) (field (codes "a") list end))

abbrev form : Bytes
form = codes "{\"a\":[\"x\\\"y\",true],\"b\":12}"

ordered_form : canonicalize ordered ≡ ok form
unfolding canonicalize sort less_utf16 valid_string
ordered_form = refl

unsorted_form : canonicalize unsorted ≡ ok form
unfolding canonicalize sort less_utf16 valid_string
unsorted_form = refl

-- A character beyond the 16-bit ones stands in front of U+FFFD, though its bytes do not.
beyond_first : less_utf16 (0xF0 ∷ 0x9F ∷ 0x98 ∷ 0x80 ∷ []) (0xEF ∷ 0xBF ∷ 0xBD ∷ []) ≡ true
unfolding less_utf16
beyond_first = refl

fraction_refused : canonicalize (number (codes "1.5")) ≡ fails not_integer
unfolding canonicalize
fraction_refused = refl

canonicalize-Same_iff_example : (canonicalize unsorted ≡ ok form) ↔ Same ordered unsorted
canonicalize-Same_iff_example = canonicalize-Same_iff ordered unsorted form ordered_form

-- A record of a drill, with the parameters of its sandbox and its outcome put in.
abbrev drilled : List (Bytes × Bytes) → Outcome → Record
drilled params outcome = record (composed drill world) {
  sandbox = record (composed drill world).sandbox { params = some params };
  outcome = outcome;
}

abbrev one_order : Record
one_order = drilled ((codes "cpus", codes "2") ∷ (codes "memory", codes "1g") ∷ []) pass

abbrev other_order : Record
other_order =
    drilled ((codes "memory", codes "1g") ∷ (codes "cpus", codes "2") ∷ []) (other (codes "pass"))

abbrev or_empty : Result Bytes → Bytes
or_empty (ok s) = s
or_empty (fails e) = []

abbrev record_form : Bytes
record_form = or_empty (canonicalize_record one_order)

one_order_form : canonicalize_record one_order ≡ ok record_form
unfolding canonicalize_record replaced canonicalize sort less_utf16 valid_string format_int composed
    execute refusal beq check_backup_manifest validate_restored is_sha256_ref
one_order_form = refl

other_order_form : canonicalize_record other_order ≡ ok record_form
unfolding canonicalize_record replaced canonicalize sort less_utf16 valid_string format_int composed
    execute refusal beq check_backup_manifest validate_restored is_sha256_ref
other_order_form = refl

drilled-IsUtf8 :
    (params : List (Bytes × Bytes)) (outcome : Outcome)
    → ValidParams params
    → ValidOutcome outcome
    → IsUtf8 (drilled params outcome)
unfolding valid_string composed execute refusal beq check_backup_manifest validate_restored
drilled-IsUtf8 params outcome p o = record {
  schema = refl;
  prev_hash = refl;
  ts = refl;
  drill = (refl, refl, tt);
  backup = (refl, refl, tt, tt, tt);
  adapter = (refl, refl, refl, tt);
  sandbox = (refl, tt);
  params = p;
  checks = (refl, tt, tt);
  outcome = o;
  failure = tt;
  env = (refl, refl, refl, refl, tt);
  sig = tt;
}

one_order_valid : IsUtf8 one_order
unfolding valid_string beq
one_order_valid = drilled-IsUtf8 _ pass (refl, refl, refl, (refl, refl, refl, tt)) tt

other_order_valid : IsUtf8 other_order
unfolding valid_string beq
other_order_valid =
    drilled-IsUtf8 _ (other (codes "pass")) (refl, refl, refl, (refl, refl, refl, tt)) refl

-- A byte that begins no rune, in the name of a drill.
broken_name : replaced_text (b'a' ∷ 0xFF ∷ b'b' ∷ []) ≡ b'a' ∷ 0xEF ∷ 0xBF ∷ 0xBD ∷ b'b' ∷ []
unfolding replaced_text
broken_name = refl

canonicalize_record-SaysSame_example : SaysSame one_order other_order
canonicalize_record-SaysSame_example =
    canonicalize_record-SaysSame one_order other_order record_form one_order_valid other_order_valid
      one_order_form other_order_form

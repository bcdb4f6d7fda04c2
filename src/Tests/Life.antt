-- ===== src/Tests/Life.antt =====
-- The life of a log: a write cut short, the store opened again, and the record appended.
use probavi.Base.{
  ℕ, ◌<◌, ◌≡◌, refl, ap, true, false, none, some, List, [], ◌∷◌, arith, inl, inr, Bool-cases, beq,
  beq_iff, beq_refl, codes, if◌then◌else◌, length, all, length-take, take, leb, Bytes,
}
use probavi.Utf8.{valid_string}
use probavi.Evidence.Json.{Json, object, Fields}
use probavi.Evidence.Result.{Result, ok, fails}
use probavi.Evidence.Record.{Record}
use probavi.Evidence.Canonical.{canonicalize}
use probavi.Evidence.Canonical.Keys.{sort}
use probavi.Evidence.Codec.{Codec}
use probavi.Evidence.Validate.{validate, is_sha256_ref}
use probavi.Evidence.Marshal.{canonicalize_record, record_json, format_int}
use probavi.Evidence.Walk.{
  max_record_bytes, walk, walk_lines, lines, put, finish, step, step_on, parse_canonical,
  parse_decoded, miss_anchor, meet_anchor,
}
use probavi.Evidence.Store.{
  Signer, Store, AppendFault, durable, short, sealed, chained, append, put_line, resume, resumed,
  close_torn_tail,
}
use probavi.Evidence.Store.History.{
  Event, append_record, reopen, new_session, session, IsReadable, AllReadable,
}
use probavi.Evidence.Canonical.Line.{printable, canonicalize-printable}
use probavi.Evidence.Store.Extends.{Extends, session-Extends}
use probavi.Evidence.Store.Life.{IsRecovered, session-IsRecovered}
use probavi.Core.Run.{composed}
use probavi.Core.Run.Ledger.{Day, drill_day, reopen_day, ledger, IsOnRecord, ledger-IsOnRecord}
use probavi.Core.Refuse.{refusal, check_backup_manifest}
use probavi.Core.Execute.{execute, validate_restored}
use probavi.Tests.Samples.{table, drill, world}

abbrev signer : Signer
signer = record { key_id = codes "k"; key = codes "private" }

abbrev or_nothing : Result (Record × Bytes) → Record × Bytes
or_nothing (ok p) = p
or_nothing (fails e) = (composed drill world, [])

abbrev entry : Record × Bytes
entry = or_nothing (sealed table signer (chained new_session.store (composed drill world)))

abbrev fields : Json → Fields
fields (object fs) = fs
fields _ = Fields.end

-- Reads the one line of the sample.
abbrev reader : Codec
reader = record {
  decode_strict = λ b. if beq b entry.1 then some (record_json entry.0) else none;
  unmarshal = λ b. some entry.0;
  sha256_hex = table.sha256_hex;
  sign = table.sign;
  verify = table.verify;
  encode_base64 = table.encode_base64;
  decode_base64 = table.decode_base64;
}

entry_sealed : sealed table signer (chained new_session.store (composed drill world)) ≡ ok entry
unfolding sealed composed execute refusal beq check_backup_manifest validate_restored validate
    valid_string is_sha256_ref canonicalize_record canonicalize sort format_int
entry_sealed = refl

entry_size : leb max_record_bytes (length entry.1) ≡ false
unfolding sealed composed execute refusal beq check_backup_manifest validate_restored validate
    valid_string is_sha256_ref canonicalize_record canonicalize sort format_int
entry_size = refl

-- A write of which five bytes got to the file, the store opened again, and the record appended.
abbrev events : List Event
events =
    append_record (composed drill world) durable
    ∷ reopen
    ∷ append_record (composed drill world) (short 5)
    ∷ []

events_tried : (session reader signer events).tried ≡ entry ∷ entry ∷ []
unfolding session append resume walk walk_lines lines put finish step step_on parse_canonical
    parse_decoded meet_anchor miss_anchor resumed close_torn_tail put_line sealed composed execute
    refusal beq check_backup_manifest validate_restored validate valid_string is_sha256_ref
    canonicalize_record canonicalize sort format_int
events_tried = refl

cut_short : (m : ℕ) (l : Bytes) → m < length l → beq (take m l) l ≡ false
cut_short m l h = elim (Bool-cases (beq (take m l) l)) [
  | inr e ↦ e
  | inl e ↦
      absurd (omega (arith, h, length-take m l, ap (λ x. length x) ((beq_iff (take m l) l).0 e)))
]

entry_cut : (m : ℕ) → m < length entry.1 → reader.decode_strict (take m entry.1) ≡ none
entry_cut m h = rw (cut_short m entry.1 h) refl

entry_parsed : reader.decode_strict entry.1 ≡ some (object (fields (record_json entry.0)))
unfolding record_json
entry_parsed = rw (beq_refl entry.1) refl

entry_canonical : canonicalize (object (fields (record_json entry.0))) ≡ ok entry.1
unfolding sealed composed execute refusal beq check_backup_manifest validate_restored validate
    valid_string is_sha256_ref canonicalize_record canonicalize sort format_int
entry_canonical = refl

entry-IsReadable : IsReadable reader entry.0 entry.1
entry-IsReadable = record {
  fs = fields (record_json entry.0);
  rec = entry.0;
  parsed = entry_parsed;
  canonical = entry_canonical;
  decoded = refl;
  schema = refl;
  seq_is = refl;
  prev_is = refl;
  cut = entry_cut;
  short = entry_size;
}

events-AllReadable : AllReadable reader (session reader signer events).tried
events-AllReadable = rw events_tried (entry-IsReadable, (entry-IsReadable, tt))

session-IsRecovered_example :
    ((session reader signer events).lost ≡ false)
    × ((st : Store) × IsRecovered reader signer (session reader signer events) st)
session-IsRecovered_example = session-IsRecovered reader signer events events-AllReadable

session-Extends_example :
    Extends
      (session reader signer (append_record (composed drill world) (short 5) ∷ [])).store.file
      (session reader signer events).store.file
session-Extends_example =
    session-Extends reader signer (append_record (composed drill world) durable ∷ reopen ∷ [])
      (append_record (composed drill world) (short 5) ∷ [])

canonicalize-printable_example : all printable entry.1 ≡ true
canonicalize-printable_example =
    canonicalize-printable (object (fields (record_json entry.0))) entry.1 entry_canonical

-- The same as drills.
abbrev words : AppendFault → Bytes
words fault = codes "append record"

abbrev days : List Day
days =
    drill_day drill world durable durable
    ∷ reopen_day
    ∷ drill_day drill world (short 5) durable
    ∷ []

days_calls : (ledger reader signer words days).calls ≡ events
unfolding ledger append resume walk walk_lines lines put finish step step_on parse_canonical
    parse_decoded meet_anchor miss_anchor resumed close_torn_tail put_line sealed composed execute
    refusal beq check_backup_manifest validate_restored validate valid_string is_sha256_ref
    canonicalize_record canonicalize sort format_int
days_calls = refl

days-AllReadable :
    AllReadable reader (session reader signer (ledger reader signer words days).calls).tried
days-AllReadable = rw days_calls events-AllReadable

ledger-IsOnRecord_example :
    ((ledger reader signer words days).lost ≡ false)
    × ((st : Store) × IsOnRecord reader signer words (ledger reader signer words days) st)
ledger-IsOnRecord_example = ledger-IsOnRecord reader signer words days days-AllReadable

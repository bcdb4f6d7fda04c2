-- ===== src/Evidence/Walk.antt =====
-- internal/evidence/verify.go: the walk over a log, and `Verify`. A method that returns false has
-- called `invalid`: it is `stop` here, and `go` where the walk goes on.
pub mod Chain
pub mod Reading
pub mod Signing
pub mod Step
pub mod Invariant
pub mod Stops
pub mod Sound
pub mod Integrity
use probavi.Base.{
  ℕ, suc, ◌+◌, ◌-◌, ◌*◌, Bool, true, false, not, ◌&&◌, ◌||◌, Option, none, some, List, [], ◌∷◌,
  ◌++◌, ltb, leb, ◌==◌, if◌then◌else◌, length, beq, codes, is_empty, Bytes,
}
use probavi.Base.Int.{ℤ, pos, negsuc}
use probavi.Evidence.Codes.{Sentinel, genesis_prev_hash, supported_schema}
use probavi.Evidence.Result.{Result, ok, fails}
use probavi.Evidence.Json.{Json, null, boolean, number, text, array, object, Fields, end, field}
use probavi.Evidence.Canonical.{canonicalize}
use probavi.Evidence.Record.{Record, Signature}
use probavi.Evidence.Codec.{Codec, line_hash}

abbrev pub max_record_bytes : ℕ
max_record_bytes = 64 * 1024

-- `Head`, which is also an anchor. A seq is at least 0.
pub record Head : Type 0 where
  pub seq : ℕ
  pub hash : Bytes

-- Public keys by key id.
abbrev pub Keyring : Type 0
Keyring = Bytes → Option Bytes

pub data SigFault : Type 0 where
  no_sig unsupported_alg unknown_key malformed_sig failed_verification : SigFault
  not_rebuilt : Sentinel → SigFault

-- Why a log is invalid; the wording is left out.
pub data Reason : Type 0 where
  too_large not_canonical not_object undecodable : Reason
  not_serializable : Sentinel → Reason
  unsupported_schema : Bytes → Reason
  wrong_seq : ℤ → ℕ → Reason
  wrong_prev_hash : Bytes → Reason
  bad_signature : SigFault → Reason
  anchor_mismatch : ℕ → Bytes → Reason
  truncated : ℕ → ℕ → Reason
  -- The command of a witness, the head that it refused, and the first line of what it said.
  no_attestation : Bytes → Head → Bytes → Reason

pub record WalkState : Type 0 where
  pub keyring : Option Keyring
  pub anchor : Option Head
  pub anchor_seen : Bool
  pub next_seq : ℕ
  pub prev_hash : Bytes
  pub records : ℕ
  pub damaged : List ℕ
  pub failed : Bool
  pub failed_line : ℕ
  pub reason : Option Reason

pub data Flow : Type 0 where
  go : WalkState → Flow
  stop : WalkState → Flow

abbrev pub head : WalkState → Head
head w = record { seq = w.next_seq - 1; hash = w.prev_hash }

abbrev pub invalid : WalkState → ℕ → Reason → WalkState
invalid w line_no why = record w { failed = true; failed_line = line_no; reason = some why }

-- What `parseCanonical` makes of a line.
pub data Parsed : Type 0 where
  damage : Parsed
  refused : Reason → Parsed
  parsed : Record → Fields → Parsed

-- The conversion to an object, the decoding of the struct, and its schema.
unfoldable pub parse_struct : Fields → Option Record → Parsed
parse_struct fs none = refused undecodable
parse_struct fs (some rec) =
    if not (supported_schema rec.schema)
    then refused (unsupported_schema rec.schema)
    else parsed rec fs

unfoldable pub parse_object : Codec → Bytes → Json → Parsed
parse_object c line (object fs) = parse_struct fs (c.unmarshal line)
parse_object c line null = refused not_object
parse_object c line (boolean b) = refused not_object
parse_object c line (number s) = refused not_object
parse_object c line (text s) = refused not_object
parse_object c line (array xs) = refused not_object

-- The comparison with the canonical form.
unfoldable pub parse_form : Codec → Bytes → Json → Result Bytes → Parsed
parse_form c line v (fails e) = refused (not_serializable e)
parse_form c line v (ok canonical) =
    if not (beq canonical line) then refused not_canonical else parse_object c line v

unfoldable pub parse_decoded : Codec → Bytes → Option Json → Parsed
parse_decoded c line none = damage
parse_decoded c line (some v) = parse_form c line v (canonicalize v)

-- `parseCanonical`.
unfoldable pub parse_canonical : Codec → Bytes → Parsed
parse_canonical c line = parse_decoded c line (c.decode_strict line)

-- `delete(obj, key)`.
unfoldable pub delete : Bytes → Fields → Fields
delete key end = end
delete key (field k v fs) = if beq k key then delete key fs else field k v (delete key fs)

abbrev signature_size : ℕ
signature_size = 64

-- The check of `verifySignature` on the rebuilt message.
unfoldable pub verify_message : Codec → Bytes → Bytes → Result Bytes → Option SigFault
verify_message c key sig (fails e) = some (not_rebuilt e)
verify_message c key sig (ok message) =
    if c.verify key message sig then none else some failed_verification

unfoldable pub verify_bytes : Codec → Bytes → Option Bytes → Fields → Option SigFault
verify_bytes c key none fs = some malformed_sig
verify_bytes c key (some sig) fs =
    if not (length sig == signature_size)
    then some malformed_sig
    else verify_message c key sig (canonicalize (object (delete (codes "sig") fs)))

unfoldable pub verify_key : Codec → Option Bytes → Signature → Fields → Option SigFault
verify_key c none s fs = some unknown_key
verify_key c (some key) s fs = verify_bytes c key (c.decode_base64 s.sig_b64) fs

-- `verifySignature`; `none` is the nil error.
unfoldable pub verify_signature : Codec → Keyring → Option Signature → Fields → Option SigFault
verify_signature c keyring none fs = some no_sig
verify_signature c keyring (some s) fs =
    if not (beq s.alg (codes "ed25519"))
    then some unsupported_alg
    else verify_key c (keyring s.key_id) s fs

-- A nil keyring skips the signatures.
abbrev pub check_signature : Codec → Option Keyring → Record → Fields → Option SigFault
check_signature c none rec fs = none
check_signature c (some keyring) rec fs = verify_signature c keyring rec.sig fs

abbrev pub same_seq : ℤ → ℕ → Bool
same_seq (pos a) n = a == n
same_seq (negsuc a) n = false

-- `checkAnchor`, with the anchor taken out of the state.
unfoldable pub meet_anchor : Option Head → WalkState → ℕ → Flow
meet_anchor none w line_no = go w
meet_anchor (some a) w line_no =
    let seen = record w { anchor_seen = true } in
    if w.anchor_seen || not (w.next_seq - 1 == a.seq)
    then go w
    else if beq w.prev_hash a.hash
    then go seen
    else stop (invalid seen line_no (anchor_mismatch a.seq w.prev_hash))

abbrev pub check_anchor : WalkState → ℕ → Flow
check_anchor w line_no = meet_anchor w.anchor w line_no

abbrev pub advance : Codec → Bytes → WalkState → WalkState
advance c line w = record w {
  prev_hash = line_hash c line;
  next_seq = w.next_seq + 1;
  records = w.records + 1;
}

-- The end of `step`, behind the signature check.
unfoldable pub accept : Codec → WalkState → Bytes → ℕ → Option SigFault → Flow
accept c w line line_no (some fault) = stop (invalid w line_no (bad_signature fault))
accept c w line line_no none = check_anchor (advance c line w) line_no

-- The checks of `step` on what `parseCanonical` made of the line.
unfoldable pub step_on : Codec → WalkState → Bytes → ℕ → Parsed → Flow
step_on c w line line_no damage = go (record w { damaged = w.damaged ++ line_no ∷ [] })
step_on c w line line_no (refused why) = stop (invalid w line_no why)
step_on c w line line_no (parsed rec fs) =
    if not (same_seq rec.seq w.next_seq)
    then stop (invalid w line_no (wrong_seq rec.seq w.next_seq))
    else if not (beq rec.prev_hash w.prev_hash)
    then stop (invalid w line_no (wrong_prev_hash w.prev_hash))
    else accept c w line line_no (check_signature c w.keyring rec fs)

unfoldable pub step : Codec → WalkState → Bytes → ℕ → Flow
step c w line line_no = step_on c w line line_no (parse_canonical c line)

-- `checkTruncated`, with the anchor taken out of the state.
unfoldable pub miss_anchor : Option Head → WalkState → WalkState
miss_anchor none w = w
miss_anchor (some a) w =
    if w.anchor_seen || w.failed then w else invalid w 0 (truncated (w.next_seq - 1) a.seq)

-- The lines of a file that end in a newline, and what follows the last of them.
unfoldable pub put : ℕ → List Bytes × Bytes → List Bytes × Bytes
put c ([], tail) = if c == b'\n' then ([] ∷ [], tail) else ([], c ∷ tail)
put c (l ∷ ls, tail) = if c == b'\n' then ([] ∷ l ∷ ls, tail) else ((c ∷ l) ∷ ls, tail)

unfoldable pub lines : Bytes → List Bytes × Bytes
unfolding put
lines [] = ([], [])
lines (c ∷ s) = put c (lines s)

-- The end of the loop, at what no newline follows.
unfoldable pub finish : WalkState → ℕ → Bytes → WalkState
finish w line_no tail =
    if ltb max_record_bytes (length tail)
    then invalid w line_no too_large
    else if is_empty tail
    then miss_anchor w.anchor w
    else miss_anchor w.anchor (record w { damaged = w.damaged ++ line_no ∷ [] })

-- The loop of `walk`. `readLine` counts the newline: it refuses a terminated line of
-- `max_record_bytes` bytes or more, and a tail of more than that.
unfoldable pub walk_lines : Codec → WalkState → ℕ → List Bytes → Bytes → WalkState
walk_lines c w line_no [] tail = finish w line_no tail
walk_lines c w line_no (l ∷ ls) tail =
    let next : WalkState = elim (step c w l line_no) [
      | stop w' ↦ w'
      | go w' ↦ walk_lines c w' (line_no + 1) ls tail
    ] in
    if leb max_record_bytes (length l) then invalid w line_no too_large else next

abbrev pub initial : Option Keyring → Option Head → WalkState
initial keyring anchor = record {
  keyring = keyring;
  anchor = anchor;
  anchor_seen = false;
  next_seq = 1;
  prev_hash = genesis_prev_hash;
  records = 0;
  damaged = [];
  failed = false;
  failed_line = 0;
  reason = none;
}

unfoldable pub walk : Codec → Option Keyring → Option Head → Bytes → WalkState
walk c keyring anchor content = elim (check_anchor (initial keyring anchor) 0) [
  | stop w ↦ w
  | go w ↦ walk_lines c w 1 (lines content).0 (lines content).1
]

pub data Status : Type 0 where
  valid valid_with_damage not_valid : Status

pub record Report : Type 0 where
  pub status : Status
  pub records : ℕ
  pub damaged_lines : List ℕ
  pub failed_line : ℕ
  pub reason : Option Reason
  pub head : Head

abbrev pub status_of : Bool → List ℕ → Status
status_of true damaged = not_valid
status_of false [] = valid
status_of false (n ∷ ns) = valid_with_damage

-- `Verify` with a keyring that is not nil.
unfoldable pub verify : Codec → Keyring → Option Head → Bytes → Report
verify c keyring anchor content =
    let w = walk c (some keyring) anchor content in
    record {
      status = status_of w.failed w.damaged;
      records = w.records;
      damaged_lines = w.damaged;
      failed_line = w.failed_line;
      reason = w.reason;
      head = head w;
    }

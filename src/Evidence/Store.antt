-- ===== src/Evidence/Store.antt =====
-- internal/evidence/store.go: the single writer of the log (`Append`, `sealed`, `write`, `resume`,
-- `closeTornTail`). The file is the list of its bytes. What the disk does with a write is an
-- argument; the errors of opening, locking, seeking and closing are left out.
pub mod Lines
pub mod Steps
pub mod Sealed
pub mod Accepted
pub mod Alive
pub mod History
pub mod Life
pub mod Extends
pub mod Limit
use probavi.Base.{
  ℕ, ◌+◌, Bool, true, false, not, ◌||◌, Option, none, some, List, [], ◌∷◌, ◌++◌, ltb, ◌==◌,
  if◌then◌else◌, take, length, is_empty, codes, Bytes,
}
use probavi.Base.Int.{ℤ, pos, negsuc}
use probavi.Evidence.Codes.{Sentinel, record_too_large, invalid_record, chain_state}
use probavi.Evidence.Result.{Result, ok, fails, ◌>>=◌, ◌>>◌, require}
use probavi.Evidence.Record.{Record, Signature}
use probavi.Evidence.Validate.{validate}
use probavi.Evidence.Marshal.{canonicalize_record}
use probavi.Evidence.Codec.{Codec, line_hash}
use probavi.Evidence.Walk.{max_record_bytes, WalkState, walk}

-- `Signer`: the key id and the private key.
pub record Signer : Type 0 where
  pub key_id : Bytes
  pub key : Bytes

-- `Store`, with the bytes of its file.
pub record Store : Type 0 where
  pub file : Bytes
  pub next_seq : ℕ
  pub prev_hash : Bytes
  pub broken : Bool

-- What becomes of a write: it is durable, only the first n bytes got to the file, or all did and
-- the sync failed.
pub data Fate : Type 0 where
  durable unsynced : Fate
  short : ℕ → Fate

-- The error of `Append`.
pub data AppendFault : Type 0 where
  failed_state write_failed : AppendFault
  rejected : Sentinel → AppendFault

-- The record that `sealed` signs, and the line of it.
unfoldable pub seal : Codec → Signer → Record → Bytes → Record
seal c s rec message = record rec {
  sig = some (record {
    alg = codes "ed25519";
    key_id = s.key_id;
    sig_b64 = c.encode_base64 (c.sign s.key message);
  });
}

-- `sealed`; it returns the signed record with its line.
unfoldable pub sealed : Codec → Signer → Record → Result (Record × Bytes)
unfolding seal
sealed c s rec = do
  validate rec
  message ← canonicalize_record rec
  let signed = seal c s rec message
  line ← canonicalize_record signed
  require (not (ltb max_record_bytes (length line))) record_too_large
  ok (signed, line)

abbrev pub newline : Bytes
newline = codes "\n"

-- The bytes that a write adds to the file.
abbrev pub written : Fate → Bytes → Bytes
written durable line = line ++ newline
written unsynced line = line ++ newline
written (short n) line = take n (line ++ newline)

-- `Append` once the line is sealed: `write`, and the step of the chain.
unfoldable pub put_line :
    Codec → Store → Record → Bytes → Fate → Store × Record × Option AppendFault
put_line c st rec line durable = (
  record {
    file = st.file ++ written durable line;
    next_seq = st.next_seq + 1;
    prev_hash = line_hash c line;
    broken = st.broken;
  },
  rec,
  none,
)
put_line c st rec line unsynced =
    (record st { file = st.file ++ written unsynced line; broken = true }, rec, some write_failed)
put_line c st rec line (short n) =
    (record st { file = st.file ++ written (short n) line; broken = true }, rec, some write_failed)

-- The chain fields that `Append` fills.
abbrev pub chained : Store → Record → Record
chained st rec = record rec { seq = pos st.next_seq; prev_hash = st.prev_hash }

abbrev cleared : Record → Record
cleared rec = record rec { seq = pos 0; prev_hash = []; sig = none }

-- `Append` by what `sealed` returned.
unfoldable pub append_sealed :
    Codec → Store → Record → Result (Record × Bytes) → Fate → Store × Record × Option AppendFault
unfolding put_line
append_sealed c st rec (fails e) fate = (st, cleared rec, some (rejected e))
append_sealed c st rec (ok (signed, line)) fate = put_line c st signed line fate

abbrev is_set {ℓ} : {A : Type ℓ} → Option A → Bool
is_set none = false
is_set (some a) = true

abbrev is_zero : ℤ → Bool
is_zero (pos n) = n == 0
is_zero (negsuc n) = false

-- The fields that are the store's to set.
abbrev pub is_chained : Record → Bool
is_chained rec = is_set rec.sig || not (is_zero rec.seq) || not (is_empty rec.prev_hash)

-- `Append`: the store, the record as the caller sees it, and the error.
unfoldable pub append : Codec → Signer → Store → Record → Fate → Store × Record × Option AppendFault
unfolding append_sealed
append c s st rec fate =
    if st.broken
    then (st, rec, some failed_state)
    else if is_chained rec
    then (st, rec, some (rejected invalid_record))
    else append_sealed c st (chained st rec) (sealed c s (chained st rec)) fate

-- The last byte is a newline, or there is none.
abbrev pub ends_line : Bytes → Bool
ends_line [] = true
ends_line (c ∷ []) = c == b'\n'
ends_line (c ∷ d ∷ s) = ends_line (d ∷ s)

-- `closeTornTail`.
unfoldable pub close_torn_tail : Bytes → Bytes
close_torn_tail file = if ends_line file then file else file ++ newline

-- `resume`, by the walk.
unfoldable pub resumed : Bytes → WalkState → Result Store
resumed file w =
    if w.failed
    then fails chain_state
    else ok (record { file = file; next_seq = w.next_seq; prev_hash = w.prev_hash; broken = false })

-- `Open`, of a file that another writer left.
unfoldable pub resume : Codec → Bytes → Result Store
unfolding close_torn_tail resumed
resume c file = resumed (close_torn_tail file) (walk c none none (close_torn_tail file))

-- ===== src/Evidence/Store/History.antt =====
-- A log over its life: records are appended, writes are cut short, the store is opened again.
use probavi.Base.{
  ◌≡◌, Bool, true, false, ◌||◌, Option, none, some, List, [], ◌∷◌, ◌++◌, if◌then◌else◌, length, leb,
  ℕ, ◌<◌, take, Bytes,
}
use probavi.Evidence.Codes.{genesis_prev_hash}
use probavi.Evidence.Json.{object, Fields}
use probavi.Evidence.Result.{Result, ok, fails}
use probavi.Evidence.Record.{Record}
use probavi.Evidence.Canonical.{canonicalize}
use probavi.Evidence.Codec.{Codec}
use probavi.Evidence.Walk.{max_record_bytes}
use probavi.Evidence.Store.{
  Signer, Store, Fate, AppendFault, sealed, chained, is_chained, append, resume,
}

-- A call of `Append` with what the disk does, or the store closed, or killed, and opened again.
pub data Event : Type 0 where
  append_record : Record → Fate → Event
  reopen : Event

-- The store; the records that `Append` returned without an error, newest first; the records that it
-- sealed, with their lines; and whether an `Open` refused the log.
pub record Session : Type 0 where
  pub store : Store
  pub acked : List Record
  pub tried : List (Record × Bytes)
  pub lost : Bool

abbrev pub sealed_list : Result (Record × Bytes) → List (Record × Bytes)
sealed_list (fails e) = []
sealed_list (ok p) = p ∷ []

-- What `sealed` returned, if `Append` came so far.
unfoldable pub attempt : Codec → Signer → Store → Record → List (Record × Bytes)
attempt c s st rec =
    if st.broken || is_chained rec then [] else sealed_list (sealed c s (chained st rec))

abbrev pub acknowledge : Option AppendFault → Record → List Record → List Record
acknowledge none rec acked = rec ∷ acked
acknowledge (some fault) rec acked = acked

abbrev pub reopened : Session → Result Store → Session
reopened se (ok st) = record se { store = st }
reopened se (fails e) = record se { lost = true }

unfoldable pub play : Codec → Signer → Event → Session → Session
unfolding attempt
play c s (append_record rec fate) se =
    let r = append c s se.store rec fate in
    record {
      store = r.0;
      acked = acknowledge r.2 r.1 se.acked;
      tried = attempt c s se.store rec ++ se.tried;
      lost = se.lost;
    }
play c s reopen se = reopened se (resume c se.store.file)

-- The store of a new file.
abbrev pub new_session : Session
new_session = record {
  store = record { file = []; next_seq = 1; prev_hash = genesis_prev_hash; broken = false };
  acked = [];
  tried = [];
  lost = false;
}

-- The events, the latest first.
unfoldable pub session : Codec → Signer → List Event → Session
unfolding play
session c s [] = new_session
session c s (e ∷ es) = play c s e (session c s es)

-- The decoders read the line of a record back, as an object with this canonical form and as a
-- record with the fields of the chain, and read nothing from a line that was cut short; and the
-- line is shorter than the reader's limit.
pub record IsReadable (c : Codec) (signed : Record) (line : Bytes) : Type 0 where
  pub fs : Fields
  pub rec : Record
  pub parsed : c.decode_strict line ≡ some (object fs)
  pub canonical : canonicalize (object fs) ≡ ok line
  pub decoded : c.unmarshal line ≡ some rec
  pub schema : rec.schema ≡ signed.schema
  pub seq_is : rec.seq ≡ signed.seq
  pub prev_is : rec.prev_hash ≡ signed.prev_hash
  pub cut : (m : ℕ) → m < length line → c.decode_strict (take m line) ≡ none
  pub short : leb max_record_bytes (length line) ≡ false

abbrev pub AllReadable : Codec → List (Record × Bytes) → Type 0
AllReadable c [] = Unit
AllReadable c ((signed, line) ∷ tried) = IsReadable c signed line × AllReadable c tried

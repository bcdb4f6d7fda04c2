-- ===== src/Core/Run/Ledger.antt =====
-- internal/core/core.go over internal/evidence/store.go: drills run one after the other on one log,
-- whose writes may be cut short, and which is opened again between them.
use probavi.Base.{
  ◌≡◌, refl, sym, ap, ◌∙◌, Bool, true, false, Option, none, some, List, [], ◌∷◌, if◌then◌else◌,
  subst, Bytes,
}
use probavi.Evidence.Result.{Result, ok, fails}
use probavi.Evidence.Record.{Record}
use probavi.Evidence.Codec.{Codec}
use probavi.Evidence.Walk.{lines}
use probavi.Evidence.Walk.Chain.{Chain, records_onto}
use probavi.Evidence.Store.{
  Signer, Store, Fate, AppendFault, failed_state, write_failed, rejected, append, resume,
}
use probavi.Evidence.Store.Accepted.{Kept}
use probavi.Evidence.Store.History.{
  Event, append_record, reopen, acknowledge, reopened, play, new_session, session, AllReadable,
}
use probavi.Evidence.Store.Life.{session-IsRecovered}
use probavi.Core.World.{Drill, World}
use probavi.Core.Run.{AppendError, rejected_by_shape, degraded, composed}

-- A drill with its answers and what the disk does with its writes, or the log opened again.
pub data Day : Type 0 where
  drill_day : Drill → World → Fate → Fate → Day
  reopen_day : Day

-- The store, the records of the runs that returned no error, the latest first, whether an `Open`
-- refused the log, and the calls made on the store so far, the latest first.
pub record Ledger : Type 0 where
  pub store : Store
  pub reports : List Record
  pub lost : Bool
  pub calls : List Event

-- The error that `Run` sees; `words` gives its text.
unfoldable pub append_error : (AppendFault → Bytes) → AppendFault → AppendError
append_error words failed_state = record { sentinel = none; text = words failed_state }
append_error words write_failed = record { sentinel = none; text = words write_failed }
append_error words (rejected s) = record { sentinel = some s; text = words (rejected s) }

-- The end of `Run`, with the answer to the last record that it appended.
abbrev pub filed : Store × Record × Option AppendFault → Event → Ledger → Ledger
filed (st, rec, fault) call l = record {
  store = st;
  reports = acknowledge fault rec l.reports;
  lost = l.lost;
  calls = call ∷ l.calls;
}

module _ (c : Codec) (s : Signer) (words : AppendFault → Bytes) where
  -- `Append` of one record.
  abbrev pub filed_record : Record → Fate → Ledger → Ledger
  filed_record rec fate l = filed (append c s l.store rec fate) (append_record rec fate) l

  -- `appendDegraded`, once the composed record was refused.
  abbrev pub file_degraded : Drill → World → Fate → Option AppendFault → Ledger → Ledger
  file_degraded d w fate none l = l
  file_degraded d w fate (some fault) l =
      let error = append_error words fault in
      if rejected_by_shape error
      then filed_record (degraded d w (composed d w) error.text) fate l
      else l

  -- `Run` on the store.
  unfoldable pub file_drill : Drill → World → Fate → Fate → Ledger → Ledger
  unfolding append rejected_by_shape append_error degraded composed
  file_drill d w first second l =
      file_degraded d w second (append c s l.store (composed d w) first).2
        (filed_record (composed d w) first l)

  abbrev pub opened_again : Ledger → Result Store → Ledger
  opened_again l (ok st) = record l { store = st; calls = reopen ∷ l.calls }
  opened_again l (fails e) = record l { lost = true; calls = reopen ∷ l.calls }

  unfoldable pub live_day : Day → Ledger → Ledger
  unfolding file_drill resume
  live_day (drill_day d w first second) l = file_drill d w first second l
  live_day reopen_day l = opened_again l (resume c l.store.file)

  -- The ledger after some days, the latest first.
  unfoldable pub ledger : List Day → Ledger
  unfolding live_day
  ledger [] = record { store = new_session.store; reports = []; lost = false; calls = [] }
  ledger (day ∷ days) = live_day day (ledger days)

  -- The ledger is what its calls make of a log.
  pub record Agrees (l : Ledger) : Type 0 where
    store : (session c s l.calls).store ≡ l.store
    acked : (session c s l.calls).acked ≡ l.reports
    lost : (session c s l.calls).lost ≡ l.lost

  filed_record-Agrees :
      (rec : Record) (fate : Fate) (l : Ledger) → Agrees l → Agrees (filed_record rec fate l)
  unfolding session play
  filed_record-Agrees rec fate l a = record {
    store = ap (λ st. (append c s st rec fate).0) a.store;
    acked =
        ap
          (λ st.
            acknowledge (append c s st rec fate).2 (append c s st rec fate).1
              (session c s l.calls).acked)
          a.store
        ∙ ap (λ rs. acknowledge (append c s l.store rec fate).2 (append c s l.store rec fate).1 rs)
            a.acked;
    lost = a.lost;
  }

  file_degraded-Agrees :
      (d : Drill) (w : World) (fate : Fate) (o : Option AppendFault) (l : Ledger)
      → Agrees l
      → Agrees (file_degraded d w fate o l)
  file_degraded-Agrees d w fate none l a = a
  file_degraded-Agrees d w fate (some fault) l a = by (rejected_by_shape (append_error words fault))
    where
      by :
          (b : Bool)
          → Agrees (
              if b
              then filed_record (degraded d w (composed d w) (append_error words fault).text) fate l
              else l)
      by true = filed_record-Agrees _ fate l a
      by false = a

  reopened-Agrees :
      (l : Ledger) (r : Result Store)
      → Agrees l
      → resume c l.store.file ≡ r
      → Agrees (opened_again l r)
  unfolding session play
  reopened-Agrees l r a e = by r (ap (λ (st : Store). resume c st.file) a.store ∙ e)
    where
      by :
          (r : Result Store)
          → resume c (session c s l.calls).store.file ≡ r
          → Agrees (opened_again l r)
      by (ok st) k = record {
        store = ap (λ q. (reopened (session c s l.calls) q).store) k;
        acked = ap (λ q. (reopened (session c s l.calls) q).acked) k ∙ a.acked;
        lost = ap (λ q. (reopened (session c s l.calls) q).lost) k ∙ a.lost;
      }
      by (fails e) k = record {
        store = ap (λ q. (reopened (session c s l.calls) q).store) k ∙ a.store;
        acked = ap (λ q. (reopened (session c s l.calls) q).acked) k ∙ a.acked;
        lost = ap (λ q. (reopened (session c s l.calls) q).lost) k;
      }

  ledger-Agrees : (days : List Day) → Agrees (ledger days)
  unfolding ledger live_day file_drill session
  ledger-Agrees [] = record { store = refl; acked = refl; lost = refl }
  ledger-Agrees (reopen_day ∷ days) =
      reopened-Agrees (ledger days) (resume c (ledger days).store.file) (ledger-Agrees days) refl
  ledger-Agrees (drill_day d w first second ∷ days) =
      file_degraded-Agrees d w second (append c s (ledger days).store (composed d w) first).2 _
        (filed_record-Agrees (composed d w) first (ledger days) (ledger-Agrees days))

  -- What an `Open` behind the last of the days finds: a chain that holds the records of the runs that
  -- returned no error, each as often and in the order of the runs, and ends where the store goes on.
  pub record IsOnRecord (l : Ledger) (st : Store) : Type 0 where
    pub opens : resume c l.store.file ≡ ok st
    pub chain : Chain c none (records_onto c [] (lines st.file).0) st.next_seq st.prev_hash
    pub kept : Kept l.reports (records_onto c [] (lines st.file).0)
    pub ready : st.broken ≡ false

  -- Whatever drills are run on a log, with any answers, any writes of theirs cut short or not synced, and
  -- the log opened again at any time between them: if the decoders read the lines back that the store
  -- sealed, none of them when cut short, and no line reaches the limit of the reader, then no opening
  -- was refused, and the log that the next one finds is a chain with the record of every run that
  -- returned without an error, once for each run and in the order of the runs.
  pub ledger-IsOnRecord :
      (days : List Day)
      → AllReadable c (session c s (ledger days).calls).tried
      → ((ledger days).lost ≡ false) × ((st : Store) × IsOnRecord (ledger days) st)
  ledger-IsOnRecord days r =
      let a = ledger-Agrees days in
      let (opened, (st, found)) = session-IsRecovered c s (ledger days).calls r in
      (
        sym a.lost ∙ opened,
        (
          st,
          record {
            opens = ap (λ (x : Store). resume c x.file) (sym a.store) ∙ found.opens;
            chain = found.chain;
            kept = subst (λ rs. Kept rs (records_onto c [] (lines st.file).0)) a.acked found.kept;
            ready = found.ready;
          },
        ),
      )

-- ===== src/Evidence/Store/Extends.antt =====
-- The store never rewrites a byte of the log.
use probavi.Base.{
  ◌≡◌, refl, sym, ap, ◌∙◌, Bool, true, false, Option, none, some, List, [], ◌∷◌, ◌++◌, inl, inr,
  Bool-cases, append-nil, append_assoc, if◌then◌else◌, Bytes,
}
use probavi.Evidence.Codes.{invalid_record}
use probavi.Evidence.Result.{Result, ok, fails}
use probavi.Evidence.Record.{Record}
use probavi.Evidence.Codec.{Codec}
use probavi.Evidence.Walk.{WalkState, walk}
use probavi.Evidence.Store.{
  Signer, Store, Fate, durable, unsynced, short, newline, written, ends_line, close_torn_tail,
  resumed, AppendFault, failed_state, rejected, resume, put_line, append_sealed, sealed, chained,
  is_chained, append,
}
use probavi.Evidence.Store.History.{Event, append_record, reopen, Session, reopened, play, session}

-- The old bytes are the beginning of the new ones.
abbrev pub Extends : Bytes → Bytes → Type 0
Extends old new = (more : Bytes) × (new ≡ old ++ more)

Extends-refl : (a : Bytes) → Extends a a
Extends-refl a = ([], sym (append-nil a))

put_line-Extends :
    (c : Codec) (st : Store) (rec : Record) (line : Bytes) (fate : Fate)
    → Extends st.file (put_line c st rec line fate).0.file
unfolding put_line
put_line-Extends c st rec line durable = (written durable line, refl)
put_line-Extends c st rec line unsynced = (written unsynced line, refl)
put_line-Extends c st rec line (short n) = (written (short n) line, refl)

append_sealed-Extends :
    (c : Codec) (st : Store) (rec : Record) (r : Result (Record × Bytes)) (fate : Fate)
    → Extends st.file (append_sealed c st rec r fate).0.file
unfolding append_sealed
append_sealed-Extends c st rec (fails e) fate = Extends-refl st.file
append_sealed-Extends c st rec (ok (signed, line)) fate = put_line-Extends c st signed line fate

append-Extends :
    (c : Codec) (s : Signer) (st : Store) (rec : Record) (fate : Fate)
    → Extends st.file (append c s st rec fate).0.file
unfolding append
append-Extends c s st rec fate =
    guarded st.broken (is_chained rec) (some failed_state) (some (rejected invalid_record))
      (append_sealed c st (chained st rec) (sealed c s (chained st rec)) fate)
      (append_sealed-Extends c st (chained st rec) (sealed c s (chained st rec)) fate)
  where
    guarded :
        (b k : Bool) (f g : Option AppendFault) (r : Store × Record × Option AppendFault)
        → Extends st.file r.0.file
        → Extends st.file (if b then (st, rec, f) else if k then (st, rec, g) else r).0.file
    guarded true k f g r h = Extends-refl st.file
    guarded false true f g r h = Extends-refl st.file
    guarded false false f g r h = h

close_torn_tail-Extends : (file : Bytes) → Extends file (close_torn_tail file)
unfolding close_torn_tail
close_torn_tail-Extends file = elim (Bool-cases (ends_line file)) [
  | inl e ↦ ([], rw e (sym (append-nil file)))
  | inr e ↦ (newline, rw e refl)
]

reopened-Extends :
    (se : Session) (w : WalkState)
    → Extends se.store.file (reopened se (resumed (close_torn_tail se.store.file) w)).store.file
unfolding resumed
reopened-Extends se w = elim (Bool-cases w.failed) [
  | inl e ↦ rw e (Extends-refl se.store.file)
  | inr e ↦ rw e (close_torn_tail-Extends se.store.file)
]

play-Extends :
    (c : Codec) (s : Signer) (e : Event) (se : Session)
    → Extends se.store.file (play c s e se).store.file
unfolding play resume
play-Extends c s (append_record rec fate) se = append-Extends c s se.store rec fate
play-Extends c s reopen se = reopened-Extends se (walk c none none (close_torn_tail se.store.file))

Extends-trans : (a : Bytes) {b d : Bytes} → Extends a b → Extends b d → Extends a d
Extends-trans a (m, p) (n, q) = (m ++ n, q ∙ ap (λ x. x ++ n) p ∙ append_assoc a m n)

-- Whatever is appended, written in part or opened later, the bytes of the log stay where they are.
pub session-Extends :
    (c : Codec) (s : Signer) (later es : List Event)
    → Extends (session c s es).store.file (session c s (later ++ es)).store.file
unfolding session
session-Extends c s [] es = Extends-refl (session c s es).store.file
session-Extends c s (e ∷ later) es =
    Extends-trans _ (session-Extends c s later es) (play-Extends c s e (session c s (later ++ es)))

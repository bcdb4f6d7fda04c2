-- ===== src/Evidence/Store/Life.antt =====
-- No history of appends, torn writes and openings loses a record or the log.
use probavi.Base.{◌≡◌, refl, sym, ap, ◌∙◌, false, none, List, [], ◌∷◌, ◌++◌, Bytes}
use probavi.Evidence.Result.{Result, ok, fails}
use probavi.Evidence.Record.{Record}
use probavi.Evidence.Codec.{Codec}
use probavi.Evidence.Walk.{WalkState, walk_lines, lines, initial, finish, miss_anchor}
use probavi.Evidence.Walk.Chain.{Chain, records_onto}
use probavi.Evidence.Walk.Sound.{walk-Walked}
use probavi.Evidence.Walk.Invariant.{Chain-at}
use probavi.Evidence.Store.{Signer, Store, resume, close_torn_tail}
use probavi.Evidence.Store.Accepted.{Kept, none_left, Accepted, Accepted-walk, relocate}
use probavi.Evidence.Store.Alive.{Alive, append-Alive, resume-Alive}
use probavi.Evidence.Store.History.{
  Event, append_record, reopen, Session, attempt, reopened, play, new_session, session, AllReadable,
}

module _ (c : Codec) (s : Signer) where
  -- A session that has lost nothing.
  pub record IsAlive (se : Session) : Type 0 where
    alive : Alive c se.store se.acked
    opened : se.lost ≡ false

  new_accepted : Accepted c [] []
  unfolding walk_lines finish miss_anchor lines records_onto
  new_accepted = record {
    state = initial none none;
    closed = refl;
    walked = refl;
    going = refl;
    kept = none_left;
  }

  new-IsAlive : IsAlive new_session
  unfolding close_torn_tail new_accepted
  new-IsAlive = record {
    alive = record { accepted = new_accepted; ready = λ b. (refl, refl, refl) };
    opened = refl;
  }

  AllReadable-left : (xs ys : List (Record × Bytes)) → AllReadable c (xs ++ ys) → AllReadable c xs
  AllReadable-left [] ys r = tt
  AllReadable-left ((rec, line) ∷ xs) ys (r, rs) = (r, AllReadable-left xs ys rs)

  AllReadable-right : (xs ys : List (Record × Bytes)) → AllReadable c (xs ++ ys) → AllReadable c ys
  AllReadable-right [] ys r = r
  AllReadable-right ((rec, line) ∷ xs) ys (r, rs) = AllReadable-right xs ys rs

  reopen-IsAlive : (se : Session) → IsAlive se → IsAlive (play c s reopen se)
  unfolding play
  reopen-IsAlive se i =
      let (st, e, a, f) = resume-Alive c se.store i.alive in
      rw e (record { alive = a; opened = i.opened })

  tried-reopened : (se : Session) (r : Result Store) → (reopened se r).tried ≡ se.tried
  tried-reopened se (ok st) = refl
  tried-reopened se (fails e) = refl

  play-IsAlive :
      (e : Event) (se : Session)
      → (AllReadable c se.tried → IsAlive se)
      → AllReadable c (play c s e se).tried
      → IsAlive (play c s e se)
  unfolding play
  play-IsAlive (append_record rec fate) se i r =
      let before = i (AllReadable-right (attempt c s se.store rec) se.tried r) in
      record {
        alive =
            append-Alive c s se.store rec fate before.alive
              (AllReadable-left (attempt c s se.store rec) se.tried r);
        opened = before.opened;
      }
  play-IsAlive reopen se i r =
      reopen-IsAlive se (i (rw (tried-reopened se (resume c se.store.file)) at r))

  session-IsAlive :
      (es : List Event) → AllReadable c (session c s es).tried → IsAlive (session c s es)
  unfolding session
  session-IsAlive [] r = new-IsAlive
  session-IsAlive (e ∷ es) r = play-IsAlive e (session c s es) (session-IsAlive es) r

  -- What an `Open` at the end of a session finds.
  pub record IsRecovered (se : Session) (st : Store) : Type 0 where
    pub opens : resume c se.store.file ≡ ok st
    pub chain : Chain c none (records_onto c [] (lines st.file).0) st.next_seq st.prev_hash
    pub kept : Kept se.acked (records_onto c [] (lines st.file).0)
    pub whole : (lines st.file).1 ≡ []
    pub ready : st.broken ≡ false

  -- After any sequence of appends, of writes that were cut short at any byte or not synced, and of
  -- openings, if the decoders read the sealed lines back, none of them when cut short, and no line
  -- reaches the reader's limit: no opening was refused, the next one is not either, the log that it
  -- finds is a chain that ends in the head of the store, and every record that `Append` returned
  -- without an error is in it, once for each return and in the order of the returns.
  pub session-IsRecovered :
      (es : List Event)
      → AllReadable c (session c s es).tried
      → ((session c s es).lost ≡ false) × ((st : Store) × IsRecovered (session c s es) st)
  session-IsRecovered es r =
      let i = session-IsAlive es r in
      let (st, e, a, f) = resume-Alive c (session c s es).store i.alive in
      let (same, n, h) = a.ready f in
      let here = relocate c same a.accepted in
      let walked = Accepted-walk c here in
      let inv =
        (walk-Walked c none none st.file
          (ap (λ (w : WalkState). w.failed) walked ∙ here.going)).inv in
      (
        i.opened,
        (
          st,
          record {
            opens = e;
            chain =
                Chain-at c (ap (λ (w : WalkState). w.next_seq) walked ∙ sym n)
                  (ap (λ (w : WalkState). w.prev_hash) walked ∙ sym h) inv.chain;
            kept = here.kept;
            whole = here.closed;
            ready = f;
          },
        ),
      )

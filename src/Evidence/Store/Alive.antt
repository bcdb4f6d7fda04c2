-- ===== src/Evidence/Store/Alive.antt =====
-- The store's invariant: the file, its torn tail closed, is a log that the walk accepts, with every
-- acknowledged record in it.
use probavi.Base.{
  ℕ, ◌+◌, ◌≤◌, ◌≡◌, refl, sym, ap, ◌∙◌, inl, inr, true, false, some, List, [], ◌∷◌, ◌++◌,
  Bool-cases, length, take, Bytes,
}
use probavi.Base.Int.{pos}
use probavi.Evidence.Result.{Result, ok, fails}
use probavi.Evidence.Record.{Record}
use probavi.Evidence.Codes.{invalid_record}
use probavi.Evidence.Codec.{Codec}
use probavi.Evidence.Walk.{WalkState, advance, lines}
use probavi.Evidence.Walk.Chain.{records_onto}
use probavi.Evidence.Store.{
  Store, Signer, Fate, durable, unsynced, short, newline, close_torn_tail, put_line, failed_state,
  rejected, append, append_sealed, sealed, chained, is_chained, resume, resumed,
}
use probavi.Evidence.Store.Lines.{torn-cases}
use probavi.Evidence.Store.Sealed.{IsSealed, sealed-ok}
use probavi.Evidence.Store.Accepted.{
  Kept, keep, skip, Accepted, Accepted-walk, Accepted-sealed, Accepted-cut, closed-torn, relocate,
}
use probavi.Evidence.Store.History.{IsReadable, AllReadable, acknowledge, attempt, sealed_list}

module _ (c : Codec) where
  pub record Alive (st : Store) (acked : List Record) : Type 0 where
    pub accepted : Accepted c (close_torn_tail st.file) acked
    pub ready :
        st.broken ≡ false
        → (close_torn_tail st.file ≡ st.file)
          × (st.next_seq ≡ accepted.state.next_seq)
          × (st.prev_hash ≡ accepted.state.prev_hash)

  -- What `put_line` finds: a store that is ready, and a record sealed for it.
  record Due (st : Store) (acked : List Record) (rec signed : Record) (line : Bytes) : Type 0 where
    whole : st.broken ≡ false
    alive : Alive st acked
    seq_is : rec.seq ≡ pos st.next_seq
    prev_is : rec.prev_hash ≡ st.prev_hash
    sealed : IsSealed rec signed line
    readable : IsReadable c signed line

  Due-whole :
      {acked acked' : List Record} (st : Store) (rec signed : Record) (line : Bytes)
      (d : Due st acked rec signed line)
      → Kept acked' (line ∷ records_onto c [] (lines (close_torn_tail st.file)).0)
      → (b : Accepted c (close_torn_tail (st.file ++ (line ++ newline))) acked') × (b.state
          ≡ advance c line d.alive.accepted.state)
        × (close_torn_tail (st.file ++ (line ++ newline)) ≡ st.file ++ (line ++ newline))
  Due-whole st rec signed line d k =
      let (same, n, h) = d.alive.ready d.whole in
      let (g, e) =
        Accepted-sealed c d.alive.accepted signed line d.readable d.sealed.single d.sealed.schema
          (d.sealed.seq_is ∙ d.seq_is ∙ ap (λ m. pos m) n) (d.sealed.prev_is ∙ d.prev_is ∙ h) k in
      let t = sym (closed-torn c g) ∙ ap (λ f. close_torn_tail (f ++ (line ++ newline))) same in
      (relocate c t g, e, sym t ∙ ap (λ f. f ++ (line ++ newline)) same)

  Due-cut :
      {acked : List Record} (st : Store) (rec signed : Record) (line : Bytes) (m : ℕ)
      → Due st acked rec signed line
      → m ≤ length line
      → Accepted c (close_torn_tail (st.file ++ take m line)) acked
  Due-cut st rec signed line m d le =
      let (same, n, h) = d.alive.ready d.whole in
      relocate c (ap (λ f. close_torn_tail (f ++ take m line)) same) (
        Accepted-cut c d.alive.accepted signed line m d.readable d.sealed.single d.sealed.schema
          (d.sealed.seq_is ∙ d.seq_is ∙ ap (λ k. pos k) n) (d.sealed.prev_is ∙ d.prev_is ∙ h) le)

  -- Whatever becomes of the write, the store stays alive; a durable write adds its record.
  put_line-Alive :
      {acked : List Record} (st : Store) (rec signed : Record) (line : Bytes) (fate : Fate)
      → Due st acked rec signed line
      → Alive
          (put_line c st signed line fate).0
          (acknowledge (put_line c st signed line fate).2 signed acked)
  unfolding put_line
  put_line-Alive st rec signed line durable d =
      let (same, n, h) = d.alive.ready d.whole in
      let (g, e, t) = Due-whole st rec signed line d (keep d.sealed.form d.alive.accepted.kept) in
      record {
        accepted = g;
        ready = λ b. (
          t,
          ap (λ m. m + 1) n ∙ ap (λ (w : WalkState). w.next_seq) (sym e),
          ap (λ (w : WalkState). w.prev_hash) (sym e),
        );
      }
  put_line-Alive st rec signed line unsynced d = record {
    accepted = (Due-whole st rec signed line d (skip d.alive.accepted.kept)).0;
    ready = λ b. absurd (cc b);
  }
  put_line-Alive st rec signed line (short n) d = record {
    accepted = elim (torn-cases line n) [
      | inl e ↦
          relocate c (ap (λ x. close_torn_tail (st.file ++ x)) (sym e))
            (Due-whole st rec signed line d (skip d.alive.accepted.kept)).0
      | inr (m, le, e) ↦
          relocate c (ap (λ x. close_torn_tail (st.file ++ x)) (sym e))
            (Due-cut st rec signed line m d le)
    ];
    ready = λ b. absurd (cc b);
  }

  -- The record that `put_line` returns is the one that it was given.
  Alive-returned :
      (acked : List Record) (st : Store) (signed : Record) (line : Bytes) (fate : Fate)
      → Alive
          (put_line c st signed line fate).0
          (acknowledge (put_line c st signed line fate).2 signed acked)
      → Alive
          (put_line c st signed line fate).0
          (acknowledge (put_line c st signed line fate).2 (put_line c st signed line fate).1 acked)
  unfolding put_line
  Alive-returned acked st signed line durable a = a
  Alive-returned acked st signed line unsynced a = a
  Alive-returned acked st signed line (short n) a = a

  append_sealed-Alive :
      (s : Signer) {acked : List Record} (st : Store) (rec : Record) (r : Result (Record × Bytes))
      (fate : Fate)
      → st.broken ≡ false
      → Alive st acked
      → sealed c s (chained st rec) ≡ r
      → AllReadable c (sealed_list r)
      → Alive (append_sealed c st (chained st rec) r fate).0 (
          acknowledge
            (append_sealed c st (chained st rec) r fate).2
            (append_sealed c st (chained st rec) r fate).1
            acked)
  unfolding append_sealed
  append_sealed-Alive s st rec (fails e) fate b alive q r = alive
  append_sealed-Alive s st rec (ok (signed, line)) fate b alive q (r, rs) =
      Alive-returned _ st signed line fate (
        put_line-Alive st (chained st rec) signed line fate (record {
          whole = b;
          alive = alive;
          seq_is = refl;
          prev_is = refl;
          sealed = sealed-ok c s (chained st rec) signed line q;
          readable = r;
        }))

  append-failed :
      (s : Signer) (st : Store) (rec : Record) (fate : Fate)
      → st.broken ≡ true
      → append c s st rec fate ≡ (st, rec, some failed_state)
  unfolding append
  append-failed s st rec fate b = rw b refl

  append-refused :
      (s : Signer) (st : Store) (rec : Record) (fate : Fate)
      → st.broken ≡ false
      → is_chained rec ≡ true
      → append c s st rec fate ≡ (st, rec, some (rejected invalid_record))
  unfolding append
  append-refused s st rec fate b k = rw (b, k) refl

  append-goes :
      (s : Signer) (st : Store) (rec : Record) (fate : Fate)
      → st.broken ≡ false
      → is_chained rec ≡ false
      → append c s st rec fate
        ≡ append_sealed c st (chained st rec) (sealed c s (chained st rec)) fate
  unfolding append
  append-goes s st rec fate b k = rw (b, k) refl

  attempt-goes :
      (s : Signer) (st : Store) (rec : Record)
      → st.broken ≡ false
      → is_chained rec ≡ false
      → attempt c s st rec ≡ sealed_list (sealed c s (chained st rec))
  unfolding attempt
  attempt-goes s st rec b k = rw (b, k) refl

  -- `Append` keeps the invariant, on every branch.
  pub append-Alive :
      (s : Signer) {acked : List Record} (st : Store) (rec : Record) (fate : Fate)
      → Alive st acked
      → AllReadable c (attempt c s st rec)
      → Alive
          (append c s st rec fate).0
          (acknowledge (append c s st rec fate).2 (append c s st rec fate).1 acked)
  append-Alive s st rec fate alive r = elim (Bool-cases st.broken) [
    | inl b ↦ rw (append-failed s st rec fate b) alive
    | inr b ↦ elim (Bool-cases (is_chained rec)) [
      | inl k ↦ rw (append-refused s st rec fate b k) alive
      | inr k ↦ rw (append-goes s st rec fate b k) (
          append_sealed-Alive s st rec (sealed c s (chained st rec)) fate b alive refl
            (rw (attempt-goes s st rec b k) at r))
    ]
  ]

  -- Opening an alive store again gives an alive store, with the acknowledged records.
  pub resume-Alive :
      {acked : List Record} (st : Store)
      → Alive st acked
      → (st' : Store) × (resume c st.file ≡ ok st') × Alive st' acked × (st'.broken ≡ false)
  unfolding resume resumed
  resume-Alive st alive =
      let a = alive.accepted in
      let twice = closed-torn c a in
      (
        record {
          file = close_torn_tail st.file;
          next_seq = a.state.next_seq;
          prev_hash = a.state.prev_hash;
          broken = false;
        },
        rw (Accepted-walk c a) (rw a.going refl),
        record { accepted = relocate c (sym twice) a; ready = λ b. (twice, refl, refl) },
        refl,
      )

-- ===== src/Evidence/Store/Accepted.antt =====
-- A log that the walk accepts to its end, and what one line more makes of it.
use probavi.Base.{
  ℕ, ◌+◌, ◌≤◌, ◌<◌, ◌≡◌, ◌≢◌, refl, sym, ap, ◌∙◌, ◌⊎◌, inl, inr, true, false, none, List, [], ◌∷◌,
  ◌++◌, arith, append-nil, append_assoc, leb, all, all-take, length, length-take, take, Bytes,
}
use mathlib.Core.Path.{subst}
use probavi.Base.Int.{pos}
use probavi.Evidence.Canonical.Line.{printable}
use probavi.Evidence.Result.{ok}
use probavi.Evidence.Record.{Record}
use probavi.Evidence.Marshal.{canonicalize_record}
use probavi.Evidence.Codes.{supported_schema}
use probavi.Evidence.Codec.{Codec}
use probavi.Evidence.Walk.{
  WalkState, go, advance, walk_lines, walk, lines, initial, max_record_bytes, step,
}
use probavi.Evidence.Walk.Chain.{records_onto}
use probavi.Evidence.Walk.Sound.{walk-Walked}
use probavi.Evidence.Store.{newline, close_torn_tail}
use probavi.Evidence.Store.Lines.{
  lines-snoc, close_torn_tail-closed, close_torn_tail-torn, take-whole,
}
use probavi.Evidence.Store.Steps.{
  walk_lines-snoc, walk_lines-one, step-damaged, Fits, step-Fits, walk-lines,
  records_onto-snoc-none, records_onto-snoc,
}
use probavi.Evidence.Store.History.{IsReadable}

-- The canonical lines of the records stand among the lines, in their order.
pub data Kept : List Record → List Bytes → Type 0 where
  none_left : Kept [] []
  keep :
      {rec : Record} {line : Bytes} {recs : List Record} {ls : List Bytes}
      → canonicalize_record rec ≡ ok line
      → Kept recs ls
      → Kept (rec ∷ recs) (line ∷ ls)
  skip :
      {line : Bytes} {recs : List Record} {ls : List Bytes} → Kept recs ls → Kept recs (line ∷ ls)

module _ (c : Codec) where
  -- A file that the walk accepts to its end, with the records in it.
  pub record Accepted (file : Bytes) (acked : List Record) : Type 0 where
    pub state : WalkState
    pub closed : (lines file).1 ≡ []
    pub walked : walk_lines c (initial none none) 1 (lines file).0 [] ≡ state
    pub going : state.failed ≡ false
    pub kept : Kept acked (records_onto c [] (lines file).0)

  pub Accepted-walk :
      {file : Bytes} {acked : List Record} (a : Accepted file acked)
      → walk c none none file ≡ a.state
  Accepted-walk {file} a = walk-lines c file a.closed ∙ a.walked

  Accepted-Walked :
      {file : Bytes} {acked : List Record} (a : Accepted file acked)
      → (a.state.keyring ≡ none) × (a.state.anchor ≡ none)
  Accepted-Walked {file} a =
      let e = Accepted-walk a in
      let i = (walk-Walked c none none file (ap (λ (w : WalkState). w.failed) e ∙ a.going)).inv in
      (
        ap (λ (w : WalkState). w.keyring) (sym e) ∙ i.keyring,
        ap (λ (w : WalkState). w.anchor) (sym e) ∙ i.anchored,
      )

  -- The log with a line more, if the walk goes on behind that line.
  Accepted-snoc :
      {file : Bytes} {acked acked' : List Record} (a : Accepted file acked) (l : Bytes)
      (w : WalkState)
      → all printable l ≡ true
      → leb max_record_bytes (length l) ≡ false
      → step c a.state l (1 + length (lines file).0) ≡ go w
      → w.failed ≡ false
      → Kept acked' (records_onto c [] ((lines file).0 ++ l ∷ []))
      → (b : Accepted (file ++ (l ++ newline)) acked') × (b.state ≡ w)
  Accepted-snoc {file} a l w p s go_on g k =
      let e = lines-snoc file l a.closed p in
      let (key, anchor) = Accepted-Walked a in
      (
        record {
          state = w;
          closed = ap (λ q. q.1) e;
          walked =
              ap (λ q. walk_lines c (initial none none) 1 q.0 []) e
              ∙ walk_lines-snoc c (lines file).0 (initial none none) 1 l refl
                  (ap (λ (v : WalkState). v.failed) a.walked ∙ a.going)
              ∙ ap (λ v. walk_lines c v (1 + length (lines file).0) (l ∷ []) []) a.walked
              ∙ walk_lines-one c a.state w _ l anchor s go_on;
          going = g;
          kept = rw e k;
        },
        refl,
      )

  pub Accepted-damaged :
      {file : Bytes} {acked : List Record} (a : Accepted file acked) (l : Bytes)
      → all printable l ≡ true
      → leb max_record_bytes (length l) ≡ false
      → c.decode_strict l ≡ none
      → Accepted (file ++ (l ++ newline)) acked
  Accepted-damaged {file} a l p s d =
      (Accepted-snoc a l _ p s (step-damaged c a.state l _ d) a.going
        (rw (records_onto-snoc-none c (lines file).0 [] l d) a.kept)).0

  pub Accepted-line :
      {file : Bytes} {acked acked' : List Record} (a : Accepted file acked) (l : Bytes)
      → all printable l ≡ true
      → leb max_record_bytes (length l) ≡ false
      → Fits c a.state l
      → Kept acked' (l ∷ records_onto c [] (lines file).0)
      → (b : Accepted (file ++ (l ++ newline)) acked') × (b.state ≡ advance c l a.state)
  Accepted-line {file} a l p s f k =
      let (key, anchor) = Accepted-Walked a in
      Accepted-snoc a l (advance c l a.state) p s (step-Fits c a.state l _ key anchor f) a.going
        (rw (records_onto-snoc c (lines file).0 [] l f.parsed) k)

  readable-Fits :
      (w : WalkState) (signed : Record) (line : Bytes)
      → IsReadable c signed line
      → supported_schema signed.schema ≡ true
      → signed.seq ≡ pos w.next_seq
      → signed.prev_hash ≡ w.prev_hash
      → Fits c w line
  readable-Fits w signed line r s n h = record {
    fs = r.fs;
    rec = r.rec;
    parsed = r.parsed;
    canonical = r.canonical;
    decoded = r.decoded;
    schema = ap supported_schema r.schema ∙ s;
    seq_is = r.seq_is ∙ n;
    prev_is = r.prev_is ∙ h;
  }

  -- The seal of a record that is chained to the end of an accepted log.
  pub Accepted-sealed :
      {file : Bytes} {acked acked' : List Record} (a : Accepted file acked) (signed : Record)
      (line : Bytes)
      → IsReadable c signed line
      → all printable line ≡ true
      → supported_schema signed.schema ≡ true
      → signed.seq ≡ pos a.state.next_seq
      → signed.prev_hash ≡ a.state.prev_hash
      → Kept acked' (line ∷ records_onto c [] (lines file).0)
      → (b : Accepted (file ++ (line ++ newline)) acked') × (b.state ≡ advance c line a.state)
  Accepted-sealed a signed line r p s n h k =
      Accepted-line a line p r.short (readable-Fits a.state signed line r s n h) k

  pub closed-torn :
      {file : Bytes} {acked : List Record} → Accepted file acked → close_torn_tail file ≡ file
  closed-torn {file} a = close_torn_tail-closed file a.closed

  abbrev pub relocate :
      {file file' : Bytes} {acked : List Record}
      → file ≡ file'
      → Accepted file acked
      → Accepted file' acked
  relocate {acked} e a = record {
    state = a.state;
    closed = ap (λ f. (lines f).1) (sym e) ∙ a.closed;
    walked = ap (λ f. walk_lines c (initial none none) 1 (lines f).0 []) (sym e) ∙ a.walked;
    going = a.going;
    kept = subst (λ f. Kept acked (records_onto c [] (lines f).0)) e a.kept;
  }

  length-take-le : (m : ℕ) (l : Bytes) → length (take m l) ≤ length l
  length-take-le m l = omega (arith, length-take m l)

  shorter :
      (m : ℕ) (l : Bytes)
      → leb max_record_bytes (length l) ≡ false
      → leb max_record_bytes (length (take m l)) ≡ false
  shorter m l h = ground (arith, length-take-le m l)

  -- A write that was cut short, and the torn tail closed.
  pub Accepted-cut :
      {file : Bytes} {acked : List Record} (a : Accepted file acked) (signed : Record)
      (line : Bytes) (m : ℕ)
      → IsReadable c signed line
      → all printable line ≡ true
      → supported_schema signed.schema ≡ true
      → signed.seq ≡ pos a.state.next_seq
      → signed.prev_hash ≡ a.state.prev_hash
      → m ≤ length line
      → Accepted (close_torn_tail (file ++ take m line)) acked
  Accepted-cut {file} {acked} a signed line m r p s n h le = elim (is_nil (take m line) refl) [
    | inl e ↦
        let same : file ++ take m line ≡ file = ap (λ x. file ++ x) e ∙ append-nil file in
        relocate (sym (ap close_torn_tail same ∙ closed-torn a)) a
    | inr some_left ↦
        let torn =
          close_torn_tail-torn file (take m line) some_left (all-take printable m line p)
          ∙ append_assoc file (take m line) newline in
        relocate (sym torn) (elim (last_cut m (length line) le) [
          | inl whole ↦
              relocate (ap (λ x. file ++ (x ++ newline)) (sym (take-whole line m (sym whole))))
                (Accepted-sealed a signed line r p s n h (skip a.kept)).0
          | inr part ↦
              Accepted-damaged a (take m line) (all-take printable m line p)
                (shorter m line r.short) (r.cut m part)
        ])
  ]
    where
      is_nil : (x : Bytes) {y : Bytes} → x ≡ y → (x ≡ []) ⊎ (x ≢ [])
      is_nil [] e = inl refl
      is_nil (z ∷ x) e = inr (λ q. cc)

      last_cut : (m n : ℕ) → m ≤ n → (m ≡ n) ⊎ (m < n)
      last_cut m n h = ground arith

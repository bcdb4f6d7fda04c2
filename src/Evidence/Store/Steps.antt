-- ===== src/Evidence/Store/Steps.antt =====
-- The walk over a log that got one line more.
use probavi.Base.{
  ℕ, suc, ◌+◌, ◌≡◌, refl, sym, ap, ◌∙◌, inl, inr, true, false, none, some, List, [], ◌∷◌, ◌++◌,
  arith, leb, Bool-cases, beq_refl, ==_iff, length, Bytes,
}
use probavi.Base.Int.{pos}
use probavi.Evidence.Codes.{supported_schema}
use probavi.Evidence.Result.{ok}
use probavi.Evidence.Json.{object, Fields}
use probavi.Evidence.Canonical.{canonicalize}
use probavi.Evidence.Record.{Record}
use probavi.Evidence.Codec.{Codec}
use probavi.Evidence.Walk.{
  WalkState, parsed, go, step, step_on, accept, advance, meet_anchor, miss_anchor, finish,
  walk_lines, walk, lines, initial, max_record_bytes, parse_canonical, parse_decoded, parse_form,
  parse_object, parse_struct,
}
use probavi.Evidence.Walk.Chain.{records_onto}
use probavi.Evidence.Walk.Step.{step-go}
use probavi.Evidence.Walk.Stops.{
  Flow-cases, step_stops, walk_lines_long, walk_lines_stop, walk_lines_go,
}

module _ (c : Codec) where
  -- The walk at the end of its lines, without an anchor.
  walk_lines-nil : (w : WalkState) (n : ℕ) → w.anchor ≡ none → walk_lines c w n [] [] ≡ w
  unfolding walk_lines finish miss_anchor
  walk_lines-nil w n h = rw h refl

  -- The last of the lines is walked last.
  pub walk_lines-snoc :
      (ls : List Bytes) (w : WalkState) (n : ℕ) (l : Bytes)
      → w.anchor ≡ none
      → (walk_lines c w n ls []).failed ≡ false
      → walk_lines c w n (ls ++ l ∷ []) []
        ≡ walk_lines c (walk_lines c w n ls []) (n + length ls) (l ∷ []) []
  walk_lines-snoc [] w n l a h =
      ap (λ (m : ℕ). walk_lines c w m (l ∷ []) []) (omega arith)
      ∙ ap (λ v. walk_lines c v (n + 0) (l ∷ []) []) (sym (walk_lines-nil w n a))
  walk_lines-snoc (x ∷ xs) w n l a h = elim (Bool-cases (leb max_record_bytes (length x))) [
    | inl e ↦ absurd (cc (h, walk_lines_long c w n x xs [] e))
    | inr e ↦ elim (Flow-cases c (step c w x n)) [
      | inr (w', s) ↦ absurd (cc (h, step_stops c w x n s, walk_lines_stop c w w' n x xs [] e s))
      | inl (w', s) ↦
          let keeps = (step-go c w x n s).0 in
          let head = walk_lines_go c w w' n x (xs ++ l ∷ []) [] e s in
          let same = walk_lines_go c w w' n x xs [] e s in
          head
          ∙ walk_lines-snoc xs w' (n + 1) l (keeps.anchor ∙ a) (sym (ap (λ v. v.failed) same) ∙ h)
          ∙ ap (λ (m : ℕ). walk_lines c (walk_lines c w' (n + 1) xs []) m (l ∷ []) []) (omega arith)
          ∙ ap (λ v. walk_lines c v (n + suc (length xs)) (l ∷ []) []) (sym same)
    ]
  ]

  -- One line that the walk accepts or skips.
  pub walk_lines-one :
      (w w' : WalkState) (n : ℕ) (l : Bytes)
      → w.anchor ≡ none
      → leb max_record_bytes (length l) ≡ false
      → step c w l n ≡ go w'
      → walk_lines c w n (l ∷ []) [] ≡ w'
  walk_lines-one w w' n l a e s =
      walk_lines_go c w w' n l [] [] e s
      ∙ walk_lines-nil w' (n + 1) ((step-go c w l n s).0.anchor ∙ a)

  pub step-damaged :
      (w : WalkState) (l : Bytes) (n : ℕ)
      → c.decode_strict l ≡ none
      → step c w l n ≡ go (record w { damaged = w.damaged ++ n ∷ [] })
  unfolding step step_on parse_canonical parse_decoded
  step-damaged w l n h = rw h refl

  -- A line that the decoders read back as a record with the seq and the hash that come next.
  pub record Fits (w : WalkState) (l : Bytes) : Type 0 where
    pub fs : Fields
    pub rec : Record
    pub parsed : c.decode_strict l ≡ some (object fs)
    pub canonical : canonicalize (object fs) ≡ ok l
    pub decoded : c.unmarshal l ≡ some rec
    pub schema : supported_schema rec.schema ≡ true
    pub seq_is : rec.seq ≡ pos w.next_seq
    pub prev_is : rec.prev_hash ≡ w.prev_hash

  Fits-parsed : (w : WalkState) (l : Bytes) (f : Fits w l) → parse_canonical c l ≡ parsed f.rec f.fs
  unfolding parse_canonical parse_decoded parse_form parse_object parse_struct
  Fits-parsed w l f =
      rw (f.parsed) (rw (f.canonical) (rw (beq_refl l) (rw (f.decoded) (rw (f.schema) refl))))

  pub step-Fits :
      (w : WalkState) (l : Bytes) (n : ℕ)
      → w.keyring ≡ none
      → w.anchor ≡ none
      → Fits w l
      → step c w l n ≡ go (advance c l w)
  unfolding step step_on accept meet_anchor
  step-Fits w l n k a f = rw (Fits-parsed w l f) (
      rw f.seq_is (
        rw f.prev_is (
          rw (beq_refl w.prev_hash)
            (rw ((==_iff w.next_seq w.next_seq).1 refl) (rw k (rw a refl))))))

  pub walk-lines :
      (content : Bytes)
      → (lines content).1 ≡ []
      → walk c none none content ≡ walk_lines c (initial none none) 1 (lines content).0 []
  unfolding walk meet_anchor
  walk-lines content h = ap (λ t. walk_lines c (initial none none) 1 (lines content).0 t) h

  pub records_onto-snoc-none :
      (ls older : List Bytes) (l : Bytes)
      → c.decode_strict l ≡ none
      → records_onto c older (ls ++ l ∷ []) ≡ records_onto c older ls
  unfolding records_onto
  records_onto-snoc-none [] older l h = rw h refl
  records_onto-snoc-none (x ∷ ls) older l h = records_onto-snoc-none ls _ l h

  pub records_onto-snoc :
      (ls older : List Bytes) (l : Bytes) {fs : Fields}
      → c.decode_strict l ≡ some (object fs)
      → records_onto c older (ls ++ l ∷ []) ≡ l ∷ records_onto c older ls
  unfolding records_onto
  records_onto-snoc [] older l h = rw h refl
  records_onto-snoc (x ∷ ls) older l h = records_onto-snoc ls _ l h

-- ===== src/Evidence/Walk/Sound.antt =====
-- A log that is not reported invalid is a chain of signed records.
use probavi.Base.{
  ℕ, ◌+◌, ◌≡◌, refl, sym, ◌∙◌, inl, inr, true, false, Option, none, some, List, [], ◌∷◌, ◌++◌,
  arith, leb, ltb, Bool-cases, length, is_empty, Bytes,
}
use probavi.Evidence.Codec.{Codec}
use probavi.Evidence.Walk.{
  Head, Keyring, WalkState, meet_anchor, step, miss_anchor, finish, walk_lines, walk, lines,
  initial, max_record_bytes,
}
use probavi.Evidence.Walk.Chain.{Chain, genesis, records_onto}
use probavi.Evidence.Walk.Step.{Met, meet_anchor-go, step-go}
use probavi.Evidence.Walk.Invariant.{Inv, Chain-at, Passed-here, step-Inv}
use probavi.Evidence.Walk.Stops.{
  Flow-cases, meet_anchor_stops, step_stops, walk_lines_long, walk_lines_stop, walk_lines_go,
}

module _ (c : Codec) where
  miss_anchor-going :
      (a : Option Head) (w : WalkState)
      → (miss_anchor a w).failed ≡ false
      → (w.failed ≡ false)
        × (miss_anchor a w ≡ w)
        × ((b : Head) → a ≡ some b → w.anchor_seen ≡ true)
  unfolding miss_anchor
  miss_anchor-going none w h = (h, refl, λ b e. cc)
  miss_anchor-going (some a) w h = (ground arith, ground arith, λ b e. ground arith)

  -- A walk from a state with the invariant, if it does not fail.
  pub record Walked (k : Option Keyring) (anchor : Option Head) (rs : List Bytes) (w : WalkState)
      : Type 0 where
    pub inv : Inv c k anchor w rs
    pub seen : (a : Head) → anchor ≡ some a → w.anchor_seen ≡ true

  miss_anchor-Walked :
      {k : Option Keyring} {anchor : Option Head} (w : WalkState) (rs : List Bytes)
      → Inv c k anchor w rs
      → (miss_anchor w.anchor w).failed ≡ false
      → Walked k anchor rs (miss_anchor w.anchor w)
  miss_anchor-Walked w rs i h =
      let (f, same, seen) = miss_anchor-going w.anchor w h in
      rw same (record { inv = i; seen = λ a p. seen a (i.anchored ∙ p) })

  finish-Walked :
      {k : Option Keyring} {anchor : Option Head} (w : WalkState) (rs : List Bytes) (n : ℕ)
      (tail : Bytes)
      → Inv c k anchor w rs
      → (finish w n tail).failed ≡ false
      → Walked k anchor rs (finish w n tail)
  unfolding finish
  finish-Walked w rs n tail i h = elim (Bool-cases (ltb max_record_bytes (length tail))) [
    | inl e ↦ absurd (cc (rw e at h))
    | inr e ↦ rw e (elim (Bool-cases (is_empty tail)) [
      | inl z ↦ rw z (miss_anchor-Walked w rs i (rw z at (rw e at h)))
      | inr z ↦ rw z (
          miss_anchor-Walked (record w { damaged = w.damaged ++ n ∷ [] }) rs
            (record {
              going = i.going;
              keyring = i.keyring;
              anchored = i.anchored;
              chain = i.chain;
              count = i.count;
              passed = i.passed;
            })
            (rw z at (rw e at h)))
    ])
  ]

  walk_lines-Walked :
      {k : Option Keyring} {anchor : Option Head} (ls : List Bytes) (w : WalkState)
      (rs : List Bytes) (n : ℕ) (tail : Bytes)
      → Inv c k anchor w rs
      → (walk_lines c w n ls tail).failed ≡ false
      → Walked k anchor (records_onto c rs ls) (walk_lines c w n ls tail)
  walk_lines-Walked [] w rs n tail i h =
      unfold records_onto walk_lines in finish-Walked w rs n tail i h
  walk_lines-Walked (l ∷ ls) w rs n tail i h = elim (Bool-cases (leb max_record_bytes (length l))) [
    | inl e ↦ absurd (cc (h, walk_lines_long c w n l ls tail e))
    | inr e ↦ elim (Flow-cases c (step c w l n)) [
      | inr (w', s) ↦ absurd (cc (h, step_stops c w l n s, walk_lines_stop c w w' n l ls tail e s))
      | inl (w', s) ↦
          let (rs', i', q) = step-Inv c w w' rs l ls i (step-go c w l n s) in
          let rest = walk_lines_go c w w' n l ls tail e s in
          rw (q, rest) (walk_lines-Walked ls w' rs' (n + 1) tail i' (rw rest at h))
    ]
  ]

  start-Inv :
      (k : Option Keyring) (anchor : Option Head) (w : WalkState)
      → Met c anchor (initial k anchor) w
      → Inv c k anchor w []
  start-Inv k anchor w m =
      let empty : Chain c k [] w.next_seq w.prev_hash =
        Chain-at c (sym m.next_seq) (sym m.prev_hash) genesis in
      record {
        going = m.keeps.failed;
        keyring = m.keeps.keyring;
        anchored = m.keeps.anchor;
        chain = empty;
        count = m.records;
        passed = λ a p s. elim m.meets [
          | inl same ↦ absurd (cc (same, s))
          | inr (b, q, n, h) ↦ let same : b ≡ a = cc (q, p) in rw same at (Passed-here c empty n h)
        ];
      }

  -- A whole walk that does not fail.
  pub walk-Walked :
      (k : Option Keyring) (anchor : Option Head) (content : Bytes)
      → (walk c k anchor content).failed ≡ false
      → Walked k anchor (records_onto c [] (lines content).0) (walk c k anchor content)
  unfolding walk records_onto meet_anchor
  walk-Walked k anchor content h = elim (Flow-cases c (meet_anchor anchor (initial k anchor) 0)) [
    | inr (w, s) ↦ absurd (cc (rw s at h, meet_anchor_stops c anchor (initial k anchor) 0 s))
    | inl (w, s) ↦ rw s (
        walk_lines-Walked (lines content).0 w [] 1 (lines content).1
          (start-Inv k anchor w (meet_anchor-go c anchor (initial k anchor) 0 s)) (rw s at h))
  ]

-- ===== src/Evidence/Walk/Stops.antt =====
-- Where the walk stops, the log is invalid; what one line does to the rest of a walk.
use probavi.Base.{
  ℕ, ◌+◌, ◌≡◌, refl, ◌⊎◌, inl, inr, true, false, Option, none, some, List, ◌∷◌, arith, leb, length,
  Bytes,
}
use probavi.Evidence.Codec.{Codec}
use probavi.Evidence.Walk.{
  Head, WalkState, Flow, go, stop, meet_anchor, step, step_on, accept, advance, SigFault, Parsed,
  damage, refused, parsed, check_signature, parse_canonical, walk_lines, max_record_bytes,
}

module _ (c : Codec) where
  pub Flow-cases : (f : Flow) → ((w : WalkState) × (f ≡ go w)) ⊎ ((w : WalkState) × (f ≡ stop w))
  Flow-cases (go w) = inl (w, refl)
  Flow-cases (stop w) = inr (w, refl)

  pub meet_anchor_stops :
      (a : Option Head) (w : WalkState) (n : ℕ) {w' : WalkState}
      → meet_anchor a w n ≡ stop w'
      → w'.failed ≡ true
  unfolding meet_anchor
  meet_anchor_stops none w n h = cc
  meet_anchor_stops (some a) w n h = ground arith

  accept_stops :
      (w : WalkState) (line : Bytes) (n : ℕ) (fault : Option SigFault) {w' : WalkState}
      → accept c w line n fault ≡ stop w'
      → w'.failed ≡ true
  unfolding accept
  accept_stops w line n (some fault) h = ground arith
  accept_stops w line n none h = meet_anchor_stops w.anchor (advance c line w) n h

  step_on_stops :
      (w : WalkState) (line : Bytes) (n : ℕ) (p : Parsed) {w' : WalkState}
      → step_on c w line n p ≡ stop w'
      → w'.failed ≡ true
  unfolding step_on
  step_on_stops w line n damage h = cc
  step_on_stops w line n (refused why) h = ground arith
  step_on_stops w line n (parsed rec fs) {w'} h =
      ground (arith, accept_stops w line n (check_signature c w.keyring rec fs) {w' = w'})

  pub step_stops :
      (w : WalkState) (line : Bytes) (n : ℕ) {w' : WalkState}
      → step c w line n ≡ stop w'
      → w'.failed ≡ true
  unfolding step
  step_stops w line n h = step_on_stops w line n (parse_canonical c line) h

  pub walk_lines_long :
      (w : WalkState) (n : ℕ) (l : Bytes) (ls : List Bytes) (tail : Bytes)
      → leb max_record_bytes (length l) ≡ true
      → (walk_lines c w n (l ∷ ls) tail).failed ≡ true
  unfolding walk_lines
  walk_lines_long w n l ls tail e = rw e

  pub walk_lines_stop :
      (w w' : WalkState) (n : ℕ) (l : Bytes) (ls : List Bytes) (tail : Bytes)
      → leb max_record_bytes (length l) ≡ false
      → step c w l n ≡ stop w'
      → walk_lines c w n (l ∷ ls) tail ≡ w'
  unfolding walk_lines
  walk_lines_stop w w' n l ls tail e s = rw e (rw s)

  pub walk_lines_go :
      (w w' : WalkState) (n : ℕ) (l : Bytes) (ls : List Bytes) (tail : Bytes)
      → leb max_record_bytes (length l) ≡ false
      → step c w l n ≡ go w'
      → walk_lines c w n (l ∷ ls) tail ≡ walk_lines c w' (n + 1) ls tail
  unfolding walk_lines
  walk_lines_go w w' n l ls tail e s = rw e (rw s)

-- ===== src/Evidence/Walk/Step.antt =====
-- One line of the walk, taken apart: what the checks that it passed say.
use probavi.Base.{
  ℕ, suc, ◌-◌, ◌||◌, ◌≡◌, refl, ◌⊎◌, inl, inr, Bool, true, not, Option, none, some, arith,
  Bool-cases, beq_iff, Bytes, ◌==◌,
}
use probavi.Base.Int.{ℤ, pos, negsuc}
use probavi.Evidence.Codec.{Codec, line_hash}
use probavi.Evidence.Walk.{
  Head, SigFault, WalkState, go, Parsed, damage, refused, parsed, parse_canonical, check_signature,
  same_seq, meet_anchor, advance, accept, step_on, step,
}
use probavi.Evidence.Walk.Chain.{IsEntry}
use probavi.Evidence.Walk.Reading.{parse_canonical-parsed, parse_canonical-damage}
use probavi.Evidence.Walk.Signing.{check_signature-none}

module _ (c : Codec) where
  -- The head that a walk carries behind a line which it accepted, and what it keeps.
  pub record Keeps (w w' : WalkState) : Type 0 where
    pub keyring : w'.keyring ≡ w.keyring
    pub anchor : w'.anchor ≡ w.anchor
    pub failed : w'.failed ≡ w.failed

  -- The anchor was seen before, or the walk carries its head just now.
  abbrev pub Meets : Option Head → Bool → WalkState → Type 0
  Meets anchor seen w' =
      (w'.anchor_seen ≡ seen)
      ⊎ ((a : Head) × (anchor ≡ some a) × (w'.next_seq - 1 ≡ a.seq) × (w'.prev_hash ≡ a.hash))

  pub data Stepped (w : WalkState) (line : Bytes) (w' : WalkState) : Type 0 where
    skipped :
        c.decode_strict line ≡ none
        → w'.next_seq ≡ w.next_seq
        → w'.prev_hash ≡ w.prev_hash
        → w'.records ≡ w.records
        → w'.anchor_seen ≡ w.anchor_seen
        → Stepped w line w'
    accepted :
        IsEntry c w.keyring line w.next_seq w.prev_hash
        → w'.next_seq ≡ suc w.next_seq
        → w'.prev_hash ≡ line_hash c line
        → w'.records ≡ suc w.records
        → Meets w.anchor w.anchor_seen w'
        → Stepped w line w'

  pub record Met (a : Option Head) (w w' : WalkState) : Type 0 where
    pub keeps : Keeps w w'
    pub next_seq : w'.next_seq ≡ w.next_seq
    pub prev_hash : w'.prev_hash ≡ w.prev_hash
    pub records : w'.records ≡ w.records
    pub damaged : w'.damaged ≡ w.damaged
    pub meets : Meets a w.anchor_seen w'

  pub meet_anchor-go :
      (a : Option Head) (w : WalkState) (line_no : ℕ) {w' : WalkState}
      → meet_anchor a w line_no ≡ go w'
      → Met a w w'
  unfolding meet_anchor
  meet_anchor-go none w n h = record {
    keeps = ground arith;
    next_seq = ground arith;
    prev_hash = ground arith;
    records = ground arith;
    damaged = ground arith;
    meets = inl (ground arith);
  }
  meet_anchor-go (some a) w n {w'} h = record {
    keeps = ground arith;
    next_seq = ground arith;
    prev_hash = ground arith;
    records = ground arith;
    damaged = ground arith;
    meets = elim (Bool-cases (w.anchor_seen || not (w.next_seq - 1 == a.seq))) [
      | inl e ↦ inl (ground arith)
      | inr e ↦ inr (a, refl, ground arith, ground (arith, beq_iff w.prev_hash a.hash))
    ];
  }

  same_seq-eq : (s : ℤ) (n : ℕ) → same_seq s n ≡ true → s ≡ pos n
  same_seq-eq (pos a) n h = ground arith
  same_seq-eq (negsuc a) n h = cc

  accept-go :
      (w : WalkState) (line : Bytes) (n : ℕ) (fault : Option SigFault) {w' : WalkState}
      → accept c w line n fault ≡ go w'
      → (fault ≡ none) × (meet_anchor w.anchor (advance c line w) n ≡ go w')
  unfolding accept
  accept-go w line n none h = (refl, h)
  accept-go w line n (some fault) h = cc

  step_on-go :
      (w : WalkState) (line : Bytes) (n : ℕ) (p : Parsed) {w' : WalkState}
      → parse_canonical c line ≡ p
      → step_on c w line n p ≡ go w'
      → Keeps w w' × Stepped w line w'
  unfolding step_on
  step_on-go w line n damage e h = (
    ground arith,
    skipped (parse_canonical-damage c line e) (ground arith) (ground arith) (ground arith)
        (ground arith),
  )
  step_on-go w line n (refused why) e h = cc
  step_on-go w line n (parsed rec fs) {w'} e h =
      let seq_ok : same_seq rec.seq w.next_seq ≡ true = ground arith in
      let prev_ok : rec.prev_hash ≡ w.prev_hash =
        ground (arith, beq_iff rec.prev_hash w.prev_hash) in
      let checked : accept c w line n (check_signature c w.keyring rec fs) ≡ go w' = ground arith in
      let (signed, met) = accept-go w line n (check_signature c w.keyring rec fs) checked in
      let m = meet_anchor-go w.anchor (advance c line w) n met in
      let line_ok = parse_canonical-parsed c line e in
      (
        record { keyring = m.keeps.keyring; anchor = m.keeps.anchor; failed = m.keeps.failed },
        accepted
            (record {
              fs = fs;
              rec = rec;
              parsed = line_ok.read;
              canonical = line_ok.canonical;
              decoded = line_ok.decoded;
              schema = line_ok.schema;
              seq_is = same_seq-eq rec.seq w.next_seq seq_ok;
              prev_is = prev_ok;
              signed = check_signature-none c w.keyring rec fs signed;
            })
            (omega (arith, m.next_seq)) m.prev_hash (omega (arith, m.records)) m.meets,
      )

  pub step-go :
      (w : WalkState) (line : Bytes) (line_no : ℕ) {w' : WalkState}
      → step c w line line_no ≡ go w'
      → Keeps w w' × Stepped w line w'
  unfolding step
  step-go w line line_no h = step_on-go w line line_no (parse_canonical c line) refl h

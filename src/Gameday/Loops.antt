-- ===== src/Gameday/Loops.antt =====
-- The loops of the scheduler keep the rows well, each by what its body does to one row.
use probavi.Base.{
  not-false, ℕ, ◌≡◌, ◌≢◌, refl, sym, ap, subst, ◌∙◌, ◌⊎◌, inl, inr, Bool, true, false, true≢false,
  not, ◌||◌, Option, none, some, List, [], ◌∷◌, Mem, here, there, beq, beq_iff, ne_of_beq, is_empty,
  Bool-cases, or_left, or_right, and_left, and_right, is_empty-of_ne, Mem-cons, leb, put, put_same,
  put_other, Bytes, arith,
}
use probavi.Gameday.{
  Row, Outcomes, blame, blocked_by, skip, skip_if_blocked, skip_if_pending, passed, ready, launch,
  outcome_skipped, outcome_pass, cancelled_reason,
}
use probavi.Gameday.Rows.{
  RowOk, waiting, in_flight, ran, skipped, Excused, cancelled, blocked, Passed, Later, Step, stay,
}

-- A map with one more key that it did not have says what it said.
pub put-Later : (x : Bytes) (o : Bytes) (oc : Outcomes) → oc x ≡ none → Later oc (put x (some o) oc)
put-Later x o oc e y p h = elim (Bool-cases (beq x y)) [
  | inl t ↦
      let h' : oc x ≡ some p = rw ((beq_iff x y).0 t) h in
      let q : ◌≡◌ {A = Option Bytes} none (some p) = sym e ∙ h' in cc
  | inr f ↦ put_other x y (some o) oc (ne_of_beq x y f) ∙ h
]

-- A pending row is a waiting one.
pending-none : {oc : Outcomes} (r : Row) → r.pending ≡ true → RowOk oc r → oc r.member.name ≡ none
pending-none r h (waiting p f e d) = e
pending-none r h (in_flight p f e d k) = absurd (true≢false (sym h ∙ p))
pending-none r h (ran d p f e q w k) = absurd (true≢false (sym h ∙ p))
pending-none r h (skipped p f e d w k) = absurd (true≢false (sym h ∙ p))

pending-drill :
    {oc : Outcomes} (r : Row)
    → r.pending ≡ true
    → RowOk oc r
    → (r.flying ≡ false) × (r.result.drill ≡ none)
pending-drill r h (waiting p f e d) = (f, d)
pending-drill r h (in_flight p f e d k) = absurd (true≢false (sym h ∙ p))
pending-drill r h (ran d p f e q w k) = absurd (true≢false (sym h ∙ p))
pending-drill r h (skipped p f e d w k) = absurd (true≢false (sym h ∙ p))

-- A pending row is skipped for a reason.
skip-Step :
    (oc : Outcomes) (r : Row) (reason : Bytes)
    → r.pending ≡ true
    → RowOk oc r
    → Excused (put r.member.name (some outcome_skipped) oc) (skip reason r)
    → Step oc (put r.member.name (some outcome_skipped) oc) r (skip reason r)
skip-Step oc r reason p k x =
    let (f, d) = pending-drill r p k in
    record {
      same_member = refl;
      same_name = refl;
      later = put-Later r.member.name outcome_skipped oc (pending-none r p k);
      apart = λ y n. put_other r.member.name y (some outcome_skipped) oc n;
      kept = skipped refl f (put_same r.member.name (some outcome_skipped) oc) d refl x;
    }

blame-cases :
    (d : Bytes) (o : Option Bytes) (rest : Bytes × Bytes)
    → ((blame d o rest ≡ rest) × ((o ≡ none) ⊎ (o ≡ some outcome_pass)))
      ⊎ ((p : Bytes) × (blame d o rest ≡ (d, p)) × (o ≡ some p) × (p ≢ outcome_pass))
unfolding blame
blame-cases d none rest = inl (refl, inl refl)
blame-cases d (some o) rest = elim (Bool-cases (beq o outcome_pass)) [
  | inl t ↦ inl (rw t refl, inr (ap some ((beq_iff o outcome_pass).0 t)))
  | inr f ↦ inr (o, rw f refl, refl, ne_of_beq o outcome_pass f)
]

abbrev Blames : List Bytes → Outcomes → Bytes × Bytes → Type 0
Blames deps oc b = Mem b.0 deps × (oc b.0 ≡ some b.1) × (b.1 ≢ outcome_pass)

-- `blockedBy` names a dependency with an outcome that is not a pass.
pub blocked_by-Blames :
    (deps : List Bytes) (oc : Outcomes)
    → is_empty (blocked_by deps oc).0 ≡ false
    → Blames deps oc (blocked_by deps oc)
unfolding blocked_by
blocked_by-Blames [] oc h = cc
blocked_by-Blames (d ∷ ds) oc h = elim (blame-cases d (oc d) (blocked_by ds oc)) [
  | inl (e, _) ↦
      let (m, k, n) = blocked_by-Blames ds oc (subst (λ b. is_empty b.0 ≡ false) e h) in
      subst (Blames (d ∷ ds) oc) (sym e) (there m, k, n)
  | inr (p, e, k, n) ↦ subst (Blames (d ∷ ds) oc) (sym e) (here, k, n)
]

-- And names none only if each outcome so far is a pass.
pub blocked_by-none :
    (deps : List Bytes) (oc : Outcomes)
    → ((d : Bytes) → Mem d deps → d ≢ [])
    → is_empty (blocked_by deps oc).0 ≡ true
    → (d o : Bytes) → Mem d deps
    → oc d ≡ some o
    → o ≡ outcome_pass
unfolding blocked_by
blocked_by-none [] oc n h d o m e = elim m [ ]
blocked_by-none (x ∷ xs) oc n h d o m e = elim (blame-cases x (oc x) (blocked_by xs oc)) [
  | inl (b, k) ↦ elim (Mem-cons m) [
    | inl q ↦ pass_of (oc x) k (subst (λ y. oc y ≡ some o) q e)
    | inr l ↦
        blocked_by-none xs oc (λ y j. n y (there j)) (subst (λ z. is_empty z.0 ≡ true) b h) d o l e
  ]
  | inr (p, b, _, _) ↦
      absurd (true≢false (sym (subst (λ z. is_empty z.0 ≡ true) b h) ∙ is_empty-of_ne x (n x here)))
]
  where
    pass_of :
        (p : Option Bytes) → (p ≡ none) ⊎ (p ≡ some outcome_pass) → p ≡ some o → o ≡ outcome_pass
    pass_of p k e = ground arith

pub skip_if_blocked-Step :
    (s : Bool × Outcomes) (r : Row)
    → RowOk s.1 r
    → Step s.1 (skip_if_blocked s r).0.1 r (skip_if_blocked s r).1
unfolding skip_if_blocked
skip_if_blocked-Step (c, oc) r k =
    elim (Bool-cases (not r.pending || is_empty (blocked_by r.member.depends_on oc).0)) [
      | inl t ↦ rw t (stay oc r k)
      | inr f ↦
          let (m, e, n) = blocked_by-Blames r.member.depends_on oc (or_right (not r.pending) _ f) in
          let p =
            not-false r.pending (or_left _ (is_empty (blocked_by r.member.depends_on oc).0) f) in
          rw f (
            skip-Step oc r _ p k (
              blocked _ _ m (put-Later r.member.name outcome_skipped oc (pending-none r p k) _ _ e)
                n refl))
    ]

pub skip_if_pending-Step :
    (oc : Outcomes) (r : Row)
    → RowOk oc r
    → Step oc (skip_if_pending oc r).0 r (skip_if_pending oc r).1
unfolding skip_if_pending
skip_if_pending-Step oc r k = elim (Bool-cases r.pending) [
  | inl t ↦ simp t (skip-Step oc r cancelled_reason t k (cancelled refl))
  | inr f ↦ simp f (stay oc r k)
]

passed-pass : (o : Option Bytes) → passed o ≡ true → o ≡ some outcome_pass
passed-pass none h = cc
passed-pass (some o) h = ap some ((beq_iff o outcome_pass).0 h)

pub ready-Passed : (deps : List Bytes) (oc : Outcomes) → ready deps oc ≡ true → Passed deps oc
unfolding ready
ready-Passed [] oc h d m = elim m [ ]
ready-Passed (x ∷ xs) oc h d m = elim (Mem-cons m) [
  | inl q ↦ rw q (passed-pass (oc x) (and_left _ (ready xs oc) h))
  | inr l ↦ ready-Passed xs oc (and_right (passed (oc x)) _ h) d l
]

pub launch-Step :
    (slots : ℕ) (oc : Outcomes) (n : ℕ) (r : Row)
    → RowOk oc r
    → Step oc oc r (launch slots oc n r).1
unfolding launch
launch-Step slots oc n r k = elim (Bool-cases (leb slots n)) [
  | inl t ↦ rw t (stay oc r k)
  | inr f ↦ elim (Bool-cases (not r.pending || not (ready r.member.depends_on oc))) [
    | inl u ↦ rw (f, u) (stay oc r k)
    | inr g ↦
        let p = not-false r.pending (or_left _ (not (ready r.member.depends_on oc)) g) in
        rw (f, g)
          (record {
            same_member = refl;
            same_name = refl;
            later = λ x o e. e;
            apart = λ x d. refl;
            kept = in_flight refl refl (pending-none r p k) (pending-drill r p k).1 (
                ready-Passed r.member.depends_on oc
                  (not-false (ready r.member.depends_on oc) (or_right (not r.pending) _ g)));
          })
  ]
]

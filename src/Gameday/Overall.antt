-- ===== src/Gameday/Overall.antt =====
-- `overallOutcome`, by what the members' outcomes are.
use probavi.Base.{
  ◌≡◌, ◌≢◌, ◌↔◌, refl, sym, subst, ◌∙◌, inl, inr, true, false, true≢false, List, [], ◌∷◌, Mem, here,
  there, Mem-cons, All, All-Mem, Bool-cases, beq, beq_iff, ne_of_beq,
}
use probavi.Gameday.{
  MemberResult, tally, overall_outcome, outcome_pass, outcome_fail, outcome_error,
}

abbrev pub Passes : List MemberResult → Type 0
Passes ms = All (λ m. m.outcome ≡ outcome_pass) ms

abbrev pub Fails : List MemberResult → Type 0
Fails ms = (m : MemberResult) × Mem m ms × (m.outcome ≡ outcome_fail)

-- The tests of one member.
data Test (m : MemberResult) : Type 0 where
  passes : m.outcome ≡ outcome_pass → beq m.outcome outcome_pass ≡ true → Test m
  fails :
      m.outcome ≡ outcome_fail
      → beq m.outcome outcome_pass ≡ false
      → beq m.outcome outcome_fail ≡ true
      → Test m
  neither :
      m.outcome ≢ outcome_pass
      → m.outcome ≢ outcome_fail
      → beq m.outcome outcome_pass ≡ false
      → beq m.outcome outcome_fail ≡ false
      → Test m

test : (m : MemberResult) → Test m
test m = elim (Bool-cases (beq m.outcome outcome_pass)) [
  | inl t ↦ passes ((beq_iff m.outcome outcome_pass).0 t) t
  | inr f ↦ elim (Bool-cases (beq m.outcome outcome_fail)) [
    | inl t ↦ fails ((beq_iff m.outcome outcome_fail).0 t) f t
    | inr g ↦ neither (ne_of_beq m.outcome outcome_pass f) (ne_of_beq m.outcome outcome_fail g) f g
  ]
]

pass≢fail : outcome_pass ≢ outcome_fail
pass≢fail = ne_of_beq outcome_pass outcome_fail (unfold beq in refl)

pass≢error : outcome_pass ≢ outcome_error
pass≢error = ne_of_beq outcome_pass outcome_error (unfold beq in refl)

fail≢error : outcome_fail ≢ outcome_error
fail≢error = ne_of_beq outcome_fail outcome_error (unfold beq in refl)

tally-Passes_iff : (ms : List MemberResult) → ((tally ms).0 ≡ true) ↔ Passes ms
unfolding tally
tally-Passes_iff [] = ((λ e. tt), λ h. refl)
tally-Passes_iff (m ∷ ms) = elim (test m) [
  | passes e t ↦ rw t ((λ h. (e, (tally-Passes_iff ms).0 h)), λ h. (tally-Passes_iff ms).1 h.1)
  | fails e f t ↦ rw (f, t) ((λ h. cc), λ h. absurd (pass≢fail (sym h.0 ∙ e)))
  | neither n k f g ↦ rw (f, g) ((λ h. cc), λ h. absurd (n h.0))
]

tally-Fails_iff : (ms : List MemberResult) → ((tally ms).1 ≡ true) ↔ Fails ms
unfolding tally
tally-Fails_iff [] = ((λ e. cc), λ h. elim h.1 [ ])
tally-Fails_iff (m ∷ ms) = elim (test m) [
  | passes e t ↦ rw t (
    λ h. behind ((tally-Fails_iff ms).0 h),
    λ h. (tally-Fails_iff ms).1 (tail_of (λ q. pass≢fail (sym e ∙ q)) h),
  )
  | fails e f t ↦ rw (f, t) ((λ h. (m, here, e)), λ h. refl)
  | neither n k f g ↦
      rw (f, g) (λ h. behind ((tally-Fails_iff ms).0 h), λ h. (tally-Fails_iff ms).1 (tail_of k h))
]
  where
    behind : Fails ms → Fails (m ∷ ms)
    behind h = (h.0, there h.1, h.2)

    tail_of : m.outcome ≢ outcome_fail → Fails (m ∷ ms) → Fails ms
    tail_of n h = elim (Mem-cons h.1) [
      | inl e ↦ absurd (n (subst (λ x. x.outcome ≡ outcome_fail) e h.2))
      | inr k ↦ (h.0, k, h.2)
    ]

Fails-Passes : (ms : List MemberResult) → Fails ms → ¬ Passes ms
Fails-Passes ms h k = pass≢fail (sym (All-Mem (λ m. m.outcome ≡ outcome_pass) ms k h.1) ∙ h.2)

-- An exercise passes exactly if every member passed, fails exactly if some member failed, and is an
-- error exactly if neither is so.
pub overall_outcome_iff :
    (ms : List MemberResult)
    → ((overall_outcome ms ≡ outcome_pass) ↔ Passes ms)
      × ((overall_outcome ms ≡ outcome_fail) ↔ Fails ms)
      × ((overall_outcome ms ≡ outcome_error) ↔ ((¬ Passes ms) × (¬ Fails ms)))
unfolding overall_outcome
overall_outcome_iff ms = elim (Bool-cases (tally ms).0) [
  | inl t ↦
      let p = (tally-Passes_iff ms).0 t in
      rw t (
        ((λ e. p), λ h. refl),
        ((λ e. absurd (pass≢fail e)), λ h. absurd (Fails-Passes ms h p)),
        ((λ e. absurd (pass≢error e)), λ h. absurd (h.0 p)),
      )
  | inr f ↦
      let np = λ (p : Passes ms). true≢false (sym ((tally-Passes_iff ms).1 p) ∙ f) in
      elim (Bool-cases (tally ms).1) [
        | inl t ↦
            let q = (tally-Fails_iff ms).0 t in
            rw (f, t)
              (
                ((λ e. absurd (pass≢fail (sym e))), λ h. absurd (np h)),
                ((λ e. q), λ h. refl),
                ((λ e. absurd (fail≢error e)), λ h. absurd (h.1 q)),
              )
        | inr g ↦
            let nq = λ (q : Fails ms). true≢false (sym ((tally-Fails_iff ms).1 q) ∙ g) in
            rw (f, g)
              (
                ((λ e. absurd (pass≢error (sym e))), λ h. absurd (np h)),
                ((λ e. absurd (fail≢error (sym e))), λ h. absurd (nq h)),
                ((λ e. (np, nq)), λ h. refl),
              )
      ]
]

-- ===== src/Gameday/Rounds.antt =====
-- One turn of the scheduler: what it keeps, how many drills it starts, and what a turn that leaves
-- nothing in flight has settled.
use probavi.Base.{
  not-false, ℕ, suc, ◌+◌, ◌≤◌, ◌≡◌, refl, sym, subst, ◌∙◌, ◌⊎◌, inl, inr, Bool, true, false,
  true≢false, not, ◌||◌, List, [], ◌∷◌, All, leb, Bool-cases, or_left, if◌then◌else◌, arith,
}
use probavi.Gameday.{
  Row, Outcomes, sweep, skip_if_blocked, skip_blocked, skip_if_pending, ready, launch,
}
use probavi.Gameday.Settle.{skip_blocked-keeps}

abbrev pub one_if : Bool → ℕ
one_if b = if b then 1 else 0

-- The drills in flight, and the members without an outcome.
unfoldable pub airborne : List Row → ℕ
airborne [] = 0
airborne (r ∷ rs) = one_if r.flying + airborne rs

unfoldable pub unfinished : List Row → ℕ
unfinished [] = 0
unfinished (r ∷ rs) = one_if (r.pending || r.flying) + unfinished rs

-- A body that leaves a row's flight alone, and reopens none.
pub record Calm {S : Type 0} (body : S → Row → S × Row) : Type 0 where
  pub flight : (s : S) (r : Row) → (body s r).1.flying ≡ r.flying
  pub closing :
      (s : S) (r : Row)
      → one_if ((body s r).1.pending || (body s r).1.flying) ≤ one_if (r.pending || r.flying)

pub sweep-Calm :
    {S : Type 0} (body : S → Row → S × Row)
    → Calm body
    → (s : S) (rs : List Row)
    → (airborne (sweep body s rs).1 ≡ airborne rs)
      × (unfinished (sweep body s rs).1 ≤ unfinished rs)
unfolding sweep airborne unfinished
sweep-Calm body c s [] = (refl, omega arith)
sweep-Calm body c s (r ∷ rs) =
    let (a, u) = sweep-Calm body c (body s r).0 rs in
    (rw (c.flight s r, a) refl, omega (arith, u, c.closing s r))

skip_if_blocked-Calm : Calm skip_if_blocked
unfolding skip_if_blocked
skip_if_blocked-Calm = record { flight = λ s r. ground arith; closing = λ s r. ground arith }

pub skip_if_pending-Calm : Calm skip_if_pending
unfolding skip_if_pending
skip_if_pending-Calm = record { flight = λ s r. ground arith; closing = λ s r. ground arith }

pub skip_blocked-calm :
    (fuel : ℕ) (oc : Outcomes) (rs : List Row)
    → (airborne (skip_blocked fuel oc rs).1 ≡ airborne rs)
      × (unfinished (skip_blocked fuel oc rs).1 ≤ unfinished rs)
skip_blocked-calm fuel oc rs =
    skip_blocked-keeps (λ mid us. (airborne us ≡ airborne rs) × (unfinished us ≤ unfinished rs))
      (λ mid us h.
        let (a, u) = sweep-Calm skip_if_blocked skip_if_blocked-Calm (false, mid) us in
        (a ∙ h.0, omega (arith, u, h.1)))
      fuel oc rs (refl, omega arith)

abbrev pub Unready : Outcomes → Row → Type 0
Unready oc r = (not r.pending || not (ready r.member.depends_on oc)) ≡ true

abbrev start : Row → Row
start r = record r { pending = false; flying = true }

launch-cases :
    (slots : ℕ) (oc : Outcomes) (n : ℕ) (r : Row)
    → ((launch slots oc n r ≡ (n, r)) × ((leb slots n ≡ true) ⊎ Unready oc r))
      ⊎ ((launch slots oc n r ≡ (suc n, start r)) × (leb slots n ≡ false) × (r.pending ≡ true))
unfolding launch
launch-cases slots oc n r = elim (Bool-cases (leb slots n)) [
  | inl t ↦ inl (simp t refl, inl t)
  | inr f ↦ elim (Bool-cases (not r.pending || not (ready r.member.depends_on oc))) [
    | inl u ↦ inl (simp (f, u) refl, inr u)
    | inr g ↦ inr (
      simp (f, g) refl,
      f,
      not-false r.pending (or_left _ (not (ready r.member.depends_on oc)) g),
    )
  ]
]

-- `launchReady` starts no more than its slots, and says how many.
pub launch-counts :
    (slots : ℕ) (oc : Outcomes) (n : ℕ) (rs : List Row)
    → All (λ r. r.pending ≡ true → r.flying ≡ false) rs
    → n ≤ slots
    → let (n', rs') = sweep (launch slots oc) n rs in
      (airborne rs' + n ≡ airborne rs + n') × (n' ≤ slots) × (unfinished rs' ≤ unfinished rs)
unfolding sweep airborne unfinished
launch-counts slots oc n [] k h = (refl, h, omega arith)
launch-counts slots oc n (r ∷ rs) k h = elim (launch-cases slots oc n r) [
  | inl (e, _) ↦
      let (a, b, c) = launch-counts slots oc n rs k.1 h in
      rw e (omega (arith, a), b, omega (arith, c))
  | inr (e, f, p) ↦
      let (a, b, c) = launch-counts slots oc (suc n) rs k.1 (ground arith) in
      rw e (omega (arith, a, flies (k.0 p)), b, omega (arith, c, counts r.flying p))
]
  where
    flies : {b : Bool} → b ≡ false → one_if b ≡ 0
    flies e = rw e refl

    counts : {b : Bool} (c : Bool) → b ≡ true → one_if (b || c) ≡ 1
    counts c e = rw e refl

-- If none was started and there were slots, no member that is pending was ready.
pub launch-idle :
    (slots : ℕ) (oc : Outcomes) (n : ℕ) (rs : List Row)
    → leb slots n ≡ false
    → (sweep (launch slots oc) n rs).0 ≡ n
    → (sweep (launch slots oc) n rs ≡ (n, rs)) × All (Unready oc) rs
unfolding sweep
launch-idle slots oc n [] f h = (refl, tt)
launch-idle slots oc n (r ∷ rs) f h = elim (launch-cases slots oc n r) [
  | inl (e, why) ↦
      let (same, rest) =
        launch-idle slots oc n rs f (subst (λ b. (sweep (launch slots oc) b.0 rs).0 ≡ n) e h) in
      (rw (e, same) refl, (elim why [ inl t ↦ absurd (true≢false (sym t ∙ f)) | inr u ↦ u ], rest))
  | inr (e, _, p) ↦
      absurd
        (omega (arith, more (suc n) rs, subst (λ b. (sweep (launch slots oc) b.0 rs).0 ≡ n) e h))
]
  where
    more : (m : ℕ) (us : List Row) → m ≤ (sweep (launch slots oc) m us).0
    more m [] = omega arith
    more m (u ∷ us) = elim (launch-cases slots oc m u) [
      | inl (e, _) ↦ rw e (more m us)
      | inr (e, _, _) ↦ rw e (omega (arith, more (suc m) us))
    ]

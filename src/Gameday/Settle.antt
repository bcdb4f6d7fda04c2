-- ===== src/Gameday/Settle.antt =====
-- The passes of `skipBlockedMembers`: they come to an end, and behind the last one no member that
-- is pending waits for a dependency that did not pass.
use probavi.Base.{
  ℕ, zero, suc, ◌+◌, ◌≤◌, ◌<◌, ◌≡◌, refl, sym, ap, subst, ◌∙◌, inl, inr, Bool, true, false,
  true≢false, not, ◌||◌, List, [], ◌∷◌, Distinct, All, is_empty, Bool-cases, if◌then◌else◌, length,
  arith,
}
use probavi.Config.Gameday.Order.{names}
use probavi.Gameday.{Row, Outcomes, sweep, blocked_by, skip_if_blocked, skip_blocked}
use probavi.Gameday.Rows.{RowOk, Swept, Swept-trans, Swept-refl, sweep-Swept, members_of, Named}
use probavi.Gameday.Loops.{skip_if_blocked-Step}

abbrev one_if : Bool → ℕ
one_if b = if b then 1 else 0

pub pendings : List Row → ℕ
pendings [] = 0
pendings (r ∷ rs) = one_if r.pending + pendings rs

pub pendings-length : (rs : List Row) → pendings rs ≤ length rs
unfolding pendings
pendings-length [] = omega arith
pendings-length (r ∷ rs) = ground (arith, pendings-length rs)

abbrev pub Unblocked : Outcomes → Row → Type 0
Unblocked oc r = (not r.pending || is_empty (blocked_by r.member.depends_on oc).0) ≡ true

body-fewer :
    (c : Bool) (oc : Outcomes) (r : Row)
    → one_if (skip_if_blocked (c, oc) r).1.pending + one_if (skip_if_blocked (c, oc) r).0.0
      ≤ one_if r.pending + one_if c
unfolding skip_if_blocked
body-fewer c oc r = ground arith

sweep-fewer :
    (c : Bool) (oc : Outcomes) (rs : List Row)
    → let (s, rs') = sweep skip_if_blocked (c, oc) rs in
      pendings rs' + one_if s.0 ≤ pendings rs + one_if c
unfolding sweep pendings
sweep-fewer c oc [] = omega arith
sweep-fewer c oc (r ∷ rs) =
    let s = (skip_if_blocked (c, oc) r).0 in
    omega (arith, body-fewer c oc r, sweep-fewer s.0 s.1 rs)

body_same :
    (c : Bool) (oc : Outcomes) (r : Row) → Unblocked oc r → skip_if_blocked (c, oc) r ≡ ((c, oc), r)
unfolding skip_if_blocked
body_same c oc r t = simp t refl

body_other :
    (c : Bool) (oc : Outcomes) (r : Row)
    → (not r.pending || is_empty (blocked_by r.member.depends_on oc).0) ≡ false
    → (skip_if_blocked (c, oc) r).0.0 ≡ true
unfolding skip_if_blocked
body_other c oc r f = simp f refl

body_keeps : (oc : Outcomes) (r : Row) → (skip_if_blocked (true, oc) r).0.0 ≡ true
body_keeps oc r =
    elim (Bool-cases (not r.pending || is_empty (blocked_by r.member.depends_on oc).0)) [
      | inl t ↦ rw (body_same true oc r t) refl
      | inr f ↦ body_other true oc r f
    ]

-- A change is not forgotten.
sweep-loud :
    (s : Bool × Outcomes) (rs : List Row) → s.0 ≡ true → (sweep skip_if_blocked s rs).0.0 ≡ true
unfolding sweep
sweep-loud s [] h = h
sweep-loud (c, oc) (r ∷ rs) h =
    sweep-loud (skip_if_blocked (c, oc) r).0 rs
      (subst (λ b. (skip_if_blocked (b, oc) r).0.0 ≡ true) (sym h) (body_keeps oc r))

-- A pass that changes nothing met no blocked row.
sweep-quiet :
    (oc : Outcomes) (rs : List Row)
    → (sweep skip_if_blocked (false, oc) rs).0.0 ≡ false
    → (sweep skip_if_blocked (false, oc) rs ≡ ((false, oc), rs)) × All (Unblocked oc) rs
unfolding sweep
sweep-quiet oc [] h = (refl, tt)
sweep-quiet oc (r ∷ rs) h =
    elim (Bool-cases (not r.pending || is_empty (blocked_by r.member.depends_on oc).0)) [
      | inl t ↦
          let e = body_same false oc r t in
          let (same, rest) =
            sweep-quiet oc rs (subst (λ b. (sweep skip_if_blocked b.0 rs).0.0 ≡ false) e h) in
          (rw (e, same) refl, (t, rest))
      | inr f ↦ absurd (true≢false (sym (sweep-loud _ rs (body_other false oc r f)) ∙ h))
    ]

skip_blocked-done :
    (fuel : ℕ) (oc : Outcomes) (rs : List Row)
    → (sweep skip_if_blocked (false, oc) rs).0.0 ≡ false
    → skip_blocked (suc fuel) oc rs ≡ (oc, rs)
unfolding skip_blocked
skip_blocked-done fuel oc rs h =
    rw (skip_blocked, h) (ap (λ p. (p.0.1, p.1)) (sweep-quiet oc rs h).0)

skip_blocked-again :
    (fuel : ℕ) (oc : Outcomes) (rs : List Row)
    → (sweep skip_if_blocked (false, oc) rs).0.0 ≡ true
    → skip_blocked (suc fuel) oc rs
      ≡ skip_blocked fuel
          (sweep skip_if_blocked (false, oc) rs).0.1
          (sweep skip_if_blocked (false, oc) rs).1
unfolding skip_blocked
skip_blocked-again fuel oc rs h = rw (skip_blocked, h) refl

-- With more passes than members are pending, the last pass changes nothing.
pub skip_blocked-settles :
    (fuel : ℕ) (oc : Outcomes) (rs : List Row)
    → pendings rs < fuel
    → let (oc', rs') = skip_blocked fuel oc rs in All (Unblocked oc') rs'
skip_blocked-settles zero oc rs h = absurd (omega arith)
skip_blocked-settles (suc fuel) oc rs h =
    let s = sweep skip_if_blocked (false, oc) rs in
    elim (Bool-cases s.0.0) [
      | inl t ↦
          rw (skip_blocked-again fuel oc rs t) (
            skip_blocked-settles fuel s.0.1 s.1
              (omega (arith, h, drop t (sweep-fewer false oc rs))))
      | inr f ↦ rw (skip_blocked-done fuel oc rs f) (sweep-quiet oc rs f).1
    ]
  where
    drop : {b : Bool} {m n : ℕ} → b ≡ true → m + one_if b ≤ n + one_if false → suc m ≤ n
    drop e h = ground arith

-- What each pass keeps, all of them keep.
pub skip_blocked-keeps {κ} :
    (P : Outcomes → List Row → Type κ)
    → ((oc : Outcomes) (rs : List Row)
        → P oc rs
        → P (sweep skip_if_blocked (false, oc) rs).0.1 (sweep skip_if_blocked (false, oc) rs).1)
    → (fuel : ℕ) (oc : Outcomes) (rs : List Row) → P oc rs
    → P (skip_blocked fuel oc rs).0 (skip_blocked fuel oc rs).1
skip_blocked-keeps P step zero oc rs p = unfold skip_blocked in p
skip_blocked-keeps P step (suc fuel) oc rs p =
    let s = sweep skip_if_blocked (false, oc) rs in
    elim (Bool-cases s.0.0) [
      | inl t ↦
          rw (skip_blocked-again fuel oc rs t)
            (skip_blocked-keeps P step fuel s.0.1 s.1 (step oc rs p))
      | inr f ↦ rw (skip_blocked-done fuel oc rs f) p
    ]

pub skip_blocked-Swept :
    (fuel : ℕ) (oc : Outcomes) (rs : List Row)
    → Distinct (names (members_of rs))
    → All (RowOk oc) rs
    → All Named rs
    → Swept oc (skip_blocked fuel oc rs).0 rs (skip_blocked fuel oc rs).1
skip_blocked-Swept fuel oc rs d k n =
    skip_blocked-keeps (λ mid us. Swept oc mid rs us)
      (λ mid us v. Swept-trans oc mid _ rs us _ v (
        sweep-Swept (λ p. p.1) skip_if_blocked skip_if_blocked-Step (false, mid) us
          (rw v.same_members d) v.kept v.named))
      fuel oc rs (Swept-refl oc rs k n)

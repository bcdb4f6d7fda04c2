-- ===== src/Gameday/Laws.antt =====
-- The exercise as a whole, from its configuration to its summary.
use probavi.Base.Int.{ℤ, pos, negsuc}
use probavi.Base.{
  ltb, if◌then◌else◌, Bool-cases, ℕ, ◌≤◌, ◌<◌, ◌≡◌, refl, subst, ◌⊎◌, inl, inr, Bool, true, List,
  [], Mem, All-Mem, length, arith,
}
use probavi.Config.Gameday.{GameDay, parallelism, validate}
use probavi.Config.Gameday.Sound.{validate-IsSound_iff}
use probavi.Gameday.{Row, State, Arrival, Summary, Play, ended, waits, stray, run}
use probavi.Gameday.Rows.{RowOk, Passed}
use probavi.Gameday.Rounds.{airborne}
use probavi.Gameday.Invariant.{Inv, flying-cases}
use probavi.Gameday.Summaries.{Accounts}
use probavi.Gameday.Uncancelled.{Cancelled, NoneCalledOff, run-NoneCalledOff}
use probavi.Gameday.Plays.{run-Lands, Lands}

parallelism-bound :
    (g : GameDay) (k : ℕ)
    → k ≤ parallelism g
    → (k ≤ 1) ⊎ ((n : ℕ) × (g.max_parallel ≡ pos n) × (k ≤ n))
unfolding parallelism
parallelism-bound g k h = by g.max_parallel refl h
  where
    by :
        (z : ℤ)
        → g.max_parallel ≡ z
        → k ≤ elim z as (λ y. ℕ) [ pos n ↦ if ltb n 1 then 1 else n | negsuc n ↦ 1 ]
        → (k ≤ 1) ⊎ ((n : ℕ) × (g.max_parallel ≡ pos n) × (k ≤ n))
    by (negsuc n) e l = inl l
    by (pos n) e l = elim (Bool-cases (ltb n 1)) [
      | inl t ↦ inl (rw t at l)
      | inr t ↦ inr (n, e, rw t at l)
    ]

module _ (g : GameDay) (valid : validate g ≡ []) (elapsed : ℕ) (c : Bool)
    (arrivals : List Arrival) where
  at_end :
      Lands g
        ((validate-IsSound_iff g).0 valid)
        elapsed
        (run g elapsed c arrivals)
        (length arrivals)
  at_end = run-Lands g ((validate-IsSound_iff g).0 valid) elapsed c arrivals

  accounted :
      (x : Summary) → run g elapsed c arrivals ≡ ended x → Accounts x.members g.members x.members
  accounted x e =
      subst (λ p. Lands g ((validate-IsSound_iff g).0 valid) elapsed p (length arrivals)) e at_end

  -- A run of an exercise that `validate` let pass, if it ends, accounts for each member, in the order
  -- of the file: its drill was run and every dependency is reported with a pass, or it was called off,
  -- or a dependency is reported with another outcome, which is the reason given. None was called off
  -- unless the context was done before the loop or when some drill arrived.
  pub run-Accounts :
      (x : Summary)
      → run g elapsed c arrivals ≡ ended x
      → Accounts x.members g.members x.members × (Cancelled c arrivals ⊎ NoneCalledOff x.members)
  run-Accounts x e = (accounted x e, run-NoneCalledOff g elapsed c arrivals x e)

  at_wait :
      (t : State)
      → run g elapsed c arrivals ≡ waits t
      → Inv g t × (1 ≤ airborne t.rows) × (length arrivals < length g.members)
  at_wait t e =
      subst (λ p. Lands g ((validate-IsSound_iff g).0 valid) elapsed p (length arrivals)) e at_end

  -- With as many arrivals as members such a run has ended, unless one of them was of a drill that was
  -- not in flight.
  pub run-ends :
      length g.members ≤ length arrivals
      → (run g elapsed c arrivals ≡ stray) ⊎ ((x : Summary) × (run g elapsed c arrivals ≡ ended x))
  run-ends h = cases (run g elapsed c arrivals) refl
    where
      cases :
          (p : Play)
          → run g elapsed c arrivals ≡ p
          → (run g elapsed c arrivals ≡ stray)
            ⊎ ((x : Summary) × (run g elapsed c arrivals ≡ ended x))
      cases (ended x) e = inr (x, e)
      cases stray e = inl e
      cases (waits t) e = absurd (omega (arith, (at_wait t e).2))

  -- Whenever such a run waits, some drill is in flight, no more are than the parallelism, which is the
  -- configured one if that is positive and else 1, and every dependency of each has passed.
  pub run-parallelism :
      (t : State)
      → run g elapsed c arrivals ≡ waits t
      → (1 ≤ airborne t.rows)
        × (airborne t.rows ≤ parallelism g)
        × ((airborne t.rows ≤ 1) ⊎ ((n : ℕ) × (g.max_parallel ≡ pos n) × (airborne t.rows ≤ n)))
        × ((r : Row) → Mem r t.rows → r.flying ≡ true → Passed r.member.depends_on t.outcomes)
  run-parallelism t e =
      let (v, some_fly, _) = at_wait t e in
      (
        some_fly,
        omega (arith, v.counted, v.bounded),
        parallelism-bound g (airborne t.rows) (omega (arith, v.counted, v.bounded)),
        λ r m f. (flying-cases t.outcomes r (All-Mem (RowOk t.outcomes) t.rows v.kept m) f).2,
      )

-- ===== src/Gameday/Plays.antt =====
-- The loop of `Run` over its arrivals, and what holds at each of its ends.
use probavi.Base.{
  ℕ, suc, ◌+◌, ◌≤◌, ◌<◌, ◌≡◌, ◌≢◌, refl, sym, subst, ◌∙◌, ◌⊎◌, inl, inr, Bool, true, false,
  true≢false, List, [], ◌∷◌, length, ◌==◌, ==_iff, Bool-cases, arith,
}
use probavi.Config.Gameday.{GameDay, parallelism}
use probavi.Config.Gameday.Sound.{IsSound}
use probavi.Gameday.{
  Row, State, Arrival, Play, ended, waits, stray, play, run, round, receive, is_flying, initial,
  summary_of, results,
}
use probavi.Gameday.Rounds.{airborne, unfinished}
use probavi.Gameday.Invariant.{Inv, round-Inv, receive-Inv, initial-Inv}
use probavi.Gameday.Ends.{round-Idle, not_airborne}
use probavi.Gameday.Summaries.{Accounts, rows-Accounts}

airborne-unfinished : (rs : List Row) → airborne rs ≤ unfinished rs
unfolding airborne unfinished
airborne-unfinished [] = omega arith
airborne-unfinished (r ∷ rs) = ground (arith, airborne-unfinished rs)

positive : {n : ℕ} → n ≢ 0 → 1 ≤ n
positive h = omega (arith, h)

abbrev pub turn : GameDay → Bool → State → State
turn g c s = round (parallelism g) c s

-- The cases of the loop.
module _ (g : GameDay) (elapsed : ℕ) where
  pub play_nil :
      (c : Bool) (s : State)
      → (play g elapsed c s [] ≡ ended (summary_of g elapsed (turn g c s)))
          × ((turn g c s).running ≡ 0)
        ⊎ ((play g elapsed c s [] ≡ waits (turn g c s)) × ((turn g c s).running ≢ 0))
  unfolding play
  play_nil c s = elim (Bool-cases ((turn g c s).running == 0)) [
    | inl t ↦ inl (rw t refl, (==_iff (turn g c s).running 0).0 t)
    | inr f ↦ inr (rw f refl, λ e. true≢false (sym ((==_iff (turn g c s).running 0).1 e) ∙ f))
  ]

  pub play_cons :
      (c : Bool) (s : State) (a : Arrival) (rest : List Arrival)
      → ((play g elapsed c s (a ∷ rest) ≡ ended (summary_of g elapsed (turn g c s)))
          × ((turn g c s).running ≡ 0))
        ⊎ (((turn g c s).running ≢ 0)
            × (((is_flying (turn g c s).rows a.index ≡ false)
                  × (play g elapsed c s (a ∷ rest) ≡ stray))
                ⊎ ((is_flying (turn g c s).rows a.index ≡ true)
                    × (play g elapsed c s (a ∷ rest)
                        ≡ play g elapsed a.cancelled (receive a (turn g c s)) rest))))
  unfolding play
  play_cons c s a rest = elim (Bool-cases ((turn g c s).running == 0)) [
    | inl t ↦ inl (rw (play, t) refl, (==_iff (turn g c s).running 0).0 t)
    | inr f ↦ inr (
      λ e. true≢false (sym ((==_iff (turn g c s).running 0).1 e) ∙ f),
      elim (Bool-cases (is_flying (turn g c s).rows a.index)) [
        | inl l ↦ inr (l, rw (play, f, l) refl)
        | inr n ↦ inl (n, rw (play, f, n) refl)
      ],
    )
  ]

-- What holds of a run that came to each of its ends.
module _ (g : GameDay) (sound : IsSound g) (elapsed : ℕ) where
  abbrev pub Lands : Play → ℕ → Type 0
  Lands (ended x) n = Accounts x.members g.members x.members
  Lands (waits t) n = Inv g t × (1 ≤ airborne t.rows) × (n < length g.members)
  Lands stray n = Unit

  end-Accounts :
      (c : Bool) (s : State)
      → Inv g s
      → (turn g c s).running ≡ 0
      → Accounts
          (summary_of g elapsed (turn g c s)).members
          g.members
          (summary_of g elapsed (turn g c s)).members
  unfolding summary_of
  end-Accounts c s v h =
      let (w, _) = round-Inv g c s sound.unique v in
      let t = turn g c s in
      subst (λ ms. Accounts (results t.rows) ms (results t.rows)) w.members
        (rows-Accounts t.outcomes t.rows w.kept w.named (rw w.members sound.known) (λ r m.
          (round-Idle g c s sound v h r m, not_airborne t.rows (omega (arith, w.counted, h)) r m)))

  play-Lands :
      (c : Bool) (s : State) (arrivals : List Arrival) (n : ℕ)
      → Inv g s
      → n + unfinished s.rows ≤ length g.members
      → Lands (play g elapsed c s arrivals) (n + length arrivals)
  play-Lands c s [] n v h =
      let (w, less) = round-Inv g c s sound.unique v in
      elim (play_nil g elapsed c s) [
        | inl (e, z) ↦ rw e (end-Accounts c s v z)
        | inr (e, z) ↦
            let flying : 1 ≤ airborne (turn g c s).rows = omega (arith, w.counted, positive z) in
            rw e (w, flying, omega (arith, less, h, flying, airborne-unfinished (turn g c s).rows))
      ]
  play-Lands c s (a ∷ rest) n v h =
      let (w, less) = round-Inv g c s sound.unique v in
      elim (play_cons g elapsed c s a rest) [
        | inl (e, z) ↦ rw e (end-Accounts c s v z)
        | inr (_, inl (_, e)) ↦ rw e tt
        | inr (_, inr (l, e)) ↦
            let (x, fewer) = receive-Inv g a (turn g c s) sound.unique l (w) in
            rw e (
              subst (Lands (play g elapsed a.cancelled (receive a (turn g c s)) rest)) (omega arith)
                (play-Lands a.cancelled (receive a (turn g c s)) rest (suc n) x
                  (omega (arith, fewer, less, h))))
      ]

  pub run-Lands :
      (c : Bool) (arrivals : List Arrival) → Lands (run g elapsed c arrivals) (length arrivals)
  unfolding run
  run-Lands c arrivals =
      let (v, u) = initial-Inv g in
      subst (Lands (play g elapsed c (initial g) arrivals)) (omega arith)
        (play-Lands c (initial g) arrivals 0 v (omega (arith, u)))

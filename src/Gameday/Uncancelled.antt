-- ===== src/Gameday/Uncancelled.antt =====
-- An exercise whose context is never done calls no member off.
use probavi.Base.{
  ℕ, zero, suc, ◌-◌, ◌≡◌, ◌≢◌, refl, subst, ap, ◌⊎◌, inl, inr, Bool, true, false, not, ◌||◌, List,
  [], ◌∷◌, Mem, here, there, All, length, Bool-cases, Bytes, is_empty, leb, arith,
}
use probavi.Config.Gameday.{GameDay, parallelism}
use probavi.Config.Gameday.Cycle.{Member}
use probavi.Gameday.{
  Row, State, Outcomes, Arrival, MemberResult, Summary, Play, ended, waits, stray, play, run,
  summary_of, round, receive, sweep, skip_if_blocked, skip_blocked, launch, launch_ready, land_at,
  initial, initial_rows, results, cancelled_reason, dependency_reason, blocked_by, ready,
}
use probavi.Gameday.Plays.{play_nil, play_cons, turn}

abbrev Uncalled : Row → Type 0
Uncalled r = r.result.skip_reason ≢ cancelled_reason

-- The context was done before the loop, or when some drill arrived.
abbrev pub Cancelled : Bool → List Arrival → Type 0
Cancelled c arrivals = (c ≡ true) ⊎ ((a : Arrival) × Mem a arrivals × (a.cancelled ≡ true))

abbrev pub NoneCalledOff : List MemberResult → Type 0
NoneCalledOff xs = All (λ x. x.skip_reason ≢ cancelled_reason) xs

sweep-Uncalled :
    {S : Type 0} (body : S → Row → S × Row) (s : S) (rs : List Row)
    → ((s : S) (r : Row) → Uncalled r → Uncalled (body s r).1)
    → All Uncalled rs
    → All Uncalled (sweep body s rs).1
unfolding sweep
sweep-Uncalled body s [] h a = tt
sweep-Uncalled body s (r ∷ rs) h a = (h s r a.0, sweep-Uncalled body (body s r).0 rs h a.1)

abbrev first_byte : Bytes → ℕ
first_byte [] = 0
first_byte (c ∷ s) = c

dependency_reason-ne : (d o : Bytes) → dependency_reason d o ≢ cancelled_reason
unfolding dependency_reason
dependency_reason-ne d o e = omega (arith, ap first_byte e)

skip_if_blocked-Uncalled :
    (s : Bool × Outcomes) (r : Row) → Uncalled r → Uncalled (skip_if_blocked s r).1
unfolding skip_if_blocked
skip_if_blocked-Uncalled (changed, oc) r h =
    elim (Bool-cases (not r.pending || is_empty (blocked_by r.member.depends_on oc).0)) [
      | inl e ↦ rw e h
      | inr e ↦ rw e (dependency_reason-ne _ _)
    ]

swept_on :
    (fuel : ℕ)
    → ((oc : Outcomes) (rs : List Row) → All Uncalled rs → All Uncalled (skip_blocked fuel oc rs).1)
    → (p : (Bool × Outcomes) × List Row) → All Uncalled p.1
    → All Uncalled
        (elim p.0.0 as (λ b. Outcomes × List Row) [
          | false ↦ (p.0.1, p.1)
          | true ↦ skip_blocked fuel p.0.1 p.1
        ]).1
swept_on fuel again ((false, oc), rs) h = h
swept_on fuel again ((true, oc), rs) h = again oc rs h

skip_blocked-Uncalled :
    (fuel : ℕ) (oc : Outcomes) (rs : List Row)
    → All Uncalled rs
    → All Uncalled (skip_blocked fuel oc rs).1
unfolding skip_blocked
skip_blocked-Uncalled zero oc rs h = h
skip_blocked-Uncalled (suc fuel) oc rs h =
    let swept = sweep-Uncalled skip_if_blocked (false, oc) rs skip_if_blocked-Uncalled h in
    swept_on fuel (λ oc rs h. skip_blocked-Uncalled fuel oc rs h)
      (sweep skip_if_blocked (false, oc) rs) swept

launch-Uncalled :
    (slots : ℕ) (oc : Outcomes) (n : ℕ) (r : Row) → Uncalled r → Uncalled (launch slots oc n r).1
unfolding launch
launch-Uncalled slots oc n r h = elim (Bool-cases (leb slots n)) [
  | inl e ↦ rw e h
  | inr e ↦ elim (Bool-cases (not r.pending || not (ready r.member.depends_on oc))) [
    | inl f ↦ rw (e, f) h
    | inr f ↦ rw (e, f) h
  ]
]

round-Uncalled : (p : ℕ) (s : State) → All Uncalled s.rows → All Uncalled (round p false s).rows
unfolding round launch_ready
round-Uncalled p s h =
    sweep-Uncalled (launch (p - s.running) _) 0 _ (launch-Uncalled (p - s.running) _)
      (skip_blocked-Uncalled (suc (length s.rows)) s.outcomes s.rows h)

land_at-Uncalled :
    (i : ℕ) (d : Arrival) (oc : Outcomes) (rs : List Row)
    → All Uncalled rs
    → All Uncalled (land_at i d oc rs).1
unfolding land_at
land_at-Uncalled i d oc [] h = tt
land_at-Uncalled zero d oc (r ∷ rs) h = h
land_at-Uncalled (suc i) d oc (r ∷ rs) h = (h.0, land_at-Uncalled i d oc rs h.1)

initial-Uncalled : (ms : List Member) → All Uncalled (initial_rows ms)
unfolding initial_rows
initial-Uncalled [] = tt
initial-Uncalled (m ∷ ms) = ((λ e. cc), initial-Uncalled ms)

results-NoneCalledOff : (rs : List Row) → All Uncalled rs → NoneCalledOff (results rs)
results-NoneCalledOff [] h = tt
results-NoneCalledOff (r ∷ rs) h = (h.0, results-NoneCalledOff rs h.1)

abbrev AtEnd : Bool → List Arrival → Play → Type 0
AtEnd c arrivals (ended x) = Cancelled c arrivals ⊎ NoneCalledOff x.members
AtEnd c arrivals _ = Unit

AtEnd-later :
    (c : Bool) (a : Arrival) (rest : List Arrival) (p : Play)
    → AtEnd a.cancelled rest p
    → AtEnd c (a ∷ rest) p
AtEnd-later c a rest (ended x) (inl (inl e)) = inl (inr (a, here, e))
AtEnd-later c a rest (ended x) (inl (inr (b, m, e))) = inl (inr (b, there m, e))
AtEnd-later c a rest (ended x) (inr h) = inr h
AtEnd-later c a rest (waits t) h = tt
AtEnd-later c a rest stray h = tt

AtEnd-cancelled : (arrivals : List Arrival) (p : Play) → AtEnd true arrivals p
AtEnd-cancelled arrivals (ended x) = inl (inl refl)
AtEnd-cancelled arrivals (waits t) = tt
AtEnd-cancelled arrivals stray = tt

play-AtEnd :
    (g : GameDay) (elapsed : ℕ) (c : Bool) (s : State) (arrivals : List Arrival)
    → All Uncalled s.rows
    → AtEnd c arrivals (play g elapsed c s arrivals)
unfolding summary_of
play-AtEnd g elapsed true s arrivals h = AtEnd-cancelled arrivals _
play-AtEnd g elapsed false s [] h = elim (play_nil g elapsed false s) [
  | inl (e, z) ↦
      rw e (inr (results-NoneCalledOff (turn g false s).rows (round-Uncalled (parallelism g) s h)))
  | inr (e, z) ↦ rw e tt
]
play-AtEnd g elapsed false s (a ∷ rest) h =
    let turned = round-Uncalled (parallelism g) s h in
    elim (play_cons g elapsed false s a rest) [
      | inl (e, z) ↦ rw e (inr (results-NoneCalledOff (turn g false s).rows turned))
      | inr (_, inl (_, e)) ↦ rw e tt
      | inr (_, inr (l, e)) ↦ rw e (
          AtEnd-later false a rest _ (
            play-AtEnd g elapsed a.cancelled (receive a (turn g false s)) rest
              (unfold receive in land_at-Uncalled a.index a _ _ turned)))
    ]

-- A member of an ended run is called off only if the context was done.
pub run-NoneCalledOff :
    (g : GameDay) (elapsed : ℕ) (c : Bool) (arrivals : List Arrival) (x : Summary)
    → run g elapsed c arrivals ≡ ended x
    → Cancelled c arrivals ⊎ NoneCalledOff x.members
unfolding run initial
run-NoneCalledOff g elapsed c arrivals x e =
    subst (AtEnd c arrivals) e
      (play-AtEnd g elapsed c (initial g) arrivals (initial-Uncalled g.members))

-- ===== src/Gameday/Invariant.antt =====
-- The state of the scheduler at each turn of its loop.
use probavi.Base.{
  ℕ, zero, suc, ◌-◌, ◌≤◌, ◌≡◌, refl, sym, ◌∙◌, Bool, true, false, true≢false, none, some, List, [],
  ◌∷◌, Mem, Distinct, All, length, or_intro_right, or_false, if◌then◌else◌, put, put_same,
  put_other, Bytes, arith,
}
use probavi.Config.Gameday.Cycle.{Member}
use probavi.Config.Gameday.Order.{names}
use probavi.Config.Gameday.{GameDay, parallelism}
use probavi.Gameday.{
  outcome_pass, Row, State, Outcomes, Arrival, skip_blocked, skip_if_pending, skip_remaining,
  launch, launch_ready, round, receive, land, land_at, is_flying, initial, initial_rows,
}
use probavi.Gameday.Rows.{
  RowOk, waiting, in_flight, ran, skipped, Step, stay, Swept, Swept-trans, Swept-refl, sweep-Swept,
  Swept-cons, rows-Later, members_of, Named,
}
use probavi.Gameday.Loops.{skip_if_pending-Step, launch-Step, put-Later}
use probavi.Gameday.Settle.{skip_blocked-Swept}
use probavi.Gameday.Rounds.{
  airborne, unfinished, skip_blocked-calm, skip_if_pending-Calm, sweep-Calm, launch-counts, one_if,
}

pub record Inv (g : GameDay) (s : State) : Type 0 where
  pub members : members_of s.rows ≡ g.members
  pub kept : All (RowOk s.outcomes) s.rows
  pub named : All Named s.rows
  pub counted : s.running ≡ airborne s.rows
  pub bounded : s.running ≤ parallelism g

grounded : {oc : Outcomes} (r : Row) → RowOk oc r → r.pending ≡ true → r.flying ≡ false
grounded r (waiting p f e d) h = f
grounded r (in_flight p f e d k) h = absurd (true≢false (sym h ∙ p))
grounded r (ran d p f e q w k) h = absurd (true≢false (sym h ∙ p))
grounded r (skipped p f e d w k) h = absurd (true≢false (sym h ∙ p))

All-grounded :
    (oc : Outcomes) (rs : List Row)
    → All (RowOk oc) rs
    → All (λ r. r.pending ≡ true → r.flying ≡ false) rs
All-grounded oc [] k = tt
All-grounded oc (r ∷ rs) k = (grounded r k.0, All-grounded oc rs k.1)

-- The rows after the skipping, cancelled or not.
abbrev pub skipping : Bool → State → Outcomes × List Row
skipping cancelled s =
    let (oc, rs) = skip_blocked (suc (length s.rows)) s.outcomes s.rows in
    if cancelled then skip_remaining oc rs else (oc, rs)

module _ (s : State) (d : Distinct (names (members_of s.rows))) (k : All (RowOk s.outcomes) s.rows)
    (n : All Named s.rows) where
  blocked-Swept :
      let (oc, rs) = skip_blocked (suc (length s.rows)) s.outcomes s.rows in
      Swept s.outcomes oc s.rows rs
  blocked-Swept = skip_blocked-Swept (suc (length s.rows)) s.outcomes s.rows d k n

  pub skipping-Swept : (c : Bool) → Swept s.outcomes (skipping c s).0 s.rows (skipping c s).1
  unfolding skip_remaining
  skipping-Swept false = blocked-Swept
  skipping-Swept true =
      let v = blocked-Swept in
      Swept-trans s.outcomes _ _ s.rows _ _ v (
        sweep-Swept (λ oc. oc) skip_if_pending skip_if_pending-Step _ _ (rw v.same_members d) v.kept
          v.named)

  pub skipping-calm :
      (c : Bool)
      → (airborne (skipping c s).1 ≡ airborne s.rows)
        × (unfinished (skipping c s).1 ≤ unfinished s.rows)
  unfolding skip_remaining
  skipping-calm false = skip_blocked-calm (suc (length s.rows)) s.outcomes s.rows
  skipping-calm true =
      let (a, u) = skip_blocked-calm (suc (length s.rows)) s.outcomes s.rows in
      let (b, v) = sweep-Calm skip_if_pending skip_if_pending-Calm _ _ in
      (b ∙ a, omega (arith, u, v))

round-Swept :
    (p : ℕ) (c : Bool) (s : State)
    → Distinct (names (members_of s.rows))
    → All (RowOk s.outcomes) s.rows
    → All Named s.rows
    → Swept s.outcomes (round p c s).outcomes s.rows (round p c s).rows
unfolding round launch_ready
round-Swept p c s d k n =
    let v = skipping-Swept s d k n c in
    Swept-trans s.outcomes _ _ s.rows _ _ v (
      sweep-Swept (λ l. (skipping c s).0) (launch (p - s.running) (skipping c s).0)
        (launch-Step (p - s.running) (skipping c s).0) 0 (skipping c s).1 (rw v.same_members d)
        v.kept v.named)

round-counts :
    (p : ℕ) (c : Bool) (s : State)
    → Distinct (names (members_of s.rows))
    → All (RowOk s.outcomes) s.rows
    → All Named s.rows
    → s.running ≡ airborne s.rows
    → s.running ≤ p
    → ((round p c s).running ≡ airborne (round p c s).rows)
      × ((round p c s).running ≤ p)
      × (unfinished (round p c s).rows ≤ unfinished s.rows)
unfolding round launch_ready
round-counts p c s d k n e h =
    let v = skipping-Swept s d k n c in
    let (a, u) = skipping-calm s d k n c in
    let (x, y, z) =
      launch-counts (p - s.running) (skipping c s).0 0 (skipping c s).1
        (All-grounded (skipping c s).0 (skipping c s).1 v.kept) (omega arith) in
    (omega (arith, a, x, e), omega (arith, y, h), omega (arith, u, z))

-- A turn of the loop up to the wait keeps the invariant, and opens no member again.
pub round-Inv :
    (g : GameDay) (c : Bool) (s : State)
    → Distinct (names g.members)
    → Inv g s
    → Inv g (round (parallelism g) c s)
      × (unfinished (round (parallelism g) c s).rows ≤ unfinished s.rows)
round-Inv g c s d v =
    let d' : Distinct (names (members_of s.rows)) = rw v.members d in
    let w = round-Swept (parallelism g) c s d' v.kept v.named in
    let (x, y, z) = round-counts (parallelism g) c s d' v.kept v.named v.counted v.bounded in
    (
      record {
        members = w.same_members ∙ v.members;
        kept = w.kept;
        named = w.named;
        counted = x;
        bounded = y;
      },
      z,
    )

-- A row in flight waits no more, has no outcome, and its dependencies passed.
pub flying-cases :
    (oc : Outcomes) (r : Row)
    → RowOk oc r
    → r.flying ≡ true
    → (r.pending ≡ false)
      × (oc r.member.name ≡ none)
      × ((d : Bytes) → Mem d r.member.depends_on → oc d ≡ some outcome_pass)
flying-cases oc r (waiting p f e d) h = absurd (true≢false (sym h ∙ f))
flying-cases oc r (in_flight p f e d k) h = (p, e, k)
flying-cases oc r (ran d p f e q w k) h = absurd (true≢false (sym h ∙ f))
flying-cases oc r (skipped p f e d w k) h = absurd (true≢false (sym h ∙ f))

land-Step :
    (oc : Outcomes) (d : Arrival) (r : Row)
    → RowOk oc r
    → r.flying ≡ true
    → Step oc (put r.member.name (some d.summary.outcome) oc) r (land d r)
land-Step oc d r k h =
    let (p, e, passed) = flying-cases oc r k h in
    let later = put-Later r.member.name d.summary.outcome oc e in
    record {
      same_member = refl;
      same_name = refl;
      later = later;
      apart = λ x n. put_other r.member.name x (some d.summary.outcome) oc n;
      kept =
          ran d.summary p refl (put_same r.member.name (some d.summary.outcome) oc) refl refl
            (λ x m. later x outcome_pass (passed x m));
    }

land_at-Swept :
    (i : ℕ) (d : Arrival) (oc : Outcomes) (rs : List Row)
    → is_flying rs i ≡ true
    → Distinct (names (members_of rs))
    → All (RowOk oc) rs
    → All Named rs
    → Swept oc (land_at i d oc rs).0 rs (land_at i d oc rs).1
unfolding land_at is_flying
land_at-Swept i d oc [] h u k n = cc
land_at-Swept zero d oc (r ∷ rs) h u k n =
    let t = land-Step oc d r k.0 h in
    Swept-cons oc _ _ r (land d r) rs rs u.0 n.0 t
      (Swept-refl _ rs (rows-Later rs t.later (λ x m. t.apart x (λ e. u.0 (rw e m))) k.1) n.1)
land_at-Swept (suc i) d oc (r ∷ rs) h u k n =
    let w = land_at-Swept i d oc rs h u.1 k.1 n.1 in
    Swept-cons oc oc _ r r rs _ u.0 n.0 (stay oc r k.0) w

one_of : {b : Bool} → b ≡ true → one_if b ≡ 1
one_of e = rw e refl

none_of : {b : Bool} → b ≡ false → one_if b ≡ 0
none_of e = rw e refl

land_at-counts :
    (i : ℕ) (d : Arrival) (oc : Outcomes) (rs : List Row)
    → is_flying rs i ≡ true
    → All (RowOk oc) rs
    → (airborne rs ≡ suc (airborne (land_at i d oc rs).1))
      × (unfinished rs ≡ suc (unfinished (land_at i d oc rs).1))
unfolding land_at is_flying airborne unfinished
land_at-counts i d oc [] h k = cc
land_at-counts zero d oc (r ∷ rs) h k =
    let (p, _, _) = flying-cases oc r k.0 h in
    (
      omega (arith, one_of h),
      omega (
        arith,
        one_of (or_intro_right r.pending r.flying h),
        none_of (or_false r.pending false p refl),
      ),
    )
land_at-counts (suc i) d oc (r ∷ rs) h k =
    let (a, u) = land_at-counts i d oc rs h k.1 in (omega (arith, a), omega (arith, u))

-- A drill that is received keeps the invariant, and finishes one member.
pub receive-Inv :
    (g : GameDay) (d : Arrival) (s : State)
    → Distinct (names g.members)
    → is_flying s.rows d.index ≡ true
    → Inv g s
    → Inv g (receive d s) × (unfinished s.rows ≡ suc (unfinished (receive d s).rows))
unfolding receive
receive-Inv g d s u h v =
    let w = land_at-Swept d.index d s.outcomes s.rows h (rw v.members u) v.kept v.named in
    let (a, b) = land_at-counts d.index d s.outcomes s.rows h v.kept in
    (
      record {
        members = w.same_members ∙ v.members;
        kept = w.kept;
        named = w.named;
        counted = omega (arith, a, v.counted);
        bounded = omega (arith, v.bounded);
      },
      b,
    )

initial-rows :
    (ms : List Member)
    → (members_of (initial_rows ms) ≡ ms)
      × All (RowOk (λ x. none)) (initial_rows ms)
      × All Named (initial_rows ms)
      × (airborne (initial_rows ms) ≡ 0)
      × (unfinished (initial_rows ms) ≡ length ms)
unfolding initial_rows airborne unfinished
initial-rows [] = (refl, tt, tt, refl, refl)
initial-rows (m ∷ ms) =
    let (a, b, c, d, e) = initial-rows ms in
    (rw a refl, (waiting refl refl refl refl, b), (refl, c), omega (arith, d), omega (arith, e))

pub initial-Inv :
    (g : GameDay) → Inv g (initial g) × (unfinished (initial g).rows ≡ length g.members)
unfolding initial
initial-Inv g =
    let (a, b, c, d, e) = initial-rows g.members in
    (record { members = a; kept = b; named = c; counted = sym d; bounded = omega arith }, e)

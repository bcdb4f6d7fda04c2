-- ===== src/Gameday/Ends.antt =====
-- A turn that leaves nothing in flight leaves no member pending, if the members have an order.
use probavi.Base.{
  ℕ, suc, ◌-◌, ◌≤◌, ◌≡◌, ◌≢◌, refl, sym, ap, subst, ◌∙◌, inl, inr, Bool, true, false, true≢false,
  not, ◌||◌, none, some, List, [], ◌∷◌, Mem, here, there, Mem-cons, All, All-Mem, length, leb,
  Bool-cases, Option-cases, beq_refl, Bytes, arith,
}
use probavi.Config.Gameday.Cycle.{Member}
use probavi.Config.Gameday.Cycle.Pop.{names-intro}
use probavi.Config.Gameday.Order.{names, IsOrder, Known}
use probavi.Config.Gameday.{GameDay, parallelism}
use probavi.Config.Gameday.Shape.{Shaped}
use probavi.Config.Gameday.Sound.{IsSound}
use probavi.Gameday.{
  Row, State, Outcomes, sweep, skip_blocked, skip_if_pending, skip_remaining, passed, ready,
  launch_ready, round, outcome_pass,
}
use probavi.Gameday.Rows.{RowOk, waiting, in_flight, ran, skipped, members_of}
use probavi.Gameday.Loops.{blocked_by-none}
use probavi.Gameday.Settle.{Unblocked, skip_blocked-settles, pendings-length}
use probavi.Gameday.Rounds.{airborne, Unready, launch-idle, one_if}
use probavi.Gameday.Invariant.{Inv, skipping, round-Inv}

abbrev pub Idle : List Row → Type 0
Idle rs = (r : Row) → Mem r rs → r.pending ≡ false

unready-cases :
    (deps : List Bytes) (oc : Outcomes)
    → ready deps oc ≡ false
    → (d : Bytes) × Mem d deps × (passed (oc d) ≡ false)
unfolding ready
unready-cases [] oc h = cc
unready-cases (x ∷ xs) oc h = elim (Bool-cases (passed (oc x))) [
  | inl t ↦ let (d, m, f) = unready-cases xs oc (ground arith) in (d, there m, f)
  | inr f ↦ (x, here, f)
]

passed_pass : passed (some outcome_pass) ≡ true
passed_pass = beq_refl outcome_pass

-- A pending row that is neither blocked nor ready has a dependency without an outcome.
open-dependency :
    (oc : Outcomes) (r : Row)
    → r.pending ≡ true
    → ((d : Bytes) → Mem d r.member.depends_on → d ≢ [])
    → Unblocked oc r
    → Unready oc r
    → (d : Bytes) × Mem d r.member.depends_on × (oc d ≡ none)
open-dependency oc r p ne b u =
    let (d, m, f) = unready-cases r.member.depends_on oc (no_ready p u) in
    (
      d,
      m,
      elim (Option-cases (oc d)) [
        | inl e ↦ e
        | inr (o, e) ↦
            let o_pass = blocked_by-none r.member.depends_on oc ne (no_block p b) d o m e in
            absurd
              (true≢false (sym passed_pass ∙ subst (λ x. passed x ≡ false) (e ∙ ap some o_pass) f))
      ],
    )
  where
    no_ready : {a c : Bool} → a ≡ true → (not a || not c) ≡ true → c ≡ false
    no_ready e h = ground arith

    no_block : {a c : Bool} → a ≡ true → (not a || c) ≡ true → c ≡ true
    no_block e h = ground arith

pub row_named :
    (n : Bytes) (rs : List Row)
    → Mem n (names (members_of rs))
    → (r : Row) × Mem r rs × (r.member.name ≡ n)
row_named n [] m = elim m [ ]
row_named n (r ∷ rs) m = elim (Mem-cons m) [
  | inl e ↦ (r, here, sym e)
  | inr k ↦ let (x, l, e) = row_named n rs k in (x, there l, e)
]

member_of : (r : Row) (rs : List Row) → Mem r rs → Mem r.member (members_of rs)
member_of r [] m = elim m [ ]
member_of r (x ∷ rs) here = here
member_of r (x ∷ rs) (there m) = there (member_of r rs m)

pub not_airborne : (rs : List Row) → airborne rs ≡ 0 → (r : Row) → Mem r rs → r.flying ≡ false
unfolding airborne
not_airborne [] h r m = elim m [ ]
not_airborne (x ∷ rs) h r m = elim (Mem-cons m) [
  | inl e ↦ rw e (grounded x.flying (omega (arith, h)))
  | inr k ↦ not_airborne rs (omega (arith, h)) r k
]
  where
    grounded : (b : Bool) → one_if b ≡ 0 → b ≡ false
    grounded b h = ground arith

-- A row without an outcome waits, if nothing is in flight.
waits_on :
    (oc : Outcomes) (r : Row)
    → RowOk oc r
    → r.flying ≡ false
    → oc r.member.name ≡ none
    → r.pending ≡ true
waits_on oc r (waiting p f e d) g h = p
waits_on oc r (in_flight p f e d k) g h = absurd (true≢false (sym f ∙ g))
waits_on oc r (ran d p f e q w k) g h = let x = sym e ∙ h in cc
waits_on oc r (skipped p f e d w k) g h = let x = sym e ∙ h in cc

module _ (oc : Outcomes) (rs : List Row) (k : All (RowOk oc) rs) (quiet : airborne rs ≡ 0)
    (b : All (Unblocked oc) rs) (u : All (Unready oc) rs) (known : Known (members_of rs))
    (ne : (d : Bytes) → Mem d (names (members_of rs)) → d ≢ []) where
  next_pending :
      (r : Row)
      → Mem r rs
      → r.pending ≡ true
      → (x : Row) × Mem x rs × (x.pending ≡ true) × Mem x.member.name r.member.depends_on
  next_pending r m p =
      let own = known r.member (member_of r rs m) in
      let (d, i, e) =
        open-dependency oc r p (λ d j. ne d (own d j)) (All-Mem (Unblocked oc) rs b m)
          (All-Mem (Unready oc) rs u m) in
      let (x, j, same) = row_named d rs (own d i) in
      (
        x,
        j,
        waits_on oc x (All-Mem (RowOk oc) rs k j) (not_airborne rs quiet x j) (rw same e),
        rw same i,
      )

  ordered-idle :
      (ns : List Bytes)
      → IsOrder (members_of rs) ns
      → (r : Row) → Mem r rs
      → Mem r.member.name ns
      → r.pending ≡ false
  ordered-idle [] o r m i = elim i [ ]
  ordered-idle (n ∷ ns) o r m i = elim (Mem-cons i) [
    | inr j ↦ ordered-idle ns o.1 r m j
    | inl e ↦ elim (Bool-cases r.pending) [
      | inr f ↦ f
      | inl t ↦
          let (x, j, p, dep) = next_pending r m t in
          absurd (
            true≢false (
              sym p
              ∙ ordered-idle ns o.1 x j (o.0 r.member (member_of r rs m) e x.member.name dep)))
    ]
  ]

-- A cancelled turn leaves none pending anyway.
skip_if_pending-closes : (oc : Outcomes) (r : Row) → (skip_if_pending oc r).1.pending ≡ false
unfolding skip_if_pending
skip_if_pending-closes oc r = elim (Bool-cases r.pending) [
  | inl t ↦ simp t refl
  | inr f ↦ simp f refl
]

skip_remaining-closes :
    (oc : Outcomes) (rs : List Row) → All (λ r. r.pending ≡ false) (skip_remaining oc rs).1
unfolding skip_remaining
skip_remaining-closes oc rs = closes oc rs
  where
    closes :
        (p : Outcomes) (us : List Row)
        → All (λ r. r.pending ≡ false) (unfold sweep in (sweep skip_if_pending p us).1)
    closes p [] = tt
    closes p (u ∷ us) = (skip_if_pending-closes p u, closes (skip_if_pending p u).0 us)

parallelism-positive : (g : GameDay) → 1 ≤ parallelism g
unfolding parallelism
parallelism-positive g = ground arith

-- No slot is used in a turn that leaves nothing in flight.
round-rows :
    (g : GameDay) (c : Bool) (s : State)
    → (round (parallelism g) c s).running ≡ 0
    → ((round (parallelism g) c s).rows ≡ (skipping c s).1)
      × ((round (parallelism g) c s).outcomes ≡ (skipping c s).0)
      × All (Unready (skipping c s).0) (skipping c s).1
unfolding round launch_ready
round-rows g c s h =
    let (e, u) =
      launch-idle (parallelism g - s.running) (skipping c s).0 0 (skipping c s).1
        (slots (parallelism-positive g) (omega (arith, h))) (omega (arith, h)) in
    (ap (λ x. x.1) e, refl, u)
  where
    slots : {p n : ℕ} → 1 ≤ p → n ≡ 0 → leb (p - n) 0 ≡ false
    slots h e = ground arith

Shaped-named : (ms : List Member) → All Shaped ms → (d : Bytes) → Mem d (names ms) → d ≢ []
Shaped-named [] a d m = elim m [ ]
Shaped-named (x ∷ ms) a d m = elim (Mem-cons m) [
  | inl e ↦ rw e a.0.0
  | inr k ↦ Shaped-named ms a.1 d k
]

pub round-Idle :
    (g : GameDay) (c : Bool) (s : State)
    → IsSound g
    → Inv g s
    → (round (parallelism g) c s).running ≡ 0
    → Idle (round (parallelism g) c s).rows
round-Idle g true s sound v h =
    let (e, _, _) = round-rows g true s h in
    λ r m.
      All-Mem (λ x. x.pending ≡ false) (skipping true s).1
        (skip_remaining-closes (skip_blocked (suc (length s.rows)) s.outcomes s.rows).0
          (skip_blocked (suc (length s.rows)) s.outcomes s.rows).1)
        (subst (Mem r) e m)
round-Idle g false s sound v h =
    let (e, o, u) = round-rows g false s h in
    let (w, _) = round-Inv g false s sound.unique v in
    let settled =
      skip_blocked-settles (suc (length s.rows)) s.outcomes s.rows
        (omega (arith, pendings-length s.rows)) in
    let t = round (parallelism g) false s in
    λ r m.
      ordered-idle t.outcomes t.rows w.kept (omega (arith, w.counted, h)) (rw (e, o) settled)
        (rw (e, o) u) (rw w.members sound.known)
        (rw w.members (Shaped-named g.members sound.shaped)) sound.schedule.order
        (rw w.members sound.schedule.ordered) r m
        (sound.schedule.complete r.member.name (
          subst (λ l. Mem r.member.name (names l)) w.members
            (names-intro (members_of t.rows) r.member (member_of r t.rows m))))

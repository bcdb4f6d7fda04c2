-- ===== src/Gameday.antt =====
-- internal/gameday/gameday.go: the members of an exercise, run in the order of their dependencies.
-- The goroutines of `launchReady` and the channel `done` are the list of arrivals: the scheduler
-- takes one at each turn, of a drill that is in flight.
pub mod Rows
pub mod Loops
pub mod Settle
pub mod Rounds
pub mod Invariant
pub mod Ends
pub mod Summaries
pub mod Plays
pub mod Uncancelled
pub mod Laws
pub mod Overall
use probavi.Base.{
  ℕ, zero, suc, ◌+◌, ◌-◌, ◌/◌, Bool, true, false, not, ◌&&◌, ◌||◌, Option, none, some, List, [],
  ◌∷◌, ◌++◌, leb, ◌==◌, if◌then◌else◌, length, get_elem?, is_empty, beq, codes, put, Bytes,
}
use probavi.Base.Int.{ℤ}
use probavi.Config.Gameday.Cycle.{Member}
use probavi.Config.Gameday.{GameDay, parallelism}

abbrev pub outcome_skipped : Bytes
outcome_skipped = codes "skipped"

abbrev pub outcome_pass : Bytes
outcome_pass = codes "pass"

abbrev pub outcome_fail : Bytes
outcome_fail = codes "fail"

abbrev pub outcome_error : Bytes
outcome_error = codes "error"

pub record DrillSummary : Type 0 where
  pub outcome : Bytes
  pub seq : ℤ
  pub evidence_path : Bytes
  pub checks_passed : ℕ
  pub checks_total : ℕ
  pub restore_ms : Option ℤ
  pub total_ms : Option ℤ
  pub error_code : Bytes

-- `drill` is the embedded pointer.
pub record MemberResult : Type 0 where
  pub name : Bytes
  pub outcome : Bytes
  pub drill : Option DrillSummary
  pub skip_reason : Bytes
  pub duration_ms : ℕ

pub record Summary : Type 0 where
  pub gameday : Bytes
  pub config_hash : Bytes
  pub outcome : Bytes
  pub members : List MemberResult
  pub total_ms : ℕ

-- `cfg.Members`, `pending` and `results` at one index; `flying` says that the goroutine of the
-- member has started and not been received.
pub record Row : Type 0 where
  pub member : Member
  pub pending : Bool
  pub flying : Bool
  pub result : MemberResult

abbrev pub Outcomes : Type 0
Outcomes = Bytes → Option Bytes

pub record State : Type 0 where
  pub rows : List Row
  pub outcomes : Outcomes
  pub running : ℕ

-- `for i := range`, with a body that may change the row and what it carries along.
unfoldable pub sweep : {S : Type 0} → (S → Row → S × Row) → S → List Row → S × List Row
sweep body s [] = (s, [])
sweep body s (r ∷ rs) =
    let (s', r') = body s r in let (s'', rs') = sweep body s' rs in (s'', r' ∷ rs')

-- One turn of the loop of `blockedBy`, over the outcome of its dependency.
unfoldable pub blame : Bytes → Option Bytes → Bytes × Bytes → Bytes × Bytes
blame d none rest = rest
blame d (some o) rest = if beq o outcome_pass then rest else (d, o)

-- `blockedBy`.
unfoldable pub blocked_by : List Bytes → Outcomes → Bytes × Bytes
unfolding blame
blocked_by [] outcomes = ([], [])
blocked_by (d ∷ ds) outcomes = blame d (outcomes d) (blocked_by ds outcomes)

abbrev pub skip : Bytes → Row → Row
skip reason r = record r {
  pending = false;
  result = record r.result { outcome = outcome_skipped; skip_reason = reason };
}

unfoldable pub dependency_reason : Bytes → Bytes → Bytes
dependency_reason dep outcome =
    codes "dependency " ++ dep ++ codes " did not pass (" ++ outcome ++ codes ")"

-- The body of the loop of `skipBlockedMembers`, with `changed`.
unfoldable pub skip_if_blocked : Bool × Outcomes → Row → (Bool × Outcomes) × Row
unfolding blocked_by dependency_reason put
skip_if_blocked (changed, outcomes) r =
    let (dep, outcome) = blocked_by r.member.depends_on outcomes in
    if not r.pending || is_empty dep then ((changed, outcomes), r) else (
      (true, put r.member.name (some outcome_skipped) outcomes),
      skip (dependency_reason dep outcome) r,
    )

-- `skipBlockedMembers`, with at most `fuel` passes.
unfoldable pub skip_blocked : ℕ → Outcomes → List Row → Outcomes × List Row
unfolding sweep skip_if_blocked
skip_blocked zero outcomes rows = (outcomes, rows)
skip_blocked (suc fuel) outcomes rows =
    let ((changed, outcomes'), rows') = sweep skip_if_blocked (false, outcomes) rows in
    elim changed [ false ↦ (outcomes', rows') | true ↦ skip_blocked fuel outcomes' rows' ]

abbrev pub cancelled_reason : Bytes
cancelled_reason = codes "game-day cancelled"

unfoldable pub skip_if_pending : Outcomes → Row → Outcomes × Row
unfolding put
skip_if_pending outcomes r =
    if r.pending
    then (put r.member.name (some outcome_skipped) outcomes, skip cancelled_reason r)
    else (outcomes, r)

-- `skipRemaining`.
unfoldable pub skip_remaining : Outcomes → List Row → Outcomes × List Row
unfolding sweep skip_if_pending
skip_remaining outcomes rows = sweep skip_if_pending outcomes rows

abbrev pub passed : Option Bytes → Bool
passed none = false
passed (some o) = beq o outcome_pass

unfoldable pub ready : List Bytes → Outcomes → Bool
ready [] outcomes = true
ready (d ∷ ds) outcomes = passed (outcomes d) && ready ds outcomes

-- The body of the loop of `launchReady`, with `launched`.
unfoldable pub launch : ℕ → Outcomes → ℕ → Row → ℕ × Row
unfolding ready
launch slots outcomes launched r =
    if leb slots launched
    then (launched, r)
    else if not r.pending || not (ready r.member.depends_on outcomes)
    then (launched, r)
    else (suc launched, record r { pending = false; flying = true })

-- `launchReady`; more running than allowed leaves no slots.
unfoldable pub launch_ready : ℕ → Outcomes → List Row → ℕ × List Row
unfolding sweep launch
launch_ready slots outcomes rows = sweep (launch slots outcomes) 0 rows

-- The body of the loop of `Run`, up to the test of `running`.
unfoldable pub round : ℕ → Bool → State → State
unfolding skip_blocked skip_remaining launch_ready
round parallel cancelled s =
    let (outcomes, rows) = skip_blocked (suc (length s.rows)) s.outcomes s.rows in
    let (outcomes', rows') = if cancelled then skip_remaining outcomes rows else (outcomes, rows) in
    let (launched, rows'') = launch_ready (parallel - s.running) outcomes' rows' in
    record { rows = rows''; outcomes = outcomes'; running = s.running + launched }

-- `memberDone`, with the answer of `ctx.Err` behind it.
pub record Arrival : Type 0 where
  pub index : ℕ
  pub summary : DrillSummary
  pub duration_ns : ℕ
  pub cancelled : Bool

abbrev pub land : Arrival → Row → Row
land d r = record r {
  flying = false;
  result = record r.result {
    outcome = d.summary.outcome;
    drill = some d.summary;
    duration_ms = d.duration_ns / 1000000;
  };
}

-- The update of the row that an index names, with the outcome of its member.
unfoldable pub land_at : ℕ → Arrival → Outcomes → List Row → Outcomes × List Row
unfolding put
land_at i d outcomes [] = (outcomes, [])
land_at zero d outcomes (r ∷ rs) =
    (put r.member.name (some d.summary.outcome) outcomes, land d r ∷ rs)
land_at (suc i) d outcomes (r ∷ rs) =
    let (outcomes', rs') = land_at i d outcomes rs in (outcomes', r ∷ rs')

-- The rest of the loop of `Run`.
unfoldable pub receive : Arrival → State → State
unfolding land_at
receive d s =
    let (outcomes, rows) = land_at d.index d s.outcomes s.rows in
    record { rows = rows; outcomes = outcomes; running = s.running - 1 }

abbrev pub results : List Row → List MemberResult
results [] = []
results (r ∷ rs) = r.result ∷ results rs

-- The loop of `overallOutcome`: whether all passed, and whether any failed.
unfoldable pub tally : List MemberResult → Bool × Bool
tally [] = (true, false)
tally (m ∷ ms) =
    let (all_pass, any_fail) = tally ms in
    if beq m.outcome outcome_pass
    then (all_pass, any_fail)
    else if beq m.outcome outcome_fail
    then (false, true)
    else (false, any_fail)

-- `overallOutcome`.
unfoldable pub overall_outcome : List MemberResult → Bytes
unfolding tally
overall_outcome ms =
    let (all_pass, any_fail) = tally ms in
    if all_pass then outcome_pass else if any_fail then outcome_fail else outcome_error

unfoldable pub initial_rows : List Member → List Row
initial_rows [] = []
initial_rows (m ∷ ms) =
    record {
      member = m;
      pending = true;
      flying = false;
      result = record {
        name = m.name;
        outcome = [];
        drill = none;
        skip_reason = [];
        duration_ms = 0;
      };
    }
    ∷ initial_rows ms

-- The state before the loop of `Run`.
unfoldable pub initial : GameDay → State
unfolding initial_rows
initial g = record { rows = initial_rows g.members; outcomes = λ x. none; running = 0 }

-- What came of a run: its summary, a wait for one more arrival, or an arrival that no goroutine
-- sends.
pub data Play : Type 0 where
  ended : Summary → Play
  waits : State → Play
  stray : Play

unfoldable pub is_flying : List Row → ℕ → Bool
is_flying [] i = false
is_flying (r ∷ rs) zero = r.flying
is_flying (r ∷ rs) (suc i) = is_flying rs i

unfoldable pub summary_of : GameDay → ℕ → State → Summary
unfolding overall_outcome
summary_of g elapsed_ns s = record {
  gameday = g.name;
  config_hash = g.hash;
  outcome = overall_outcome (results s.rows);
  members = results s.rows;
  total_ms = elapsed_ns / 1000000;
}

-- The loop of `Run` over the arrivals.
unfoldable pub play : GameDay → ℕ → Bool → State → List Arrival → Play
unfolding round receive is_flying summary_of
play g elapsed cancelled s [] =
    let t = round (parallelism g) cancelled s in
    if t.running == 0 then ended (summary_of g elapsed t) else waits t
play g elapsed cancelled s (d ∷ ds) =
    let t = round (parallelism g) cancelled s in
    elim (t.running == 0) [
      | true ↦ ended (summary_of g elapsed t)
      | false ↦ elim (is_flying t.rows d.index) [
        | false ↦ stray
        | true ↦ play g elapsed d.cancelled (receive d t) ds
      ]
    ]

-- `Run`; `cancelled` is the first answer of `ctx.Err`.
unfoldable pub run : GameDay → ℕ → Bool → List Arrival → Play
unfolding initial play
run g elapsed cancelled arrivals = play g elapsed cancelled (initial g) arrivals

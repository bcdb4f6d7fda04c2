-- ===== src/Tests/Exercise.antt =====
-- Exercises of three members.
use probavi.Base.{
  ℕ, ◌+◌, ◌≤◌, ◌≡◌, refl, ◌↔◌, ◌⊎◌, true, false, Option, none, some, List, [], ◌∷◌, ◌++◌, beq,
  contains, put, codes, length, Mem, Bytes, arith,
}
use probavi.Base.Int.{pos}
use probavi.Config.Gameday.Cycle.{Member, search, drain}
use probavi.Config.Gameday.Cycle.Answer.{search-ends, dependents, start}
use probavi.Config.Gameday.{GameDay, parallelism, validate, dependency_cycle}
use probavi.Config.Gameday.Sound.{IsSound, validate-IsSound_iff}
use probavi.Gameday.{
  Row, initial, DrillSummary, MemberResult, Arrival, Summary, State, ended, waits, stray, run,
  outcome_pass, outcome_fail, outcome_skipped,
}
use probavi.Gameday.Rows.{Passed}
use probavi.Gameday.Rounds.{airborne}
use probavi.Gameday.Summaries.{Accounts}
use probavi.Gameday.Uncancelled.{Cancelled, NoneCalledOff}
use probavi.Gameday.Laws.{run-Accounts, run-ends, run-parallelism}
use probavi.Gameday.Plays.{turn}

abbrev member : Bytes → List Bytes → Member
member name deps = record { name = name; config = name ++ codes ".yaml"; depends_on = deps }

abbrev three : GameDay
three = record {
  name = codes "quarterly";
  timeout = pos 3600000000000;
  max_parallel = pos 2;
  members =
      member (codes "app") (codes "db" ∷ [])
      ∷ member (codes "db") []
      ∷ member (codes "cache") []
      ∷ [];
  hash = codes "sha256:00";
}

three_valid : validate three ≡ []
unfolding validate beq contains put
three_valid = refl

-- Two members that wait for each other.
abbrev looped : GameDay
looped = record three {
  members =
      member (codes "app") (codes "db" ∷ [])
      ∷ member (codes "db") (codes "app" ∷ [])
      ∷ member (codes "cache") []
      ∷ [];
}

looped_stuck : validate looped ≡ dependency_cycle (codes "app" ∷ codes "db" ∷ []) ∷ []
unfolding validate beq contains put
looped_stuck = refl

validate-IsSound_iff_example : (validate three ≡ []) ↔ IsSound three
validate-IsSound_iff_example = validate-IsSound_iff three

abbrev drill : Bytes → DrillSummary
drill outcome = record {
  outcome = outcome;
  seq = pos 7;
  evidence_path = codes "log.jsonl";
  checks_passed = 2;
  checks_total = 2;
  restore_ms = some (pos 40);
  total_ms = some (pos 90);
  error_code = [];
}

abbrev arrival : ℕ → Bytes → Arrival
arrival i outcome = record {
  index = i;
  summary = drill outcome;
  duration_ns = 90000000;
  cancelled = false;
}

-- The database fails, so the application is not tried.
abbrev two_arrivals : List Arrival
two_arrivals = arrival 1 outcome_fail ∷ arrival 2 outcome_pass ∷ []

abbrev result : Bytes → Bytes → Option DrillSummary → Bytes → ℕ → MemberResult
result name outcome d reason ms = record {
  name = name;
  outcome = outcome;
  drill = d;
  skip_reason = reason;
  duration_ms = ms;
}

abbrev failed_summary : Summary
failed_summary = record {
  gameday = codes "quarterly";
  config_hash = codes "sha256:00";
  outcome = outcome_fail;
  members =
      result (codes "app") outcome_skipped none (codes "dependency db did not pass (fail)") 0
      ∷ result (codes "db") outcome_fail (some (drill outcome_fail)) [] 90
      ∷ result (codes "cache") outcome_pass (some (drill outcome_pass)) [] 90
      ∷ [];
  total_ms = 200;
}

three_fails : run three 200000000 false two_arrivals ≡ ended failed_summary
unfolding run beq put parallelism
three_fails = refl

run-Accounts_example :
    Accounts failed_summary.members three.members failed_summary.members
    × (Cancelled false two_arrivals ⊎ NoneCalledOff failed_summary.members)
run-Accounts_example =
    run-Accounts three three_valid 200000000 false two_arrivals failed_summary three_fails

run-ends_example :
    let arrivals = arrival 1 outcome_pass ∷ arrival 2 outcome_pass ∷ arrival 0 outcome_pass ∷ [] in
    (run three 200000000 false arrivals ≡ stray)
    ⊎ ((x : Summary) × (run three 200000000 false arrivals ≡ ended x))
run-ends_example =
    run-ends three three_valid 200000000 false
      (arrival 1 outcome_pass ∷ arrival 2 outcome_pass ∷ arrival 0 outcome_pass ∷ []) (omega arith)

-- The state in which the scheduler waits for the first two drills.
abbrev first_wait : State
first_wait = turn three false (initial three)

three_waits : run three 200000000 false [] ≡ waits first_wait
unfolding run beq put parallelism
three_waits = refl

run-parallelism_example :
    (1 ≤ airborne first_wait.rows)
    × (airborne first_wait.rows ≤ parallelism three)
    × ((airborne first_wait.rows ≤ 1)
        ⊎ ((n : ℕ) × (three.max_parallel ≡ pos n) × (airborne first_wait.rows ≤ n)))
    × ((r : Row)
        → Mem r first_wait.rows
        → r.flying ≡ true
        → Passed r.member.depends_on first_wait.outcomes)
run-parallelism_example =
    run-parallelism three three_valid 200000000 false [] first_wait three_waits

abbrev members_of_summary : List MemberResult
members_of_summary = failed_summary.members

search-ends_example :
    ((search three.members).queue ≡ [])
    × ((more : ℕ)
        → drain (dependents three.members) (length three.members + more) (start three.members)
          ≡ search three.members)
search-ends_example = search-ends three.members ((validate-IsSound_iff three).0 three_valid).unique

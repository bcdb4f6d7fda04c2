-- ===== src/Checks/Freshness.antt =====
-- internal/checks/checks.go and runner.go: the check of freshness.
use probavi.Base.{ℕ, ◌-◌, ◌%◌, false, Option, none, some, List, [], ◌∷◌, ◌++◌, min, codes, Bytes}
use probavi.Base.Int.{ℤ, pos, le_int}
use probavi.Config.Check.{CheckConfig, check_freshness}
use probavi.Checks.Runner.{
  Deps, Session, Ran, done, and_then, QueryResult, succeeded, exited, statement, query,
}
use probavi.Checks.Kinds.{Found, found, runner_failure, with_ident}

-- `timestampFormats`.
abbrev timestamp_formats : List Bytes
timestamp_formats =
    codes "2006-01-02 15:04:05.999999999-07:00"
    ∷ codes "2006-01-02 15:04:05.999999999-0700"
    ∷ codes "2006-01-02 15:04:05.999999999-07"
    ∷ codes "2006-01-02 15:04:05.999999999"
    ∷ codes "2006-01-02T15:04:05.999999999Z07:00"
    ∷ codes "2006-01-02T15:04:05.999999999"
    ∷ codes "2006-01-02T15:04Z07:00"
    ∷ codes "2006-01-02T15:04"
    ∷ []

abbrev or_later : Option ℕ → Option ℕ → Option ℕ
or_later none rest = rest
or_later (some at) rest = some at

-- The loop of `parseTimestamp`.
unfoldable pub parse_under : Deps → List Bytes → Bytes → Option ℕ
parse_under deps [] s = none
parse_under deps (layout ∷ layouts) s =
    or_later (deps.parse_in_utc layout s) (parse_under deps layouts s)

unfoldable pub parse_timestamp : Deps → Bytes → Option ℕ
unfolding parse_under
parse_timestamp deps s = parse_under deps timestamp_formats s

-- `now.Sub(newest)`, which is at most the longest duration, and 0 where it is negative.
unfoldable pub age_of : ℕ → ℕ → ℕ
age_of now newest = min (now - newest) 9223372036854775807

unfoldable pub judge_age : Deps → ℤ → ℕ → ℕ → Found
judge_age deps max_age newest age = record {
  ok = le_int (pos age) max_age;
  detail =
      codes "newest row is "
      ++ deps.duration_text (pos (age - age % 1000000000))
      ++ codes " old (max_age "
      ++ deps.duration_text max_age
      ++ codes ")";
  newest = some newest;
}

unfoldable pub judge_newest : Deps → ℤ → Option ℕ → Session → Ran Found
unfolding judge_age age_of
judge_newest deps max_age none s =
    done (found false (codes "timestamp column returned unparseable output")) s
judge_newest deps max_age (some newest) s =
    done (judge_age deps max_age newest (age_of (deps.now s.requests) newest)) s

unfoldable pub judge_freshness : Deps → ℤ → QueryResult → Session → Ran Found
unfolding runner_failure parse_timestamp judge_newest
judge_freshness deps max_age (exited code) s =
    done (found false (codes "freshness query failed: " ++ runner_failure code)) s
judge_freshness deps max_age (succeeded []) s =
    done (found false (codes "table has no rows or only NULL timestamps")) s
judge_freshness deps max_age (succeeded (v ∷ vs)) s =
    judge_newest deps max_age (parse_timestamp deps (v ∷ vs)) s

-- `runFreshness`.
unfoldable pub run_freshness : Deps → CheckConfig → Session → Ran Found
unfolding with_ident and_then query statement judge_freshness
run_freshness deps c s = with_ident deps c.table s λ table. with_ident deps c.column s λ column.
    and_then
      (query deps
        (statement deps.dialect check_freshness
          (codes "SELECT max(" ++ column ++ codes ") FROM " ++ table) table column)
        s)
      (judge_freshness deps c.max_age)

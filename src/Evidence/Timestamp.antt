-- ===== src/Evidence/Timestamp.antt =====
-- internal/evidence/record.go: `TimestampFormat` and `validateTS`. `time.Parse` followed by `Format`
-- gives a text back only if it has exactly this form and names an instant.
use probavi.Base.{
  ℕ, ◌+◌, ◌-◌, ◌*◌, ◌%◌, Bool, false, not, ◌&&◌, ◌||◌, [], ◌∷◌, ltb, ◌==◌, within, if◌then◌else◌,
  all, Bytes,
}
use probavi.Evidence.Codes.{invalid_record}
use probavi.Evidence.Result.{Result, require}

abbrev digit : ℕ → Bool
digit = within b'0' b'9'

-- The number that two digits write.
abbrev two : ℕ → ℕ → ℕ
two a b = (a - b'0') * 10 + (b - b'0')

pub is_leap : ℕ → Bool
is_leap y = y % 4 == 0 && (not (y % 100 == 0) || y % 400 == 0)

pub days_in : ℕ → ℕ → ℕ
unfolding is_leap
days_in m y =
    if m == 2
    then (if is_leap y then 29 else 28)
    else if m == 4 || m == 6 || m == 9 || m == 11
    then 30
    else 31

-- The fields of a text whose bytes stand where `2006-01-02T15:04:05.000Z` wants them.
pub in_calendar : ℕ → ℕ → ℕ → ℕ → ℕ → ℕ → Bool
unfolding days_in
in_calendar year month day hour minute second =
    within 1 12 month
    && within 1 (days_in month year) day
    && ltb hour 24
    && ltb minute 60
    && ltb second 60

unfoldable pub is_timestamp : Bytes → Bool
unfolding in_calendar
is_timestamp
      (y1 ∷ y2 ∷ y3 ∷ y4 ∷ d1 ∷ m1 ∷ m2 ∷ d2 ∷ a1 ∷ a2 ∷ t ∷ h1 ∷ h2 ∷ c1 ∷ n1 ∷ n2 ∷ c2 ∷ s1 ∷ s2
        ∷ p ∷ f1 ∷ f2 ∷ f3 ∷ z ∷ []) =
    all digit
      (y1 ∷ y2 ∷ y3 ∷ y4 ∷ m1 ∷ m2 ∷ a1 ∷ a2 ∷ h1 ∷ h2 ∷ n1 ∷ n2 ∷ s1 ∷ s2 ∷ f1 ∷ f2 ∷ f3 ∷ [])
    && d1 == b'-'
    && d2 == b'-'
    && t == b'T'
    && c1 == b':'
    && c2 == b':'
    && p == b'.'
    && z == b'Z'
    && in_calendar (two y1 y2 * 100 + two y3 y4) (two m1 m2) (two a1 a2) (two h1 h2) (two n1 n2)
        (two s1 s2)
is_timestamp _ = false

unfoldable pub validate_ts : Bytes → Result (Unit {0})
unfolding is_timestamp
validate_ts ts = require (is_timestamp ts) invalid_record

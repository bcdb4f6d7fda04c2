-- ===== src/Tests/Provisions.antt =====
-- An answer to a provision, put into a record.
use native.Mathlib.Nat.{mul-le-mul_right}
use probavi.Base.{
  ℕ, Bool, ◌*◌, ◌≤◌, ◌≡◌, refl, true, false, ◌⊎◌, inl, inr, Option, none, some, [], ◌++◌, ltb, beq,
  codes, arith, if◌then◌else◌, Bytes,
}
use probavi.Base.Int.{ℤ, pos}
use probavi.Utf8.{valid_string}
use probavi.Evidence.Result.{ok}
use probavi.Evidence.Timestamp.{is_timestamp}
use probavi.Evidence.Validate.{is_sha256_ref, validate}
use probavi.Core.Refuse.{refusal, check_backup_manifest}
use probavi.Core.Execute.{execute, validate_restored, record_provision}
use probavi.Core.Run.{composed}
use probavi.Adapter.Provision.{
  Seconds, Calendar, ProvisionResult, Malformed, timing_nan, timing_too_long,
  validate_provision_result,
}
use probavi.Adapter.Provision.Accepted.{IsRounding, IsCalendar, IsSafe}
use probavi.Adapter.Provision.Recordable.{provisioned, accepted-Recordable}
use probavi.Tests.Samples.{drill, world, filler}

-- Whole numbers; `none` is NaN.
abbrev product : Option ℕ → Option ℕ → Option ℕ
product (some a) (some b) = some (a * b)
product a b = none

abbrev less : Option ℕ → Option ℕ → Bool
less (some a) (some b) = ltb a b
less a b = false

abbrev whole : Seconds (Option ℕ)
whole = record {
  is_nan = λ s. elim s [ none ↦ true | some n ↦ false ];
  is_inf = λ s. false;
  lt = less;
  of_nat = λ n. some n;
  mul = product;
  round = λ s. s;
  to_int = λ s. elim s [ none ↦ pos 0 | some n ↦ pos n ];
}

whole_scaled :
    (s : Option ℕ) (n k : ℕ)
    → whole.is_nan s ≡ false
    → less (some n) s ≡ false
    → (m : ℕ) × (whole.to_int (product s (some k)) ≡ pos m) × (m ≤ n * k)
whole_scaled none n k h l = cc
whole_scaled (some s) n k h l = (s * k, refl, mul-le-mul_right k (ground arith))

whole-IsRounding : IsRounding whole
whole-IsRounding = record { scaled = λ s n k a b c d e f. whole_scaled s n k a d }

-- One instant, written in lower case.
abbrev instant : Bytes
instant = codes "2026-08-01T00:00:00.000Z"

abbrev calendar : Calendar
calendar = record {
  parse = λ s. if beq s (codes "2026-08-01T00:00:00Z") then some (pos 7) else none;
  to_upper = λ s. codes "2026-08-01T00:00:00Z";
  format = λ t. instant;
}

abbrev year : ℤ → ℤ
year t = pos 2026

instant_valid : is_timestamp instant ≡ true
unfolding is_timestamp
instant_valid = refl

calendar-IsCalendar : IsCalendar calendar year
calendar-IsCalendar = record { four_digits = λ t y e l. instant_valid }

abbrev answer : Option Bytes → Option ℕ → ProvisionResult (Option ℕ)
answer created restore = record {
  scheme = codes "postgres";
  source_identity = record {
    checksum = codes "sha256:" ++ filler 64;
    size_bytes = pos 4096;
    created_at = created;
  };
  timings = record {
    engine_ready_seconds = some 3;
    transfer_seconds = some 0;
    restore_seconds = restore;
  };
  state = [];
}

too_long_refused :
    validate_provision_result whole calendar (answer none (some 9007199254741))
    ≡ inl timing_too_long
unfolding validate_provision_result is_sha256_ref beq
too_long_refused = refl

abbrev Answered : Type 0
Answered = Malformed ⊎ ProvisionResult (Option ℕ)

answer_accepted :
    validate_provision_result whole calendar (answer (some (codes "2026-08-01t00:00:00z")) (some 9))
    ≡ inr (answer (some instant) (some 9))
unfolding validate_provision_result is_sha256_ref beq
answer_accepted = refl

nan_refused : validate_provision_result whole calendar (answer none none) ≡ inl timing_nan
unfolding validate_provision_result is_sha256_ref beq
nan_refused = refl

composed_valid : validate (composed drill world) ≡ ok tt
unfolding validate composed execute refusal beq check_backup_manifest validate_restored valid_string
    is_sha256_ref
composed_valid = refl

accepted-Recordable_example :
    (validate (
        record_provision
          (composed drill world)
          (provisioned whole (answer (some instant) (some 9))))
      ≡ ok tt)
    × IsSafe (pos 3000)
    × IsSafe (pos 0)
    × IsSafe (pos 9000)
accepted-Recordable_example =
    accepted-Recordable whole calendar year whole-IsRounding calendar-IsCalendar
      (answer (some (codes "2026-08-01t00:00:00z")) (some 9)) (answer (some instant) (some 9))
      (composed drill world) (λ s t e p. (2026, refl, omega arith)) answer_accepted composed_valid

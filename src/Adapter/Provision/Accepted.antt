-- ===== src/Adapter/Provision/Accepted.antt =====
-- internal/adapter/protocol.go: what an answer without a fault is.
use probavi.Base.{
  ℕ, ◌*◌, ◌-◌, ◌/◌, ◌^◌, arith, ◌≤◌, ◌≡◌, refl, ◌⊎◌, inl, inr, Bool, true, false, not, Option, none,
  some, List, ◌∷◌, if◌then◌else◌, is_empty, subst, Bytes,
}
use probavi.Base.Int.{ℤ, pos, is_negative}
use probavi.Evidence.Result.{ok}
use probavi.Evidence.Timestamp.{is_timestamp, validate_ts}
use probavi.Evidence.Validate.{is_sha256_ref, if_some}
use probavi.Evidence.Canonical.{max_safe_integer}
use probavi.Adapter.Provision.{
  Seconds, Calendar, ProvisionResult, Malformed, max_timing_seconds, seconds_to_ms,
  validate_timing_seconds, validate_timing_list, parse_rfc3339, first_of, formatted,
  normalize_created_at, validate_scheme, unless_malformed, with_created, validate_provision_result,
}

-- The product of a number of seconds from 0 to the integer `n` by an integer `k` is, rounded, an integer
-- from 0 to the product of the two, as long as that is one that a float64 holds exactly.
pub record IsRounding {W : Type 0} (f : Seconds W) : Type 0 where
  pub scaled :
      (s : W) (n k : ℕ)
      → f.is_nan s ≡ false
      → f.is_inf s ≡ false
      → f.lt s (f.of_nat 0) ≡ false
      → f.lt (f.of_nat n) s ≡ false
      → k ≤ max_safe_integer
      → n * k ≤ max_safe_integer
      → (m : ℕ) × (f.to_int (f.round (f.mul s (f.of_nat k))) ≡ pos m) × (m ≤ n * k)

-- An instant whose year has four digits is formatted as a record wants it.
pub record IsCalendar (cal : Calendar) (year : ℤ → ℤ) : Type 0 where
  pub four_digits : (t : ℤ) (y : ℕ) → year t ≡ pos y → y ≤ 9999 → is_timestamp (cal.format t) ≡ true

abbrev pub IsSafe : ℤ → Type 0
IsSafe z = (n : ℕ) × (z ≡ pos n) × (n ≤ max_safe_integer)

-- What an answer without a fault is.
pub record Accepted {W : Type 0} (f : Seconds W) (r : ProvisionResult W) : Type 0 where
  pub checksum : is_sha256_ref r.source_identity.checksum ≡ true
  pub size : is_negative r.source_identity.size_bytes ≡ false
  pub created : if_some r.source_identity.created_at validate_ts ≡ ok tt
  pub engine_ready : IsSafe (seconds_to_ms f r.timings.engine_ready_seconds)
  pub transfer : IsSafe (seconds_to_ms f r.timings.transfer_seconds)
  pub restore : IsSafe (seconds_to_ms f r.timings.restore_seconds)

module _ {W : Type 0} (f : Seconds W) (rounding : IsRounding f) where
  seconds-IsSafe : (s : W) → validate_timing_seconds f s ≡ none → IsSafe (seconds_to_ms f s)
  unfolding validate_timing_seconds
  seconds-IsSafe s h =
      by (f.is_nan s) (f.is_inf s) (f.lt s (f.of_nat 0)) (f.lt (max_timing_seconds f) s) refl refl
        refl refl h
    where
      by :
          (a b c d : Bool)
          → f.is_nan s ≡ a
          → f.is_inf s ≡ b
          → f.lt s (f.of_nat 0) ≡ c
          → f.lt (max_timing_seconds f) s ≡ d
          → (if a
              then some Malformed.timing_nan
              else if b
              then some Malformed.timing_infinite
              else if c
              then some Malformed.timing_negative
              else if d
              then some Malformed.timing_too_long
              else none)
            ≡ none
          → IsSafe (seconds_to_ms f s)
      by true b c d p q r t k = cc
      by false true c d p q r t k = cc
      by false false true d p q r t k = cc
      by false false false true p q r t k = cc
      by false false false false p q r t k =
          let (m, same, small) =
            rounding.scaled s ((2 ^ 53 - 1) / 1000) 1000 p q r t (omega arith) (omega arith) in
          (m, same, omega arith)

  list-IsSafe :
      (s : W) (ss : List W)
      → validate_timing_list f (s ∷ ss) ≡ none
      → IsSafe (seconds_to_ms f s) × (validate_timing_list f ss ≡ none)
  unfolding validate_timing_list
  list-IsSafe s ss h =
      let (a, b) = split (validate_timing_seconds f s) (validate_timing_list f ss) h in
      (seconds-IsSafe s a, b)
    where
      split : (a b : Option Malformed) → first_of a b ≡ none → (a ≡ none) × (b ≡ none)
      split none b k = (refl, k)
      split (some m) b k = cc

  scheme-same : (r r' : ProvisionResult W) → validate_scheme r ≡ inr r' → r ≡ r'
  scheme-same r r' h = by (is_empty r.scheme) h
    where
      by :
          (b : Bool)
          → Path
              (Malformed ⊎ ProvisionResult W)
              (if b then inl Malformed.scheme_empty else inr r)
              (inr r')
          → r ≡ r'
      by true k = cc
      by false k = cc

  timings-IsSafe :
      (o : Option Malformed) (r r' : ProvisionResult W)
      → unless_malformed o r ≡ inr r'
      → (o ≡ none) × (r ≡ r')
  timings-IsSafe none r r' h = (refl, scheme-same r r' h)
  timings-IsSafe (some m) r r' h = cc

module _ {W : Type 0} (f : Seconds W) (cal : Calendar) (year : ℤ → ℤ) (rounding : IsRounding f)
    (calendar : IsCalendar cal year) where
  -- The instant of the answer, if it has one, is of a year with four digits.
  abbrev pub IsDated : ProvisionResult W → Type 0
  IsDated r =
      (s : Bytes) (t : ℤ)
      → r.source_identity.created_at ≡ some s
      → parse_rfc3339 cal s ≡ some t
      → (y : ℕ) × (year t ≡ pos y) × (y ≤ 9999)

  created-valid :
      (o : Option Bytes) (created : Option Bytes)
      → normalize_created_at cal o ≡ inr created
      → ((s : Bytes) (t : ℤ)
          → o ≡ some s
          → parse_rfc3339 cal s ≡ some t
          → (y : ℕ) × (year t ≡ pos y) × (y ≤ 9999))
      → if_some created validate_ts ≡ ok tt
  unfolding normalize_created_at validate_ts
  created-valid none created h d = subst (λ o. if_some o validate_ts ≡ ok tt) (of_inr h) refl
    where
      of_inr : {a b : Option Bytes} → Path (Malformed ⊎ Option Bytes) (inr a) (inr b) → a ≡ b
      of_inr k = cc
  created-valid (some s) created h d = by (parse_rfc3339 cal s) refl h
    where
      of_inr : {a b : Option Bytes} → Path (Malformed ⊎ Option Bytes) (inr a) (inr b) → a ≡ b
      of_inr k = cc

      by :
          (p : Option ℤ)
          → parse_rfc3339 cal s ≡ p
          → formatted cal p ≡ inr created
          → if_some created validate_ts ≡ ok tt
      by none e k = cc
      by (some t) e k =
          let (y, same, small) = d s t refl e in
          subst (λ o. if_some o validate_ts ≡ ok tt) (of_inr k)
            (rw (calendar.four_digits t y same small) refl)

  created-Accepted :
      (r r' : ProvisionResult W) (x : Malformed ⊎ Option Bytes)
      → is_sha256_ref r.source_identity.checksum ≡ true
      → is_negative r.source_identity.size_bytes ≡ false
      → ((created : Option Bytes) → x ≡ inr created → if_some created validate_ts ≡ ok tt)
      → with_created f r x ≡ inr r'
      → Accepted f r'
  created-Accepted r r' (inl m) c n v h = cc
  created-Accepted r r' (inr created) c n v h =
      let (safe, same) = timings-IsSafe f rounding _ _ r' h in
      let (a, more) = list-IsSafe f rounding _ _ safe in
      let (b, bs) = list-IsSafe f rounding _ _ more in
      let (d, ds) = list-IsSafe f rounding _ _ bs in
      subst (Accepted f) same (record {
        checksum = c;
        size = n;
        created = v created refl;
        engine_ready = a;
        transfer = b;
        restore = d;
      })

  pub result-Accepted :
      (r r' : ProvisionResult W)
      → IsDated r
      → validate_provision_result f cal r ≡ inr r'
      → Accepted f r'
  unfolding validate_provision_result
  result-Accepted r r' d h =
      by (is_sha256_ref r.source_identity.checksum) (is_negative r.source_identity.size_bytes) refl
        refl h
    where
      by :
          (a b : Bool)
          → is_sha256_ref r.source_identity.checksum ≡ a
          → is_negative r.source_identity.size_bytes ≡ b
          → Path
              (Malformed ⊎ ProvisionResult W)
              (if not a
                then inl Malformed.checksum_pattern
                else if b
                then inl Malformed.size_negative
                else with_created f r (normalize_created_at cal r.source_identity.created_at))
              (inr r')
          → Accepted f r'
      by false b p q k = cc
      by true true p q k = cc
      by true false p q k =
          created-Accepted r r' _ p q
            (λ created e. created-valid r.source_identity.created_at created e d) k

-- ===== src/Adapter/Provision/Recordable.antt =====
-- internal/adapter/protocol.go and internal/core/core.go: what a provision answered can go into the
-- record of its drill.
use probavi.Base.{◌≡◌, refl, ap, inr, not, ◌||◌, is_empty}
use probavi.Base.Int.{ℤ, is_negative}
use probavi.Evidence.Codes.{invalid_record}
use probavi.Evidence.Result.{ok, >>-ok, ok->>, require}
use probavi.Evidence.Record.{Record}
use probavi.Evidence.Timestamp.{validate_ts}
use probavi.Evidence.Validate.{
  validate_utf8, validate_identity, validate_outcome, validate_checks, validate_timings,
  validate_nested, validate, if_some, not_negative, sha256_rule, is_none,
}
use probavi.Core.World.{Provisioned}
use probavi.Core.Execute.{record_provision}
use probavi.Adapter.Provision.{
  Seconds, Calendar, ProvisionResult, seconds_to_ms, validate_provision_result,
}
use probavi.Adapter.Provision.Accepted.{
  IsRounding, IsCalendar, IsSafe, Accepted, IsDated, result-Accepted,
}

-- What `recordProvision` of internal/core takes from the answer.
abbrev pub provisioned : {W : Type 0} → Seconds W → ProvisionResult W → Provisioned
provisioned f r = record {
  state = r.state;
  checksum = r.source_identity.checksum;
  size_bytes = r.source_identity.size_bytes;
  created_at = r.source_identity.created_at;
  engine_ready = seconds_to_ms f r.timings.engine_ready_seconds;
  transfer = seconds_to_ms f r.timings.transfer_seconds;
  restore = seconds_to_ms f r.timings.restore_seconds;
}

module _ {W : Type 0} (f : Seconds W) where
  at_least_zero : (z : ℤ) → IsSafe z → require (not (is_negative z)) invalid_record ≡ ok tt
  at_least_zero z (n, e, l) = rw e refl

  timings-kept :
      (rec : Record) (r : ProvisionResult W)
      → Accepted f r
      → validate_timings rec.timings ≡ ok tt
      → validate_timings (record_provision rec (provisioned f r)).timings ≡ ok tt
  unfolding validate_timings record_provision
  timings-kept rec r a h =
      let (provision, h1) = >>-ok (not_negative rec.timings.provision) _ h in
      let (engine, h2) = >>-ok (not_negative rec.timings.engine_ready) _ h1 in
      let (transfer, h3) = >>-ok (not_negative rec.timings.transfer) _ h2 in
      let (restore, tail) = >>-ok (not_negative rec.timings.restore) _ h3 in
      ok->> _ _ provision (
        ok->> _ _ (at_least_zero _ a.engine_ready)
          (ok->> _ _ (at_least_zero _ a.transfer) (ok->> _ _ (at_least_zero _ a.restore) tail)))

  nested-kept :
      (rec : Record) (r : ProvisionResult W)
      → Accepted f r
      → validate_nested rec ≡ ok tt
      → validate_nested (record_provision rec (provisioned f r)) ≡ ok tt
  unfolding validate_nested record_provision
  nested-kept rec r a h =
      let (kind, h1) = >>-ok (require (not (is_empty rec.backup.kind)) invalid_record) _ h in
      let (checksum, h2) = >>-ok (if_some rec.backup.checksum sha256_rule) _ h1 in
      let (created, h3) = >>-ok (if_some rec.backup.created_at validate_ts) _ h2 in
      let (size, h4) = >>-ok (not_negative rec.backup.size_bytes) _ h3 in
      let (named, h5) =
        >>-ok
          (require (not (is_empty rec.adapter.name || is_empty rec.adapter.protocol))
            invalid_record)
          _ h4 in
      let (digest, h6) = >>-ok (if_some rec.adapter.digest sha256_rule) _ h5 in
      let (provider, h7) =
        >>-ok (require (not (is_empty rec.sandbox.provider)) invalid_record) _ h6 in
      let (params, h8) = >>-ok (require (not (is_none rec.sandbox.params)) invalid_record) _ h7 in
      let (timings, env) = >>-ok (validate_timings rec.timings) _ h8 in
      ok->> _ _ kind (
        ok->> _ _ (ap (λ b. require b invalid_record) a.checksum) (
          ok->> _ _ a.created (
            ok->> _ _ (ap (λ b. require (not b) invalid_record) a.size) (
              ok->> _ _ named (
                ok->> _ _ digest (
                  ok->> _ _ provider
                    (ok->> _ _ params (ok->> _ _ (timings-kept rec r a timings) env))))))))

module _ {W : Type 0} (f : Seconds W) (cal : Calendar) (year : ℤ → ℤ) (rounding : IsRounding f)
    (calendar : IsCalendar cal year) where
  -- If an adapter's answer to a provision is accepted, and its instant, if it has one, is of a year with
  -- four digits, then a record that passes the store's validation passes it with the answer in it, and
  -- the durations of the answer are numbers that the canonical form can carry.
  pub accepted-Recordable :
      (r r' : ProvisionResult W) (rec : Record)
      → IsDated f cal year rounding calendar r
      → validate_provision_result f cal r ≡ inr r'
      → validate rec ≡ ok tt
      → (validate (record_provision rec (provisioned f r')) ≡ ok tt)
        × IsSafe (provisioned f r').engine_ready
        × IsSafe (provisioned f r').transfer
        × IsSafe (provisioned f r').restore
  unfolding validate validate_utf8 validate_identity validate_outcome validate_checks
      record_provision
  accepted-Recordable r r' rec d h v =
      let a = result-Accepted f cal year rounding calendar r r' d h in
      let (utf8, h1) = >>-ok (validate_utf8 rec) _ v in
      let (identity, h2) = >>-ok (validate_identity rec) _ h1 in
      let (outcome, h3) = >>-ok (validate_outcome rec) _ h2 in
      let (checks, nested) = >>-ok (validate_checks rec) _ h3 in
      let kept = record_provision rec (provisioned f r') in
      (
        ok->> (validate_utf8 kept) _ utf8 (
            ok->> (validate_identity kept) _ identity (
              ok->> (validate_outcome kept) _ outcome
                (ok->> (validate_checks kept) _ checks (nested-kept f rec r' a nested)))),
        a.engine_ready,
        a.transfer,
        a.restore,
      )

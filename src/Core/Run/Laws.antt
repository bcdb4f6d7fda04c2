-- ===== src/Core/Run/Laws.antt =====
-- The record that replaces a rejected one is one that the store takes.
use probavi.Base.{ℕ, ◌≤◌, ◌≡◌, ◌≢◌, ap, true, false, some, [], le→leb, Bytes}
use probavi.Base.Int.{is_negative}
use probavi.Evidence.Codes.{invalid_record}
use probavi.Evidence.Result.{ok, require}
use probavi.Evidence.Timestamp.{is_timestamp, validate_ts}
use probavi.Evidence.Validate.{is_sha256_ref, is_host_id, if_some, validate}
use probavi.Core.Message.Laws.{IsLine}
use probavi.Core.World.{Drill, World}
use probavi.Core.Execute.{base_record, host_id, ms_since}
use probavi.Core.Execute.Keeps.{origin, Origin, origin-execute}
use probavi.Core.Run.{degraded, composed}
use probavi.Core.Run.Degraded.{IsPlain, degraded-validate}

-- What the loader, the host and the standard library give a drill.
pub record IsSound (d : Drill) (w : World) : Type 0 where
  pub stamped : is_timestamp (w.format w.degraded_now) ≡ true
  pub hash : is_sha256_ref d.config.hash ≡ true
  pub target : if_some d.config.pitr validate_ts ≡ ok tt
  pub adapter_digest :
      if_some d.adapter_digest (λ s. require (is_sha256_ref s) invalid_record) ≡ ok tt
  pub self_digest : if_some d.self_digest (λ s. require (is_sha256_ref s) invalid_record) ≡ ok tt
  pub monotonic : w.started ≤ w.ended
  pub os : IsLine 256 d.os
  pub os_ne_nil : d.os ≢ []
  pub arch : IsLine 256 d.arch
  pub arch_ne_nil : d.arch ≢ []
  pub host : is_host_id (host_id d) ≡ true

origin-composed :
    (d : Drill) (w : World)
    → origin (composed d w)
      ≡ origin (record (base_record d) {
        timings = record (base_record d).timings { total = some (ms_since w.started w.ended) };
      })
unfolding composed
origin-composed d w =
    ap (λ (o : Origin). record o { total = some (ms_since w.started w.ended) })
      (origin-execute d w (base_record d))

ms_since-pos : (a b : ℕ) → a ≤ b → is_negative (ms_since a b) ≡ false
unfolding ms_since
ms_since-pos a b h = rw (le→leb a b h)

IsSound-IsPlain : (d : Drill) (w : World) → IsSound d w → IsPlain d w (composed d w)
unfolding base_record
IsSound-IsPlain d w s = record {
  stamped = s.stamped;
  hash = s.hash;
  target = rw (ap (λ (o : Origin). o.drill.pitr_target) (origin-composed d w)) s.target;
  adapter_digest = rw (ap (λ (o : Origin). o.digest) (origin-composed d w)) s.adapter_digest;
  total =
      rw (ap (λ (o : Origin). o.total) (origin-composed d w))
        (rw (ms_since-pos w.started w.ended s.monotonic));
  os = s.os;
  os_ne_nil = s.os_ne_nil;
  arch = s.arch;
  arch_ne_nil = s.arch_ne_nil;
  host = s.host;
  self_digest = rw (ap (λ (o : Origin). o.self_digest) (origin-composed d w)) s.self_digest;
}

-- When the composed record of a sound drill is rejected, for whatever cause, the record that
-- replaces it passes the store's validation: nothing that an adapter, a database or an operator's
-- parameter said can make it fail in turn.
pub degraded-composed_validate :
    (d : Drill) (w : World) (cause : Bytes)
    → IsSound d w
    → validate (degraded d w (composed d w) cause) ≡ ok tt
degraded-composed_validate d w cause s =
    degraded-validate d w (composed d w) cause (IsSound-IsPlain d w s)

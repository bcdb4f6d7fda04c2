-- ===== src/Evidence/Witness/Verdict.antt =====
-- What a verdict with a witness is worth.
use probavi.Base.{
  ◌≡◌, ◌≢◌, refl, sym, ap, inl, inr, true, false, some, [], Bool-cases, ◌==◌, is_empty-of_ne, Bytes,
}
use probavi.Evidence.Anchor.{head_string}
use probavi.Evidence.Walk.{Status, valid, valid_with_damage, not_valid, Report}
use probavi.Evidence.Witness.{
  Exit, succeeded, exited, not_run, Host, Witnessed, answer_of, settle, is_invalid, witnessed,
}

-- The witness was asked about the head of the report, and said yes; the report is as it was.
pub record IsAttested (host : Host) (res : Report) (command : Bytes) (r : Witnessed) : Type 0 where
  pub before : res.status ≢ not_valid
  pub same : r.report ≡ res
  pub said : Bytes
  pub asked : host.run command (head_string res.head) ≡ succeeded said

settled-IsAttested :
    (host : Host) (res : Report) (command : Bytes) (e : Exit) (r : Witnessed)
    → settle res command (answer_of host command e) ≡ some r
    → r.report.status ≢ not_valid
    → (r.report ≡ res) × (said : Bytes) × (e ≡ succeeded said)
unfolding settle answer_of
settled-IsAttested host res command (succeeded out) r h v =
    (ap (λ (x : Witnessed). x.report) (sym (the h)), out, refl)
  where
    the : {a b : Witnessed} → some a ≡ some b → a ≡ b
    the h = cc
settled-IsAttested host res command (exited status said) r h v = elim (Bool-cases (status == 1)) [
  | inl e ↦ absurd (v (refused (rw e at h) refl))
  | inr e ↦ absurd (cc (rw e at h))
]
  where
    refused :
        {a b : Witnessed}
        → some a ≡ some b
        → a.report.status ≡ not_valid
        → b.report.status ≡ not_valid
    refused h k = cc
settled-IsAttested host res command (not_run said) r h v = cc

status-cases : (s : Status) → is_invalid s ≡ false → s ≢ not_valid
status-cases valid h = λ e. cc
status-cases valid_with_damage h = λ e. cc
status-cases not_valid h = cc

-- If a command is named, a verdict other than INVALID that comes back is the verdict that went in,
-- and the command was run on the head of that report and succeeded.
pub witnessed-IsAttested :
    (host : Host) (res : Report) (command : Bytes) (r : Witnessed)
    → command ≢ []
    → witnessed host res command ≡ some r
    → r.report.status ≢ not_valid
    → IsAttested host res command r
unfolding witnessed
witnessed-IsAttested host res command r n h v = elim (Bool-cases (is_invalid res.status)) [
  | inl i ↦ absurd (v (kept (rw (is_empty-of_ne command n, i) at h) (invalid-status res.status i)))
  | inr i ↦
      let (same, said, ran) =
        settled-IsAttested host res command (host.run command (head_string res.head)) r
          (rw (is_empty-of_ne command n, i) at h) v in
      record { before = status-cases res.status i; same = same; said = said; asked = ran }
]
  where
    kept :
        {a b : Witnessed}
        → some a ≡ some b
        → a.report.status ≡ not_valid
        → b.report.status ≡ not_valid
    kept h k = cc

    invalid-status : (s : Status) → is_invalid s ≡ true → s ≡ not_valid
    invalid-status not_valid e = refl
    invalid-status valid e = cc
    invalid-status valid_with_damage e = cc

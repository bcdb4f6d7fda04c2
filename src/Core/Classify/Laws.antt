-- ===== src/Core/Classify/Laws.antt =====
-- The taxonomy of verdicts: which outcome goes with which error, and that every code is published.
use probavi.Base.{
  ◌≢◌, ◌⊎◌, ne_of_beq, Bool, sym, ap, ◌∙◌, ◌||◌, subst, true≢false, or_cases, ◌≡◌, refl, true,
  false, Option, none, some, Bool-cases, beq, beq_iff, contains, inl, inr, Bytes,
}
use probavi.Evidence.Codes.{
  code_timeout, code_cancelled, is_error_code, code_internal, code_source_not_found,
  code_source_unreadable, code_source_corrupt, code_restore_failed, code_check_failed,
}
use probavi.Evidence.Truncate.{max_error_message_bytes}
use probavi.Evidence.Record.{Outcome, pass, fail, error, cancelled, DrillError, Record}
use probavi.Core.Message.{record_message}
use probavi.Core.Message.Laws.{IsLine, record_message-IsLine}
use probavi.Core.World.{Drill, Failure, CtxErr, deadline_exceeded, canceled, Fault}
use probavi.Core.Classify.{
  fail_codes, coded, outranked, registered, outcome_of, verdict, classify, record_fault,
}

-- A pass has no error; a failure of the backup has a code that says so, a cancelled drill the code
-- of that, and any other error neither.
abbrev pub Agrees : Outcome → Option DrillError → Type 0
Agrees pass none = Unit
Agrees fail (some e) = contains fail_codes e.code ≡ true
Agrees error (some e) = contains fail_codes e.code ≡ false
Agrees cancelled (some e) = e.code ≡ code_cancelled
Agrees _ _ = ⊥

abbrev pub IsVerdict : Record → Type 0
IsVerdict rec = Agrees rec.outcome rec.failure

outcome_of-Agrees : (e : DrillError) → Agrees (outcome_of e.code) (some e)
unfolding outcome_of
outcome_of-Agrees e = elim (Bool-cases (contains fail_codes e.code)) [
  | inl f ↦ rw f f
  | inr f ↦ elim (Bool-cases (beq e.code code_cancelled)) [
    | inl c ↦ rw (f, c) ((beq_iff e.code code_cancelled).0 c)
    | inr c ↦ rw (f, c) f
  ]
]

registered-is_error_code :
    (d : Drill) (cm : Bytes × Bytes) → is_error_code (registered d cm).0 ≡ true
unfolding registered
registered-is_error_code d cm = elim (Bool-cases (is_error_code cm.0)) [
  | inl e ↦ rw e e
  | inr e ↦ rw e (unfold is_error_code beq in refl)
]

-- What a record says of a failure.
pub record Reports (rec : Record) (code : Bytes) : Type 0 where
  pub failure : DrillError
  pub recorded : rec.failure ≡ some failure
  pub code_is : failure.code ≡ code
  pub line : IsLine max_error_message_bytes failure.message

-- The codes that blame the backup or its restore.
abbrev pub BlamesBackup : Bytes → Type 0
BlamesBackup code =
    (code ≡ code_source_not_found)
    ⊎ (code ≡ code_source_unreadable)
    ⊎ (code ≡ code_source_corrupt)
    ⊎ (code ≡ code_restore_failed)
    ⊎ (code ≡ code_check_failed)

-- The outcome that a code stands for.
abbrev pub Told : Outcome → Bytes → Type 0
Told fail code = BlamesBackup code
Told cancelled code = code ≡ code_cancelled
Told error code = (¬ BlamesBackup code) × (code ≢ code_cancelled)
Told _ code = ⊥

-- The code that a failure has by itself.
abbrev pub own_code : Failure → Bytes
own_code f = elim f.adapter [ none ↦ code_internal | some cm ↦ cm.0 ]

-- The code of a verdict: that of the drill's context, if it is done; else the failure's own code, if it
-- is published.
abbrev pub Decided : Option CtxErr → Failure → Bytes → Type 0
Decided (some canceled) f code = code ≡ code_cancelled
Decided (some deadline_exceeded) f code = code ≡ code_timeout
Decided none f code =
    (is_error_code (own_code f) ≡ true → code ≡ own_code f)
    × (is_error_code (own_code f) ≡ false → code ≡ code_internal)

or_else :
    {P : Type 0} (code c : Bytes) (rest : Bool)
    → (beq c code || rest) ≡ true
    → (rest ≡ true → P)
    → (code ≡ c) ⊎ P
or_else code c rest h more = elim (or_cases (beq c code) rest h) [
  | inl e ↦ inl (sym ((beq_iff c code).0 e))
  | inr e ↦ inr (more e)
]

fail_codes-BlamesBackup : (code : Bytes) → contains fail_codes code ≡ true → BlamesBackup code
unfolding contains
fail_codes-BlamesBackup code h = or_else code code_source_not_found _ h (λ h.
    or_else code code_source_unreadable _ h (λ h. or_else code code_source_corrupt _ h (λ h.
      or_else code code_restore_failed _ h (λ h.
        elim (or_cases (beq code_check_failed code) false h) [
          | inl e ↦ sym ((beq_iff code_check_failed code).0 e)
          | inr e ↦ cc
        ]))))

BlamesBackup-fail_codes : (code : Bytes) → contains fail_codes code ≡ false → ¬ BlamesBackup code
BlamesBackup-fail_codes code h b = elim b [
  | inl e ↦ not_among code_source_not_found (unfold contains beq in refl) e
  | inr (inl e) ↦ not_among code_source_unreadable (unfold contains beq in refl) e
  | inr (inr (inl e)) ↦ not_among code_source_corrupt (unfold contains beq in refl) e
  | inr (inr (inr (inl e))) ↦ not_among code_restore_failed (unfold contains beq in refl) e
  | inr (inr (inr (inr e))) ↦ not_among code_check_failed (unfold contains beq in refl) e
]
  where
    not_among : (c : Bytes) → contains fail_codes c ≡ true → code ≢ c
    not_among c t e = true≢false (sym t ∙ ap (contains fail_codes) (sym e) ∙ h)

outcome_of-Told : (code : Bytes) → Told (outcome_of code) code
unfolding outcome_of
outcome_of-Told code = elim (Bool-cases (contains fail_codes code)) [
  | inl f ↦ rw f (fail_codes-BlamesBackup code f)
  | inr f ↦ elim (Bool-cases (beq code code_cancelled)) [
    | inl c ↦ rw (f, c) ((beq_iff code code_cancelled).0 c)
    | inr c ↦ rw (f, c) (BlamesBackup-fail_codes code f, ne_of_beq code code_cancelled c)
  ]
]

registered-Decided :
    (d : Drill) (cm : Bytes × Bytes)
    → (is_error_code cm.0 ≡ true → (registered d cm).0 ≡ cm.0)
      × (is_error_code cm.0 ≡ false → (registered d cm).0 ≡ code_internal)
unfolding registered
registered-Decided d cm = (λ h. rw h refl, λ h. rw h refl)

coded-own_code :
    (o : Option (Bytes × Bytes)) (text : Bytes)
    → (coded (record { adapter = o; text = text })).0
      ≡ own_code (record { adapter = o; text = text })
unfolding coded
coded-own_code none text = refl
coded-own_code (some cm) text = refl

verdict-Decided :
    (d : Drill) (ctx : Option CtxErr) (f : Failure) → Decided ctx f (verdict d ctx f).0
unfolding verdict outranked
verdict-Decided d (some canceled) f = unfold registered is_error_code contains beq in refl
verdict-Decided d (some deadline_exceeded) f = unfold registered is_error_code contains beq in refl
verdict-Decided d none f =
    subst
      (λ c.
        (is_error_code c ≡ true → (registered d (coded f)).0 ≡ c)
        × (is_error_code c ≡ false → (registered d (coded f)).0 ≡ code_internal))
      (coded-own_code f.adapter f.text) (registered-Decided d (coded f))

-- Whatever went wrong, and whatever code and text the adapter sent: the verdict has the code of the
-- drill's context if that is done, and else the adapter's own if it is published; the record fails
-- exactly with a code that blames the backup, is cancelled exactly with the code of that, and is an
-- error with any other, all of them published; and its message is one line of valid UTF-8 within the
-- limit.
pub classify-IsVerdict :
    (d : Drill) (ctx : Option CtxErr) (f : Failure) (rec : Record)
    → Decided ctx f (verdict d ctx f).0
      × Told (classify d ctx f rec).outcome (verdict d ctx f).0
      × Reports (classify d ctx f rec) (verdict d ctx f).0
      × (is_error_code (verdict d ctx f).0 ≡ true)
unfolding classify
classify-IsVerdict d ctx f rec = (
  verdict-Decided d ctx f,
  outcome_of-Told (verdict d ctx f).0,
  record {
    failure = record {
      code = (verdict d ctx f).0;
      message = record_message d.redactor (verdict d ctx f).1;
    };
    recorded = refl;
    code_is = refl;
    line = record_message-IsLine d.redactor (verdict d ctx f).1;
  },
  unfold verdict in registered-is_error_code d (outranked ctx (coded f)),
)

-- The outcome of a failure goes with its code.
pub classified-IsVerdict :
    (d : Drill) (ctx : Option CtxErr) (f : Failure) (rec : Record)
    → IsVerdict (classify d ctx f rec)
unfolding classify
classified-IsVerdict d ctx f rec =
    outcome_of-Agrees (record {
      code = (verdict d ctx f).0;
      message = record_message d.redactor (verdict d ctx f).1;
    })

-- A drill that was cancelled or ran out of time says so, whatever the adapter reported.
pub verdict_of_ctx :
    (d : Drill) (f : Failure)
    → ((verdict d (some canceled) f).0 ≡ code_cancelled)
      × ((verdict d (some deadline_exceeded) f).0 ≡ code_timeout)
      × ((rec : Record) → (classify d (some canceled) f rec).outcome ≡ cancelled)
      × ((rec : Record) → (classify d (some deadline_exceeded) f rec).outcome ≡ error)
unfolding verdict registered outranked classify outcome_of is_error_code contains beq
verdict_of_ctx d f = (refl, refl, λ rec. refl, λ rec. refl)

pub record_fault-IsVerdict :
    (d : Drill) (fault : Fault) (rec : Record) → IsVerdict (record_fault d fault rec)
unfolding record_fault
record_fault-IsVerdict d fault rec = elim (Bool-cases (contains fail_codes fault.code)) [
  | inl e ↦ rw e e
  | inr e ↦ rw e e
]

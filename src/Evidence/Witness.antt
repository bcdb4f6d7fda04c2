-- ===== src/Evidence/Witness.antt =====
-- internal/evidence/witness.go: what a witness other than the operator makes of a verdict. The command
-- of the witness is run by the host.
pub mod Verdict
use probavi.Base.{
  ℕ, Bool, true, false, not, ◌||◌, Option, none, some, List, [], ◌∷◌, ◌==◌, if◌then◌else◌, is_empty,
  Bytes,
}
use probavi.Evidence.Anchor.{head_string}
use probavi.Evidence.Walk.{
  Head, Status, valid, valid_with_damage, not_valid, Report, no_attestation,
}

-- How a command ended, with what it wrote on stdout and on stderr.
pub data Exit : Type 0 where
  succeeded : Bytes → Exit
  exited : ℕ → Bytes → Exit
  not_run : Bytes → Exit

-- `exec.Command` with one argument, `strings.TrimSpace`, and whether `time.Parse` reads RFC 3339.
pub record Host : Type 0 where
  pub run : Bytes → Bytes → Exit
  pub trim_space : Bytes → Bytes
  pub is_rfc3339 : Bytes → Bool

-- `Witness`.
pub record Witness : Type 0 where
  pub command : Bytes
  pub attested : Bool
  pub attested_at : Option Bytes

-- What stands in front of the first newline.
unfoldable pub before_newline : Bytes → Bytes
before_newline [] = []
before_newline (c ∷ s) = let rest = before_newline s in if c == b'\n' then [] else c ∷ rest

unfoldable pub first_line : Host → Bytes → Bytes
unfolding before_newline
first_line host s = host.trim_space (before_newline s)

-- `attestedAt`.
unfoldable pub attested_at : Host → Bytes → Option Bytes
unfolding first_line
attested_at host out =
    if is_empty (first_line host out) || not (host.is_rfc3339 (first_line host out))
    then none
    else some (first_line host out)

-- `askWitness`, once the command has ended; `none` is `ErrWitnessFailed`.
unfoldable pub answer_of : Host → Bytes → Exit → Option (Witness × Bytes)
unfolding attested_at
answer_of host command (succeeded out) =
    some (record { command = command; attested = true; attested_at = attested_at host out }, [])
answer_of host command (exited status said) =
    if status == 1
    then some
        (record { command = command; attested = false; attested_at = none }, first_line host said)
    else none
answer_of host command (not_run said) = none

-- A report with the field `Witness`.
pub record Witnessed : Type 0 where
  pub report : Report
  pub witness : Option Witness

-- The end of `Witnessed`, behind the answer.
unfoldable pub settle : Report → Bytes → Option (Witness × Bytes) → Option Witnessed
settle res command none = none
settle res command (some (w, detail)) =
    if not w.attested
    then some (record {
      report = record res {
        status = not_valid;
        failed_line = 0;
        reason = some (no_attestation command res.head detail);
      };
      witness = some w;
    })
    else some (record { report = res; witness = some w })

abbrev pub is_invalid : Status → Bool
is_invalid not_valid = true
is_invalid valid = false
is_invalid valid_with_damage = false

-- `Witnessed`; `none` is an error.
unfoldable pub witnessed : Host → Report → Bytes → Option Witnessed
unfolding answer_of settle
witnessed host res command =
    if is_empty command || is_invalid res.status
    then some (record { report = res; witness = none })
    else settle res command (answer_of host command (host.run command (head_string res.head)))

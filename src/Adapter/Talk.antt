-- ===== src/Adapter/Talk.antt =====
-- internal/adapter/session.go: `do`, `readLoop` and `readMessage`. The process, its pipes and its
-- reaping are the host's: it answers with the lines of standard output, and how the process ended.
use probavi.Base.{
  Bool, true, false, not, ◌⊎◌, inl, inr, Option, none, some, List, [], ◌∷◌, if◌then◌else◌, beq,
  Bytes,
}
use probavi.Adapter.Verbs.{SandboxCall, Dispatched, SandboxVerbs, Operation, dispatch_verb}

-- `Error`, by its code and message.
abbrev pub ProtocolError : Type 0
ProtocolError = Bytes × Bytes

-- `envelope`, as far as it is read.
pub record Envelope : Type 0 where
  pub protocol : Bytes
  pub request_id : Bytes
  pub payload : Bytes
  pub sandbox_call : Option SandboxCall
  pub ok : Option Bool
  pub failure : Option ProtocolError

-- What the scanner answers: a line as the decoder reads it, one over the frame limit, or an error. At
-- the end of the list the output has ended.
pub data Scanned : Type 0 where
  line : Option Envelope → Scanned
  too_long unreadable : Scanned

-- Why an operation is a crash of the adapter.
pub data Crash : Type 0 where
  frame_limit read_failed no_final not_message wrong_protocol wrong_request : Crash
  call_forbidden write_failed no_kind request_failed exit_failed no_error_object : Crash

pub data Ended : Type 0 where
  final : Envelope → Ended
  crashed : Crash → Ended

-- How the reading ended, and the calls that were fulfilled.
pub record Talk : Type 0 where
  pub ended : Ended
  pub calls : List Dispatched

abbrev pub without_calls : Ended → Talk
without_calls e = record { ended = e; calls = [] }

-- `readMessage`, behind the decoder.
unfoldable pub check_message : Operation → Option Envelope → Crash ⊎ Envelope
check_message o none = inl not_message
check_message o (some e) =
    if not (beq e.protocol o.protocol)
    then inl wrong_protocol
    else if not (beq e.request_id o.request_id)
    then inl wrong_request
    else inr e

abbrev pub after_write : Bool → Dispatched → Talk → Talk
after_write true d rest = record { ended = crashed write_failed; calls = d ∷ [] }
after_write false d rest = record { ended = rest.ended; calls = d ∷ rest.calls }

abbrev pub answered_call : Operation → Dispatched → Talk → Talk
answered_call o d rest = after_write (o.write_fails d) d rest

abbrev pub on_call : Operation → Option SandboxVerbs → SandboxCall → Talk → Talk
on_call o none call rest = without_calls (crashed call_forbidden)
on_call o (some verbs) call rest = answered_call o (dispatch_verb o verbs call) rest

abbrev pub on_final : Envelope → Option Bool → Talk
on_final e none = without_calls (crashed no_kind)
on_final e (some b) = without_calls (final e)

abbrev pub on_kind : Operation → Envelope → Option SandboxCall → Talk → Talk
on_kind o e (some call) rest = on_call o o.verbs call rest
on_kind o e none rest = on_final e e.ok

abbrev pub on_message : Operation → Crash ⊎ Envelope → Talk → Talk
on_message o (inl c) rest = without_calls (crashed c)
on_message o (inr e) rest = on_kind o e e.sandbox_call rest

-- `readLoop`.
unfoldable pub read_loop : Operation → List Scanned → Talk
unfolding check_message dispatch_verb
read_loop o [] = without_calls (crashed no_final)
read_loop o (too_long ∷ ms) = without_calls (crashed frame_limit)
read_loop o (unreadable ∷ ms) = without_calls (crashed read_failed)
read_loop o (line l ∷ ms) = on_message o (check_message o l) (read_loop o ms)

-- What `wait` returns: no error, one of our own cancellation, or another.
pub data Exit : Type 0 where
  clean ours broken : Exit

pub data Answer : Type 0 where
  payload : Bytes → Answer
  failed : ProtocolError → Answer
  crash : Crash → Answer

abbrev pub on_error : Option ProtocolError → Answer
on_error none = crash no_error_object
on_error (some e) = failed e

abbrev pub on_ok : Envelope → Option Bool → Answer
on_ok e (some true) = payload e.payload
on_ok e _ = on_error e.failure

-- The end of `do`.
unfoldable pub conclude : Ended → Exit → Answer
conclude (crashed c) x = crash c
conclude (final e) broken = crash exit_failed
conclude (final e) clean = on_ok e e.ok
conclude (final e) ours = on_ok e e.ok

-- `do`, once the process was started; `sent` says whether the request could be written, or the pipe
-- was closed.
unfoldable pub operate : Operation → Bool → List Scanned → Exit → Answer
unfolding read_loop conclude
operate o sent ms x = if sent then conclude (read_loop o ms).ended x else crash request_failed

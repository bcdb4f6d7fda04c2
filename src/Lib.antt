-- ===== src/Lib.antt =====
-- Probavi restores backups in throw-away sandboxes and writes one signed record of each such drill
-- into an append-only log. This library models the core of that: the composition of a record from
-- the answers of the collaborators (internal/core), the record and its validation, its canonical
-- form and the verification of the log (internal/evidence), and the redaction of secrets
-- (internal/redact). Around it stand the operations of an adapter
-- (internal/adapter), the checks of a restored database (internal/checks), the validation of a
-- configuration (internal/config) and the exercises of several drills (internal/gameday).
--
-- The parts. `Drill.Run` in internal/core/core.go asks an adapter for a probe, holds the backup to
-- its manifest, creates a sandbox, restores the backup in it, runs the checks, and fills a record on
-- the way. Every text that failed calls bring goes through the redactor and the shaping of a message.
-- The store of internal/evidence validates the record, signs it and appends its canonical line;
-- `Verify` walks such a log, and a head that was kept elsewhere anchors it.
--
--   Base, Base/Tests, Base/Lists, Base/Int: shared names, tests on numbers, lists, byte strings,
--     and `int64` as a sign with a native number.
--   Utf8, Utf8/Laws: `utf8.ValidString` of the standard library, as an automaton.
--   Redact, Redact/Order, Redact/Mask: internal/redact/redact.go (`New`, `String`).
--   Evidence/Codes, Result: errorcodes.go, the constants and sentinels of evidence.go.
--   Evidence/Truncate: truncate.go (`TruncateLine`).
--   Evidence/Record, Timestamp, Validate: record.go (`Validate` and the methods it calls).
--   Evidence/Json, Canonical and its children, Marshal: canonical.go (`Canonicalize`,
--     `CanonicalizeRecord`), and the members that the struct tags of record.go give a record.
--     Canonical/Keys and its children: `lessUTF16` with the runes and the UTF-16 units that it
--     compares. Canonical/Same says when two values are one, whatever order a Go map has, and
--     Marshal/Exact when two records of valid UTF-8 are. `json.Marshal` writes U+FFFD for each
--     byte of a string that belongs to no rune (`replaced`), so records that differ in such bytes
--     have one form.
--   Evidence/Codec: what the log takes from the standard library: the strict decoder of JSON, the
--     decoding of a struct, SHA-256, ed25519 and base64, as one record of functions.
--   Evidence/Walk and its children: verify.go (`walk`, `step`, `checkAnchor`, `verifySignature`,
--     `Verify`). Walk/Chain says what a log is, without the walk.
--   Evidence/Store and its children: store.go (`Append`, `sealed`, `write`, `resume`,
--     `closeTornTail`). Store/History plays sequences of appends, torn writes and openings.
--   Evidence/Anchor and its children: anchor.go (`ParseAnchor`, `Head.String`).
--   Evidence/Witness, Witness/Verdict: witness.go (`Witnessed`, `askWitness`).
--   Manifest, Manifest/Usable, Complete, Verdict: internal/manifest/manifest.go (`validate`, `Check`,
--     `compare`, `Satisfied`), with the identifiers of internal/config/identifier.go.
--   Config/Gameday and its children: internal/config/gameday.go (`validate`, `cycleMembers`,
--     `Parallelism`). Gameday/Order says what the dependencies must be, without Kahn's algorithm.
--   Adapter and its children: internal/adapter/session.go and verbs.go (`do`, `readLoop`,
--     `dispatchVerb`, `buildEnv`). An adapter is the list of the lines that it writes.
--     Adapter/Provision: internal/adapter/protocol.go (`validateProvisionResult`).
--   Config/Check, Config/Drill and their children: internal/config/config.go and builtins.go
--     (`validate` of the types there). Check/Runnable says what each kind of check needs.
--   Checks and its children: internal/checks/checks.go and runner.go (`Run` and the functions it
--     calls). Checks/Replace says what `strings.ReplaceAll` does. A run is a function of the answers
--     of the sandbox to what was sent before; it returns its results, its error and what it sent and
--     logged.
--   Gameday and its children: internal/gameday/gameday.go (`Run` and the functions it calls).
--     Gameday/Rows says what a member's row is at any time, Gameday/Summaries what a summary owes.
--     Gameday/Uncancelled: what holds as long as the context is not done.
--   Core/World: what a drill is given, its configuration and the answers of its collaborators, each
--     of which the core asks once. Core/Execute also lists the calls that are made, in order,
--     with the answers of Teardown and Destroy, whose failures are logged.
--   Core/Message, Classify, Refuse, Execute, Run: core.go and clock.go (`recordMessage`, `safeText`,
--     `classify`, `teardownReason`, `refusedByProbe`, `checkBackupManifest`, `baseRecord`, `execute`,
--     `Run`, `appendDegraded`).
--   Core/Run/Ledger: drills run one after the other (`Run`) on one log of internal/evidence.
--   Core/Request: core.go (`provisionRequest`, `sourceParams`, `resolvePassword`).
--   Tests: runs on concrete inputs, and each theorem at one.
--
-- How the code is read. A Go string is the list of its bytes. An error of the evidence package is its
-- sentinel, without the wording behind it. `int64` values are exact: a seq grows by one for each
-- line, and 2^63 lines do not fit a log. A function that returns through deferred calls makes them at
-- its end, the last one first. A log is the list of its lines that end in a newline and the rest
-- behind the last of them; the size rule of `readLine` is applied to each. The fuel of
-- `decimal` is its argument and one more, which is more than it has digits; that of `cycleMembers` is
-- the number of the members, each of which is queued once; that of `skipBlockedMembers` is one pass
-- more than members, each pass but the last skipping one. No other function needs fuel.
--
-- The goroutines of an exercise are a list of arrivals: the scheduler takes one at each turn, of any
-- drill that is in flight, with any outcome, and asks the context for its error behind it. So every
-- order in which the drills can end is a list.
--
-- Not modelled: logging (but for the failures of a runner and the audit of a call), the budgets of
-- contexts (a context is what `Err` answers at the end of a phase), the errors of opening, locking,
-- seeking and reading a file, the arithmetic of float64, which the interface
-- `Seconds` of Adapter/Provision stands for (`maxTimingSeconds` and `secondsToMS` are over it), processes, pipes and
-- their deadlines, the containment of a path under the backup source (`sourceGuard` answers as the host
-- does), the decoding of YAML and JSON, the adapters themselves, sandbox providers, push,
-- notifications, metrics, and the command line. `fmt` with %q, `time.Format` and the hash of the host
-- name are functions that the drill brings; `strings.TrimSpace`, the parsers of instants and URLs and
-- the text of a duration are functions that the host brings.
pub mod Base
pub mod Utf8
pub mod Redact
pub mod Evidence
pub mod Manifest
pub mod Adapter
pub mod Checks
pub mod Config
pub mod Gameday
pub mod Core
mod Tests

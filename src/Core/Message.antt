-- ===== src/Core/Message.antt =====
-- internal/core/core.go: `sanitizeMessage`, `recordMessage` and `safeText`, the text that a failure
-- leaves in a record.
pub mod Laws
use probavi.Base.{
  ℕ, zero, suc, ◌-◌, Bool, true, ◌||◌, not, Option, none, some, [], ◌∷◌, ◌++◌, ltb, ◌==◌,
  if◌then◌else◌, length, is_newline, has_newline, codes, is_empty, Bytes,
}
use probavi.Utf8.{lead, rune_rest, valid_string}
use probavi.Redact.{Redactor, string}
use probavi.Evidence.Truncate.{truncate_line, max_error_message_bytes}

-- The UTF-8 form of `utf8.RuneError`.
abbrev pub rune_error : Bytes
rune_error = 0xEF ∷ 0xBF ∷ 0xBD ∷ []

-- `strings.Map` with the closure of `sanitizeMessage`: a line break becomes a blank, each byte that
-- belongs to no rune becomes U+FFFD, and `skip` more bytes of the present rune are copied.
pub map_lines : ℕ → Bytes → Bytes
map_lines skip [] = []
map_lines (suc skip) (c ∷ s) = c ∷ map_lines skip s
map_lines zero (c ∷ s) =
    let broken = rune_error ++ map_lines 0 s in
    let blank = b' ' ∷ map_lines 0 s in
    let copied = λ (n : ℕ). c ∷ map_lines n s in
    elim (rune_rest (lead c) s) [
      | none ↦ broken
      | some n ↦ if is_newline c then blank else copied n
    ]

unfoldable pub sanitize_message : Bytes → Bytes
unfolding map_lines lead rune_rest truncate_line
sanitize_message s = truncate_line (map_lines 0 s) max_error_message_bytes

unfoldable pub record_message : Option Redactor → Bytes → Bytes
unfolding sanitize_message
record_message redactor s = sanitize_message (string redactor s)

unfoldable pub safe_text : Bytes → Bytes → Bytes
unfolding valid_string
safe_text s substitute =
    if is_empty s || not (valid_string s) || has_newline s || ltb 256 (length s)
    then substitute
    else s

-- ===== src/Tests/Text.antt =====
-- Redaction, truncation and messages.
use probavi.Base.{
  true, ◌≢◌, ◌↔◌, ◌≡◌, refl, false, some, List, [], ◌∷◌, ◌++◌, codes, contains, beq, Bytes,
}
use probavi.Redact.{new, string}
use probavi.Redact.Order.{IsOrdered, new-IsOrdered}
use probavi.Redact.Mask.{occurs, string_hides}
use probavi.Evidence.Truncate.{truncate_line}
use probavi.Evidence.Truncate.Laws.{Shortens, truncate_line-Shortens}
use probavi.Core.Message.{sanitize_message}

-- "pé", and the same cut in the middle of the é.
abbrev accented : Bytes
accented = b'p' ∷ 0xC3 ∷ 0xA9 ∷ b'x' ∷ b'y' ∷ b'z' ∷ []

truncate_accented : truncate_line accented 5 ≡ b'p' ∷ codes "..."
unfolding truncate_line
truncate_accented = refl

truncate_line-Shortens_example : Shortens accented 5 (truncate_line accented 5)
truncate_line-Shortens_example = truncate_line-Shortens accented 5

sanitize_broken :
    sanitize_message (b'a' ∷ b'\n' ∷ 0xC3 ∷ b'b' ∷ [])
    ≡ codes "a " ++ 0xEF ∷ 0xBF ∷ 0xBD ∷ b'b' ∷ []
unfolding sanitize_message
sanitize_broken = refl

abbrev secrets : List Bytes
secrets = codes "hunter2" ∷ [] ∷ codes "hunter2-long" ∷ codes "77-00" ∷ codes "hunter2" ∷ []

masked : string (some (new secrets)) (codes "pw=hunter2-long!") ≡ codes "pw=[redacted]!"
unfolding string new contains beq
masked = refl

string_hides_example :
    occurs (codes "77-00") (string (some (new secrets)) (codes "pw=77-00!")) ≡ false
unfolding contains beq
string_hides_example =
    string_hides secrets (codes "77-00") (codes "pw=77-00!") ((λ h. cc), refl) refl

new-IsOrdered_example :
    IsOrdered (new secrets).secrets
    × ((contains (new secrets).secrets (codes "77-00") ≡ true)
        ↔ ((contains secrets (codes "77-00") ≡ true) × (codes "77-00" ≢ [])))
new-IsOrdered_example = new-IsOrdered secrets (codes "77-00")

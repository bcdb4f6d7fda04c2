-- ===== src/Redact.antt =====
-- internal/redact/redact.go: masking the secrets of one drill. A nil redactor is `none`.
pub mod Order
pub mod Mask
use probavi.Base.{
  ℕ, zero, suc, ◌-◌, Bool, true, false, ◌&&◌, ◌||◌, Option, none, some, List, [], ◌∷◌, ◌++◌, ltb,
  ◌==◌, if◌then◌else◌, length, codes, contains, is_empty, Bytes,
}

abbrev pub placeholder : Bytes
placeholder = codes "[redacted]"

pub record Redactor : Type 0 where
  pub secrets : List Bytes

-- `strings.Compare(a, b) <= 0`.
unfoldable pub text_le : Bytes → Bytes → Bool
text_le [] b = true
text_le (x ∷ a) [] = false
text_le (x ∷ a) (y ∷ b) = ltb x y || (x == y && text_le a b)

-- The comparison of `SortFunc`: the longer first, then in byte order.
pub before : Bytes → Bytes → Bool
unfolding text_le
before a b = ltb (length b) (length a) || (length a == length b && text_le a b)

pub insert : Bytes → List Bytes → List Bytes
unfolding before
insert v [] = v ∷ []
insert v (w ∷ ws) = if before v w then v ∷ w ∷ ws else w ∷ insert v ws

-- `slices.SortFunc`.
pub sort : List Bytes → List Bytes
unfolding insert
sort [] = []
sort (v ∷ vs) = insert v (sort vs)

-- One round of the loop of `New`: no empty value, and none twice.
pub gather : List Bytes → Bytes → List Bytes
gather secrets v = if is_empty v || contains secrets v then secrets else secrets ++ v ∷ []

pub collect : List Bytes → List Bytes → List Bytes
unfolding gather
collect secrets [] = secrets
collect secrets (v ∷ vs) = collect (gather secrets v) vs

unfoldable pub new : List Bytes → Redactor
unfolding collect sort
new values = record { secrets = sort (collect [] values) }

unfoldable pub has_prefix : Bytes → Bytes → Bool
has_prefix [] s = true
has_prefix (a ∷ x) [] = false
has_prefix (a ∷ x) (c ∷ s) = a == c && has_prefix x s

-- `strings.ReplaceAll(s, old, placeholder)` for a nonempty `old`; `skip` bytes of a match that was
-- replaced are still to be passed over.
unfoldable pub replace_all : Bytes → ℕ → Bytes → Bytes
replace_all old skip [] = []
replace_all old (suc skip) (c ∷ s) = replace_all old skip s
replace_all old zero (c ∷ s) =
    let masked = placeholder ++ replace_all old (length old - 1) s in
    let copied = c ∷ replace_all old 0 s in if has_prefix old (c ∷ s) then masked else copied

-- The loop of `String`.
pub mask : List Bytes → Bytes → Bytes
mask [] s = s
mask (secret ∷ secrets) s = mask secrets (replace_all secret 0 s)

unfoldable pub string : Option Redactor → Bytes → Bytes
unfolding mask replace_all has_prefix
string none s = s
string (some r) s = mask r.secrets s

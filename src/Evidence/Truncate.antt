-- ===== src/Evidence/Truncate.antt =====
-- internal/evidence/truncate.go: `TruncateLine`. A byte budget is a Go int; a negative one behaves
-- as 0 does.
pub mod Laws
use probavi.Base.{
  ℕ, zero, suc, ◌-◌, Bool, true, none, some, [], ◌++◌, leb, if◌then◌else◌, length, get_elem?, take,
  codes, Bytes,
}
use probavi.Utf8.{rune_start}

abbrev pub max_detail_bytes : ℕ
max_detail_bytes = 256

abbrev pub max_error_message_bytes : ℕ
max_error_message_bytes = 512

abbrev pub ellipsis : Bytes
ellipsis = codes "..."

-- `utf8.RuneStart(s[i])`; the caller's index is in range.
pub starts_at : Bytes → ℕ → Bool
starts_at s i = elim (get_elem? s i) [ none ↦ true | some c ↦ rune_start c ]

-- `for cut > 0 && !utf8.RuneStart(s[cut]) { cut-- }`
pub walk_back : Bytes → ℕ → ℕ
walk_back s zero = 0
walk_back s (suc cut) =
    let rest = walk_back s cut in if starts_at s (suc cut) then suc cut else rest

unfoldable pub truncate_line : Bytes → ℕ → Bytes
unfolding walk_back starts_at
truncate_line s max =
    if leb max 0
    then []
    else if leb (length s) max
    then s
    else if leb max (length ellipsis)
    then take max ellipsis
    else take (walk_back s (max - length ellipsis)) s ++ ellipsis

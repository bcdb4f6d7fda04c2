-- ===== src/Utf8.antt =====
-- Go's unicode/utf8 as the program uses it: `utf8.ValidString`, `utf8.RuneStart`, and the runes
-- that a `range` over a string meets. A string is read by an automaton whose state says which byte
-- may come next.
pub mod Laws
use probavi.Base.{
  ℕ, zero, suc, ◌+◌, ◌≡◌, refl, Bool, true, false, not, Option, none, some, List, [], ◌∷◌, ltb,
  ◌==◌, within, if◌then◌else◌, Bytes,
}

-- `expect lo hi k`: the next byte lies in [lo, hi], and k continuation bytes follow it.
pub data State : Type 0 where
  ready : State
  expect : ℕ → ℕ → ℕ → State
  bad : State

-- The state behind the first byte of a rune.
unfoldable pub lead : ℕ → State
lead c =
    if ltb c 0x80
    then ready
    else if within 0xC2 0xDF c
    then expect 0x80 0xBF 0
    else if c == 0xE0
    then expect 0xA0 0xBF 1
    else if c == 0xED
    then expect 0x80 0x9F 1
    else if within 0xE1 0xEF c
    then expect 0x80 0xBF 1
    else if c == 0xF0
    then expect 0x90 0xBF 2
    else if within 0xF1 0xF3 c
    then expect 0x80 0xBF 2
    else if c == 0xF4
    then expect 0x80 0x8F 2
    else bad

-- The state behind a continuation byte, when k more are wanted.
abbrev pub following : ℕ → State
following zero = ready
following (suc k) = expect 0x80 0xBF k

unfoldable pub next : State → ℕ → State
unfolding lead
next ready c = lead c
next (expect lo hi k) c = if within lo hi c then following k else bad
next bad c = bad

unfoldable pub run : State → Bytes → State
run q [] = q
run q (c ∷ cs) = run (next q c) cs

abbrev pub is_ready : State → Bool
is_ready ready = true
is_ready _ = false

-- `utf8.ValidString`.
unfoldable pub valid_string : Bytes → Bool
unfolding run next
valid_string s = is_ready (run ready s)

-- `utf8.RuneStart`: `b & 0xC0 != 0x80`.
abbrev pub rune_start : ℕ → Bool
rune_start c = not (within 0x80 0xBF c)

-- How many bytes of the string complete the rune that is read up to a state; `none` if they do not.
unfoldable pub rune_rest : State → Bytes → Option ℕ
rune_rest ready s = some 0
rune_rest bad s = none
rune_rest (expect lo hi k) [] = none
rune_rest (expect lo hi k) (c ∷ cs) =
    let rest = rune_rest (following k) cs in
    if within lo hi c then elim rest [ none ↦ none | some n ↦ some (suc n) ] else none

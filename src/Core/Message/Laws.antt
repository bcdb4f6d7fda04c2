-- ===== src/Core/Message/Laws.antt =====
-- Any text at all, masked and sanitised, can stand in a record.
use probavi.Base.{
  ℕ, zero, suc, ◌≤◌, ◌≡◌, refl, Bool, true, false, not, Option, none, some, [], ◌∷◌, ◌++◌, arith,
  within, ◌⊎◌, inl, inr, Bool-cases, Option-cases, ◌≢◌, is_empty, ne_of_is_empty, ltb, ◌||◌,
  and_intro, all-append, length, all, is_newline, has_newline, Bytes,
}
use probavi.Utf8.{
  State, ready, expect, bad, lead, next, following, run, is_ready, rune_rest, valid_string,
}
use probavi.Utf8.Laws.{InRange, next-InRange}
use probavi.Redact.{Redactor, string}
use probavi.Evidence.Truncate.{truncate_line, max_error_message_bytes}
use probavi.Evidence.Truncate.Laws.{truncate_line-Shortens, all-truncate_line}
use probavi.Core.Message.{rune_error, map_lines, sanitize_message, record_message, safe_text}

rest-zero : (s : Bytes) → rune_rest ready s ≡ some 0
unfolding rune_rest
rest-zero s = refl

rest_ready : (n : ℕ) (s : Bytes) → rune_rest ready s ≡ some n → n ≡ 0
unfolding rune_rest
rest_ready n s h = ground arith

rest-bad : (n : ℕ) (s : Bytes) → rune_rest bad s ≡ some n → ⊥
unfolding rune_rest
rest-bad n s h = cc

rest-nil : (lo hi k n : ℕ) → rune_rest (expect lo hi k) [] ≡ some n → ⊥
unfolding rune_rest
rest-nil lo hi k n h = cc

rest-cons :
    (lo hi k n c : ℕ) (s : Bytes)
    → rune_rest (expect lo hi k) (c ∷ s) ≡ some n
    → (m : ℕ) × (n ≡ suc m) × (within lo hi c ≡ true) × (rune_rest (following k) s ≡ some m)
unfolding rune_rest
rest-cons lo hi k n c s h = elim (Option-cases (rune_rest (following k) s)) [
  | inl e ↦ absurd (ground (arith, e))
  | inr (m, e) ↦ (m, ground (arith, e), ground (arith, e), e)
]

run-rune_error :
    (s : Bytes) → is_ready (run ready s) ≡ true → is_ready (run ready (rune_error ++ s)) ≡ true
unfolding run next lead
run-rune_error s h = h

run-blank : (s : Bytes) → is_ready (run ready s) ≡ true → is_ready (run ready (b' ' ∷ s)) ≡ true
unfolding run next lead
run-blank s h = h

run-lead :
    (c : ℕ) (s : Bytes) → is_ready (run (lead c) s) ≡ true → is_ready (run ready (c ∷ s)) ≡ true
unfolding run next
run-lead c s h = h

next_in_range : (lo hi k c : ℕ) → within lo hi c ≡ true → next (expect lo hi k) c ≡ following k
unfolding next
next_in_range lo hi k c i = rw i

run-expect :
    (lo hi k m c : ℕ) (s : Bytes)
    → within lo hi c ≡ true
    → is_ready (run (following k) (map_lines m s)) ≡ true
    → is_ready (run (expect lo hi k) (map_lines (suc m) (c ∷ s))) ≡ true
unfolding run map_lines
run-expect lo hi k m c s i h = rw (next_in_range lo hi k c i, run) h

-- No byte of a rune of several bytes is a line break.
abbrev single_line : ℕ → Bool
single_line c = not (is_newline c)

single_line_in_range :
    (lo hi c : ℕ) → (0x80 ≤ lo) × (hi ≤ 0xBF) → within lo hi c ≡ true → single_line c ≡ true
single_line_in_range lo hi c i w = ground arith

lead-InRange : (c : ℕ) → InRange (lead c)
unfolding next
lead-InRange c = next-InRange ready c tt

following-InRange : (k : ℕ) → InRange (following k)
following-InRange zero = tt
following-InRange (suc k) = (omega arith, omega arith)

map_lines_copied : (n c : ℕ) (s : Bytes) → map_lines (suc n) (c ∷ s) ≡ c ∷ map_lines n s
unfolding map_lines
map_lines_copied n c s = refl

-- One rune of the output, by the three cases of the closure.
map_lines_cases :
    (c : ℕ) (s : Bytes)
    → (rune_rest (lead c) s ≡ none) × (map_lines 0 (c ∷ s) ≡ rune_error ++ map_lines 0 s)
      ⊎ (is_newline c ≡ true) × (map_lines 0 (c ∷ s) ≡ b' ' ∷ map_lines 0 s)
      ⊎ (is_newline c ≡ false)
        × ((n : ℕ) × (rune_rest (lead c) s ≡ some n) × (map_lines 0 (c ∷ s) ≡ c ∷ map_lines n s))
unfolding map_lines
map_lines_cases c s = elim (Option-cases (rune_rest (lead c) s)) [
  | inl e ↦ inl (e, rw (e, map_lines))
  | inr (n, e) ↦ elim (Bool-cases (is_newline c)) [
    | inl b ↦ inr (inl (b, rw (e, map_lines) (rw b)))
    | inr b ↦ inr (inr (b, (n, e, rw (e, map_lines) (rw b))))
  ]
]

-- The copied tail of a rune completes it, and what follows it is valid again.
map_lines-is_ready :
    (q : State) (n : ℕ) (s : Bytes)
    → rune_rest q s ≡ some n
    → is_ready (run q (map_lines n s)) ≡ true
map_lines-is_ready ready n [] h = unfold map_lines run in refl
map_lines-is_ready ready n (c ∷ s) h = rw (rest_ready n (c ∷ s) h) (elim (map_lines_cases c s) [
  | inl (e, m) ↦ rw m (run-rune_error _ (map_lines-is_ready ready 0 s (rest-zero s)))
  | inr (inl (e, m)) ↦ rw m (run-blank _ (map_lines-is_ready ready 0 s (rest-zero s)))
  | inr (inr (e, (k, r, m))) ↦ rw m (run-lead c _ (map_lines-is_ready (lead c) k s r))
])
map_lines-is_ready (expect lo hi k) n [] h = absurd (rest-nil lo hi k n h)
map_lines-is_ready (expect lo hi k) n (c ∷ s) h =
    let (m, e, i, r) = rest-cons lo hi k n c s h in
    rw e (run-expect lo hi k m c s i (map_lines-is_ready (following k) m s r))
map_lines-is_ready bad n s h = absurd (rest-bad n s h)

map_lines-single_line :
    (q : State) (n : ℕ) (s : Bytes)
    → InRange q
    → rune_rest q s ≡ some n
    → all single_line (map_lines n s) ≡ true
map_lines-single_line ready n [] i h = unfold map_lines in refl
map_lines-single_line ready n (c ∷ s) i h =
    rw (rest_ready n (c ∷ s) h) (elim (map_lines_cases c s) [
      | inl (e, m) ↦ rw m (
          all-append single_line rune_error (map_lines 0 s) refl
            (map_lines-single_line ready 0 s tt (rest-zero s)))
      | inr (inl (e, m)) ↦
          rw m (and_intro _ _ refl (map_lines-single_line ready 0 s tt (rest-zero s)))
      | inr (inr (e, (k, r, m))) ↦ rw m (
          and_intro (single_line c) (all single_line (map_lines k s)) (rw e)
            (map_lines-single_line (lead c) k s (lead-InRange c) r))
    ])
map_lines-single_line (expect lo hi k) n [] i h = absurd (rest-nil lo hi k n h)
map_lines-single_line (expect lo hi k) n (c ∷ s) i h =
    let (m, e, w, r) = rest-cons lo hi k n c s h in
    rw (e, map_lines_copied m c s)
      (and_intro _ _ (single_line_in_range lo hi c i w)
        (map_lines-single_line (following k) m s (following-InRange k) r))
map_lines-single_line bad n s i h = absurd (rest-bad n s h)

has_newline-all : (s : Bytes) → all single_line s ≡ true → has_newline s ≡ false
has_newline-all [] h = refl
has_newline-all (c ∷ s) h = ground (arith, has_newline-all s)

-- What a record accepts as a human-readable string.
pub record IsLine (max : ℕ) (s : Bytes) : Type 0 where
  pub valid : valid_string s ≡ true
  pub fits : length s ≤ max
  pub single : has_newline s ≡ false

pub sanitize_message-IsLine : (s : Bytes) → IsLine max_error_message_bytes (sanitize_message s)
unfolding sanitize_message
sanitize_message-IsLine s = record {
  valid =
      (truncate_line-Shortens (map_lines 0 s) 512).valid
        (unfold valid_string in map_lines-is_ready ready 0 s (rest-zero s));
  fits = (truncate_line-Shortens (map_lines 0 s) 512).fits;
  single = has_newline-all (truncate_line (map_lines 0 s) 512) (
      all-truncate_line single_line (map_lines 0 s) 512 refl
        (map_lines-single_line ready 0 s tt (rest-zero s)));
}

pub record_message-IsLine :
    (redactor : Option Redactor) (s : Bytes)
    → IsLine max_error_message_bytes (record_message redactor s)
unfolding record_message
record_message-IsLine redactor s = sanitize_message-IsLine (string redactor s)

-- The text of a degraded record is one nonempty line of valid UTF-8 if its substitute is, whatever
-- the configuration said.
pub safe_text-IsLine :
    (s substitute : Bytes)
    → IsLine 256 substitute
    → substitute ≢ []
    → IsLine 256 (safe_text s substitute) × (safe_text s substitute ≢ [])
unfolding safe_text
safe_text-IsLine s substitute l n =
    elim (Bool-cases (is_empty s || not (valid_string s) || has_newline s || ltb 256 (length s))) [
      | inl e ↦ rw e (l, n)
      | inr e ↦ rw e (
        record { valid = ground (arith, e); fits = ground (arith, e); single = ground (arith, e) },
        ne_of_is_empty s (ground (arith, e)),
      )
    ]

-- ===== src/Utf8/Laws.antt =====
-- Valid strings can be joined, and cut in front of any byte that starts a rune.
use probavi.Base.{
  ℕ, zero, suc, ◌≤◌, ◌≡◌, refl, true, ◌⊎◌, inl, inr, [], ◌∷◌, ◌++◌, arith, some, take, get_elem?,
  Bytes,
}
use probavi.Utf8.{State, ready, expect, bad, next, run, is_ready, valid_string, rune_start}

run-append : (q : State) (s t : Bytes) → run q (s ++ t) ≡ run (run q s) t
unfolding run
run-append q [] t = refl
run-append q (c ∷ s) t = run-append (next q c) s t

pub run_bad : (s : Bytes) → run bad s ≡ bad
unfolding run next
run_bad [] = refl
run_bad (c ∷ s) = run_bad s

-- Every state that a string can lead to asks for a continuation byte, or for none.
abbrev pub InRange : State → Type 0
InRange (expect lo hi k) = (0x80 ≤ lo) × (hi ≤ 0xBF)
InRange _ = Unit

pub next-InRange : (q : State) (c : ℕ) → InRange q → InRange (next q c)
unfolding next
next-InRange ready c h = ground arith
next-InRange (expect lo hi zero) c h = ground arith
next-InRange (expect lo hi (suc k)) c h = ground arith
next-InRange bad c h = tt

run-InRange : (q : State) (s : Bytes) → InRange q → InRange (run q s)
unfolding run
run-InRange q [] h = h
run-InRange q (c ∷ s) h = run-InRange (next q c) s (next-InRange q c h)

next-rune_start :
    (q : State) (c : ℕ) → InRange q → rune_start c ≡ true → (q ≡ ready) ⊎ (next q c ≡ bad)
unfolding next
next-rune_start ready c h s = inl refl
next-rune_start (expect lo hi zero) c h s = inr (ground arith)
next-rune_start (expect lo hi (suc k)) c h s = inr (ground arith)
next-rune_start bad c h s = inr refl

run-take :
    (q : State) (s : Bytes) (n : ℕ) {c : ℕ}
    → InRange q
    → is_ready (run q s) ≡ true
    → get_elem? s n ≡ some c
    → rune_start c ≡ true
    → run q (take n s) ≡ ready
unfolding run
run-take q [] n i v g r = cc
run-take q (c ∷ s) zero i v g r = elim (next-rune_start q c i (ground arith)) [
  | inl e ↦ e
  | inr e ↦ absurd (cc (run_bad s, rw e at v))
]
run-take q (c ∷ s) (suc n) i v g r = run-take (next q c) s n (next-InRange q c i) v g r

pub valid_string-take :
    (s : Bytes) (n : ℕ) {c : ℕ}
    → valid_string s ≡ true
    → get_elem? s n ≡ some c
    → rune_start c ≡ true
    → valid_string (take n s) ≡ true
unfolding valid_string
valid_string-take s n v g r = rw (run-take ready s n tt v g r)

is_ready-eq : (q : State) → is_ready q ≡ true → q ≡ ready
is_ready-eq ready h = refl
is_ready-eq (expect lo hi k) h = cc
is_ready-eq bad h = cc

pub valid_string-append :
    (s t : Bytes) → valid_string s ≡ true → valid_string t ≡ true → valid_string (s ++ t) ≡ true
unfolding valid_string
valid_string-append s t v w = rw (run-append ready s t, is_ready-eq (run ready s) v) w

-- ===== src/Evidence/Store/Lines.antt =====
-- How a file splits into lines when a line, or a part of one, is appended.
use probavi.Base.{
  ℕ, zero, suc, ◌≤◌, ◌≡◌, ◌≢◌, refl, ap, ◌∙◌, ◌⊎◌, inl, inr, true, false, List, [], ◌∷◌, ◌++◌,
  arith, ◌==◌, Bool-cases, all, take, length, Bytes,
}
use probavi.Evidence.Canonical.Line.{printable}
use probavi.Evidence.Walk.{lines, put}
use probavi.Evidence.Store.{newline, ends_line, close_torn_tail}

put-closed : (c : ℕ) (p : List Bytes × Bytes) → (put c p).1 ≡ [] → p.1 ≡ []
unfolding put
put-closed c ([], tail) h = elim (Bool-cases (c == b'\n')) [
  | inl e ↦ rw e at h
  | inr e ↦ absurd (cc (rw e at h))
]
put-closed c (l ∷ ls, tail) h = elim (Bool-cases (c == b'\n')) [
  | inl e ↦ rw e at h
  | inr e ↦ rw e at h
]

put-append :
    (c : ℕ) (p q : List Bytes × Bytes)
    → (put c p).1 ≡ []
    → put c (p.0 ++ q.0, q.1) ≡ ((put c p).0 ++ q.0, q.1)
unfolding put
put-append c ([], tail) ([], t) h = elim (Bool-cases (c == b'\n')) [
  | inr e ↦ absurd (cc (rw e at h))
  | inl e ↦ rw e refl
]
put-append c ([], tail) (m ∷ ms, t) h = elim (Bool-cases (c == b'\n')) [
  | inr e ↦ absurd (cc (rw e at h))
  | inl e ↦ rw e refl
]
put-append c (l ∷ ls, tail) q h = elim (Bool-cases (c == b'\n')) [
  | inl e ↦ rw e refl
  | inr e ↦ rw e refl
]

-- Behind a file that ends a line, a text brings its own lines.
pub lines-append :
    (a b : Bytes) → (lines a).1 ≡ [] → lines (a ++ b) ≡ ((lines a).0 ++ (lines b).0, (lines b).1)
unfolding lines
lines-append [] b h = refl
lines-append (c ∷ a) b h =
    ap (put c) (lines-append a b (put-closed c (lines a) h)) ∙ put-append c (lines a) (lines b) h

pub lines-line : (l : Bytes) → all printable l ≡ true → lines (l ++ newline) ≡ (l ∷ [], [])
unfolding lines put
lines-line [] h = refl
lines-line (c ∷ l) h =
    let rest : lines (l ++ newline) ≡ (l ∷ [], []) = lines-line l (ground arith) in
    let differ : (c == b'\n') ≡ false = ground arith in rw rest (rw differ refl)

-- A file that ends a line, with one line more.
pub lines-snoc :
    (a l : Bytes)
    → (lines a).1 ≡ []
    → all printable l ≡ true
    → lines (a ++ (l ++ newline)) ≡ ((lines a).0 ++ l ∷ [], [])
lines-snoc a l h p =
    lines-append a (l ++ newline) h ∙ ap (λ q. ((lines a).0 ++ q.0, q.1)) (lines-line l p)

ends_line-append : (a : Bytes) (x : ℕ) (p : Bytes) → ends_line (a ++ x ∷ p) ≡ ends_line (x ∷ p)
ends_line-append [] x p = refl
ends_line-append (c ∷ []) x p = refl
ends_line-append (c ∷ d ∷ a) x p = ends_line-append (d ∷ a) x p

ends_line-printable : (x : ℕ) (p : Bytes) → all printable (x ∷ p) ≡ true → ends_line (x ∷ p) ≡ false
ends_line-printable x [] h = ground arith
ends_line-printable x (y ∷ p) h = ends_line-printable y p (ground arith)

ends_line-closed : (a : Bytes) → (lines a).1 ≡ [] → ends_line a ≡ true
unfolding lines put
ends_line-closed [] h = refl
ends_line-closed (c ∷ []) h = elim (Bool-cases (c == b'\n')) [
  | inl e ↦ e
  | inr e ↦ absurd (cc (rw e at h))
]
ends_line-closed (c ∷ d ∷ a) h = ends_line-closed (d ∷ a) (put-closed c (lines (d ∷ a)) h)

pub close_torn_tail-closed : (a : Bytes) → (lines a).1 ≡ [] → close_torn_tail a ≡ a
unfolding close_torn_tail
close_torn_tail-closed a h = rw (ends_line-closed a h)

-- A torn line behind a file that ends a line is ended.
pub close_torn_tail-torn :
    (a x : Bytes) → x ≢ [] → all printable x ≡ true → close_torn_tail (a ++ x) ≡ (a ++ x) ++ newline
unfolding close_torn_tail
close_torn_tail-torn a [] n p = absurd (n refl)
close_torn_tail-torn a (x ∷ p) n h = rw (ends_line-append a x p ∙ ends_line-printable x p h)

-- What a torn write leaves: the whole line with its newline, or a part of the line.
pub torn-cases :
    (line : Bytes) (n : ℕ)
    → (take n (line ++ newline) ≡ line ++ newline)
      ⊎ ((m : ℕ) × (m ≤ length line) × (take n (line ++ newline) ≡ take m line))
torn-cases line zero = inr (zero, omega arith, refl)
torn-cases [] (suc zero) = inl refl
torn-cases [] (suc (suc n)) = inl refl
torn-cases (c ∷ line) (suc n) = elim (torn-cases line n) [
  | inl e ↦ inl (ap (λ s. c ∷ s) e)
  | inr (m, le, e) ↦ inr (suc m, omega (arith, le), ap (λ s. c ∷ s) e)
]

pub take-whole : (s : Bytes) (n : ℕ) → length s ≡ n → take n s ≡ s
take-whole [] zero h = refl
take-whole [] (suc n) h = refl
take-whole (c ∷ s) zero h = absurd (omega (arith, h))
take-whole (c ∷ s) (suc n) h = ap (λ t. c ∷ t) (take-whole s n (omega (arith, h)))

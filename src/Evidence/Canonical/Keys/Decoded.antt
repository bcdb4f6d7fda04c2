-- ===== src/Evidence/Canonical/Keys/Decoded.antt =====
-- internal/evidence/canonical.go: the first rune of a valid string, by the form of its first byte.
use probavi.Base.{
  ℕ, suc, ◌+◌, ◌-◌, ◌*◌, ◌/◌, ◌%◌, ◌≤◌, ◌<◌, ◌≡◌, refl, sym, ap, ◌∙◌, inl, inr, Bool, true, List,
  [], ◌∷◌, ◌++◌, arith, ltb, within, some, none, if◌then◌else◌, Bool-cases, Option, ◌==◌, Bytes,
}
use probavi.Utf8.{ready, expect, bad, lead, next, run, is_ready, valid_string, rune_rest, following}
use probavi.Utf8.Laws.{run_bad}
use probavi.Evidence.Canonical.Keys.{rune_value, lead_bits, runes}

-- The UTF-8 form of a rune.
abbrev pub utf8 : ℕ → Bytes
utf8 r =
    if ltb r 0x80
    then r ∷ []
    else if ltb r 0x800
    then (0xC0 + r / 0x40) ∷ (0x80 + r % 0x40) ∷ []
    else if ltb r 0x10000
    then (0xE0 + r / 0x1000) ∷ (0x80 + r / 0x40 % 0x40) ∷ (0x80 + r % 0x40) ∷ []
    else (0xF0 + r / 0x40000)
      ∷ (0x80 + r / 0x1000 % 0x40)
      ∷ (0x80 + r / 0x40 % 0x40)
      ∷ (0x80 + r % 0x40)
      ∷ []

-- A code point that is no surrogate.
abbrev pub is_scalar : ℕ → Bool
is_scalar r = if ltb r 0xD800 then true else within 0xE000 0x10FFFF r

-- The first rune of a string, and the string behind it.
pub record Decoded (s : Bytes) : Type 0 where
  pub rune : ℕ
  pub rest : Bytes
  pub spelled : s ≡ utf8 rune ++ rest
  pub scalar : is_scalar rune ≡ true
  pub read : runes 0 s ≡ rune ∷ runes 0 rest
  pub valid : valid_string rest ≡ true

data Lead : ℕ → Type 0 where
  one : (c : ℕ) → c < 0x80 → lead c ≡ ready → Lead c
  two : (c : ℕ) → 0xC2 ≤ c → c ≤ 0xDF → lead c ≡ expect 0x80 0xBF 0 → Lead c
  three :
      (c lo hi : ℕ)
      → 0xE0 ≤ c
      → c ≤ 0xEF
      → lead c ≡ expect lo hi 1
      → 0x80 ≤ lo
      → hi ≤ 0xBF
      → (c ≡ 0xE0 → 0xA0 ≤ lo)
      → (c ≡ 0xED → hi ≤ 0x9F)
      → Lead c
  four :
      (c lo hi : ℕ)
      → 0xF0 ≤ c
      → c ≤ 0xF4
      → lead c ≡ expect lo hi 2
      → 0x80 ≤ lo
      → hi ≤ 0xBF
      → (c ≡ 0xF0 → 0x90 ≤ lo)
      → (c ≡ 0xF4 → hi ≤ 0x8F)
      → Lead c
  broken : (c : ℕ) → lead c ≡ bad → Lead c

lead-Lead : (c : ℕ) → Lead c
unfolding lead
lead-Lead c = elim (Bool-cases (ltb c 0x80)) [
  | inl h ↦ one c (ground arith) (ground arith)
  | inr h ↦ elim (Bool-cases (within 0xC2 0xDF c)) [
    | inl h ↦ two c (ground arith) (ground arith) (ground arith)
    | inr i ↦ elim (Bool-cases (within 0xE0 0xEF c)) [
      | inl h ↦ of_three (ground arith) (ground arith)
      | inr j ↦ elim (Bool-cases (within 0xF0 0xF4 c)) [
        | inl h ↦ of_four (ground arith) (ground arith)
        | inr k ↦ broken c (ground arith)
      ]
    ]
  ]
]
  where
    of_three : 0xE0 ≤ c → c ≤ 0xEF → Lead c
    of_three a b = elim (Bool-cases (c == 0xE0)) [
      | inl h ↦
          three c 0xA0 0xBF a b (ground arith) (ground arith) (ground arith) (λ e. ground arith)
            (λ e. ground arith)
      | inr h ↦ elim (Bool-cases (c == 0xED)) [
        | inl h ↦
            three c 0x80 0x9F a b (ground arith) (ground arith) (ground arith) (λ e. ground arith)
              (λ e. ground arith)
        | inr k ↦
            three c 0x80 0xBF a b (ground arith) (ground arith) (ground arith) (λ e. ground arith)
              (λ e. ground arith)
      ]
    ]

    of_four : 0xF0 ≤ c → c ≤ 0xF4 → Lead c
    of_four a b = elim (Bool-cases (c == 0xF0)) [
      | inl h ↦
          four c 0x90 0xBF a b (ground arith) (ground arith) (ground arith) (λ e. ground arith)
            (λ e. ground arith)
      | inr h ↦ elim (Bool-cases (c == 0xF4)) [
        | inl h ↦
            four c 0x80 0x8F a b (ground arith) (ground arith) (ground arith) (λ e. ground arith)
              (λ e. ground arith)
        | inr k ↦
            four c 0x80 0xBF a b (ground arith) (ground arith) (ground arith) (λ e. ground arith)
              (λ e. ground arith)
      ]
    ]

-- The runes of a string, by what completes the first of them.
abbrev started : ℕ → Bytes → Option ℕ → List ℕ
started c s none = 0xFFFD ∷ runes 0 s
started c s (some n) = rune_value (lead_bits c n) n s ∷ runes n s

runes-started : (c : ℕ) (s : Bytes) → runes 0 (c ∷ s) ≡ started c s (rune_rest (lead c) s)
unfolding runes
runes-started c s = by (rune_rest (lead c) s)
  where
    by :
        (o : Option ℕ)
        → (elim o [
          | none ↦ 0xFFFD ∷ runes 0 s
          | some n ↦ rune_value (lead_bits c n) n s ∷ runes n s
        ])
          ≡ started c s o
    by none = refl
    by (some n) = refl

valid-lead : (c : ℕ) (s : Bytes) → valid_string (c ∷ s) ≡ is_ready (run (lead c) s)
unfolding valid_string run next
valid-lead c s = refl

Decoded-one :
    (c : ℕ) (s : Bytes)
    → c < 0x80
    → lead c ≡ ready
    → is_ready (run (lead c) s) ≡ true
    → Decoded (c ∷ s)
unfolding valid_string run rune_rest rune_value runes
Decoded-one c s h e v = record {
  rune = c;
  rest = s;
  spelled = ground arith;
  scalar = ground arith;
  read = runes-started c s ∙ simp e;
  valid = rw e at v;
}

run-expect :
    (lo hi k d : ℕ) (s : Bytes)
    → is_ready (run (expect lo hi k) (d ∷ s)) ≡ true
    → (within lo hi d ≡ true) × (is_ready (run (following k) s) ≡ true)
unfolding run next
run-expect lo hi k d s v = elim (Bool-cases (within lo hi d)) [
  | inl w ↦ (w, rw w at v)
  | inr w ↦ absurd (cc (rw (w, run_bad s) at v))
]

Decoded-two :
    (c : ℕ) (s : Bytes)
    → 0xC2 ≤ c
    → c ≤ 0xDF
    → lead c ≡ expect 0x80 0xBF 0
    → is_ready (run (expect 0x80 0xBF 0) s) ≡ true
    → Decoded (c ∷ s)
unfolding valid_string run rune_rest rune_value runes
Decoded-two c [] h k e v = cc
Decoded-two c (d ∷ s) h k e v =
    let (w, rest) = run-expect 0x80 0xBF 0 d s v in
    record {
      rune = (c - 0xC0) * 64 + (d - 0x80);
      rest = s;
      spelled = ground arith;
      scalar = ground arith;
      read = runes-started c (d ∷ s) ∙ simp (e, w);
      valid = rest;
    }

rest-expect :
    (lo hi k d n : ℕ) (s : Bytes)
    → within lo hi d ≡ true
    → rune_rest (following k) s ≡ some n
    → rune_rest (expect lo hi k) (d ∷ s) ≡ some (suc n)
unfolding rune_rest
rest-expect lo hi k d n s w e = simp (w, e)

Decoded-three :
    (c lo hi : ℕ) (s : Bytes)
    → 0xE0 ≤ c
    → c ≤ 0xEF
    → lead c ≡ expect lo hi 1
    → 0x80 ≤ lo
    → hi ≤ 0xBF
    → (c ≡ 0xE0 → 0xA0 ≤ lo)
    → (c ≡ 0xED → hi ≤ 0x9F)
    → is_ready (run (expect lo hi 1) s) ≡ true
    → Decoded (c ∷ s)
unfolding valid_string run rune_rest rune_value runes
Decoded-three c lo hi [] h k e l m n o v = cc
Decoded-three c lo hi (d ∷ []) h k e l m n o v = cc ((run-expect lo hi 1 d [] v).1)
Decoded-three c lo hi (d ∷ x ∷ s) h k e l m n o v =
    let (w, v1) = run-expect lo hi 1 d (x ∷ s) v in
    let (w1, rest) = run-expect 0x80 0xBF 0 x s v1 in
    record {
      rune = ((c - 0xE0) * 64 + (d - 0x80)) * 64 + (x - 0x80);
      rest = s;
      spelled = ground arith;
      scalar = ground arith;
      read =
          runes-started c (d ∷ x ∷ s)
          ∙ ap (started c (d ∷ x ∷ s)) (
              ap (λ q. rune_rest q (d ∷ x ∷ s)) e
              ∙ rest-expect lo hi 1 d 1 (x ∷ s) w (rest-expect 0x80 0xBF 0 x 0 s w1 refl));
      valid = rest;
    }

Decoded-four :
    (c lo hi : ℕ) (s : Bytes)
    → 0xF0 ≤ c
    → c ≤ 0xF4
    → lead c ≡ expect lo hi 2
    → 0x80 ≤ lo
    → hi ≤ 0xBF
    → (c ≡ 0xF0 → 0x90 ≤ lo)
    → (c ≡ 0xF4 → hi ≤ 0x8F)
    → is_ready (run (expect lo hi 2) s) ≡ true
    → Decoded (c ∷ s)
unfolding valid_string run rune_rest rune_value runes
Decoded-four c lo hi [] h k e l m n o v = cc
Decoded-four c lo hi (d ∷ []) h k e l m n o v = cc ((run-expect lo hi 2 d [] v).1)
Decoded-four c lo hi (d ∷ x ∷ []) h k e l m n o v =
    cc ((run-expect 0x80 0xBF 1 x [] (run-expect lo hi 2 d (x ∷ []) v).1).1)
Decoded-four c lo hi (d ∷ x ∷ y ∷ s) h k e l m n o v =
    let (w, v1) = run-expect lo hi 2 d (x ∷ y ∷ s) v in
    let (w1, v2) = run-expect 0x80 0xBF 1 x (y ∷ s) v1 in
    let (w2, rest) = run-expect 0x80 0xBF 0 y s v2 in
    record {
      rune = (((c - 0xF0) * 64 + (d - 0x80)) * 64 + (x - 0x80)) * 64 + (y - 0x80);
      rest = s;
      spelled = ground arith;
      scalar = ground arith;
      read =
          runes-started c (d ∷ x ∷ y ∷ s)
          ∙ ap (started c (d ∷ x ∷ y ∷ s)) (
              ap (λ q. rune_rest q (d ∷ x ∷ y ∷ s)) e
              ∙ rest-expect lo hi 2 d 2 (x ∷ y ∷ s) w
                  (rest-expect 0x80 0xBF 1 x 1 (y ∷ s) w1 (rest-expect 0x80 0xBF 0 y 0 s w2 refl)));
      valid = rest;
    }

pub decoded : (c : ℕ) (s : Bytes) → valid_string (c ∷ s) ≡ true → Decoded (c ∷ s)
decoded c s v = by (lead-Lead c) (sym (valid-lead c s) ∙ v)
  where
    by : {c : ℕ} → Lead c → is_ready (run (lead c) s) ≡ true → Decoded (c ∷ s)
    by (one c h e) v = Decoded-one c s h e v
    by (two c h k e) v = Decoded-two c s h k e (rw e at v)
    by (three c lo hi h k e l m n o) v = Decoded-three c lo hi s h k e l m n o (rw e at v)
    by (four c lo hi h k e l m n o) v = Decoded-four c lo hi s h k e l m n o (rw e at v)
    by (broken c e) v = absurd (cc (rw (e, run_bad s) at v))

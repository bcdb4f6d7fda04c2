-- ===== src/Evidence/Anchor/RoundTrip.antt =====
-- One head has exactly one spelling.
use probavi.Base.{
  ℕ, ◌≤◌, ◌≡◌, refl, sym, ap, ◌∙◌, ◌↔◌, inl, inr, true, false, ◌||◌, Option, none, some, [], ◌∷◌,
  ◌++◌, arith, leb, ◌==◌, all, Bool-cases, Option-cases, is_empty, le→leb, leb→le, ==_iff, Bytes,
}
use probavi.Evidence.Marshal.{decimal}
use probavi.Evidence.Walk.{Head}
use probavi.Evidence.Anchor.{
  head_string, is_decimal, read, max_int64, leading_zero, parse_anchor_seq, check_anchor_hash, cut,
  parse_hash, parse_parts, parse_anchor,
}
use probavi.Evidence.Anchor.Reference.{
  IsReference, check_anchor_hash-IsReference, IsReference-check_anchor_hash,
}
use probavi.Evidence.Anchor.Decimal.{read-decimal, all-decimal, decimal-nonzero, decimal-read}

-- A head that the written form can hold.
pub record IsWritable (h : Head) : Type 0 where
  pub range : h.seq ≤ max_int64
  pub reference : IsReference h.hash

-- Digits hold no colon, so the cut is behind them.
cut-decimal : (s rest : Bytes) → all is_decimal s ≡ true → cut (s ++ b':' ∷ rest) ≡ some (s, rest)
unfolding cut
cut-decimal [] rest h = refl
cut-decimal (c ∷ s) rest h =
    let tail : cut (s ++ b':' ∷ rest) ≡ some (s, rest) = cut-decimal s rest (ground arith) in
    let other : (c == b':') ≡ false = ground arith in rw tail (rw other refl)

-- The two parts of a text that was cut.
cut-some : (s before after : Bytes) → cut s ≡ some (before, after) → before ++ b':' ∷ after ≡ s
unfolding cut
cut-some [] before after h = cc
cut-some (c ∷ s) before after h = elim (Bool-cases (c == b':')) [
  | inl e ↦ at_colon c s before after ((==_iff c b':').0 e) (rw e at h)
  | inr e ↦ elim (Option-cases (cut s)) [
    | inl n ↦ absurd (cc (rw (e, n) at h))
    | inr ((b, a), q) ↦
        let rest : b ++ b':' ∷ a ≡ s = cut-some s b a q in
        let pair : some (c ∷ b, a) ≡ some (before, after) = rw (e, q) at h in
        sym (ap (λ x. x ++ b':' ∷ after) (first_of pair))
        ∙ ap (λ y. c ∷ (b ++ b':' ∷ y)) (sym (second_of pair))
        ∙ ap (λ x. c ∷ x) rest
  ]
]
  where
    at_colon :
        (c : ℕ) (s before after : Bytes)
        → c ≡ b':'
        → ◌≡◌ {A = Option (Bytes × Bytes)} (some ([], s)) (some (before, after))
        → before ++ b':' ∷ after ≡ c ∷ s
    at_colon c s before after e h = cc

    first_of :
        {b b' a a' : Bytes}
        → ◌≡◌ {A = Option (Bytes × Bytes)} (some (b, a)) (some (b', a'))
        → b ≡ b'
    first_of h = cc

    second_of :
        {b b' a a' : Bytes}
        → ◌≡◌ {A = Option (Bytes × Bytes)} (some (b, a)) (some (b', a'))
        → a ≡ a'
    second_of h = cc

parse_anchor_seq-decimal : (n : ℕ) → n ≤ max_int64 → parse_anchor_seq (decimal n) ≡ some n
unfolding parse_anchor_seq
parse_anchor_seq-decimal n h =
    rw (decimal-nonzero n)
      (rw (all-decimal n) (rw (read-decimal n) (rw (le→leb n max_int64 h) refl)))

parse_anchor_seq-some :
    (s : Bytes) (n : ℕ) → parse_anchor_seq s ≡ some n → (decimal n ≡ s) × (n ≤ max_int64)
unfolding parse_anchor_seq
parse_anchor_seq-some s n h = elim (Bool-cases (is_empty s || leading_zero s)) [
  | inl e ↦ absurd (cc (rw e at h))
  | inr e ↦ elim (Bool-cases (all is_decimal s)) [
    | inr d ↦ absurd (cc (rw (e, d) at h))
    | inl d ↦ elim (Bool-cases (leb (read 0 s) max_int64)) [
      | inr l ↦ absurd (cc (rw (e, d, l) at h))
      | inl l ↦
          let same : read 0 s ≡ n = cc (rw (e, d, l) at h) in
          (ap decimal (sym same) ∙ decimal-read s e d, rw same at (leb→le (read 0 s) max_int64 l))
    ]
  ]
]

parse_hash-some :
    (hash : Bytes) (o : Option ℕ) (h : Head)
    → parse_hash hash o ≡ some h
    → (o ≡ some h.seq) × (hash ≡ h.hash) × (check_anchor_hash h.hash ≡ true)
unfolding parse_hash
parse_hash-some hash none h e = cc
parse_hash-some hash (some seq) h e = elim (Bool-cases (check_anchor_hash hash)) [
  | inr k ↦ absurd (cc (rw k at e))
  | inl k ↦
      let r : ◌≡◌ {A = Head} (record { seq = seq; hash = hash }) h = cc (rw k at e) in
      (
        ap (λ (g : Head). some g.seq) r,
        ap (λ (g : Head). g.hash) r,
        ap (λ (g : Head). check_anchor_hash g.hash) (sym r) ∙ k,
      )
]

parse_parts-some :
    (o : Option (Bytes × Bytes)) (h : Head)
    → parse_parts o ≡ some h
    → (◌≡◌ {A = Option (Bytes × Bytes)} o (some (decimal h.seq, h.hash))) × IsWritable h
unfolding parse_parts
parse_parts-some none h e = cc
parse_parts-some (some (seq_text, hash)) h e =
    let (q, same, k) = parse_hash-some hash (parse_anchor_seq seq_text) h e in
    let (d, l) = parse_anchor_seq-some seq_text h.seq q in
    (
      ap (λ t. some (t, hash)) (sym d) ∙ ap (λ t. some (decimal h.seq, t)) same,
      record { range = l; reference = check_anchor_hash-IsReference h.hash k },
    )

parse_parts-parts :
    (seq_text hash : Bytes) (seq : ℕ)
    → parse_anchor_seq seq_text ≡ some seq
    → check_anchor_hash hash ≡ true
    → parse_parts (some (seq_text, hash)) ≡ some (record { seq = seq; hash = hash })
unfolding parse_parts parse_hash
parse_parts-parts seq_text hash seq q k = ap (parse_hash hash) q ∙ rw k refl

-- A text is read as a head exactly if it is the written form of that head, whose seq fits an int64
-- and whose hash is "sha256:" with 64 digits from 0 to 9 and a to f behind it.
pub parse_anchor-head_string_iff :
    (s : Bytes) (h : Head) → (parse_anchor s ≡ some h) ↔ ((s ≡ head_string h) × IsWritable h)
unfolding parse_anchor head_string
parse_anchor-head_string_iff s h = (read_back, write_first)
  where
    read_back : parse_parts (cut s) ≡ some h → (s ≡ decimal h.seq ++ b':' ∷ h.hash) × IsWritable h
    read_back e =
        let (c, w) = parse_parts-some (cut s) h e in (sym (cut-some s (decimal h.seq) h.hash c), w)

    write_first : (s ≡ decimal h.seq ++ b':' ∷ h.hash) × IsWritable h → parse_parts (cut s) ≡ some h
    write_first (e, w) =
        ap (λ t. parse_parts (cut t)) e
        ∙ ap parse_parts (cut-decimal (decimal h.seq) h.hash (all-decimal h.seq))
        ∙ parse_parts-parts (decimal h.seq) h.hash h.seq (parse_anchor_seq-decimal h.seq w.range)
            (IsReference-check_anchor_hash h.hash w.reference)

-- ===== src/Manifest/Verdict.antt =====
-- Which faults of a manifest are verdicts about the backup.
use probavi.Base.{
  Bool-cases, is_empty-of_ne, ne_of_is_empty, beq-false, ne_of_beq, ==_iff, ◌≡◌, ◌≢◌, refl, sym, ap,
  ◌∙◌, ◌⊎◌, inl, inr, Bool, true, false, not, Option, none, some, List, [], ◌∷◌, ◌&&◌, ◌||◌,
  if◌then◌else◌, ◌↔◌, arith, is_empty, contains, beq, beq_iff, Bytes,
}
use probavi.Evidence.Codes.{code_invalid_request, code_source_corrupt}
use mathlib.Core.Path.{subst}
use probavi.Base.Int.{ℤ, pos, negsuc, is_negative, le_int, eq_int}
use probavi.Evidence.Validate.{is_sha256_ref}
use probavi.Manifest.{
  Expectation, Manifest, Measurement, Complaint, code_of, mismatch, source_missing,
  source_unreadable, missing, unreadable, undecodable, several, validate, compare_artifact, given,
  ReadAnswer, no_file, no_access, not_document, more_documents, document, MeasureAnswer, not_found,
  not_readable, measured, check_measured, check_valid, check, manifest_schema_v1, manifest_schemas,
  is_identifier, is_nil, negative_size, validate_tables, validate_expectation, validate_rows,
  validate_range, first_fault, sorted, negative, or_else, checksum_bad, size_bad,
}

-- The measurement is not what the manifest expects: another checksum than the one that it states, or
-- another size than the one that it states.
abbrev pub Differs : Manifest → Measurement → Type 0
Differs m got =
    ((m.expected_checksum ≢ []) × (got.checksum ≢ m.expected_checksum))
    ⊎ ((n : ℤ) × (m.expected_size_bytes ≡ some n) × (got.size ≢ n))

-- A disagreement of the artifact with a usable manifest: the bytes were measured and one of the two
-- expectations is not met.
pub record Disagrees (measure : Bool → MeasureAnswer) (answer : ReadAnswer) : Type 0 where
  pub raw : Bytes
  pub manifest : Manifest
  pub opened : answer ≡ document raw manifest
  pub usable : validate manifest ≡ none
  pub got : Measurement
  pub taken : measure (not (is_empty manifest.expected_checksum)) ≡ measured got
  pub differs : Differs manifest got

eq_int_iff : (a b : ℤ) → (eq_int a b ≡ true) ↔ (a ≡ b)
eq_int_iff (pos a) (pos b) = (λ h. ap pos ((==_iff a b).0 h), λ e. ground (arith, e))
eq_int_iff (negsuc a) (negsuc b) = (λ h. ap negsuc ((==_iff a b).0 h), λ e. ground (arith, e))
eq_int_iff (pos a) (negsuc b) = (λ h. cc, λ e. cc)
eq_int_iff (negsuc a) (pos b) = (λ h. cc, λ e. cc)

checksum_bad_iff :
    (expected got : Bytes)
    → (checksum_bad expected got ≡ true) ↔ ((expected ≢ []) × (got ≢ expected))
checksum_bad_iff expected got = (
  λ h. (ne_of_is_empty expected (ground arith), ne_of_beq got expected (ground arith)),
  λ p. ground (arith, is_empty-of_ne expected p.0, beq-false got expected p.1),
)

size_bad_iff :
    (o : Option ℤ) (size : ℤ) → (size_bad o size ≡ true) ↔ ((n : ℤ) × (o ≡ some n) × (size ≢ n))
size_bad_iff none size = (λ h. cc, λ p. cc (p.1))
size_bad_iff (some n) size =
    (λ h. (n, refl, λ e. cc (h, (eq_int_iff size n).1 e)), λ p. differs p.0 p.1 p.2)
  where
    differs : (m : ℤ) → some n ≡ some m → size ≢ m → not (eq_int size n) ≡ true
    differs m e d = elim (Bool-cases (eq_int size n)) [
      | inl k ↦ absurd (d ((eq_int_iff size n).0 k ∙ (cc e)))
      | inr k ↦ rw k refl
    ]

compare_artifact-Differs :
    (m : Manifest) (got : Measurement)
    → compare_artifact m got ≡ some (mismatch got)
    → Differs m got
unfolding compare_artifact
compare_artifact-Differs m got h =
    elim (Bool-cases (checksum_bad m.expected_checksum got.checksum)) [
      | inl c ↦ inl ((checksum_bad_iff m.expected_checksum got.checksum).0 c)
      | inr c ↦ elim (Bool-cases (size_bad m.expected_size_bytes got.size)) [
        | inl d ↦ inr ((size_bad_iff m.expected_size_bytes got.size).0 d)
        | inr d ↦ absurd (cc (rw (c, d) at h))
      ]
    ]

Differs-compare_artifact :
    (m : Manifest) (got : Measurement)
    → Differs m got
    → compare_artifact m got ≡ some (mismatch got)
unfolding compare_artifact
Differs-compare_artifact m got (inl c) =
    simp ((checksum_bad_iff m.expected_checksum got.checksum).1 c)
Differs-compare_artifact m got (inr d) =
    elim (Bool-cases (checksum_bad m.expected_checksum got.checksum)) [
      | inl c ↦ simp c
      | inr c ↦ simp (c, (size_bad_iff m.expected_size_bytes got.size).1 d)
    ]

compare_artifact-cases :
    (m : Manifest) (got : Measurement)
    → (compare_artifact m got ≡ none) ⊎ (compare_artifact m got ≡ some (mismatch got))
unfolding compare_artifact
compare_artifact-cases m got = ground arith

-- A complaint, if any, blames the manifest.
abbrev Configures : Option Complaint → Type 0
Configures none = Unit
Configures (some f) = code_of f ≡ code_invalid_request

if-Configures :
    (b : Bool) (x y : Option Complaint)
    → Configures x
    → Configures y
    → Configures (if b then x else y)
if-Configures true x y p q = p
if-Configures false x y p q = q

or_else-Configures :
    (x y : Option Complaint) → Configures x → Configures y → Configures (or_else x y)
or_else-Configures none y p q = q
or_else-Configures (some f) y p q = p

validate_range-Configures : (t : Bytes) (lo hi : Option ℤ) → Configures (validate_range t lo hi)
unfolding validate_range code_of
validate_range-Configures t none hi = refl
validate_range-Configures t (some lo) none = refl
validate_range-Configures t (some lo) (some hi) =
    if-Configures (is_negative lo || is_negative hi) _ _ refl
      (if-Configures (not (le_int lo hi)) _ none refl tt)

validate_rows-Configures : (t : Bytes) (r lo hi : Option ℤ) → Configures (validate_rows t r lo hi)
unfolding validate_rows code_of
validate_rows-Configures t (some n) lo hi =
    if-Configures (given lo || given hi) _ _ refl (if-Configures (is_negative n) _ none refl tt)
validate_rows-Configures t none lo hi =
    if-Configures (not (given lo || given hi)) _ _ refl (validate_range-Configures t lo hi)

validate_expectation-Configures : (t : Bytes × Expectation) → Configures (validate_expectation t)
unfolding validate_expectation code_of
validate_expectation-Configures (t, e) =
    if-Configures (not (is_identifier t)) _ _ refl
      (validate_rows-Configures t e.rows e.rows_min e.rows_max)

first_fault-Configures : (ts : List (Bytes × Expectation)) → Configures (first_fault ts)
unfolding first_fault
first_fault-Configures [] = tt
first_fault-Configures (t ∷ ts) =
    or_else-Configures (validate_expectation t) (first_fault ts) (validate_expectation-Configures t)
      (first_fault-Configures ts)

validate_tables-Configures :
    (s : Bytes) (o : Option (List (Bytes × Expectation))) → Configures (validate_tables s o)
unfolding validate_tables code_of
validate_tables-Configures s none = tt
validate_tables-Configures s (some ts) =
    if-Configures (beq s manifest_schema_v1) _ _ refl
      (if-Configures (is_nil ts) _ _ refl (first_fault-Configures (sorted ts)))

size-Configures :
    (o : Option ℤ) (rest : Option Complaint)
    → Configures rest
    → Configures (elim o [ some n ↦ some (negative_size n) | none ↦ rest ])
unfolding code_of
size-Configures none rest p = p
size-Configures (some n) rest p = refl

validate-Configures : (m : Manifest) → Configures (validate m)
unfolding validate code_of
validate-Configures m = if-Configures (is_empty m.schema) _ _ refl (
    if-Configures (not (contains manifest_schemas m.schema)) _ _ refl (
      if-Configures (is_empty m.expected_checksum && not (given m.expected_size_bytes)) _ _ refl (
        if-Configures
          (not (is_empty m.expected_checksum) && not (is_sha256_ref m.expected_checksum)) _ _ refl
          (size-Configures (negative m.expected_size_bytes) _
            (validate_tables-Configures m.schema m.baseline)))))

-- The fault that is a verdict about the bytes of the backup.
abbrev pub IsCorrupt : Option Complaint → Type 0
IsCorrupt o = (f : Complaint) × (o ≡ some f) × (code_of f ≡ code_source_corrupt)

apart : (x y : Bytes) → beq x y ≡ false → x ≢ y
apart x y h e = cc ((beq_iff x y).1 e, h)

not_corrupt : (f : Complaint) → code_of f ≡ code_invalid_request → code_of f ≢ code_source_corrupt
unfolding beq
not_corrupt f p q = apart code_invalid_request code_source_corrupt refl (sym p ∙ q)

-- The answers that measure nothing have codes of their own.
unmeasured :
    (g f : Complaint)
    → beq (code_of g) code_source_corrupt ≡ false
    → ◌≡◌ {A = Option Complaint} (some g) (some f)
    → code_of f ≢ code_source_corrupt
unmeasured g f h e k =
    let same : g ≡ f = cc e in apart (code_of g) code_source_corrupt h (ap code_of same ∙ k)

check_measured-IsCorrupt :
    (hash : Bytes) (m : Manifest) (a : MeasureAnswer)
    → IsCorrupt (check_measured hash m a).fault
    → (got : Measurement) × (a ≡ measured got) × (compare_artifact m got ≡ some (mismatch got))
unfolding check_measured code_of beq
check_measured-IsCorrupt hash m not_found (f, e, k) = absurd (unmeasured source_missing f refl e k)
check_measured-IsCorrupt hash m not_readable (f, e, k) =
    absurd (unmeasured source_unreadable f refl e k)
check_measured-IsCorrupt hash m (measured got) (f, e, k) = elim (compare_artifact-cases m got) [
  | inl n ↦ absurd (cc (n, e))
  | inr s ↦ (got, refl, s)
]

check_valid-IsCorrupt :
    (digest_of : Bytes → Bytes) (measure : Bool → MeasureAnswer) (raw : Bytes) (m : Manifest)
    (o : Option Complaint)
    → validate m ≡ o
    → IsCorrupt (check_valid digest_of measure raw m o).fault
    → Disagrees measure (document raw m)
unfolding check_valid
check_valid-IsCorrupt digest_of measure raw m (some g) v (f, e, k) =
    let same : g ≡ f = cc e in
    let blame : Configures (some g) = subst Configures v (validate-Configures m) in
    absurd (not_corrupt g blame (ap code_of same ∙ k))
check_valid-IsCorrupt digest_of measure raw m none v c =
    let (got, a, d) =
      check_measured-IsCorrupt (digest_of raw) m (measure (not (is_empty m.expected_checksum))) c in
    record {
      raw = raw;
      manifest = m;
      opened = refl;
      usable = v;
      got = got;
      taken = a;
      differs = compare_artifact-Differs m got d;
    }

IsCorrupt-Disagrees :
    (digest_of : Bytes → Bytes) (measure : Bool → MeasureAnswer) (answer : ReadAnswer)
    → IsCorrupt (check digest_of measure answer).fault
    → Disagrees measure answer
unfolding check code_of beq
IsCorrupt-Disagrees digest_of measure no_file (f, e, k) = absurd (unmeasured missing f refl e k)
IsCorrupt-Disagrees digest_of measure no_access (f, e, k) =
    absurd (unmeasured unreadable f refl e k)
IsCorrupt-Disagrees digest_of measure not_document (f, e, k) =
    absurd (unmeasured undecodable f refl e k)
IsCorrupt-Disagrees digest_of measure more_documents (f, e, k) =
    absurd (unmeasured several f refl e k)
IsCorrupt-Disagrees digest_of measure (document raw m) c =
    check_valid-IsCorrupt digest_of measure raw m (validate m) refl c

Disagrees-IsCorrupt :
    (digest_of : Bytes → Bytes) (measure : Bool → MeasureAnswer) (answer : ReadAnswer)
    → Disagrees measure answer
    → IsCorrupt (check digest_of measure answer).fault
unfolding check check_valid check_measured code_of
Disagrees-IsCorrupt digest_of measure answer d = (
  mismatch d.got,
  rw d.opened (rw d.usable (rw d.taken (Differs-compare_artifact d.manifest d.got d.differs))),
  refl,
)

-- The check of a manifest blames the bytes of the backup exactly if the manifest could be read and
-- has no fault itself, the artifact was measured, and its checksum is not the one that the manifest
-- states, or its size is not the one that the manifest states.
pub check-IsCorrupt_iff :
    (digest_of : Bytes → Bytes) (measure : Bool → MeasureAnswer) (answer : ReadAnswer)
    → IsCorrupt (check digest_of measure answer).fault ↔ Disagrees measure answer
check-IsCorrupt_iff digest_of measure answer =
    (IsCorrupt-Disagrees digest_of measure answer, Disagrees-IsCorrupt digest_of measure answer)

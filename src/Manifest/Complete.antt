-- ===== src/Manifest/Complete.antt =====
-- A manifest is refused only for what it says.
use probavi.Base.{
  ◌≡◌, ◌≢◌, refl, ap, ◌∙◌, ◌⊎◌, ◌↔◌, inl, inr, Bool, true, false, not, ◌&&◌, Option, none, some,
  List, [], ◌∷◌, arith, le→leb, Bool-cases, is_empty, beq, beq_iff, contains, Bytes,
}
use probavi.Base.Int.{ℤ, is_negative}
use probavi.Redact.{text_le}
use probavi.Evidence.Validate.{is_sha256_ref}
use probavi.Manifest.{
  manifest_schema, manifest_schema_v1, manifest_schemas, Expectation, Manifest, validate_range,
  validate_rows, validate_expectation, insert_table, sorted, first_fault, or_else, is_nil,
  validate_tables, negative, validate,
}
use probavi.Manifest.Usable.{IsCount, IsCounted, Each, IsUsable, validate-IsUsable}

count-valid :
    (t : Bytes) (rows lo hi : Option ℤ) → IsCount rows lo hi → validate_rows t rows lo hi ≡ none
unfolding validate_rows validate_range
count-valid t rows lo hi (inl (n, r, l, h)) = rw (r, l, h) refl
count-valid t rows lo hi (inr (a, b, le, r, l, h)) = rw (r, l, h) (rw (le→leb a b le) refl)

expectation-valid : (t : Bytes × Expectation) → IsCounted t → validate_expectation t ≡ none
unfolding validate_expectation
expectation-valid (t, e) (i, k) = rw i (count-valid t e.rows e.rows_min e.rows_max k)

tables-valid : (ts : List (Bytes × Expectation)) → Each IsCounted ts → first_fault ts ≡ none
unfolding first_fault
tables-valid [] h = refl
tables-valid (t ∷ ts) (p, ps) =
    ap (λ o. or_else o (first_fault ts)) (expectation-valid t p) ∙ tables-valid ts ps

Each-insert_table :
    (t : Bytes × Expectation) (us : List (Bytes × Expectation))
    → IsCounted t
    → Each IsCounted us
    → Each IsCounted (insert_table t us)
unfolding insert_table
Each-insert_table t [] p ps = (p, tt)
Each-insert_table t (u ∷ us) p (q, qs) = elim (Bool-cases (text_le t.0 u.0)) [
  | inl e ↦ rw e (p, (q, qs))
  | inr e ↦ rw e (q, Each-insert_table t us p qs)
]

pub Each-sorted : (ts : List (Bytes × Expectation)) → Each IsCounted ts → Each IsCounted (sorted ts)
unfolding sorted
Each-sorted [] h = tt
Each-sorted (t ∷ ts) (p, ps) = Each-insert_table t (sorted ts) p (Each-sorted ts ps)

is_nil-false : (ts : List (Bytes × Expectation)) → ts ≢ [] → is_nil ts ≡ false
is_nil-false [] h = absurd (h refl)
is_nil-false (t ∷ ts) h = refl

beq-false : (a b : Bytes) → a ≢ b → beq a b ≡ false
beq-false a b h = elim (Bool-cases (beq a b)) [ inl e ↦ absurd (h ((beq_iff a b).0 e)) | inr e ↦ e ]

baseline-valid :
    (schema : Bytes) (o : Option (List (Bytes × Expectation)))
    → ((ts : List (Bytes × Expectation)) → o ≡ some ts → (schema ≢ manifest_schema_v1) × (ts ≢ []))
    → Each IsCounted (elim o [ none ↦ [] | some ts ↦ ts ])
    → validate_tables schema o ≡ none
unfolding validate_tables
baseline-valid schema none v k = refl
baseline-valid schema (some ts) v k =
    rw (beq-false schema manifest_schema_v1 (v ts refl).0, is_nil-false ts (v ts refl).1)
      (tables-valid (sorted ts) (Each-sorted ts k))

size-valid : (o : Option ℤ) → ((n : ℤ) → o ≡ some n → is_negative n ≡ false) → negative o ≡ none
unfolding negative
size-valid none h = refl
size-valid (some n) h = rw (h n refl) refl

schema-valid :
    (s : Bytes)
    → (s ≡ manifest_schema) ⊎ (s ≡ manifest_schema_v1)
    → (is_empty s ≡ false) × (contains manifest_schemas s ≡ true)
unfolding contains beq
schema-valid s (inl e) = rw e (refl, refl)
schema-valid s (inr e) = rw e (refl, refl)

checksum-valid : (a b : Bool) → (a ≡ true) ⊎ (b ≡ true) → (not a && not b) ≡ false
checksum-valid a b h = ground arith

IsUsable-validate : (m : Manifest) → IsUsable m → validate m ≡ none
unfolding validate
IsUsable-validate m u =
    let (named, known) = schema-valid m.schema u.schema in
    rw
      (
        named,
        known,
        u.asserts,
        checksum-valid (is_empty m.expected_checksum) (is_sha256_ref m.expected_checksum)
            u.checksum,
        size-valid m.expected_size_bytes u.size,
      )
      (baseline-valid m.schema m.baseline u.version u.counted)

-- A manifest has no fault exactly if it names a version that is read, asserts something, has a
-- checksum that is a reference if any, no negative size, and a baseline only in the second version:
-- of one table at least, each with a name that a check can use and with one number or one range.
pub validate-IsUsable_iff : (m : Manifest) → (validate m ≡ none) ↔ IsUsable m
validate-IsUsable_iff m = (validate-IsUsable m, IsUsable-validate m)

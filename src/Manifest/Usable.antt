-- ===== src/Manifest/Usable.antt =====
-- What a manifest without a fault is.
use probavi.Base.{
  ℕ, ◌≤◌, ◌≡◌, ◌≢◌, refl, sym, ap, ◌∙◌, ◌⊎◌, inl, inr, Bool, true, false, not, ◌&&◌, Option, none,
  some, List, [], ◌∷◌, arith, leb, leb→le, ==_iff, Bool-cases, Option-cases, is_empty, beq, beq_iff,
  contains, Mem, here, there, Bytes,
}
use probavi.Base.Int.{ℤ, pos, negsuc, is_negative}
use probavi.Redact.{text_le}
use probavi.Evidence.Validate.{is_sha256_ref}
use probavi.Manifest.{
  manifest_schema, manifest_schema_v1, manifest_schemas, Expectation, Manifest, satisfied, between,
  is_identifier, given, validate_range, validate_rows, validate_expectation, insert_table, sorted,
  first_fault, or_else, is_nil, validate_tables, negative, validate, tables_of,
}

-- One number, or a range that is not empty, and nothing else; no count is negative.
abbrev pub IsCount : Option ℤ → Option ℤ → Option ℤ → Type 0
IsCount rows lo hi =
    ((n : ℕ) × (rows ≡ some (pos n)) × (lo ≡ none) × (hi ≡ none))
    ⊎ ((a : ℕ) × (b : ℕ) × (a ≤ b) × (rows ≡ none) × (lo ≡ some (pos a)) × (hi ≡ some (pos b)))

-- A table that a check can name, with one expectation.
abbrev pub IsCounted : Bytes × Expectation → Type 0
IsCounted (table, e) = (is_identifier table ≡ true) × IsCount e.rows e.rows_min e.rows_max

abbrev pub Each : (Bytes × Expectation → Type 0) → List (Bytes × Expectation) → Type 0
Each P [] = Unit
Each P (t ∷ ts) = P t × Each P ts

pub record IsUsable (m : Manifest) : Type 0 where
  pub schema : (m.schema ≡ manifest_schema) ⊎ (m.schema ≡ manifest_schema_v1)
  pub asserts : (is_empty m.expected_checksum && not (given m.expected_size_bytes)) ≡ false
  pub checksum : (is_empty m.expected_checksum ≡ true) ⊎ (is_sha256_ref m.expected_checksum ≡ true)
  pub size : (n : ℤ) → m.expected_size_bytes ≡ some n → is_negative n ≡ false
  pub version :
      (ts : List (Bytes × Expectation))
      → m.baseline ≡ some ts
      → (m.schema ≢ manifest_schema_v1) × (ts ≢ [])
  pub counted : Each IsCounted (tables_of m)

validate_range-IsCount :
    (table : Bytes) (lo hi : Option ℤ) → validate_range table lo hi ≡ none → IsCount none lo hi
unfolding validate_range
validate_range-IsCount table none hi h = cc
validate_range-IsCount table (some lo) none h = cc
validate_range-IsCount table (some (negsuc a)) (some hi) h = cc
validate_range-IsCount table (some (pos a)) (some (negsuc b)) h = cc
validate_range-IsCount table (some (pos a)) (some (pos b)) h = elim (Bool-cases (leb a b)) [
  | inl e ↦ inr (a, b, leb→le a b e, refl, refl, refl)
  | inr e ↦ absurd (cc (rw e at h))
]

validate_rows-IsCount :
    (table : Bytes) (rows lo hi : Option ℤ)
    → validate_rows table rows lo hi ≡ none
    → IsCount rows lo hi
unfolding validate_rows
validate_rows-IsCount table (some (pos n)) none none h = inl (n, refl, refl, refl)
validate_rows-IsCount table (some (negsuc n)) none none h = cc
validate_rows-IsCount table (some n) (some lo) hi h = cc
validate_rows-IsCount table (some n) none (some hi) h = cc
validate_rows-IsCount table none none none h = cc
validate_rows-IsCount table none (some lo) hi h = validate_range-IsCount table (some lo) hi h
validate_rows-IsCount table none none (some hi) h = validate_range-IsCount table none (some hi) h

validate_expectation-IsCounted :
    (t : Bytes × Expectation) → validate_expectation t ≡ none → IsCounted t
unfolding validate_expectation
validate_expectation-IsCounted (table, e) h = elim (Bool-cases (is_identifier table)) [
  | inl i ↦ (i, validate_rows-IsCount table e.rows e.rows_min e.rows_max (rw i at h))
  | inr i ↦ absurd (cc (rw i at h))
]

first_fault-Each : (ts : List (Bytes × Expectation)) → first_fault ts ≡ none → Each IsCounted ts
unfolding first_fault
first_fault-Each [] h = tt
first_fault-Each (t ∷ ts) h = elim (Option-cases (validate_expectation t)) [
  | inl e ↦ (
    validate_expectation-IsCounted t e,
    first_fault-Each ts (ap (λ o. or_else o (first_fault ts)) (sym e) ∙ h),
  )
  | inr (f, e) ↦ absurd (cc (sym h ∙ ap (λ o. or_else o (first_fault ts)) e))
]

insert_table-Each :
    (t : Bytes × Expectation) (us : List (Bytes × Expectation))
    → Each IsCounted (insert_table t us)
    → IsCounted t × Each IsCounted us
unfolding insert_table
insert_table-Each t [] h = h
insert_table-Each t (u ∷ us) h = elim (Bool-cases (text_le t.0 u.0)) [
  | inl e ↦ rw e at h
  | inr e ↦
      let (first, rest) : Each IsCounted (u ∷ insert_table t us) = rw e at h in
      let (p, ps) = insert_table-Each t us rest in (p, (first, ps))
]

sorted-Each : (ts : List (Bytes × Expectation)) → Each IsCounted (sorted ts) → Each IsCounted ts
unfolding sorted
sorted-Each [] h = tt
sorted-Each (t ∷ ts) h = let (p, ps) = insert_table-Each t (sorted ts) h in (p, sorted-Each ts ps)

validate_tables-IsCounted :
    (schema : Bytes) (ts : List (Bytes × Expectation))
    → validate_tables schema (some ts) ≡ none
    → (schema ≢ manifest_schema_v1) × (ts ≢ []) × Each IsCounted ts
unfolding validate_tables
validate_tables-IsCounted schema ts h = elim (Bool-cases (beq schema manifest_schema_v1)) [
  | inl e ↦ absurd (cc (rw e at h))
  | inr e ↦ elim (Bool-cases (is_nil ts)) [
    | inl n ↦ absurd (cc (rw (e, n) at h))
    | inr n ↦ (
      λ q. cc ((beq_iff schema manifest_schema_v1).1 q, e),
      λ q. cc (q, n),
      sorted-Each ts (first_fault-Each (sorted ts) (rw (e, n) at h)),
    )
  ]
]

negative-none : (o : Option ℤ) → negative o ≡ none → (n : ℤ) → o ≡ some n → is_negative n ≡ false
unfolding negative
negative-none none h n e = cc
negative-none (some m) h n e = elim (Bool-cases (is_negative m)) [
  | inl k ↦ absurd (cc (rw k at h))
  | inr k ↦ cc (e, k)
]

known :
    (s : Bytes)
    → contains manifest_schemas s ≡ true
    → (s ≡ manifest_schema) ⊎ (s ≡ manifest_schema_v1)
unfolding contains
known s h = elim (Bool-cases (beq manifest_schema s)) [
  | inl e ↦ inl (sym ((beq_iff manifest_schema s).0 e))
  | inr e ↦ elim (Bool-cases (beq manifest_schema_v1 s)) [
    | inl k ↦ inr (sym ((beq_iff manifest_schema_v1 s).0 k))
    | inr k ↦ absurd (cc (rw (e, k) at h))
  ]
]

-- The conditions of a manifest without a fault, one after the other.
record Cleared (m : Manifest) : Type 0 where
  named : contains manifest_schemas m.schema ≡ true
  asserts : (is_empty m.expected_checksum && not (given m.expected_size_bytes)) ≡ false
  checksum : (not (is_empty m.expected_checksum) && not (is_sha256_ref m.expected_checksum)) ≡ false
  size : negative m.expected_size_bytes ≡ none
  tables : validate_tables m.schema m.baseline ≡ none

validate-Cleared : (m : Manifest) → validate m ≡ none → Cleared m
unfolding validate
validate-Cleared m h = elim (Bool-cases (is_empty m.schema)) [
  | inl a ↦ absurd (cc (rw a at h))
  | inr a ↦ elim (Bool-cases (contains manifest_schemas m.schema)) [
    | inr b ↦ absurd (cc (rw (a, b) at h))
    | inl b ↦
        elim (Bool-cases (is_empty m.expected_checksum && not (given m.expected_size_bytes))) [
          | inl d ↦ absurd (cc (rw (a, b, d) at h))
          | inr d ↦
              elim (Bool-cases
                (not (is_empty m.expected_checksum) && not (is_sha256_ref m.expected_checksum))) [
                  | inl e ↦ absurd (cc (rw (a, b, d, e) at h))
                  | inr e ↦ elim (Option-cases (negative m.expected_size_bytes)) [
                    | inr (n, f) ↦ absurd (cc (rw (a, b, d, e, f) at h))
                    | inl f ↦ record {
                      named = b;
                      asserts = d;
                      checksum = e;
                      size = f;
                      tables = rw (a, b, d, e, f) at h;
                    }
                  ]
                ]
        ]
  ]
]

tables-IsCounted :
    (schema : Bytes) (o : Option (List (Bytes × Expectation)))
    → validate_tables schema o ≡ none
    → Each IsCounted (elim o [ none ↦ [] | some ts ↦ ts ])
tables-IsCounted schema none h = tt
tables-IsCounted schema (some ts) h = let (v, n, c) = validate_tables-IsCounted schema ts h in c

-- A manifest without a fault names a version that is read, asserts something, has a checksum that is
-- a reference if any, no negative size, and a baseline only in the second version: of one table at
-- least, each with a name that a check can use and with one number or one range of counts.
pub validate-IsUsable : (m : Manifest) → validate m ≡ none → IsUsable m
validate-IsUsable m h =
    let c = validate-Cleared m h in
    record {
      schema = known m.schema c.named;
      asserts = c.asserts;
      checksum =
          shown (is_empty m.expected_checksum) (is_sha256_ref m.expected_checksum) c.checksum;
      size = negative-none m.expected_size_bytes c.size;
      version = λ ts e.
          let (v, n, k) =
            validate_tables-IsCounted m.schema ts
              (ap (validate_tables m.schema) (sym e) ∙ c.tables) in
          (v, n);
      counted = tables-IsCounted m.schema m.baseline c.tables;
    }
  where
    shown : (a b : Bool) → (not a && not b) ≡ false → (a ≡ true) ⊎ (b ≡ true)
    shown true b h = inl refl
    shown false true h = inr refl
    shown false false h = cc

Each-Mem :
    (ts : List (Bytes × Expectation)) (t : Bytes × Expectation)
    → Each IsCounted ts
    → Mem t ts
    → IsCounted t
Each-Mem [] u p m = elim m [ ]
Each-Mem (t ∷ ts) u (p, ps) here = p
Each-Mem (t ∷ ts) u (p, ps) (there m) = Each-Mem ts u ps m

pub count-satisfied :
    (e : Expectation)
    → IsCount e.rows e.rows_min e.rows_max
    → ((rows : ℤ) → satisfied e rows ≢ none) × ((n : ℕ) × (satisfied e (pos n) ≡ some true))
unfolding satisfied between
count-satisfied e (inl (n, r, lo, hi)) =
    (λ rows. rw r (λ q. cc), (n, rw r (ap (λ b. some b) ((==_iff n n).1 refl))))
count-satisfied e (inr (a, b, le, r, lo, hi)) =
    (λ rows. rw (r, lo, hi) (λ q. cc), (a, rw (r, lo, hi) (ap (λ b. some b) (both a b le))))
  where
    both : (a b : ℕ) → a ≤ b → (leb a a && leb a b) ≡ true
    both a b h = ground arith

-- Every expectation of a manifest without a fault can be compared with any count of rows, without
-- the dereference of a nil pointer, and is met by some count.
pub validate-satisfied :
    (m : Manifest) (t : Bytes × Expectation)
    → validate m ≡ none
    → Mem t (tables_of m)
    → ((rows : ℤ) → satisfied t.1 rows ≢ none) × ((n : ℕ) × (satisfied t.1 (pos n) ≡ some true))
validate-satisfied m t h i =
    count-satisfied t.1 (Each-Mem (tables_of m) t (validate-IsUsable m h).counted i).1

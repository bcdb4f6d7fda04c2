-- ===== src/Manifest.antt =====
-- internal/manifest/manifest.go: what a backup job declared of its backup, and the comparison of the
-- artifact with it. A complaint is a `Fault` before its words are put together; the reading of the
-- file and the measuring of the artifact are answers of the host.
pub mod Usable
pub mod Complete
pub mod Verdict
use probavi.Base.{
  ℕ, Bool, true, false, not, ◌&&◌, ◌||◌, Option, none, some, List, [], ◌∷◌, leb, ltb, ◌==◌, within,
  all, if◌then◌else◌, beq, contains, is_empty, codes, length, Bytes,
}
use probavi.Base.Int.{ℤ, pos, negsuc, is_negative, le_int, eq_int}
use probavi.Redact.{text_le}
use probavi.Evidence.Codes.{
  code_invalid_request, code_source_not_found, code_source_unreadable, code_source_corrupt,
}
use probavi.Evidence.Validate.{is_sha256_ref}

abbrev pub manifest_schema : Bytes
manifest_schema = codes "probavi-manifest/2"

abbrev pub manifest_schema_v1 : Bytes
manifest_schema_v1 = codes "probavi-manifest/1"

abbrev pub manifest_schemas : List Bytes
manifest_schemas = manifest_schema ∷ manifest_schema_v1 ∷ []

pub record Expectation : Type 0 where
  pub rows : Option ℤ
  pub rows_min : Option ℤ
  pub rows_max : Option ℤ

-- `baseline` is a map: a list with each table once.
pub record Manifest : Type 0 where
  pub schema : Bytes
  pub expected_checksum : Bytes
  pub expected_size_bytes : Option ℤ
  pub baseline : Option (List (Bytes × Expectation))

-- The second half of `Satisfied`; `none` is the dereference of a nil pointer.
unfoldable pub between : Option ℤ → Option ℤ → ℤ → Option Bool
between none hi rows = none
between (some lo) none rows = if le_int lo rows then none else some false
between (some lo) (some hi) rows = some (le_int lo rows && le_int rows hi)

unfoldable pub satisfied : Expectation → ℤ → Option Bool
unfolding between
satisfied e rows = elim e.rows [
  | some n ↦ some (eq_int rows n)
  | none ↦ between e.rows_min e.rows_max rows
]

pub record Measurement : Type 0 where
  pub checksum : Bytes
  pub size : ℤ

pub data Complaint : Type 0 where
  missing unreadable undecodable several : Complaint
  no_schema asserts_nothing baseline_in_v1 empty_baseline : Complaint
  unknown_schema malformed_checksum : Bytes → Complaint
  negative_size : ℤ → Complaint
  bad_table both_forms no_form one_bound : Bytes → Complaint
  negative_rows : Bytes → ℤ → Complaint
  negative_bound inverted_bounds : Bytes → ℤ → ℤ → Complaint
  source_missing source_unreadable : Complaint
  mismatch : Measurement → Complaint

-- The code of a fault.
unfoldable pub code_of : Complaint → Bytes
code_of source_missing = code_source_not_found
code_of source_unreadable = code_source_unreadable
code_of (mismatch got) = code_source_corrupt
code_of _ = code_invalid_request

abbrev is_letter : ℕ → Bool
is_letter c = within b'A' b'Z' c || within b'a' b'z' c || c == b'_'

-- `identifierPart`: `^[A-Za-z_][A-Za-z0-9_]*$`.
unfoldable pub is_identifier_part : Bytes → Bool
is_identifier_part [] = false
is_identifier_part (c ∷ s) = is_letter c && all (λ d. is_letter d || within b'0' b'9' d) s

abbrev onto_first : ℕ → List Bytes → List Bytes
onto_first c [] = (c ∷ []) ∷ []
onto_first c (p ∷ ps) = (c ∷ p) ∷ ps

-- `strings.Split(name, ".")`.
unfoldable pub split_dots : Bytes → List Bytes
split_dots [] = [] ∷ []
split_dots (c ∷ s) = if c == b'.' then [] ∷ split_dots s else onto_first c (split_dots s)

-- `IdentifierParts` of internal/config/identifier.go, as a test.
unfoldable pub is_identifier : Bytes → Bool
unfolding split_dots is_identifier_part
is_identifier name = leb (length (split_dots name)) 2 && all is_identifier_part (split_dots name)

abbrev pub given {ℓ} : {A : Type ℓ} → Option A → Bool
given none = false
given (some a) = true

-- The cases of `Expectation.validate` with a range.
unfoldable pub validate_range : Bytes → Option ℤ → Option ℤ → Option Complaint
validate_range table (some lo) (some hi) =
    if is_negative lo || is_negative hi
    then some (negative_bound table lo hi)
    else if not (le_int lo hi)
    then some (inverted_bounds table lo hi)
    else none
validate_range table _ _ = some (one_bound table)

unfoldable pub validate_rows : Bytes → Option ℤ → Option ℤ → Option ℤ → Option Complaint
unfolding validate_range
validate_rows table (some n) lo hi =
    if given lo || given hi
    then some (both_forms table)
    else if is_negative n
    then some (negative_rows table n)
    else none
validate_rows table none lo hi =
    if not (given lo || given hi) then some (no_form table) else validate_range table lo hi

-- `Expectation.validate`.
unfoldable pub validate_expectation : Bytes × Expectation → Option Complaint
unfolding is_identifier validate_rows
validate_expectation (table, e) =
    if not (is_identifier table)
    then some (bad_table table)
    else validate_rows table e.rows e.rows_min e.rows_max

unfoldable pub insert_table :
    Bytes × Expectation → List (Bytes × Expectation) → List (Bytes × Expectation)
insert_table t [] = t ∷ []
insert_table t (u ∷ us) = if text_le t.0 u.0 then t ∷ u ∷ us else u ∷ insert_table t us

-- `slices.Sorted` over the keys.
unfoldable pub sorted : List (Bytes × Expectation) → List (Bytes × Expectation)
unfolding insert_table
sorted [] = []
sorted (t ∷ ts) = insert_table t (sorted ts)

abbrev pub or_else : Option Complaint → Option Complaint → Option Complaint
or_else (some f) rest = some f
or_else none rest = rest

-- The first fault of the tables.
unfoldable pub first_fault : List (Bytes × Expectation) → Option Complaint
unfolding validate_expectation
first_fault [] = none
first_fault (t ∷ ts) = or_else (validate_expectation t) (first_fault ts)

abbrev is_nil {ℓ} : {A : Type ℓ} → List A → Bool
is_nil [] = true
is_nil (x ∷ xs) = false

unfoldable pub validate_tables : Bytes → Option (List (Bytes × Expectation)) → Option Complaint
unfolding sorted first_fault
validate_tables schema none = none
validate_tables schema (some tables) =
    if beq schema manifest_schema_v1
    then some baseline_in_v1
    else if is_nil tables
    then some empty_baseline
    else first_fault (sorted tables)

unfoldable pub negative : Option ℤ → Option ℤ
negative none = none
negative (some n) = if is_negative n then some n else none

-- `Manifest.validate`.
unfoldable pub validate : Manifest → Option Complaint
unfolding validate_tables negative
validate m =
    if is_empty m.schema
    then some no_schema
    else if not (contains manifest_schemas m.schema)
    then some (unknown_schema m.schema)
    else if is_empty m.expected_checksum && not (given m.expected_size_bytes)
    then some asserts_nothing
    else if not (is_empty m.expected_checksum) && not (is_sha256_ref m.expected_checksum)
    then some (malformed_checksum m.expected_checksum)
    else elim (negative m.expected_size_bytes) [
      | some n ↦ some (negative_size n)
      | none ↦ validate_tables m.schema m.baseline
    ]

abbrev pub size_bad : Option ℤ → ℤ → Bool
size_bad none size = false
size_bad (some n) size = not (eq_int size n)

abbrev pub checksum_bad : Bytes → Bytes → Bool
checksum_bad expected checksum = not (is_empty expected) && not (beq checksum expected)

-- `compare`.
unfoldable pub compare_artifact : Manifest → Measurement → Option Complaint
compare_artifact m got =
    if not (checksum_bad m.expected_checksum got.checksum)
      && not (size_bad m.expected_size_bytes got.size)
    then none
    else some (mismatch got)

-- What the file system and the decoder answer to `read`: the bytes with the decoded document, or why
-- there is none.
pub data ReadAnswer : Type 0 where
  no_file no_access not_document more_documents : ReadAnswer
  document : Bytes → Manifest → ReadAnswer

-- What `measure` answers, by whether a checksum is wanted.
pub data MeasureAnswer : Type 0 where
  not_found not_readable : MeasureAnswer
  measured : Measurement → MeasureAnswer

-- `Result`, and the fault beside it.
pub record Checked : Type 0 where
  pub hash : Option Bytes
  pub matched : Option Bool
  pub baseline : List (Bytes × Expectation)
  pub fault : Option Complaint

abbrev no_result : Complaint → Checked
no_result f = record { hash = none; matched = none; baseline = []; fault = some f }

abbrev pub tables_of : Manifest → List (Bytes × Expectation)
tables_of m = elim m.baseline [ none ↦ [] | some ts ↦ ts ]

-- `Check`, once the artifact was asked for.
unfoldable pub check_measured : Bytes → Manifest → MeasureAnswer → Checked
unfolding compare_artifact
check_measured hash m not_found = record {
  hash = some hash;
  matched = none;
  baseline = tables_of m;
  fault = some source_missing;
}
check_measured hash m not_readable = record {
  hash = some hash;
  matched = none;
  baseline = tables_of m;
  fault = some source_unreadable;
}
check_measured hash m (measured got) = record {
  hash = some hash;
  matched = some (not (given (compare_artifact m got)));
  baseline = tables_of m;
  fault = compare_artifact m got;
}

unfoldable pub check_valid :
    (Bytes → Bytes) → (Bool → MeasureAnswer) → Bytes → Manifest → Option Complaint → Checked
unfolding check_measured
check_valid digest_of measure raw m (some f) = no_result f
check_valid digest_of measure raw m none =
    check_measured (digest_of raw) m (measure (not (is_empty m.expected_checksum)))

-- `Check`; `digest_of` is SHA-256 as a reference.
unfoldable pub check : (Bytes → Bytes) → (Bool → MeasureAnswer) → ReadAnswer → Checked
unfolding validate check_valid
check digest_of measure no_file = no_result missing
check digest_of measure no_access = no_result unreadable
check digest_of measure not_document = no_result undecodable
check digest_of measure more_documents = no_result several
check digest_of measure (document raw m) = check_valid digest_of measure raw m (validate m)

-- ===== src/Config/Check.antt =====
-- internal/config/config.go and builtins.go: one check of a drill and its validation. A diagnostic
-- is a `Flaw`, its words left out.
pub mod Runnable
pub mod Kinds
use probavi.Base.{
  ℕ, Bool, true, false, not, ◌&&◌, ◌||◌, Option, none, some, List, [], ◌∷◌, ◌++◌, if◌then◌else◌,
  beq, is_empty, codes, Bytes,
}
use probavi.Base.Int.{ℤ, pos, is_negative, le_int, eq_int}
use probavi.Manifest.{given}

-- `Check`; `expect` is a `Scalar`, by its text where it is set.
pub record CheckConfig : Type 0 where
  pub builtin : Bytes
  pub table : Bytes
  pub column : Bytes
  pub min : Option ℤ
  pub max : Option ℤ
  pub max_age : ℤ
  pub name : Bytes
  pub sql : Bytes
  pub expect : Option Bytes

abbrev pub check_service_healthy : Bytes
check_service_healthy = codes "service_healthy"

abbrev pub check_table_exists : Bytes
check_table_exists = codes "table_exists"

abbrev pub check_row_count : Bytes
check_row_count = codes "row_count"

abbrev pub check_freshness : Bytes
check_freshness = codes "freshness"

abbrev pub check_baseline : Bytes
check_baseline = codes "baseline"

abbrev pub check_sql : Bytes
check_sql = codes "sql"

pub data Flaw : Type 0 where
  builtin_or_sql_not_both builtin_or_sql expect_only_sql name_only_sql unknown_builtin : Flaw
  baseline_manifest row_count_bounds row_count_negative row_count_min_max : Flaw
  freshness_column freshness_max_age sql_expect requires_table : Flaw
  table_not_valid column_not_valid min_max_not_valid max_age_not_valid : Flaw

abbrev pub flaw_if : Bool → Flaw → List Flaw
flaw_if bad f = if bad then f ∷ [] else []

-- `CheckKinds`, by the identifiers and whether they are builtin.
abbrev pub check_kinds : List (Bytes × Bool)
check_kinds =
    (check_service_healthy, true)
    ∷ (check_table_exists, true)
    ∷ (check_row_count, true)
    ∷ (check_freshness, true)
    ∷ (check_baseline, true)
    ∷ (check_sql, false)
    ∷ []

-- `LookupCheckKind`, in a registry.
unfoldable pub lookup_check_kind : List (Bytes × Bool) → Bytes → Option (Bytes × Bool)
lookup_check_kind [] id = none
lookup_check_kind (k ∷ ks) id =
    let rest = lookup_check_kind ks id in if beq k.0 id then some k else rest

unfoldable pub require_table : CheckConfig → List Flaw
require_table ch = flaw_if (is_empty ch.table) requires_table

-- `fields`.
pub record Fields : Type 0 where
  pub table : Bool
  pub column : Bool
  pub minmax : Bool
  pub max_age : Bool

abbrev fields : Bool → Bool → Bool → Bool → Fields
fields t c m a = record { table = t; column = c; minmax = m; max_age = a }

unfoldable pub forbid : CheckConfig → Fields → List Flaw
forbid ch f =
    flaw_if (f.table && not (is_empty ch.table)) table_not_valid
    ++ flaw_if (f.column && not (is_empty ch.column)) column_not_valid
    ++ flaw_if (f.minmax && (given ch.min || given ch.max)) min_max_not_valid
    ++ flaw_if (f.max_age && not (eq_int ch.max_age (pos 0))) max_age_not_valid

abbrev pub below_zero : Option ℤ → Bool
below_zero none = false
below_zero (some n) = is_negative n

abbrev pub exceeds : Option ℤ → Option ℤ → Bool
exceeds (some lo) (some hi) = not (le_int lo hi)
exceeds _ _ = false

-- The switch of `validateRowCount`.
unfoldable pub validate_bounds : Option ℤ → Option ℤ → List Flaw
validate_bounds lo hi =
    if not (given lo) && not (given hi)
    then row_count_bounds ∷ []
    else if below_zero lo || below_zero hi
    then row_count_negative ∷ []
    else flaw_if (exceeds lo hi) row_count_min_max

unfoldable pub validate_row_count : CheckConfig → List Flaw
unfolding require_table forbid validate_bounds
validate_row_count ch =
    require_table ch ++ forbid ch (fields false true false true) ++ validate_bounds ch.min ch.max

unfoldable pub validate_freshness : CheckConfig → List Flaw
unfolding require_table forbid
validate_freshness ch =
    require_table ch
    ++ forbid ch (fields false false true false)
    ++ flaw_if (is_empty ch.column) freshness_column
    ++ flaw_if (eq_int ch.max_age (pos 0)) freshness_max_age

unfoldable pub validate_baseline : Bool → CheckConfig → List Flaw
unfolding forbid
validate_baseline has_manifest ch =
    forbid ch (fields true true true true) ++ flaw_if (not has_manifest) baseline_manifest

-- The switch of `validateBuiltin` over the kind.
unfoldable pub validate_kind : Bool → CheckConfig → Bytes → List Flaw
unfolding require_table forbid validate_row_count validate_freshness validate_baseline
validate_kind has_manifest ch kind =
    if beq kind check_service_healthy
    then forbid ch (fields true true true true)
    else if beq kind check_table_exists
    then require_table ch ++ forbid ch (fields false true true true)
    else if beq kind check_row_count
    then validate_row_count ch
    else if beq kind check_freshness
    then validate_freshness ch
    else if beq kind check_baseline
    then validate_baseline has_manifest ch
    else unknown_builtin ∷ []

unfoldable pub validate_found : Bool → CheckConfig → Option (Bytes × Bool) → List Flaw
unfolding validate_kind
validate_found has_manifest ch none = unknown_builtin ∷ []
validate_found has_manifest ch (some k) =
    if k.1 then validate_kind has_manifest ch k.0 else unknown_builtin ∷ []

unfoldable pub validate_builtin : Bool → CheckConfig → List Flaw
unfolding lookup_check_kind validate_found
validate_builtin has_manifest ch =
    flaw_if (given ch.expect) expect_only_sql
    ++ flaw_if (not (is_empty ch.name)) name_only_sql
    ++ validate_found has_manifest ch (lookup_check_kind check_kinds ch.builtin)

unfoldable pub validate_sql : CheckConfig → List Flaw
unfolding forbid
validate_sql ch =
    flaw_if (not (given ch.expect)) sql_expect ++ forbid ch (fields true true true true)

-- `Check.validate`.
unfoldable pub validate_check : Bool → CheckConfig → List Flaw
unfolding validate_builtin validate_sql
validate_check has_manifest ch =
    if not (is_empty ch.builtin) && not (is_empty ch.sql)
    then builtin_or_sql_not_both ∷ []
    else if not (is_empty ch.builtin)
    then validate_builtin has_manifest ch
    else if not (is_empty ch.sql)
    then validate_sql ch
    else builtin_or_sql ∷ []

-- The loop of `validateChecks`.
unfoldable pub validate_each : Bool → List CheckConfig → List Flaw
unfolding validate_check
validate_each has_manifest [] = []
validate_each has_manifest (ch ∷ chs) =
    validate_check has_manifest ch ++ validate_each has_manifest chs

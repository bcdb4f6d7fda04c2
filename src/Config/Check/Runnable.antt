-- ===== src/Config/Check/Runnable.antt =====
-- The checks that pass validation: what each kind needs, and nothing that is not its own.
use probavi.Base.{
  not-false, ◌≡◌, ◌≢◌, ◌↔◌, refl, Bool, true, false, not, ◌&&◌, ◌||◌, Option, none, some, [], ◌∷◌,
  is_empty, append-nil_iff, Bytes, arith,
}
use probavi.Base.Int.{ℤ, pos, negsuc, is_negative, le_int, eq_int}
use probavi.Manifest.{given}
use probavi.Config.Check.{
  CheckConfig, Flaw, Fields, row_count_min_max, flaw_if, forbid, validate_bounds,
  check_service_healthy, check_table_exists, check_row_count, check_freshness, check_baseline,
}

-- One bound at least, none negative, and the lower one not above the other.
pub data Bounds : Option ℤ → Option ℤ → Type 0 where
  from : {lo : ℤ} → is_negative lo ≡ false → Bounds (some lo) none
  to : {hi : ℤ} → is_negative hi ≡ false → Bounds none (some hi)
  between :
      {lo hi : ℤ}
      → is_negative lo ≡ false
      → is_negative hi ≡ false
      → le_int lo hi ≡ true
      → Bounds (some lo) (some hi)

pub record Bare (ch : CheckConfig) (t c m a : Bool) : Type 0 where
  pub no_table : t ≡ true → ch.table ≡ []
  pub no_column : c ≡ true → ch.column ≡ []
  pub no_bounds : m ≡ true → (ch.min ≡ none) × (ch.max ≡ none)
  pub no_age : a ≡ true → ch.max_age ≡ pos 0

abbrev pub IsBuiltin : CheckConfig → Bytes → Type 0
IsBuiltin ch kind = (ch.builtin ≡ kind) × (ch.sql ≡ []) × (ch.expect ≡ none) × (ch.name ≡ [])

pub data Runnable (has_manifest : Bool) (ch : CheckConfig) : Type 0 where
  healthy :
      IsBuiltin ch check_service_healthy → Bare ch true true true true → Runnable has_manifest ch
  exists_table :
      IsBuiltin ch check_table_exists
      → ch.table ≢ []
      → Bare ch false true true true
      → Runnable has_manifest ch
  counts :
      IsBuiltin ch check_row_count
      → ch.table ≢ []
      → Bare ch false true false true
      → Bounds ch.min ch.max
      → Runnable has_manifest ch
  fresh :
      IsBuiltin ch check_freshness
      → ch.table ≢ []
      → Bare ch false false true false
      → ch.column ≢ []
      → eq_int ch.max_age (pos 0) ≡ false
      → Runnable has_manifest ch
  reconciles :
      IsBuiltin ch check_baseline
      → Bare ch true true true true
      → has_manifest ≡ true
      → Runnable has_manifest ch
  asserts :
      ch.builtin ≡ []
      → ch.sql ≢ []
      → given ch.expect ≡ true
      → Bare ch true true true true
      → Runnable has_manifest ch

pub flaw_if-nil_iff : (b : Bool) (f : Flaw) → (flaw_if b f ≡ []) ↔ (b ≡ false)
flaw_if-nil_iff true f = ((λ e. cc), λ e. cc)
flaw_if-nil_iff false f = ((λ e. refl), λ e. refl)

implied : (a b : Bool) → (a && b) ≡ false → a ≡ true → b ≡ false
implied a b h t = ground arith

imply : (a b : Bool) → (a ≡ true → b ≡ false) → (a && b) ≡ false
imply true b h = h refl
imply false b h = refl

pub empty_iff : (s : Bytes) → (not (is_empty s) ≡ false) ↔ (s ≡ [])
empty_iff [] = ((λ e. refl), λ e. refl)
empty_iff (c ∷ s) = ((λ e. cc), λ e. cc)

neither_given : (a b : Option ℤ) → (given a || given b) ≡ false → (a ≡ none) × (b ≡ none)
neither_given none none h = (refl, refl)
neither_given none (some y) h = cc
neither_given (some x) b h = cc

zero_iff : (n : ℤ) → (not (eq_int n (pos 0)) ≡ false) ↔ (n ≡ pos 0)
zero_iff (pos n) = ground arith
zero_iff (negsuc n) = ((λ e. cc), λ e. cc)

pub forbid-nil_iff :
    (ch : CheckConfig) (f : Fields)
    → (forbid ch f ≡ []) ↔ Bare ch f.table f.column f.minmax f.max_age
unfolding forbid
forbid-nil_iff ch f = (
  λ e.
      let (abc, d) =
        (append-nil_iff _
            (flaw_if (f.max_age && not (eq_int ch.max_age (pos 0))) Flaw.max_age_not_valid)).0
          e in
      let (ab, c) =
        (append-nil_iff _
            (flaw_if (f.minmax && (given ch.min || given ch.max)) Flaw.min_max_not_valid)).0
          abc in
      let (a, b) =
        (append-nil_iff _ (flaw_if (f.column && not (is_empty ch.column)) Flaw.column_not_valid)).0
          ab in
      record {
        no_table = λ t.
            (empty_iff ch.table).0
              (implied f.table _ ((flaw_if-nil_iff _ Flaw.table_not_valid).0 a) t);
        no_column = λ t.
            (empty_iff ch.column).0
              (implied f.column _ ((flaw_if-nil_iff _ Flaw.column_not_valid).0 b) t);
        no_bounds = λ t.
            neither_given ch.min ch.max
              (implied f.minmax _ ((flaw_if-nil_iff _ Flaw.min_max_not_valid).0 c) t);
        no_age = λ t.
            (zero_iff ch.max_age).0
              (implied f.max_age _ ((flaw_if-nil_iff _ Flaw.max_age_not_valid).0 d) t);
      },
  λ h.
      rw
        (
          imply f.table (not (is_empty ch.table)) (λ t. (empty_iff ch.table).1 (h.no_table t)),
          imply f.column (not (is_empty ch.column)) (λ t. (empty_iff ch.column).1 (h.no_column t)),
          imply f.minmax (given ch.min || given ch.max)
              (λ t. rw ((h.no_bounds t).0, (h.no_bounds t).1) refl),
          imply f.max_age (not (eq_int ch.max_age (pos 0)))
              (λ t. (zero_iff ch.max_age).1 (h.no_age t)),
        )
        refl,
)

pub bounds-nil_iff : (lo hi : Option ℤ) → (validate_bounds lo hi ≡ []) ↔ Bounds lo hi
unfolding validate_bounds
bounds-nil_iff none none = ((λ e. cc), λ h. elim h [ ])
bounds-nil_iff (some (pos a)) none = ((λ e. from refl), λ h. refl)
bounds-nil_iff (some (negsuc a)) none = ((λ e. cc), λ h. elim h [ from n ↦ cc ])
bounds-nil_iff none (some (pos b)) = ((λ e. to refl), λ h. refl)
bounds-nil_iff none (some (negsuc b)) = ((λ e. cc), λ h. elim h [ to n ↦ cc ])
bounds-nil_iff (some (negsuc a)) (some b) = ((λ e. cc), λ h. elim h [ between n m l ↦ cc ])
bounds-nil_iff (some (pos a)) (some (negsuc b)) = ((λ e. cc), λ h. elim h [ between n m l ↦ cc ])
bounds-nil_iff (some (pos a)) (some (pos b)) = (
  λ e. between refl refl (not-false _ ((flaw_if-nil_iff _ row_count_min_max).0 e)),
  λ h. elim h [ between n m l ↦ rw l refl ],
)

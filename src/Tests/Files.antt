-- ===== src/Tests/Files.antt =====
-- Anchors and manifests.
use probavi.Base.{
  ◌≡◌, refl, ◌↔◌, Bool, false, none, some, [], ◌∷◌, ◌++◌, beq, contains, codes, Bytes,
}
use probavi.Base.Int.{pos}
use probavi.Evidence.Validate.{is_sha256_ref}
use probavi.Evidence.Walk.{Head}
use probavi.Evidence.Anchor.{parse_anchor, head_string}
use probavi.Evidence.Anchor.RoundTrip.{IsWritable, parse_anchor-head_string_iff}
use probavi.Manifest.{
  Manifest, Expectation, validate, manifest_schema, check, document, measured, MeasureAnswer,
}
use probavi.Manifest.Usable.{IsUsable}
use probavi.Manifest.Complete.{validate-IsUsable_iff}
use probavi.Manifest.Verdict.{IsCorrupt, Disagrees, check-IsCorrupt_iff}
use probavi.Tests.Samples.{filler}

abbrev twelve : Head
twelve = record { seq = 12; hash = codes "sha256:" ++ filler 64 }

parse_anchor-zero : parse_anchor (codes "012:sha256:" ++ filler 64) ≡ none
unfolding parse_anchor
parse_anchor-zero = refl

parse_anchor-head_string_iff_example :
    (parse_anchor (codes "12:sha256:" ++ filler 64) ≡ some twelve)
    ↔ ((codes "12:sha256:" ++ filler 64 ≡ head_string twelve) × IsWritable twelve)
parse_anchor-head_string_iff_example =
    parse_anchor-head_string_iff (codes "12:sha256:" ++ filler 64) twelve

abbrev orders : Bytes × Expectation
orders = (
  codes "public.orders",
  record { rows = none; rows_min = some (pos 4); rows_max = some (pos 9) },
)

abbrev declared : Manifest
declared = record {
  schema = manifest_schema;
  expected_checksum = codes "sha256:" ++ filler 64;
  expected_size_bytes = some (pos 7);
  baseline = some (orders ∷ []);
}

declared_valid : validate declared ≡ none
unfolding validate beq contains is_sha256_ref
declared_valid = refl

validate-IsUsable_iff_example : (validate declared ≡ none) ↔ IsUsable declared
validate-IsUsable_iff_example = validate-IsUsable_iff declared

-- An artifact with one byte more.
abbrev larger : Bool → MeasureAnswer
larger wanted = measured (record { checksum = codes "sha256:" ++ filler 64; size = pos 8 })

larger_differs : (check (λ raw. raw) larger (document [] declared)).matched ≡ some false
unfolding check validate beq contains is_sha256_ref
larger_differs = refl

check-IsCorrupt_iff_example :
    IsCorrupt (check (λ raw. raw) larger (document [] declared)).fault
    ↔ Disagrees larger (document [] declared)
check-IsCorrupt_iff_example = check-IsCorrupt_iff (λ raw. raw) larger (document [] declared)

-- ===== src/Tests/Configs.antt =====
-- The configuration of a drill with a webhook and three checks.
use probavi.Base.{
  ◌≡◌, refl, ◌↔◌, true, false, Bool, Option, none, some, [], ◌∷◌, beq, contains, codes, Bytes,
}
use probavi.Base.Int.{pos}
use probavi.Config.Check.{
  CheckConfig, freshness_max_age, check_row_count, check_freshness, check_baseline,
}
use probavi.Config.Drill.{DrillConfig, Host, in_check, source_select_twice, validate_drill}
use probavi.Config.Drill.Sound.{IsDrill, validate_drill-IsDrill_iff}

abbrev if_known {ℓ} : {A : Type ℓ} → Bool → A → Option A
if_known true x = some x
if_known false x = none

-- A host whose parsers know one text each.
abbrev host : Host
host = record {
  parse_url = λ s.
      if_known (beq s (codes "https://hooks.example/x")) (codes "https", codes "hooks.example");
  parse_time = λ s. if_known (beq s (codes "2026-08-01T00:00:00Z")) (pos 1785542400000000000);
  now = pos 1785628800000000000;
}

abbrev pub check : Bytes → CheckConfig
check kind = record {
  builtin = kind;
  table = [];
  column = [];
  min = none;
  max = none;
  max_age = pos 0;
  name = [];
  sql = [];
  expect = none;
}

abbrev pub counted : CheckConfig
counted = record (check check_row_count) { table = codes "orders"; min = some (pos 1) }

abbrev pub fresh : CheckConfig
fresh = record (check check_freshness) {
  table = codes "orders";
  column = codes "placed_at";
  max_age = pos 86400000000000;
}

abbrev nightly : DrillConfig
nightly = record {
  target = record {
    name = codes "orders";
    adapter = codes "postgres";
    source = record {
      kind = codes "pg_dump";
      path = codes "/backups/orders.dump";
      manifest = codes "/backups/orders.manifest";
      select = codes "newest";
      params = (codes "format", codes "custom") ∷ [];
      credential_env = codes "PGPASSWORD" ∷ [];
    };
    pitr = some (record { target_time = codes "2026-08-01T00:00:00Z"; target_age = pos 0 });
  };
  sandbox = record { provider = codes "docker"; timeout = pos 900000000000 };
  checks = counted ∷ fresh ∷ check check_baseline ∷ [];
  evidence = record { path = codes "log.jsonl"; sign_key = codes "key.pem" };
  metrics = none;
  notify = some (
      record {
        url = codes "https://hooks.example/x";
        url_env = [];
        secret_env = codes "HOOK_SECRET";
        on = codes "fail" ∷ codes "error" ∷ [];
      }
      ∷ []);
}

nightly_valid : validate_drill host nightly ≡ []
unfolding validate_drill beq contains
nightly_valid = refl

-- The same with a selection set twice and an age left out.
abbrev broken : DrillConfig
broken = record nightly {
  target = record (nightly.target) {
    source = record (nightly.target.source) { params = (codes "select", codes "oldest") ∷ [] };
  };
  checks = record fresh { max_age = pos 0 } ∷ [];
}

broken_reported : validate_drill host broken ≡ source_select_twice ∷ in_check freshness_max_age ∷ []
unfolding validate_drill beq contains
broken_reported = refl

validate_drill-IsDrill_iff_example : (validate_drill host nightly ≡ []) ↔ IsDrill host nightly
validate_drill-IsDrill_iff_example = validate_drill-IsDrill_iff host nightly

-- ===== src/Core/Request.antt =====
-- internal/core/core.go: what a drill hands to an adapter and to the checks (`provisionRequest`,
-- `sourceParams`, `resolvePassword`), and the types of internal/adapter/protocol.go for it. The
-- environment of the process is a function.
pub mod Laws
use probavi.Base.{
  Bool, true, false, Option, none, some, List, [], ◌∷◌, if◌then◌else◌, beq, contains, is_empty,
  codes, Bytes,
}
use probavi.Core.World.{Drill, Source, Config}

-- `adapter.SandboxPasswordEnv` and `config.SelectParam`.
abbrev pub sandbox_password_env : Bytes
sandbox_password_env = codes "PROBAVI_SANDBOX_PASSWORD"

abbrev pub select_param : Bytes
select_param = codes "select"

abbrev or_blank : Option Bytes → Bytes
or_blank none = []
or_blank (some v) = v

-- `resolvePassword`.
unfoldable pub resolve_password : Drill → (Bytes → Option Bytes) → Bytes → Bytes
resolve_password d env password_env =
    if is_empty password_env
    then []
    else if beq password_env sandbox_password_env
    then d.sandbox_password
    else if contains d.config.source.credential_env password_env
    then or_blank (env password_env)
    else []

-- The value of a key in a map.
unfoldable pub lookup : Bytes → List (Bytes × Bytes) → Option Bytes
lookup key [] = none
lookup key ((k, v) ∷ ps) = let rest = lookup key ps in if beq k key then some v else rest

-- `params[key] = value`.
unfoldable pub assign : Bytes → Bytes → List (Bytes × Bytes) → List (Bytes × Bytes)
assign key value [] = (key, value) ∷ []
assign key value ((k, v) ∷ ps) =
    let rest = assign key value ps in if beq k key then (key, value) ∷ ps else (k, v) ∷ rest

-- `sourceParams`.
unfoldable pub source_params : Source → List (Bytes × Bytes)
unfolding assign
source_params src =
    if is_empty src.select then src.params else assign select_param src.select src.params

pub record ProvisionSource : Type 0 where
  pub kind : Bytes
  pub path : Bytes
  pub params : List (Bytes × Bytes)
  pub credential_env : List Bytes

pub record ProvisionRequest : Type 0 where
  pub source : ProvisionSource
  pub scratch_dir : Bytes
  pub options : List (Bytes × Bytes)
  pub pitr : Option Bytes

-- `provisionRequest`, with the options of the configuration.
unfoldable pub provision_request :
    Config → List (Bytes × Bytes) → Bytes → Option Bytes → ProvisionRequest
unfolding source_params
provision_request cfg options scratch_dir pitr_target = record {
  source = record {
    kind = cfg.source.kind;
    path = cfg.source.path;
    params = source_params cfg.source;
    credential_env = cfg.source.credential_env;
  };
  scratch_dir = scratch_dir;
  options = options;
  pitr = pitr_target;
}

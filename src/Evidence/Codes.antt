-- ===== src/Evidence/Codes.antt =====
-- internal/evidence/errorcodes.go and the sentinels of evidence.go: the vocabulary of `error.code`,
-- the published schemas, and the errors that the package tells apart.
use probavi.Base.{Bool, List, [], ◌∷◌, ◌++◌, codes, contains, Bytes}

abbrev pub code_invalid_request : Bytes
code_invalid_request = codes "invalid_request"

abbrev pub code_unsupported_proto : Bytes
code_unsupported_proto = codes "unsupported_protocol"

abbrev pub code_unsupported_source : Bytes
code_unsupported_source = codes "unsupported_source"

abbrev pub code_source_not_found : Bytes
code_source_not_found = codes "source_not_found"

abbrev pub code_source_unreadable : Bytes
code_source_unreadable = codes "source_unreadable"

abbrev pub code_source_corrupt : Bytes
code_source_corrupt = codes "source_corrupt"

abbrev pub code_restore_failed : Bytes
code_restore_failed = codes "restore_failed"

abbrev pub code_engine_not_ready : Bytes
code_engine_not_ready = codes "engine_not_ready"

abbrev pub code_sandbox_error : Bytes
code_sandbox_error = codes "sandbox_error"

abbrev pub code_timeout : Bytes
code_timeout = codes "timeout"

abbrev pub code_cancelled : Bytes
code_cancelled = codes "cancelled"

abbrev pub code_adapter_crash : Bytes
code_adapter_crash = codes "adapter_crash"

abbrev pub code_internal : Bytes
code_internal = codes "internal"

abbrev pub code_check_failed : Bytes
code_check_failed = codes "check_failed"

abbrev pub error_codes : List Bytes
error_codes =
    code_invalid_request ∷ code_unsupported_proto ∷ code_unsupported_source ∷ code_source_not_found
    ∷ code_source_unreadable ∷ code_source_corrupt ∷ code_restore_failed ∷ code_engine_not_ready
    ∷ code_sandbox_error ∷ code_timeout ∷ code_cancelled ∷ code_adapter_crash ∷ code_internal
    ∷ code_check_failed ∷ []

unfoldable pub is_error_code : Bytes → Bool
unfolding contains
is_error_code code = contains error_codes code

abbrev pub schema_id_v0 : Bytes
schema_id_v0 = codes "probavi-evidence/0"

abbrev pub schema_id_v1 : Bytes
schema_id_v1 = codes "probavi-evidence/1"

abbrev pub schema_id_v2 : Bytes
schema_id_v2 = codes "probavi-evidence/2"

abbrev pub schema_id : Bytes
schema_id = codes "probavi-evidence/3"

abbrev pub schema_ids : List Bytes
schema_ids = schema_id_v0 ∷ schema_id_v1 ∷ schema_id_v2 ∷ schema_id ∷ []

unfoldable pub supported_schema : Bytes → Bool
unfolding contains
supported_schema s = contains schema_ids s

abbrev pub genesis_prev_hash : Bytes
genesis_prev_hash =
    codes "sha256:"
    ++ codes "00000000000000000000000000000000"
    ++ codes "00000000000000000000000000000000"

-- The sentinels that callers match with `errors.Is`.
pub data Sentinel : Type 0 where
  not_integer not_canonical record_too_large invalid_record : Sentinel
  unknown_key locked chain_state : Sentinel

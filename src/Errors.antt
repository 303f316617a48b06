-- ===== src/Errors.antt =====
-- internal/errors/errors.go: the error codes, and which of them a retry can cure.
use Prim.Native.String.{String}
use lybrix.Base.{Bool, true, false, Option, none, some}
use lybrix.Store.Rows.{Detail}

pub data Stage : Type 0 where
  stage_split stage_parse stage_embed stage_index : Stage

pub data ErrorCode : Type 0 where
  pdf_encrypted pdf_corrupt unsupported_format shard_oom shard_timeout ocr_failed embed_unavailable
        embed_dim_mismatch vector_upsert_failed dedupe_conflict doc_embed_failed dlq shard_resplit :
      ErrorCode

-- The string that an event carries.
abbrev pub code_text : ErrorCode → String
code_text pdf_encrypted = "PDF_ENCRYPTED"
code_text pdf_corrupt = "PDF_CORRUPT"
code_text unsupported_format = "UNSUPPORTED_FORMAT"
code_text shard_oom = "SHARD_OOM"
code_text shard_timeout = "SHARD_TIMEOUT"
code_text ocr_failed = "OCR_FAILED"
code_text embed_unavailable = "EMBED_UNAVAILABLE"
code_text embed_dim_mismatch = "EMBED_DIM_MISMATCH"
code_text vector_upsert_failed = "VECTOR_UPSERT_FAILED"
code_text dedupe_conflict = "DEDUPE_CONFLICT"
code_text doc_embed_failed = "DOC_EMBED_FAILED"
code_text dlq = "DLQ"
code_text shard_resplit = "SHARD_RESPLIT"

-- An entry of the table; its text for the user interface is left out.
pub record ErrorSpec : Type 0 where
  pub stage : Stage
  pub retryable : Bool

abbrev spec : Stage → Bool → Option ErrorSpec
spec stage retryable = some (record { stage = stage; retryable = retryable })

-- ErrorSpecs: the codes of the quarantine and of the re-split have no entry.
abbrev pub error_specs : ErrorCode → Option ErrorSpec
error_specs pdf_encrypted = spec stage_split false
error_specs pdf_corrupt = spec stage_split false
error_specs unsupported_format = spec stage_split false
error_specs shard_oom = spec stage_parse true
error_specs shard_timeout = spec stage_parse true
error_specs ocr_failed = spec stage_parse true
error_specs embed_unavailable = spec stage_embed true
error_specs embed_dim_mismatch = spec stage_embed false
error_specs vector_upsert_failed = spec stage_index true
error_specs dedupe_conflict = spec stage_split false
error_specs doc_embed_failed = spec stage_embed false
error_specs dlq = none
error_specs shard_resplit = none

pub record PlatformError : Type 0 where
  pub code : ErrorCode
  pub detail : Detail
  pub retryable : Bool

-- `!ok || spec.Retryable`.
abbrev retryable_by : Option ErrorSpec → Bool
retryable_by none = true
retryable_by (some s) = s.retryable

abbrev pub new_platform_error : ErrorCode → Detail → PlatformError
new_platform_error code detail = record {
  code = code;
  detail = detail;
  retryable = retryable_by (error_specs code);
}

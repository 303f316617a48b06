-- ===== src/Queue/Jobs.antt =====
-- internal/queue/contracts.go: the payloads of the three streams. Document ids are numbers, as in
-- the store. The JSON text of a payload is left out: a stream entry carries the payload itself.
use Prim.Native.String.{String}
use lybrix.Base.{ℕ, Bool, ltb}

abbrev pub schema_version : ℕ
schema_version = 1

pub record SplitJob : Type 0 where
  pub schema_version : ℕ
  pub doc_id : ℕ
  pub source_uri : String

pub record ParseJob : Type 0 where
  pub schema_version : ℕ
  pub doc_id : ℕ
  pub idx : ℕ
  pub page_start : ℕ
  pub page_end : ℕ
  pub source_uri : String

pub record EmbedJob : Type 0 where
  pub schema_version : ℕ
  pub doc_id : ℕ

-- ValidatePages.
abbrev pub pages_invalid : ParseJob → Bool
pages_invalid j = ltb j.page_end j.page_start

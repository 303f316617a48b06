-- ===== src/Store/Rows.antt =====
-- internal/store/models.go and deploy/schema.sql: the rows of the tables `documents`, `shards` and
-- `chunks`. Ids are UUIDs, here numbers; times are numbers of milliseconds. `mean_chars_per_page`
-- keeps the two numbers whose quotient the code stores, and `completeness` counts ten-thousandths,
-- the scale of its column. Columns that no statement below reads or writes are left out.
use Prim.Native.String.{String}
use lybrix.Base.{ℕ, Bool, true, false, ◌&&◌, Option, List, [], ◌∷◌, ◌++◌, ◌==◌, if◌then◌else◌}
use lybrix.Base.Int.{ℤ}

pub data DocState : Type 0 where
  uploaded splitting parsing embedding indexing ready failed partial archived : DocState

pub data ShardState : Type 0 where
  pending running done failed skipped : ShardState

-- The text of an error: a literal, or one of the code's formats with its arguments.
pub data Detail : Type 0 where
  literal : String → Detail
  source_missing : String → Detail
  cannot_open : String → Detail
  escalated_after : ℕ → Detail
  source_vanished : String → Detail
  resplit_into : ℕ → ℕ → ℕ → Detail
  quarantined_from : String → ℕ → Detail
  never_attempted : ℕ → Detail
  non_terminal_over : ℕ → DocState → Detail
  embed_failed : ℕ → String → Detail

pub record Mean : Type 0 where
  pub chars : ℕ
  pub pages : ℕ

pub record Document : Type 0 where
  pub id : ℕ
  pub collection_id : Option String
  pub source_uri : String
  pub page_count : Option ℕ
  pub mime_type : Option String
  pub state : DocState
  pub error_code : Option String
  pub error_detail : Option Detail
  pub total_shards : Option ℕ
  pub shards_done : ℕ
  pub shards_failed : ℤ
  pub chunk_count : Option ℕ
  pub completeness : Option ℕ
  pub updated_at : ℕ
  pub ready_at : Option ℕ

pub record Shard : Type 0 where
  pub doc_id : ℕ
  pub idx : ℕ
  pub page_start : ℕ
  pub page_end : ℕ
  pub state : ShardState
  pub attempts : ℕ
  pub needs_ocr : Bool
  pub mean_chars_per_page : Option Mean
  pub parsed_uri : Option String
  pub worker_id : Option String
  pub lease_until : Option ℕ
  pub duration_ms : Option ℕ
  pub peak_rss_mb : Option ℕ
  pub done_at : Option ℕ
  pub error_code : Option String
  pub error_detail : Option Detail

pub record Chunk : Type 0 where
  pub id : String
  pub doc_id : ℕ
  pub chunk_hash : String
  pub parent_id : Option String
  pub is_parent : Bool
  pub seq : ℕ
  pub page_start : Option ℕ
  pub page_end : Option ℕ
  pub text : String

-- A row of `events`; its `context` is left out.
pub record Event : Type 0 where
  pub level : String
  pub stage : String
  pub message : Detail
  pub doc_id : Option ℕ
  pub shard_idx : Option ℕ
  pub code : Option String
  pub worker_id : Option String

pub record Tables : Type 0 where
  pub documents : List Document
  pub shards : List Shard
  pub chunks : List Chunk
  pub events : List Event

-- `UPDATE … SET f WHERE p`.
abbrev pub update_where {ℓ} : {A : Type ℓ} → (A → Bool) → (A → A) → List A → List A
update_where p f [] = []
update_where p f (x ∷ xs) = (if p x then f x else x) ∷ update_where p f xs

abbrev pub is_pending : ShardState → Bool
is_pending pending = true
is_pending _ = false

abbrev pub is_running : ShardState → Bool
is_running running = true
is_running _ = false

abbrev pub is_done : ShardState → Bool
is_done done = true
is_done _ = false

abbrev pub is_failed : ShardState → Bool
is_failed ShardState.failed = true
is_failed _ = false

-- `WHERE doc_id = $1 AND idx = $2`.
abbrev pub at_key : ℕ → ℕ → Shard → Bool
at_key doc_id idx s = s.doc_id == doc_id && s.idx == idx

abbrev pub of_doc : ℕ → Shard → Bool
of_doc doc_id s = s.doc_id == doc_id

-- `WHERE id = $1`.
abbrev pub has_id : ℕ → Document → Bool
has_id doc_id d = d.id == doc_id

-- WriteEvent of internal/store/events.go.
abbrev pub write_event : Event → Tables → Tables
write_event e t = record t { events = t.events ++ e ∷ [] }

-- ===== src/Service/World.antt =====
-- What the handlers of internal/service share: the state they change, their errors, the job fields
-- they read (internal/service/util.go) and the terminal write of internal/service/embedder.go.
-- Each database transaction is one function on the tables: what TxWithRetry repeats ends in the same
-- tables, and a transaction that the server gives up on is not modelled.
use Prim.Native.String.{String}
use lybrix.Base.{ℕ, zero, Bool, Option, none, some, List}
use lybrix.Errors.{ErrorCode, PlatformError, code_text, pdf_corrupt, new_platform_error}
use lybrix.Queue.Sends.{Message, Sent, SendError, send_all}
use lybrix.Shards.{BoundsError}
use lybrix.Store.Rows.{Detail, Tables, source_vanished, source_missing, write_event, DocState}
use lybrix.Store.Documents.{set_doc_state}
use lybrix.Store.Shards.{StoreError}

pub record World : Type 0 where
  pub tables : Tables
  pub sent : Sent

-- A handler's error; `none` where the code returns nil and the runner acknowledges the job.
pub data HandlerError : Type 0 where
  missing_field : String → HandlerError
  platform : PlatformError → HandlerError
  bounds_error : BoundsError → HandlerError
  store_error : StoreError → HandlerError
  send_error : SendError → HandlerError
  local_error : String → HandlerError

-- The fields of a job's payload, as far as they have the expected type.
pub record Job : Type 0 where
  pub doc_id : Option ℕ
  pub idx : Option ℕ
  pub page_start : Option ℕ
  pub page_end : Option ℕ

-- jobInt with its flag dropped: 0 where the field is missing.
abbrev pub job_int : Option ℕ → ℕ
job_int none = zero
job_int (some n) = n

abbrev pub send_outcome : Tables → Sent × Option SendError → World × Option HandlerError
send_outcome tables (sent, none) = (record { tables = tables; sent = sent }, none)
send_outcome tables (sent, some e) = (record { tables = tables; sent = sent }, some (send_error e))

-- The sends after a transaction.
unfoldable pub sending :
    (Message → Bool) → List Message → Tables → Sent → World × Option HandlerError
sending refused ms tables sent = send_outcome tables (send_all refused ms sent)

-- failDocTerminal: the document fails for good, and the job is acknowledged.
unfoldable pub fail_doc_terminal : ℕ → ℕ → ErrorCode → Detail → World → World × Option HandlerError
fail_doc_terminal now doc_id code detail w = (
  record w {
    tables =
        write_event
          (record {
            level = "error";
            stage = "embed";
            message = detail;
            doc_id = some doc_id;
            shard_idx = none;
            code = some (code_text code);
            worker_id = none;
          })
          (set_doc_state now doc_id DocState.failed (some (code_text code)) (some detail) w.tables);
  },
  none,
)

-- How the download of a raw source ends, where it ends badly.
pub data DownloadError : Type 0 where
  not_found : String → DownloadError
  unavailable : String → DownloadError

-- downloadTerminal, and the same branch of HandleSplit.
unfoldable pub download_terminal : ℕ → ℕ → DownloadError → World → World × Option HandlerError
unfolding fail_doc_terminal
download_terminal now doc_id (not_found e) w =
    fail_doc_terminal now doc_id pdf_corrupt (source_vanished e) w
download_terminal now doc_id (unavailable e) w =
    (w, some (platform (new_platform_error pdf_corrupt (source_missing e))))

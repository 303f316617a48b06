-- ===== src/Service/Parse.antt =====
-- internal/service/parser.go: the work of HandleParse on a claimed shard. The object store, the PDF
-- library, the local file system and the converters are parameters, in `Backend`.
pub mod Handle
pub mod Finish
use Prim.Native.String.{String}
use lybrix.Base.{
  ℕ, ◌+◌, Bool, true, false, ◌&&◌, Option, none, some, List, [], ◌∷◌, ltb, leb, if◌then◌else◌, map,
}
use lybrix.Base.Results.{Result, ok, err}
use lybrix.Formats.{Format, format_from_mime, deref_str, is_pdf, should_slice_pdf}
use lybrix.Queue.Jobs.{ParseJob, EmbedJob, schema_version}
use lybrix.Queue.Sends.{Message, Sent, on_parse, on_embed}
use lybrix.Store.Rows.{Document, Shard, Tables, Mean}
use lybrix.Store.Documents.{get_document, book_settled}
use lybrix.Store.Shards.{Parsed, claim_shard, mark_shard_done}
use lybrix.Service.Ladder.{
  Action, split, text_only, ladder_action, ResplitError, bounds_error, store_error, resplit_shard,
}
use lybrix.Service.World.{
  World, HandlerError, missing_field, local_error, Job, job_int, sending, DownloadError,
  download_terminal,
}

-- The worker-relevant settings.
pub record Settings : Type 0 where
  pub shard_lease_seconds : ℕ
  pub shard_pages : ℕ
  pub caches_pdfs : Bool

pub record ParseRequest : Type 0 where
  pub is_slice : Bool
  pub page_start : ℕ
  pub page_end : ℕ
  pub attempt : ℕ
  pub shard_pages : ℕ
  pub text_only : Bool
  pub doc_format : Format

pub record ParseResult : Type 0 where
  pub markdown : String
  pub mean_chars_per_page : Mean
  pub needs_ocr : Bool
  pub duration_ms : ℕ
  pub peak_rss_mb : ℕ

pub record Backend : Type 0 where
  -- `some` where the cache holds the document's PDF, with the error of the copy.
  pub cached : Option (Option String)
  pub download : Option DownloadError
  pub page_count : Option ℕ
  -- The pages of the slice, or none where the library fails.
  pub slice : ℕ → ℕ → Option ℕ
  pub parse : ParseRequest → Result String ParseResult
  pub upload : String → Option String
  pub elapsed_ms : ℕ
  pub parsed_uri : ℕ → ℕ → String

-- The pages that the converter is asked for, and whether they are those of a slice.
pub record Range : Type 0 where
  pub is_slice : Bool
  pub page_start : ℕ
  pub page_end : ℕ

abbrev whole : ℕ → ℕ → Range
whole page_start page_end = record {
  is_slice = false;
  page_start = page_start;
  page_end = page_end;
}

-- A slice counts its pages from 1; a failed slice leaves the whole file.
abbrev of_slice : ℕ → ℕ → Option ℕ → Range
of_slice page_start page_end none = whole page_start page_end
of_slice page_start page_end (some n) =
    if ltb 0 n
    then record { is_slice = true; page_start = 1; page_end = n }
    else whole page_start page_end

abbrev of_count : Backend → Format → ℕ → ℕ → Option ℕ → Range
of_count b doc_format page_start page_end none = whole page_start page_end
of_count b doc_format page_start page_end (some total_pages) =
    if should_slice_pdf doc_format page_start page_end total_pages
    then of_slice page_start page_end (b.slice page_start page_end)
    else whole page_start page_end

abbrev pub range_of : Backend → Format → ℕ → ℕ → Range
range_of b doc_format page_start page_end =
    if is_pdf doc_format && ltb 0 page_start && leb page_start page_end
    then of_count b doc_format page_start page_end b.page_count
    else whole page_start page_end

-- settledAfterDone.
abbrev pub settled_after_done : Option Document → Bool
settled_after_done none = false
settled_after_done (some doc) = book_settled doc

abbrev pub embed_job : ℕ → Message
embed_job doc_id = on_embed (record { schema_version = schema_version; doc_id = doc_id })

-- finishParse: the embed job is sent after the transaction, if the book has settled in it.
unfoldable pub finish_parse :
    (Message → Bool) → ℕ → ℕ → ℕ → Parsed → World → World × Option HandlerError
finish_parse refused now doc_id idx r w =
    let tables = mark_shard_done now doc_id idx r w.tables in
    sending refused
      (if settled_after_done (get_document doc_id tables) then embed_job doc_id ∷ [] else []) tables
      w.sent

abbrev with_upload :
    (Message → Bool)
    → Backend
    → ℕ
    → ℕ
    → ℕ
    → World
    → ParseResult
    → Option String
    → World × Option HandlerError
with_upload refused b now doc_id idx w r (some e) = (w, some (local_error e))
with_upload refused b now doc_id idx w r none =
    finish_parse refused now doc_id idx
      (record {
        duration_ms = if ltb 0 r.duration_ms then r.duration_ms else b.elapsed_ms;
        peak_rss_mb = r.peak_rss_mb;
        parsed_uri = b.parsed_uri doc_id idx;
        needs_ocr = r.needs_ocr;
        mean_chars = some r.mean_chars_per_page;
      })
      w

abbrev with_result :
    (Message → Bool)
    → Backend
    → ℕ
    → ℕ
    → ℕ
    → World
    → Result String ParseResult
    → World × Option HandlerError
with_result refused b now doc_id idx w (err e) = (w, some (local_error e))
with_result refused b now doc_id idx w (ok r) =
    with_upload refused b now doc_id idx w r (b.upload r.markdown)

-- From the source at hand on.
unfoldable pub parse_source :
    (Message → Bool)
    → Settings
    → Backend
    → ℕ
    → Document
    → Shard
    → Job
    → World
    → World × Option HandlerError
parse_source refused s b now doc shard job w =
    let doc_format = format_from_mime (deref_str doc.mime_type) in
    let range = range_of b doc_format (job_int job.page_start) (job_int job.page_end) in
    with_result refused b now doc.id shard.idx w (
      b.parse (record {
        is_slice = range.is_slice;
        page_start = range.page_start;
        page_end = range.page_end;
        attempt = shard.attempts;
        shard_pages = s.shard_pages;
        text_only = leb 4 shard.attempts;
        doc_format = doc_format;
      }))

abbrev with_download :
    (Message → Bool)
    → Settings
    → Backend
    → ℕ
    → Document
    → Shard
    → Job
    → World
    → Option DownloadError
    → World × Option HandlerError
with_download refused s b now doc shard job w (some e) = download_terminal now doc.id e w
with_download refused s b now doc shard job w none = parse_source refused s b now doc shard job w

-- The cache of PDFs is asked first, where there is one and the document is a PDF.
abbrev with_cache :
    (Message → Bool)
    → Settings
    → Backend
    → ℕ
    → Document
    → Shard
    → Job
    → World
    → Option (Option String)
    → World × Option HandlerError
with_cache refused s b now doc shard job w (some (some e)) = (w, some (local_error e))
with_cache refused s b now doc shard job w (some none) =
    parse_source refused s b now doc shard job w
with_cache refused s b now doc shard job w none =
    with_download refused s b now doc shard job w b.download

unfoldable pub fetch_and_parse :
    (Message → Bool)
    → Settings
    → Backend
    → ℕ
    → Document
    → Shard
    → Job
    → World
    → World × Option HandlerError
fetch_and_parse refused s b now doc shard job w = with_cache refused s b now doc shard job w (
    if s.caches_pdfs && is_pdf (format_from_mime (deref_str doc.mime_type)) then b.cached else none)

-- ===== src/Service/Split.antt =====
-- internal/service/splitter.go: HandleSplit. The object store and the PDF library are parameters, in
-- `Source`; ExtractBookmarks hands on what the library reads.
pub mod Rows
pub mod Fanout
pub mod Redelivery
use Prim.Native.String.{String}
use text.Mathlib.Text.{◌==◌ as str_eq}
use lybrix.Base.{
  ℕ, ◌+◌, Bool, true, false, Option, none, some, List, [], ◌∷◌, if◌then◌else◌, length, map,
}
use lybrix.Base.Results.{Result, ok, err}
use lybrix.Errors.{pdf_corrupt, pdf_encrypted, new_platform_error}
use lybrix.Formats.{mime_type_of, pdf}
use lybrix.Queue.Jobs.{ParseJob, schema_version}
use lybrix.Queue.Sends.{Message, on_parse}
use lybrix.Shards.{ShardBound, Bookmark, BoundsError, fixed_bounds, chapter_aligned_bounds}
use lybrix.Store.Rows.{
  Document, DocState, Shard, Tables, Detail, literal, cannot_open, uploaded, parsing,
}
use lybrix.Store.Documents.{get_document, set_doc_state, update_split_meta}
use lybrix.Store.Shards.{StoreError, get_shard, insert_shards}
use lybrix.Service.World.{
  World, HandlerError, missing_field, platform, bounds_error, store_error, Job, sending,
  DownloadError, download_terminal,
}

-- ClassifyPDFError's two answers.
pub data PdfError : Type 0 where
  encrypted : PdfError
  corrupt : String → PdfError

-- What the download, PageCount and ExtractBookmarks return for the document's source.
pub record Source : Type 0 where
  pub download : Option DownloadError
  pub page_count : Result PdfError ℕ
  pub outline : List Bookmark

-- toBoundPairs.
abbrev pub to_bound_pairs : List ShardBound → List (ℕ × ℕ)
to_bound_pairs = map (λ (b : ShardBound). (b.page_start, b.page_end))

-- parseJobsFor, from a number on.
unfoldable pub parse_jobs_from : ℕ → String → List (ℕ × ℕ) → ℕ → List ParseJob
parse_jobs_from doc_id source_uri [] i = []
parse_jobs_from doc_id source_uri ((page_start, page_end) ∷ bounds) i =
    record {
      schema_version = schema_version;
      doc_id = doc_id;
      idx = i;
      page_start = page_start;
      page_end = page_end;
      source_uri = source_uri;
    }
    ∷ parse_jobs_from doc_id source_uri bounds (i + 1)

abbrev pub with_shards : Tables → Result StoreError (List Shard) → Result StoreError Tables
with_shards t (ok shards) = ok (record t { shards = shards })
with_shards t (err e) = err e

-- commitSplit: an error of the insert rolls the whole transaction back.
unfoldable pub commit_split : ℕ → ℕ → List (ℕ × ℕ) → ℕ → Tables → Result StoreError Tables
commit_split now doc_id bounds page_count t =
    let t' =
      update_split_meta now doc_id (length bounds) page_count
        (set_doc_state now doc_id parsing none none t) in
    with_shards t' (insert_shards doc_id bounds 0 t'.shards)

-- The tail of both paths: the commit, and only then the jobs.
abbrev pub send_jobs :
    (Message → Bool)
    → List ParseJob
    → World
    → Result StoreError Tables
    → World × Option HandlerError
send_jobs refused jobs w (err e) = (w, some (store_error e))
send_jobs refused jobs w (ok tables) = sending refused (map on_parse jobs) tables w.sent

unfoldable pub finish_split :
    (Message → Bool) → ℕ → Document → List (ℕ × ℕ) → ℕ → World → World × Option HandlerError
unfolding parse_jobs_from
finish_split refused now doc bounds page_count w =
    send_jobs refused (parse_jobs_from doc.id doc.source_uri bounds 0) w
      (commit_split now doc.id bounds page_count w.tables)

abbrev pub is_uploaded : DocState → Bool
is_uploaded uploaded = true
is_uploaded _ = false

-- The document is already split: only its state is moved on.
unfoldable pub already_split : ℕ → Document → World → World × Option HandlerError
already_split now doc w = (
  if is_uploaded doc.state
      then record w { tables = set_doc_state now doc.id parsing none none w.tables }
      else w,
  none,
)

-- splitSingleShard: one synthetic shard of page 1.
unfoldable pub split_single_shard :
    (Message → Bool) → ℕ → Document → World → World × Option HandlerError
split_single_shard refused now doc w = elim (get_shard doc.id 0 w.tables) [
  | some s ↦ already_split now doc w
  | none ↦ finish_split refused now doc ((1, 1) ∷ []) 1 w
]

abbrev pub split_bounds : ℕ → List Bookmark → ℕ → Result BoundsError (List ShardBound)
split_bounds shard_pages [] page_count = fixed_bounds page_count shard_pages 1
split_bounds shard_pages (bm ∷ outline) page_count =
    chapter_aligned_bounds (bm ∷ outline) page_count shard_pages

abbrev pub split_into :
    (Message → Bool)
    → ℕ
    → Document
    → ℕ
    → World
    → Result BoundsError (List ShardBound)
    → World × Option HandlerError
split_into refused now doc page_count w (err e) = (w, some (bounds_error e))
split_into refused now doc page_count w (ok bounds) =
    finish_split refused now doc (to_bound_pairs bounds) page_count w

abbrev pub split_pdf :
    (Message → Bool)
    → ℕ
    → ℕ
    → List Bookmark
    → Document
    → World
    → Result PdfError ℕ
    → World × Option HandlerError
split_pdf refused now shard_pages outline doc w (err encrypted) =
    (w, some (platform (new_platform_error pdf_encrypted (literal "source PDF is encrypted"))))
split_pdf refused now shard_pages outline doc w (err (corrupt e)) =
    (w, some (platform (new_platform_error pdf_corrupt (cannot_open e))))
split_pdf refused now shard_pages outline doc w (ok page_count) =
    split_into refused now doc page_count w (split_bounds shard_pages outline page_count)

-- `doc.MimeType == nil || *doc.MimeType != pipeline.FmtPDF.MimeType()`, negated.
abbrev pub has_pdf_mime : Option String → Bool
has_pdf_mime none = false
has_pdf_mime (some mime) = str_eq mime (mime_type_of pdf)

abbrev pub split_source :
    (Message → Bool)
    → ℕ
    → ℕ
    → Source
    → Document
    → World
    → Option DownloadError
    → World × Option HandlerError
split_source refused now shard_pages src doc w (some e) = download_terminal now doc.id e w
split_source refused now shard_pages src doc w none =
    if has_pdf_mime doc.mime_type
    then split_pdf refused now shard_pages src.outline doc w src.page_count
    else split_single_shard refused now doc w

unfoldable pub split_document :
    (Message → Bool) → ℕ → ℕ → Source → Document → World → World × Option HandlerError
split_document refused now shard_pages src doc w = elim (get_shard doc.id 0 w.tables) [
  | some s ↦ already_split now doc w
  | none ↦ split_source refused now shard_pages src doc w src.download
]

-- HandleSplit: no document row, no work.
unfoldable pub handle_split :
    (Message → Bool) → ℕ → ℕ → Source → Job → World → World × Option HandlerError
handle_split refused now shard_pages src job w = elim job.doc_id [
  | none ↦ (w, some (missing_field "doc_id"))
  | some doc_id ↦ elim (get_document doc_id w.tables) [
    | none ↦ (w, none)
    | some doc ↦ split_document refused now shard_pages src doc w
  ]
]

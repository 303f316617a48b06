-- ===== src/Formats.antt =====
-- internal/pipeline/fileformat.go: the table of document formats, and the guards of
-- internal/service/parser.go that cut a shard's pages out of a PDF.
use Prim.Native.String.{String}
use text.Mathlib.Text.{◌==◌ as str_eq}
use lybrix.Base.{
  ℕ, Bool, true, false, not, ◌&&◌, ◌||◌, Option, none, some, ltb, leb, ◌==◌, if◌then◌else◌, ◌≡◌,
  refl,
}

pub data Format : Type 0 where
  pdf epub docx pptx xlsx txt md html : Format

-- MimeType.
abbrev pub mime_type_of : Format → String
mime_type_of pdf = "application/pdf"
mime_type_of epub = "application/epub+zip"
mime_type_of docx = "application/vnd.openxmlformats-officedocument.wordprocessingml.document"
mime_type_of pptx = "application/vnd.openxmlformats-officedocument.presentationml.presentation"
mime_type_of xlsx = "application/vnd.openxmlformats-officedocument.spreadsheetml.sheet"
mime_type_of md = "text/markdown"
mime_type_of html = "text/html"
mime_type_of txt = "text/plain"

-- Ext.
abbrev pub ext_of : Format → String
ext_of pdf = "pdf"
ext_of epub = "epub"
ext_of docx = "docx"
ext_of pptx = "pptx"
ext_of xlsx = "xlsx"
ext_of md = "md"
ext_of html = "html"
ext_of txt = "txt"

-- FormatFromMime.
unfoldable pub format_from_mime : String → Format
format_from_mime mime =
    if str_eq mime "application/epub+zip"
    then epub
    else if str_eq mime "application/vnd.openxmlformats-officedocument.wordprocessingml.document"
    then docx
    else if str_eq mime "application/vnd.openxmlformats-officedocument.presentationml.presentation"
    then pptx
    else if str_eq mime "application/vnd.openxmlformats-officedocument.spreadsheetml.sheet"
    then xlsx
    else if str_eq mime "text/markdown"
    then md
    else if str_eq mime "text/html"
    then html
    else if str_eq mime "text/plain"
    then txt
    else pdf

-- extFormat, of a file name's extension in lower case and without the dot.
unfoldable pub ext_format : String → Option Format
ext_format ext =
    if str_eq ext "pdf"
    then some pdf
    else if str_eq ext "epub"
    then some epub
    else if str_eq ext "docx"
    then some docx
    else if str_eq ext "pptx"
    then some pptx
    else if str_eq ext "xlsx"
    then some xlsx
    else if str_eq ext "md" || str_eq ext "markdown"
    then some md
    else if str_eq ext "htm" || str_eq ext "html"
    then some html
    else if str_eq ext "txt" || str_eq ext "text"
    then some txt
    else none

abbrev pub is_pdf : Format → Bool
is_pdf pdf = true
is_pdf _ = false

-- derefStr.
abbrev pub deref_str : Option String → String
deref_str none = ""
deref_str (some s) = s

-- shouldSlicePDF.
abbrev pub should_slice_pdf : Format → ℕ → ℕ → ℕ → Bool
should_slice_pdf doc_format page_start page_end total_pages =
    if not (is_pdf doc_format)
    then false
    else if page_start == 0 || ltb page_end page_start
    then false
    else not (page_start == 1 && leb total_pages page_end)

-- A stored mime type leads back to the format, and an extension to the format it names.
format_from_mime_of :
    (f : Format) → (format_from_mime (mime_type_of f) ≡ f) × (ext_format (ext_of f) ≡ some f)
unfolding format_from_mime ext_format
format_from_mime_of pdf = (refl, refl)
format_from_mime_of epub = (refl, refl)
format_from_mime_of docx = (refl, refl)
format_from_mime_of pptx = (refl, refl)
format_from_mime_of xlsx = (refl, refl)
format_from_mime_of txt = (refl, refl)
format_from_mime_of md = (refl, refl)
format_from_mime_of html = (refl, refl)

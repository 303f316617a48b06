-- ===== src/Lib.antt =====
-- lybrix: the ingestion pipeline of a document search platform. A document is split into shards
-- of pages, each shard is parsed by a worker that claims it under a lease, and when all shards
-- have settled their text is chunked and embedded. Postgres is the record, here a record of
-- tables; Redis streams carry the jobs between the stages, here the list of the messages added; a
-- janitor sweeps up what crashes leave behind.
--
-- The files, and the code each is about:
--
--   Shards     internal/pipeline/splitter.go: FixedBounds, ChapterAlignedBounds
--   Formats    internal/pipeline/fileformat.go, and shouldSlicePDF of internal/service/parser.go
--   Errors     internal/errors/errors.go: the taxonomy of error codes
--   Store      internal/store: the rows (models.go), the statements on documents and shards
--              (documents.go), the janitor's statements and the repair of counters (janitor.go),
--              the retry of transactions (db.go, pgerr.go), the listing of events (events.go)
--   Queue      internal/queue: the payloads (contracts.go), the sends, the scan and the depth (streams.go)
--   Chunker    internal/chunker: SplitText (splitter.go, protected.go, header_tracker.go), the tiers by
--              headings and by heuristics (profiler.go, heading_hierarchy.go, heading_splitter.go,
--              heuristic_splitter.go), SplitParentChild (strategy.go, validator.go), and the pages of
--              a range of runes (pagemap.go)
--   Stitch     internal/pipeline/stitch.go: the shards' markdown as one, with the page of each line
--   Embed      internal/chunker/hash.go and internal/pipeline/embedder.go: deduplication, batches
--   Service    internal/service: HandleSplit (Split), HandleParse (Parse), the retry ladder with
--              its re-split (Ladder), HandleEmbed (Embed, with the chunking of a
--              document in Embed/Chunking), and what they share (World)
--   Worker     internal/worker/janitor.go: the reclaim of stranded entries and the janitor's pass
--   Base       lists, options, signed counters and results that the others share
--
-- How the code is read. Ids are numbers in place of UUIDs and times are numbers of milliseconds;
-- page numbers and counts, which the callers keep from being negative, are native numbers, and
-- only shards_failed, which the code also subtracts from, is a signed counter. An SQL statement
-- is a function on the tables, with its WHERE clause as a Boolean test; a transaction is one
-- function, and one that the server gives up on is not modelled, apart from the retry loop
-- itself. A Go error is a value of an error type; a handler returns its new state also where it
-- returns an error. The object store, Redis, the PDF library, the converters, the embedding
-- backend and the clock are parameters: records of the answers that they give, or arguments. JSON
-- texts are left out: a message carries its payload. In the chunker a text is the list of its
-- runes, so that a byte offset is a number of runes, and the regular expressions and the
-- floating-point token budget are parameters.
--
-- Fuel. The loop of FixedBounds runs on page_count + 1 rounds, and the scans of a stream on a
-- number of rounds that the theorems about them set to two or more; the theorems give the result
-- itself, so the fuel is enough. The cutting of an oversize text takes as many rounds as it has
-- runes, and its pieces are shown to be the whole text. All other loops run along a list or a
-- number of attempts.
--
-- Not modelled: the HTTP API and the MCP server (internal/api, internal/mcp), the search queries
-- and the tables of collections, models and keys, the metrics rollup, the runner's loop, the
-- chunker's estimates of tokens, the clients of S3 and of the converters, the configuration and
-- the web front end.
pub mod Base
pub mod Errors
pub mod Formats
pub mod Shards
pub mod Store
pub mod Queue
pub mod Stitch
pub mod Chunker
pub mod Embed
pub mod Service
pub mod Worker

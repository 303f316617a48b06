-- ===== src/Service/Embed/Complete.antt =====
-- HandleEmbed as a whole, where the backend answers.
use Prim.Native.String.{String}
use text.Mathlib.Text.{◌==◌ as str_eq}
use text.Mathlib.TextPositions.{compare_refl}
use lybrix.Base.{
  ℕ, suc, ◌≡◌, refl, ap, ◌∙◌, true, false, ◌&&◌, none, some, List, [], ◌∷◌, ◌++◌, arith, length,
  map, concat,
}
use lybrix.Base.Results.{ok}
use lybrix.Embed.Chunks.{Piece, has_hash, hashes_of, settle_chunks}
use lybrix.Embed.Chunks.Distinct.{has_hash-append, settle_chunks-distinct}
use lybrix.Embed.Batches.{is_empty, cut_text, plan_batches, rows_of_batch}
use lybrix.Embed.Batches.Aligned.{Matched, plan_batches-texts, assemble_rows-aligned}
use lybrix.Store.Rows.{Document}
use lybrix.Store.Documents.{get_document, is_terminal}
use lybrix.Service.World.{World}
use lybrix.Service.Embed.{Model, Backend, settled_shards, Outcome, embed_all, embed_document}
use lybrix.Service.Embed.Inserted.{ids_of}
use lybrix.Service.Embed.Written.{others_of, Written, write_chunks_written}

none_empty :
    (ps cs : List Piece) (h : String)
    → has_hash h (hashes_of ps ++ hashes_of cs) ≡ true
    → is_empty cs && is_empty ps ≡ false
none_empty [] [] h there = absurd (ground (arith, there))
none_empty [] (c ∷ cs) h there = refl
none_empty (p ∷ ps) [] h there = refl
none_empty (p ∷ ps) (c ∷ cs) h there = refl

some_chunk :
    (parents children : List Piece) (c : Piece)
    → let (ps, cs) = settle_chunks parents (c ∷ children) in is_empty cs && is_empty ps ≡ false
some_chunk parents children c =
    let (ps, cs) = settle_chunks parents (c ∷ children) in
    let (once, numbered, kept) = settle_chunks-distinct parents (c ∷ children) c.hash in
    none_empty ps cs c.hash (
      kept
      ∙ ground (
        arith,
        has_hash-append c.hash (hashes_of parents) (hashes_of (c ∷ children)),
        compare_refl c.hash,
      ))

module _ {V : Type 0} where
  -- The vectors are the backend's answers to the batches, one for each text.
  abbrev pub Answered : Backend V → List (List String) → List (List V) → Type 0
  Answered b [] [] = Unit {0}
  Answered b [] (vs ∷ vectors) = ⊥
  Answered b (batch ∷ batches) [] = ⊥
  Answered b (batch ∷ batches) (vs ∷ vectors) =
      (b.embed batch ≡ ok vs) × (length vs ≡ length batch) × Answered b batches vectors

  embed_all-Answered :
      (b : Backend V) (batches : List (List String))
      → ((batch : List String)
          → (vs : List V) × (b.embed batch ≡ ok vs) × (length vs ≡ length batch))
      → (vectors : List (List V)) × (embed_all b batches ≡ ok vectors) × Answered b batches vectors
  unfolding embed_all
  embed_all-Answered b [] answers = ([], refl, tt)
  embed_all-Answered b (batch ∷ batches) answers =
      let (vs, e, same) = answers batch in
      let (vectors, es, m) = embed_all-Answered b batches answers in
      (vs ∷ vectors, rw (e, es, embed_all) refl, (e, same, m))

  Answered-Matched :
      (b : Backend V) (batches : List (List String)) (vectors : List (List V))
      → Answered b batches vectors
      → Matched batches vectors
  Answered-Matched b [] [] m = tt
  Answered-Matched b [] (vs ∷ vectors) m = elim m [ ]
  Answered-Matched b (batch ∷ batches) [] m = elim m [ ]
  Answered-Matched b (batch ∷ batches) (vs ∷ vectors) (e, same, m) =
      (same, Answered-Matched b batches vectors m)

  -- What HandleEmbed leaves for the chunks that the deduplication keeps: their rows, and with each
  -- child's id the vector that the backend has given for the child's embedding text, which is cut to
  -- the model's budget.
  pub record Embedded (b : Backend V) (m : Model) (doc_id : ℕ) (ps cs : List Piece) (w : World)
      (o : Outcome V) : Type 0 where
    pub no_error : o.error ≡ none
    pub written : Written (b.chunk_id doc_id) doc_id ps cs w.tables o.world.tables
    pub batches : List (List String)
    pub vectors : List (List V)
    pub texts :
        concat batches
        ≡ map (cut_text b.fields b.join m.ctx_budget) (map (λ (c : Piece). c.embed_text) cs)
    pub answered : Answered b batches vectors
    pub paired :
        o.vectors
        ≡ rows_of_batch (map (λ (c : Piece). b.chunk_id doc_id c.hash) cs) (concat vectors)
    pub enough : length (concat vectors) ≡ length cs

  -- A document of the tables that is not terminal, has a done shard and yields a child at least is
  -- embedded if its model resolves and the backend answers each batch with one vector per text, given
  -- ids that differ where hashes do and from those of other documents' chunks: the handler reports no
  -- error, the document's chunks become the rows of the deduplicated parents and children, the chunk
  -- count that is stored is the number of the child rows, and the ids of the children are paired, in
  -- their order, with the backend's vectors for the children's embedding texts, each cut to the
  -- budget.
  pub embed_document-Embedded :
      (b : Backend V) (now : ℕ) (doc : Document) (w : World) (parents children : List Piece)
      (c : Piece) (m : Model)
      → get_document doc.id w.tables ≡ some doc
      → is_terminal doc.state ≡ false
      → is_empty (settled_shards doc.id w.tables) ≡ false
      → b.chunk (settled_shards doc.id w.tables) ≡ ok (parents, c ∷ children)
      → b.model ≡ some (ok m)
      → ((batch : List String)
          → (vs : List V) × (b.embed batch ≡ ok vs) × (length vs ≡ length batch))
      → ((h k : String) → str_eq (b.chunk_id doc.id h) (b.chunk_id doc.id k) ≡ str_eq h k)
      → ((h : String)
          → has_hash (b.chunk_id doc.id h) (ids_of (others_of doc.id w.tables.chunks)) ≡ false)
      → let (ps, cs) = settle_chunks parents (c ∷ children) in
        Embedded b m doc.id ps cs w (embed_document b now doc w)
  unfolding embed_document
  embed_document-Embedded b now doc w parents children c m known live some_done chunked model
        answers inj free =
      let (ps, cs) = settle_chunks parents (c ∷ children) in
      let texts = map (λ (c : Piece). c.embed_text) cs in
      let ids = map (λ (c : Piece). b.chunk_id doc.id c.hash) cs in
      let batches = plan_batches b.fields b.join m.ctx_budget m.batch_size texts in
      let (vectors, all, answered) = embed_all-Answered b batches answers in
      let (once, numbered, kept) = settle_chunks-distinct parents (c ∷ children) c.hash in
      let (tables, wrote, written) =
        write_chunks_written now (b.chunk_id doc.id) doc.id ps cs w.tables doc known inj free
          once in
      let (zipped, full) =
        assemble_rows-aligned b.fields b.join m.ctx_budget m.batch_size texts ids vectors
          (length-maps cs) (Answered-Matched b batches vectors answered) in
      rw
        (live, some_done, chunked, some_chunk parents children c, model, all, wrote, embed_document)
        (record {
          no_error = refl;
          written = written;
          batches = batches;
          vectors = vectors;
          texts = plan_batches-texts b.fields b.join m.ctx_budget m.batch_size texts;
          answered = answered;
          paired = zipped;
          enough = full ∙ length-ids cs;
        })
    where
      length-ids :
          (l : List Piece) → length (map (λ (c : Piece). b.chunk_id doc.id c.hash) l) ≡ length l
      length-ids [] = refl
      length-ids (x ∷ xs) = ap suc (length-ids xs)

      length-maps :
          (l : List Piece)
          → length (map (λ (c : Piece). b.chunk_id doc.id c.hash) l)
            ≡ length (map (λ (c : Piece). c.embed_text) l)
      length-maps [] = refl
      length-maps (x ∷ xs) = ap suc (length-maps xs)

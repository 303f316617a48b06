-- ===== src/Embed/Batches.antt =====
-- internal/pipeline/embedder.go: PlanBatches, and assembleEmbeddingRows of
-- internal/service/embedder.go. Texts and words are any types: `fields` and `join` stand for
-- strings.Fields and strings.Join, and WhitespaceTokenizer counts a text's fields.
pub mod Aligned
pub mod Limits
use Prim.Native.String.{String}
use lybrix.Base.{
  ℕ, ◌+◌, Bool, true, false, ◌&&◌, ◌||◌, Option, none, some, List, [], ◌∷◌, ◌++◌, ltb, leb,
  if◌then◌else◌, length, drop,
}

abbrev pub is_empty {ℓ} : {A : Type ℓ} → List A → Bool
is_empty [] = true
is_empty (x ∷ xs) = false

module _ {T W : Type 0} (fields : T → List W) (join : List W → T) where
  -- WhitespaceTokenizer.Count.
  abbrev pub token_count : T → ℕ
  token_count t = length (fields t)

  -- The loop of splitWordsTruncate: a word counts as one token.
  unfoldable pub words_within : ℕ → ℕ → List W → List W
  words_within budget tokens [] = []
  words_within budget tokens (w ∷ ws) =
      let rest = words_within budget (tokens + 1) ws in
      if ltb budget (tokens + 1) then [] else w ∷ rest

  unfoldable pub split_words_truncate : ℕ → T → T
  unfolding words_within
  split_words_truncate budget text = join (words_within budget 0 (fields text))

  -- A text longer than the whole budget is cut to it.
  unfoldable pub cut_text : ℕ → T → T
  unfolding split_words_truncate
  cut_text ctx_budget text =
      if ltb ctx_budget (token_count text) then split_words_truncate ctx_budget text else text

  -- The loop of PlanBatches, with the open batch and its tokens.
  unfoldable pub plan_from : ℕ → ℕ → List T → ℕ → List T → List (List T)
  unfolding cut_text
  plan_from ctx_budget batch_size cur cur_tokens [] = if is_empty cur then [] else cur ∷ []
  plan_from ctx_budget batch_size cur cur_tokens (text ∷ texts) =
      let cut = cut_text ctx_budget text in
      let t = token_count cut in
      let closed = plan_from ctx_budget batch_size (cut ∷ []) t texts in
      let grown = plan_from ctx_budget batch_size (cur ++ cut ∷ []) (cur_tokens + t) texts in
      if (ltb 0 (length cur) && ltb ctx_budget (cur_tokens + t)) || leb batch_size (length cur)
      then cur ∷ closed
      else grown

  unfoldable pub plan_batches : ℕ → ℕ → List T → List (List T)
  unfolding plan_from
  plan_batches ctx_budget batch_size texts = plan_from ctx_budget batch_size [] 0 texts

-- assembleEmbeddingRows: `i` counts the chunk ids that the batches so far have used up.
module _ {V : Type 0} where
  unfoldable pub rows_of_batch : List String → List V → List (String × V)
  rows_of_batch ids [] = []
  rows_of_batch [] (v ∷ vectors) = []
  rows_of_batch (id ∷ ids) (v ∷ vectors) = (id, v) ∷ rows_of_batch ids vectors

  unfoldable pub assemble_embedding_rows :
      {T : Type 0} → List String → List (List T) → List (List V) → List (String × V)
  unfolding rows_of_batch
  assemble_embedding_rows chunk_ids [] vectors = []
  assemble_embedding_rows chunk_ids (batch ∷ batches) [] = []
  assemble_embedding_rows chunk_ids (batch ∷ batches) (vs ∷ vectors) =
      rows_of_batch chunk_ids vs
      ++ assemble_embedding_rows (drop (length batch) chunk_ids) batches vectors

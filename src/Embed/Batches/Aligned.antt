-- ===== src/Embed/Batches/Aligned.antt =====
-- The texts in PlanBatches' batches, and the chunks that assembleEmbeddingRows gives the vectors to.
use Prim.Native.String.{String}
use lybrix.Base.{
  ℕ, suc, ◌+◌, ◌≡◌, refl, ap, sym, ◌∙◌, inl, inr, ◌&&◌, ◌||◌, List, [], ◌∷◌, ◌++◌, ltb, leb, length,
  length-append, drop, concat, map, arith, Bool-cases, append_assoc,
}
use lybrix.Embed.Batches.{
  token_count, cut_text, plan_from, plan_batches, rows_of_batch, assemble_embedding_rows,
}

module _ {T W : Type 0} (fields : T → List W) (join : List W → T) where
  plan_from-texts :
      (ctx_budget batch_size : ℕ) (cur : List T) (tokens : ℕ) (texts : List T)
      → concat (plan_from fields join ctx_budget batch_size cur tokens texts)
        ≡ cur ++ map (cut_text fields join ctx_budget) texts
  unfolding plan_from
  plan_from-texts ctx_budget batch_size [] tokens [] = refl
  plan_from-texts ctx_budget batch_size (c ∷ cur) tokens [] = refl
  plan_from-texts ctx_budget batch_size cur tokens (text ∷ texts) =
      let cut = cut_text fields join ctx_budget text in
      let t = token_count fields join cut in
      elim (Bool-cases
        ((ltb 0 (length cur) && ltb ctx_budget (tokens + t)) || leb batch_size (length cur))) [
          | inl full ↦
              rw full
                (ap (λ l. cur ++ l) (plan_from-texts ctx_budget batch_size (cut ∷ []) t texts))
          | inr open_still ↦ rw open_still (
              plan_from-texts ctx_budget batch_size (cur ++ cut ∷ []) (tokens + t) texts
              ∙ append_assoc cur (cut ∷ []) (map (cut_text fields join ctx_budget) texts))
        ]

  -- PlanBatches drops and reorders nothing: the batches one after the other are the texts, each cut to
  -- the budget if it is longer.
  pub plan_batches-texts :
      (ctx_budget batch_size : ℕ) (texts : List T)
      → concat (plan_batches fields join ctx_budget batch_size texts)
        ≡ map (cut_text fields join ctx_budget) texts
  unfolding plan_batches
  plan_batches-texts ctx_budget batch_size texts = plan_from-texts ctx_budget batch_size [] 0 texts

-- Each batch has as many vectors as texts.
abbrev pub Matched : {T V : Type 0} → List (List T) → List (List V) → Type 0
Matched [] [] = Unit
Matched [] (vs ∷ vectors) = ⊥
Matched (batch ∷ batches) [] = ⊥
Matched (batch ∷ batches) (vs ∷ vectors) = (length vs ≡ length batch) × Matched batches vectors

rows_of_batch-append :
    {V : Type 0} (ids : List String) (vs ws : List V)
    → rows_of_batch ids (vs ++ ws) ≡ rows_of_batch ids vs ++ rows_of_batch (drop (length vs) ids) ws
unfolding rows_of_batch
rows_of_batch-append ids [] ws = refl
rows_of_batch-append [] (v ∷ vs) [] = refl
rows_of_batch-append [] (v ∷ vs) (w ∷ ws) = refl
rows_of_batch-append (id ∷ ids) (v ∷ vs) ws = ap (◌∷◌ (id, v)) (rows_of_batch-append ids vs ws)

assemble-zip :
    {T V : Type 0} (ids : List String) (batches : List (List T)) (vectors : List (List V))
    → Matched batches vectors
    → assemble_embedding_rows ids batches vectors ≡ rows_of_batch ids (concat vectors)
unfolding assemble_embedding_rows rows_of_batch
assemble-zip ids [] [] m = refl
assemble-zip ids [] (vs ∷ vectors) m = elim m [ ]
assemble-zip ids (batch ∷ batches) [] m = elim m [ ]
assemble-zip ids (batch ∷ batches) (vs ∷ vectors) (same, m) =
    ap (λ n. rows_of_batch ids vs ++ assemble_embedding_rows (drop n ids) batches vectors)
      (sym same)
    ∙ (ap (λ l. rows_of_batch ids vs ++ l) (assemble-zip (drop (length vs) ids) batches vectors m)
        ∙ sym (rows_of_batch-append ids vs (concat vectors)))

Matched-length :
    {T V : Type 0} (batches : List (List T)) (vectors : List (List V))
    → Matched batches vectors
    → length (concat vectors) ≡ length (concat batches)
Matched-length [] [] m = refl
Matched-length [] (vs ∷ vectors) m = elim m [ ]
Matched-length (batch ∷ batches) [] m = elim m [ ]
Matched-length (batch ∷ batches) (vs ∷ vectors) (same, m) = omega (
  arith,
  same,
  length-append vs (concat vectors),
  length-append batch (concat batches),
  Matched-length batches vectors m,
)

length-map : {A B : Type 0} (f : A → B) (xs : List A) → length (map f xs) ≡ length xs
length-map f [] = refl
length-map f (x ∷ xs) = ap suc (length-map f xs)

-- If the backend answers each batch with one vector per text, the rows pair the n-th chunk id with
-- the vector of the n-th text, and there is a vector for every chunk id.
pub assemble_rows-aligned :
    {T W V : Type 0} (fields : T → List W) (join : List W → T) (ctx_budget batch_size : ℕ)
    (texts : List T) (ids : List String) (vectors : List (List V))
    → length ids ≡ length texts
    → Matched (plan_batches fields join ctx_budget batch_size texts) vectors
    → (assemble_embedding_rows ids (plan_batches fields join ctx_budget batch_size texts) vectors
        ≡ rows_of_batch ids (concat vectors))
      × (length (concat vectors) ≡ length ids)
assemble_rows-aligned fields join ctx_budget batch_size texts ids vectors same m =
    let batches = plan_batches fields join ctx_budget batch_size texts in
    (
      assemble-zip ids batches vectors m,
      Matched-length batches vectors m
          ∙ (ap length (plan_batches-texts fields join ctx_budget batch_size texts)
              ∙ (length-map (cut_text fields join ctx_budget) texts ∙ sym same)),
    )

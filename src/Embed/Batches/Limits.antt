-- ===== src/Embed/Batches/Limits.antt =====
-- The token budget and the batch size of PlanBatches.
use lybrix.Base.{
  ℕ, ◌+◌, ◌≤◌, ◌≡◌, refl, ◌⊎◌, inl, inr, ◌&&◌, ◌||◌, List, [], ◌∷◌, ◌++◌, ltb, leb, length,
  length-append, arith, Bool-cases, All,
}
use lybrix.Embed.Batches.{
  token_count, words_within, split_words_truncate, cut_text, plan_from, plan_batches,
}

module _ {T W : Type 0} (fields : T → List W) (join : List W → T) where
  abbrev pub tokens_of : List T → ℕ
  tokens_of [] = 0
  tokens_of (t ∷ ts) = token_count fields join t + tokens_of ts

  tokens_of-append : (xs ys : List T) → tokens_of (xs ++ ys) ≡ tokens_of xs + tokens_of ys
  tokens_of-append [] ys = omega arith
  tokens_of-append (x ∷ xs) ys = omega (arith, tokens_of-append xs ys)

  words_within-le :
      (budget tokens : ℕ) (ws : List W)
      → tokens ≤ budget
      → tokens + length (words_within fields join budget tokens ws) ≤ budget
  unfolding words_within
  words_within-le budget tokens [] h = omega (arith, h)
  words_within-le budget tokens (w ∷ ws) h =
      ground (arith, h, words_within-le budget (tokens + 1) ws)

  cut_text-le :
      (budget : ℕ) (text : T)
      → ((ws : List W) → length (fields (join ws)) ≡ length ws)
      → token_count fields join (cut_text fields join budget text) ≤ budget
  unfolding cut_text split_words_truncate
  cut_text-le budget text law = elim (Bool-cases (ltb budget (token_count fields join text))) [
    | inl long ↦ rw long (
        omega (
          arith,
          law (words_within fields join budget 0 (fields text)),
          words_within-le budget 0 (fields text) (omega arith),
        ))
    | inr short ↦ rw short (ground (arith, short))
  ]

  -- A batch with a text at least, of at most `batch_size` texts and `budget` tokens.
  abbrev pub Fits : ℕ → ℕ → List T → Type 0
  Fits budget batch_size batch =
      (1 ≤ length batch) × (length batch ≤ batch_size) × (tokens_of batch ≤ budget)

  tokens_of_none : (ts : List T) → (tokens_of ts ≡ 0) ⊎ (1 ≤ length ts)
  tokens_of_none [] = inl refl
  tokens_of_none (t ∷ ts) = inr (omega arith)

  plan_from-Fits :
      (budget batch_size tokens : ℕ) (cur : List T) (texts : List T)
      → ((ws : List W) → length (fields (join ws)) ≡ length ws)
      → 1 ≤ batch_size
      → length cur ≤ batch_size
      → tokens ≡ tokens_of cur
      → tokens ≤ budget
      → All (Fits budget batch_size) (plan_from fields join budget batch_size cur tokens texts)
  unfolding plan_from
  plan_from-Fits budget batch_size tokens [] [] law one short sum light = tt
  plan_from-Fits budget batch_size tokens (c ∷ cur) [] law one short sum light =
      ((omega arith, short, omega (arith, sum, light)), tt)
  plan_from-Fits budget batch_size tokens cur (text ∷ texts) law one short sum light =
      let cut = cut_text fields join budget text in
      let t = token_count fields join cut in
      let cut_fits = cut_text-le budget text law in
      elim (Bool-cases
        ((ltb 0 (length cur) && ltb budget (tokens + t)) || leb batch_size (length cur))) [
          | inl full ↦
              let some_text : 1 ≤ length cur = ground (arith, full, one) in
              rw full (
                (some_text, short, omega (arith, sum, light)),
                plan_from-Fits budget batch_size t (cut ∷ []) texts law one (omega (arith, one))
                    (omega arith) cut_fits,
              )
          | inr room ↦ rw room (
              plan_from-Fits budget batch_size (tokens + t) (cur ++ cut ∷ []) texts law one
                (ground (arith, room, length-append cur (cut ∷ [])))
                (omega (arith, sum, tokens_of-append cur (cut ∷ [])))
                (ground (arith, room, cut_fits, sum, tokens_of_none cur)))
        ]

  -- With a batch size of one at least, and if joined words are counted as they were, every batch of
  -- PlanBatches has a text, at most `batch_size` texts, and at most `budget` tokens.
  pub plan_batches-Fits :
      (budget batch_size : ℕ) (texts : List T)
      → ((ws : List W) → length (fields (join ws)) ≡ length ws)
      → 1 ≤ batch_size
      → All (Fits budget batch_size) (plan_batches fields join budget batch_size texts)
  unfolding plan_batches
  plan_batches-Fits budget batch_size texts law one =
      plan_from-Fits budget batch_size 0 [] texts law one (omega arith) refl (omega arith)

-- ===== src/Embed/Samples.antt =====
-- Two parents and three children, and five texts in batches, with the theorems at them.
use Prim.Native.String.{String}
use lybrix.Base.{ℕ, ◌+◌, ◌≡◌, refl, true, none, List, [], ◌∷◌, ◌++◌, arith, length, All}
use lybrix.Embed.Chunks.{Piece, has_hash, hashes_of, settle_chunks}
use lybrix.Embed.Chunks.Distinct.{distinct_from, count_from, seqs_of, settle_chunks-distinct}
use lybrix.Embed.Batches.{plan_batches}
use lybrix.Embed.Batches.Limits.{Fits, plan_batches-Fits}

abbrev piece : String → String → Piece
piece hash parent_hash = record {
  hash = hash;
  seq = 0;
  parent_hash = parent_hash;
  text = hash;
  embed_text = hash;
  page_start = none;
  page_end = none;
}

abbrev parents : List Piece
parents = piece "a" "" ∷ piece "b" "" ∷ piece "a" "" ∷ []

abbrev children : List Piece
children = piece "c" "a" ∷ piece "b" "b" ∷ piece "c" "b" ∷ []

settle_chunks-distinct_example :
    let (ps, cs) = settle_chunks parents children in
    (distinct_from [] (hashes_of ps ++ hashes_of cs) ≡ true)
    × (seqs_of ps ++ seqs_of cs ≡ count_from 0 (length ps + length cs))
    × (has_hash "c" (hashes_of ps ++ hashes_of cs)
        ≡ has_hash "c" (hashes_of parents ++ hashes_of children))
settle_chunks-distinct_example = settle_chunks-distinct parents children "c"

-- A text as its words.
abbrev words : List String → List String
words ws = ws

abbrev texts : List (List String)
texts = ("a" ∷ "b" ∷ []) ∷ ("c" ∷ []) ∷ ("d" ∷ "e" ∷ "f" ∷ "g" ∷ []) ∷ []

planned :
    plan_batches words words 3 2 texts
    ≡ (("a" ∷ "b" ∷ []) ∷ ("c" ∷ []) ∷ []) ∷ (("d" ∷ "e" ∷ "f" ∷ []) ∷ []) ∷ []
unfolding plan_batches
planned = refl

plan_batches-Fits_example : All (Fits words words 3 2) (plan_batches words words 3 2 texts)
plan_batches-Fits_example = plan_batches-Fits words words 3 2 texts (λ ws. refl) (omega arith)

abbrev vectors : List (List ℕ)
vectors = (10 ∷ 20 ∷ []) ∷ (30 ∷ []) ∷ []

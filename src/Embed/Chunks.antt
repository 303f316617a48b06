-- ===== src/Embed/Chunks.antt =====
-- internal/chunker/hash.go, and the steps of HandleEmbed that drop a chunk whose hash is taken. The
-- hash is a parameter of the chunk: its text's HashText.
pub mod Distinct
use Prim.Native.String.{String}
use text.Mathlib.Text.{◌==◌ as str_eq}
use lybrix.Base.{
  ℕ, ◌+◌, Bool, true, false, not, Option, none, some, List, [], ◌∷◌, ◌++◌, if◌then◌else◌, any_of,
  length, map,
}

-- A parent or a child as the embedder handles it: `parent_hash` is empty for a parent, and
-- `embed_text` is its EmbeddingContent.
pub record Piece : Type 0 where
  pub hash : String
  pub seq : ℕ
  pub parent_hash : String
  pub text : String
  pub embed_text : String
  pub page_start : Option ℕ
  pub page_end : Option ℕ

abbrev pub has_hash : String → List String → Bool
has_hash h = any_of (λ k. str_eq k h)

-- The loop of DropDuplicateChunks: `seen` are the hashes so far, and `seq` is how many were kept.
unfoldable pub drop_seen : List String → ℕ → List Piece → List Piece
drop_seen seen seq [] = []
drop_seen seen seq (c ∷ chunks) =
    let dropped = drop_seen seen seq chunks in
    let kept = drop_seen (c.hash ∷ seen) (seq + 1) chunks in
    if has_hash c.hash seen then dropped else record c { seq = seq } ∷ kept

-- DropDuplicateChunks.
unfoldable pub drop_duplicate_chunks : List Piece → List Piece
unfolding drop_seen
drop_duplicate_chunks chunks = drop_seen [] 0 chunks

abbrev pub hashes_of : List Piece → List String
hashes_of = map (λ (c : Piece). c.hash)

-- The loop of HandleEmbed that drops a child with a parent's hash, and numbers the rest.
unfoldable pub drop_parents_hashes : List String → ℕ → List Piece → List Piece
drop_parents_hashes taken n_kept [] = []
drop_parents_hashes taken n_kept (c ∷ children) =
    let dropped = drop_parents_hashes taken n_kept children in
    let kept = drop_parents_hashes taken (n_kept + 1) children in
    if has_hash c.hash taken then dropped else record c { seq = n_kept } ∷ kept

-- RenumberGlobal: the parents first, then the children.
unfoldable pub renumber_from : ℕ → List Piece → List Piece
renumber_from seq [] = []
renumber_from seq (c ∷ chunks) = record c { seq = seq } ∷ renumber_from (seq + 1) chunks

unfoldable pub renumber_global : List Piece → List Piece → List Piece × List Piece
unfolding renumber_from
renumber_global parents children =
    (renumber_from 0 parents, renumber_from (length parents) children)

-- The parents and the children of a document, deduplicated and numbered.
unfoldable pub settle_chunks : List Piece → List Piece → List Piece × List Piece
unfolding drop_duplicate_chunks drop_parents_hashes renumber_global
settle_chunks parents children =
    let parents' = drop_duplicate_chunks parents in
    let children' = drop_parents_hashes (hashes_of parents') 0 (drop_duplicate_chunks children) in
    renumber_global parents' children'

-- The parent that a child's row names: the parent's hash, if that parent has been kept.
abbrev pub parent_of : List String → Piece → Option String
parent_of surviving c =
    if str_eq c.parent_hash ""
    then none
    else if has_hash c.parent_hash surviving
    then some c.parent_hash
    else none

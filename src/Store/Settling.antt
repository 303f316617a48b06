-- ===== src/Store/Settling.antt =====
-- BookSettled against the shard rows.
use lybrix.Base.{
  ℕ, ◌+◌, ◌≤◌, ◌≡◌, ◌↔◌, Bool, true, false, not, ◌&&◌, some, List, [], ◌∷◌, arith, count_if,
}
use lybrix.Base.Int.{+ℤ-pos}
use lybrix.Store.Rows.{Document, Shard, ShardState, of_doc, skipped}
use lybrix.Store.Documents.{book_settled}
use lybrix.Store.Sweeps.{done_rows, failed_rows}
use lybrix.Store.Counters.Claims.{Exact, settled}

abbrev pub rows_of : ℕ → List Shard → ℕ
rows_of id = count_if (of_doc id)

-- The rows of a document that are neither done nor failed.
abbrev pub unsettled_rows : ℕ → List Shard → ℕ
unsettled_rows id = count_if (λ s. of_doc id s && not (settled s))

abbrev pub is_skipped : ShardState → Bool
is_skipped skipped = true
is_skipped _ = false

abbrev pub skipped_rows : ℕ → List Shard → ℕ
skipped_rows id = count_if (λ (s : Shard). of_doc id s && is_skipped s.state)

rows_split :
    (id : ℕ) (ss : List Shard)
    → rows_of id ss ≡ done_rows id ss + failed_rows id ss + unsettled_rows id ss
rows_split id [] = omega arith
rows_split id (s ∷ ss) = ground (arith, rows_split id ss)

skipped-le-unsettled : (id : ℕ) (ss : List Shard) → skipped_rows id ss ≤ unsettled_rows id ss
skipped-le-unsettled id [] = omega arith
skipped-le-unsettled id (s ∷ ss) = ground (arith, skipped-le-unsettled id ss)

-- With exact counters and a total that counts the document's shard rows, of which there is one,
-- BookSettled says precisely that every shard is done or failed.
pub book_settled_iff :
    (shards : List Shard) (d : Document)
    → Exact shards d
    → d.total_shards ≡ some (rows_of d.id shards)
    → 1 ≤ rows_of d.id shards
    → (book_settled d ≡ true) ↔ (unsettled_rows d.id shards ≡ 0)
unfolding book_settled
book_settled_iff shards d x total one =
    ground (arith, x, rows_split d.id shards, +ℤ-pos d.shards_done (failed_rows d.id shards))

-- So a document with a skipped shard, whose counters are exact and whose total counts its rows,
-- never settles: the skipped shard stays in the total and is never done or failed.
pub skipped_blocks :
    (shards : List Shard) (d : Document)
    → Exact shards d
    → d.total_shards ≡ some (rows_of d.id shards)
    → 1 ≤ skipped_rows d.id shards
    → book_settled d ≡ false
skipped_blocks shards d x total some_skipped = ground (
  arith,
  book_settled_iff shards d x total
      (omega (arith, rows_split d.id shards, skipped-le-unsettled d.id shards, some_skipped)),
  skipped-le-unsettled d.id shards,
)

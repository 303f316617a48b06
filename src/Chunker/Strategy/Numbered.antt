-- ===== src/Chunker/Strategy/Numbered.antt =====
-- SplitParentChild of internal/chunker/strategy.go: how parents and children are numbered.
use Prim.Native.String.{String}
use lybrix.Base.{
  ℕ, ◌+◌, ◌≡◌, refl, Bool, true, false, Option, none, some, List, [], ◌∷◌, ◌++◌, ltb, ◌==◌,
  if◌then◌else◌, length, arith, count_if, count_if-append, length-append,
}
use lybrix.Chunker.Runes.{Text}
use lybrix.Chunker.Units.{Chunk}
use lybrix.Chunker.PageMap.{PageMapper, range_for}
use lybrix.Chunker.Hierarchy.{merge_breadcrumbs}
use lybrix.Chunker.Strategy.{
  ParentChildResult, ChildChunk, paged, with_pages, remap_child, is_written, child_of, children_of,
  parent_loop,
}

paged-seq : (c : Chunk) (found : Option (ℕ × ℕ)) → (paged c found).seq ≡ c.seq
paged-seq c none = refl
paged-seq c (some (ps, pe)) = refl

child_of-seq :
    (pg : PageMapper) (parent sub : Chunk) (seq : ℕ) → (child_of pg parent sub seq).seq ≡ seq
unfolding child_of
child_of-seq pg parent sub seq =
    let c = record (remap_child sub parent) {
      seq = seq;
      context_header = merge_breadcrumbs parent.context_header sub.context_header;
    } in
    paged-seq c (range_for pg c.start c.end)

-- The number of parents and children with a sequence number.
abbrev pub with_seq : ℕ → ParentChildResult → ℕ
with_seq n r =
    count_if (λ (c : Chunk). c.seq == n) r.parents
    + count_if (λ (c : ChildChunk). c.chunk.seq == n) r.children

abbrev pub one_below : ℕ → ℕ → ℕ
one_below total n = if ltb n total then 1 else 0

-- The numbers below the total are each given once, and no others.
pub record IsNumbered (total : ℕ) (r : ParentChildResult) : Type 0 where
  pub sized : length r.parents + length r.children ≡ total
  pub once : (n : ℕ) → with_seq n r ≡ one_below total n

-- Every number below that of the parents and children is given once, and no other is given.
abbrev pub EachOnce : ParentChildResult → Type 0
EachOnce r = (n : ℕ) → with_seq n r ≡ one_below (length r.parents + length r.children) n

children_of-length :
    (hash : Text → String) (pg : PageMapper) (parent : Chunk) (index : Option ℕ) (seq : ℕ)
    (subs : List Chunk)
    → length (children_of hash pg parent index seq subs) ≡ length subs
unfolding children_of
children_of-length hash pg parent index seq [] = refl
children_of-length hash pg parent index seq (sub ∷ subs) =
    omega (arith, children_of-length hash pg parent index (seq + 1) subs)

children_of-seqs :
    (hash : Text → String) (pg : PageMapper) (parent : Chunk) (index : Option ℕ) (seq n : ℕ)
    (subs : List Chunk)
    → one_below seq n
        + count_if
            (λ (c : ChildChunk). c.chunk.seq == n)
            (children_of hash pg parent index seq subs)
      ≡ one_below (seq + length subs) n
unfolding children_of
children_of-seqs hash pg parent index seq n [] = ground arith
children_of-seqs hash pg parent index seq n (sub ∷ subs) =
    let rest = children_of-seqs hash pg parent index (seq + 1) n subs in
    rw (child_of-seq pg parent sub seq) (ground (arith, rest))

-- What the loop does with a parent.
abbrev pub add_parent : PageMapper → ℕ → Chunk → Bool → List Chunk → List Chunk
add_parent pg seq parent written parents =
    if written then parents ++ with_pages pg (record parent { seq = seq }) ∷ [] else parents

add_parent-seqs :
    (pg : PageMapper) (seq : ℕ) (parent : Chunk) (written : Bool) (r : ParentChildResult)
    → IsNumbered seq r
    → IsNumbered
        (if written then seq + 1 else seq)
        (record r { parents = add_parent pg seq parent written r.parents })
add_parent-seqs pg seq parent false r h = record { sized = h.sized; once = h.once }
add_parent-seqs pg seq parent true r h =
    let c = record parent { seq = seq } in
    let p = with_pages pg c in
    let numbered : p.seq ≡ seq = paged-seq c (range_for pg c.start c.end) in
    record {
      sized = omega (arith, h.sized, length-append r.parents (p ∷ []));
      once = λ n.
          let appended = count_if-append (λ (d : Chunk). d.seq == n) r.parents (p ∷ []) in
          ground (arith, h.once n, appended, numbered);
    }

pub parent_loop-IsNumbered :
    (hash : Text → String) (pg : PageMapper) (split_content : Text → List Chunk) (seq : ℕ)
    (parents : List Chunk) (r : ParentChildResult)
    → IsNumbered seq r
    → EachOnce (parent_loop hash pg split_content seq parents r)
unfolding parent_loop
parent_loop-IsNumbered hash pg split_content seq [] r h = λ n. ground (arith, h.sized, h.once n)
parent_loop-IsNumbered hash pg split_content seq (parent ∷ parents) r h =
    let subs = split_content parent.content in
    let written = is_written parent subs in
    let seq' = if written then seq + 1 else seq in
    let index = if written then some (length r.parents) else none in
    let added = children_of hash pg parent index seq' subs in
    let with_parent = add_parent-seqs pg seq parent written r h in
    parent_loop-IsNumbered hash pg split_content (seq' + length subs) parents
      (record {
        parents = add_parent pg seq parent written r.parents;
        children = r.children ++ added;
      })
      (record {
        sized = omega (
          arith,
          with_parent.sized,
          length-append r.children added,
          children_of-length hash pg parent index seq' subs,
        );
        once = λ n. omega (
          arith,
          with_parent.once n,
          count_if-append (λ (c : ChildChunk). c.chunk.seq == n) r.children added,
          children_of-seqs hash pg parent index seq' n subs,
        );
      })

-- ===== src/Chunker/Strategy/Linked.antt =====
-- SplitParentChild of internal/chunker/strategy.go: how children are linked to their parents.
use Prim.Native.String.{String}
use lybrix.Base.{
  ℕ, zero, suc, ◌+◌, ◌≡◌, refl, ap, sym, ◌∙◌, inl, inr, Bool, true, false, Option, none, some, List,
  [], ◌∷◌, ◌++◌, ◌==◌, if◌then◌else◌, length, get_elem?, arith, All, All-append, Bool-cases,
  append-nil, drop, length-drop,
}
use lybrix.Chunker.Runes.{Text, has_prefix}
use lybrix.Chunker.Units.{Patterns, Chunk}
use lybrix.Chunker.PageMap.{PageMapper, new_page_mapper, range_for}
use lybrix.Chunker.Separators.Pieces.{has_prefix-append, has_prefix-length}
use lybrix.Chunker.Splitter.{SplitterConfig, ensure_defaults}
use lybrix.Chunker.Profile.{LinePatterns}
use lybrix.Chunker.Hierarchy.{same_text, merge_breadcrumbs}
use lybrix.Chunker.Strategy.{
  ParentChildResult, ChildChunk, paged, with_pages, remap_child, is_written, child_of, children_of,
  parent_loop, split, split_parent_child,
}
use lybrix.Chunker.Strategy.Remapped.{no_runes}
use lybrix.Chunker.Strategy.Numbered.{EachOnce, add_parent, parent_loop-IsNumbered}

same_text-≡ : (s t : Text) → same_text s t ≡ true → s ≡ t
same_text-≡ s t h =
    let forth : has_prefix s t ≡ true = ground (arith, h) in
    let back : has_prefix t s ≡ true = ground (arith, h) in
    let rest : drop (length s) t ≡ [] =
      no_runes (drop (length s) t)
        (omega (arith, length-drop (length s) t, has_prefix-length t s back)) in
    sym (append-nil s) ∙ ap (λ r. s ++ r) (sym rest) ∙ has_prefix-append s t forth

paged-content : (c : Chunk) (found : Option (ℕ × ℕ)) → (paged c found).content ≡ c.content
paged-content c none = refl
paged-content c (some (ps, pe)) = refl

remap_child-content : (sub parent : Chunk) → (remap_child sub parent).content ≡ sub.content
unfolding remap_child
remap_child-content sub parent = elim (Bool-cases (parent.synthetic_prefix_runes == 0)) [
  | inl plain ↦ rw plain refl
  | inr made ↦ rw made refl
]

child_of-content :
    (pg : PageMapper) (parent sub : Chunk) (seq : ℕ)
    → (child_of pg parent sub seq).content ≡ sub.content
unfolding child_of
child_of-content pg parent sub seq =
    let c = record (remap_child sub parent) {
      seq = seq;
      context_header = merge_breadcrumbs parent.context_header sub.context_header;
    } in
    paged-content c (range_for pg c.start c.end) ∙ remap_child-content sub parent

-- A child's parent: the one at its index, or itself where there is no index, told by the hash.
abbrev pub HasParent : (Text → String) → List Chunk → Chunk → Option ℕ → String → Type 0
HasParent hash parents c none found = hash c.content ≡ found
HasParent hash parents c (some i) found =
    (p : Chunk) × (get_elem? parents i ≡ some p) × (hash p.content ≡ found)

abbrev pub IsLinked : (Text → String) → List Chunk → ChildChunk → Type 0
IsLinked hash parents child =
    HasParent hash parents child.chunk child.parent_index child.parent_hash

get_elem?-append :
    (xs ys : List Chunk) (i : ℕ) (p : Chunk)
    → get_elem? xs i ≡ some p
    → get_elem? (xs ++ ys) i ≡ some p
get_elem?-append [] ys i p h = cc h
get_elem?-append (x ∷ xs) ys zero p h = h
get_elem?-append (x ∷ xs) ys (suc i) p h = get_elem?-append xs ys i p h

get_elem?-last : (xs : List Chunk) (p : Chunk) → get_elem? (xs ++ p ∷ []) (length xs) ≡ some p
get_elem?-last [] p = refl
get_elem?-last (x ∷ xs) p = get_elem?-last xs p

HasParent-append :
    (hash : Text → String) (parents more : List Chunk) (c : Chunk) (index : Option ℕ)
    (found : String)
    → HasParent hash parents c index found
    → HasParent hash (parents ++ more) c index found
HasParent-append hash parents more c none found h = h
HasParent-append hash parents more c (some i) found (p, at, same) =
    (p, get_elem?-append parents more i p at, same)

All-IsLinked-append :
    (hash : Text → String) (parents more : List Chunk) (children : List ChildChunk)
    → All (IsLinked hash parents) children
    → All (IsLinked hash (parents ++ more)) children
All-IsLinked-append hash parents more [] h = tt
All-IsLinked-append hash parents more (child ∷ children) (h, hs) = (
  HasParent-append hash parents more child.chunk child.parent_index child.parent_hash h,
  All-IsLinked-append hash parents more children hs,
)

-- The children of a parent that was just written.
children_of-written :
    (hash : Text → String) (pg : PageMapper) (parent p : Chunk) (parents : List Chunk) (seq : ℕ)
    (subs : List Chunk)
    → p.content ≡ parent.content
    → All
        (IsLinked hash (parents ++ p ∷ []))
        (children_of hash pg parent (some (length parents)) seq subs)
unfolding children_of
children_of-written hash pg parent p parents seq [] h = tt
children_of-written hash pg parent p parents seq (sub ∷ subs) h = (
  (p, get_elem?-last parents p, ap hash h),
  children_of-written hash pg parent p parents (seq + 1) subs h,
)

-- The children of a parent that is not written: its content itself.
children_of-unwritten :
    (hash : Text → String) (pg : PageMapper) (parent : Chunk) (parents : List Chunk) (seq : ℕ)
    (subs : List Chunk)
    → is_written parent subs ≡ false
    → All (IsLinked hash parents) (children_of hash pg parent none seq subs)
unfolding children_of is_written
children_of-unwritten hash pg parent parents seq [] h = tt
children_of-unwritten hash pg parent parents seq (sub ∷ []) h =
    let same : same_text sub.content parent.content ≡ true = ground (arith, h) in
    (ap hash (child_of-content pg parent sub seq ∙ same_text-≡ sub.content parent.content same), tt)
children_of-unwritten hash pg parent parents seq (sub ∷ next ∷ subs) h = cc h

add_parent-IsLinked :
    (hash : Text → String) (pg : PageMapper) (seq seq' : ℕ) (parent : Chunk) (subs : List Chunk)
    (written : Bool) (r : ParentChildResult)
    → is_written parent subs ≡ written
    → All (IsLinked hash r.parents) r.children
    → All (IsLinked hash (add_parent pg seq parent written r.parents)) (
        r.children
        ++ children_of hash pg parent (if written then some (length r.parents) else none) seq' subs)
add_parent-IsLinked hash pg seq seq' parent subs false r e h =
    All-append (IsLinked hash r.parents) r.children (children_of hash pg parent none seq' subs) h
      (children_of-unwritten hash pg parent r.parents seq' subs e)
add_parent-IsLinked hash pg seq seq' parent subs true r e h =
    let c = record parent { seq = seq } in
    let p = with_pages pg c in
    All-append (IsLinked hash (r.parents ++ p ∷ [])) r.children
      (children_of hash pg parent (some (length r.parents)) seq' subs)
      (All-IsLinked-append hash r.parents (p ∷ []) r.children h)
      (children_of-written hash pg parent p r.parents seq' subs
        (paged-content c (range_for pg c.start c.end)))

parent_loop-IsLinked :
    (hash : Text → String) (pg : PageMapper) (split_content : Text → List Chunk) (seq : ℕ)
    (parents : List Chunk) (r : ParentChildResult)
    → All (IsLinked hash r.parents) r.children
    → All
        (IsLinked hash (parent_loop hash pg split_content seq parents r).parents)
        (parent_loop hash pg split_content seq parents r).children
unfolding parent_loop
parent_loop-IsLinked hash pg split_content seq [] r h = h
parent_loop-IsLinked hash pg split_content seq (parent ∷ parents) r h =
    let subs = split_content parent.content in
    let written = is_written parent subs in
    let seq' = if written then seq + 1 else seq in
    let index = if written then some (length r.parents) else none in
    parent_loop-IsLinked hash pg split_content (seq' + length subs) parents
      (record {
        parents = add_parent pg seq parent written r.parents;
        children = r.children ++ children_of hash pg parent index seq' subs;
      })
      (add_parent-IsLinked hash pg seq seq' parent subs written r refl h)

-- Whatever the configurations, SplitParentChild gives each number below that of its parents and
-- children to one of them, and no other number; and the hash that a child has for its parent is that
-- of the content of the parent at its index, or of its own content where it has no index.
pub split_parent_child_links :
    (chars_for_token_limit : ℕ → String → ℕ) (ps : Patterns) (lp : LinePatterns)
    (hash : Text → String) (doc : Text) (pages : List ℕ) (parent_cfg child_cfg : SplitterConfig)
    → EachOnce (split_parent_child chars_for_token_limit ps lp hash doc pages parent_cfg child_cfg)
      × All
          (IsLinked hash
            (split_parent_child chars_for_token_limit ps lp hash doc pages parent_cfg
              child_cfg).parents)
          (split_parent_child chars_for_token_limit ps lp hash doc pages parent_cfg
            child_cfg).children
unfolding split_parent_child
split_parent_child_links chars_for_token_limit ps lp hash doc pages parent_cfg child_cfg =
    let parent_cfg' = ensure_defaults chars_for_token_limit parent_cfg in
    let child_cfg' = ensure_defaults chars_for_token_limit child_cfg in
    let nothing : ParentChildResult = record { parents = []; children = [] } in
    let split_content : Text → List Chunk = λ t. split chars_for_token_limit ps lp t child_cfg' in
    let parents = split chars_for_token_limit ps lp doc parent_cfg' in
    let pg = new_page_mapper doc pages in
    elim (Bool-cases (length doc == 0)) [
      | inl empty ↦ rw empty (λ n. ground arith, tt)
      | inr filled ↦ rw filled (
        parent_loop-IsNumbered hash pg split_content 0 parents nothing
            (record { sized = refl; once = λ n. ground arith }),
        parent_loop-IsLinked hash pg split_content 0 parents nothing tt,
      )
    ]

-- ===== src/Chunker/Hierarchy.antt =====
-- internal/chunker/heading_hierarchy.go: the stack of headings, and the breadcrumbs.
use lybrix.Base.{
  ℕ, zero, suc, ◌+◌, ◌-◌, Bool, ◌&&◌, ◌||◌, Option, none, some, List, [], ◌∷◌, ◌++◌, ltb, ◌==◌,
  if◌then◌else◌, length, take,
}
use lybrix.Chunker.Runes.{Text, trim_space, split_at, has_prefix}
use lybrix.Chunker.Profile.{LinePatterns, is_level}

-- HeadingHierarchy: the stack has six texts.
pub record HeadingHierarchy : Type 0 where
  pub stack : List Text
  pub depth : ℕ

abbrev pub new_heading_hierarchy : HeadingHierarchy
new_heading_hierarchy = record { stack = [] ∷ [] ∷ [] ∷ [] ∷ [] ∷ [] ∷ []; depth = 0 }

abbrev empties : ℕ → List Text
empties zero = []
empties (suc n) = [] ∷ empties n

-- The number of the last heading that is not empty, or 0; `n` headings stand before.
abbrev deepest : ℕ → List Text → ℕ
deepest n [] = 0
deepest n (h ∷ stack) =
    let rest = deepest (n + 1) stack in
    if ltb 0 rest then rest else if length h == 0 then 0 else n + 1

unfoldable pub push : ℕ → Text → HeadingHierarchy → HeadingHierarchy
push level title h =
    let stack = take (level - 1) h.stack ++ title ∷ empties (6 - level) in
    record { stack = stack; depth = if ltb h.depth level then level else deepest 0 stack }

abbrev observed : Option (ℕ × Text) → HeadingHierarchy → HeadingHierarchy
observed none h = h
observed (some (level, title)) h = if is_level level then push level (trim_space title) h else h

-- Observe; its result is not used.
unfoldable pub observe : LinePatterns → Text → HeadingHierarchy → HeadingHierarchy
unfolding push trim_space
observe lp line h = observed (lp.heading line) h

abbrev hashes : ℕ → Text
hashes zero = []
hashes (suc n) = 35 ∷ hashes n

-- Lines joined by newlines.
abbrev pub join_lines : List Text → Text
join_lines [] = []
join_lines (line ∷ []) = line
join_lines (line ∷ next ∷ lines) = line ++ 10 ∷ join_lines (next ∷ lines)

abbrev crumbs : ℕ → List Text → List Text
crumbs n [] = []
crumbs n (h ∷ stack) =
    let rest = crumbs (n + 1) stack in
    if length h == 0 then rest else (hashes (n + 1) ++ 32 ∷ h) ∷ rest

-- BreadcrumbWithHashes.
unfoldable pub breadcrumb_with_hashes : HeadingHierarchy → Text
breadcrumb_with_hashes h = join_lines (crumbs 0 (take h.depth h.stack))

abbrev pub same_text : Text → Text → Bool
same_text s t = has_prefix s t && has_prefix t s

abbrev last_line : List Text → Text
last_line [] = []
last_line (line ∷ []) = line
last_line (line ∷ next ∷ lines) = last_line (next ∷ lines)

abbrev drop_repeated : Text → List Text → List Text
drop_repeated last [] = []
drop_repeated last (line ∷ lines) =
    if same_text (trim_space last) (trim_space line) then lines else line ∷ lines

abbrev joined : Text → List Text → Text
joined parent [] = parent
joined parent (line ∷ lines) = parent ++ 10 ∷ join_lines (line ∷ lines)

-- mergeBreadcrumbs.
unfoldable pub merge_breadcrumbs : Text → Text → Text
unfolding split_at trim_space has_prefix
merge_breadcrumbs parent child =
    if length parent == 0
    then child
    else if length child == 0
    then parent
    else joined parent (drop_repeated (last_line (split_at 10 parent)) (split_at 10 child))

abbrev common_lines : List Text → List Text → List Text
common_lines [] bs = []
common_lines (a ∷ as') [] = []
common_lines (a ∷ as') (b ∷ bs) =
    let rest = common_lines as' bs in if same_text a b then a ∷ rest else []

-- commonHeadingPrefix.
unfoldable pub common_heading_prefix : Text → Text → Text
unfolding split_at has_prefix
common_heading_prefix a b =
    if (length a == 0) || (length b == 0)
    then []
    else join_lines (common_lines (split_at 10 a) (split_at 10 b))

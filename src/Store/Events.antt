-- ===== src/Store/Events.antt =====
-- internal/store/events.go: the statement that ListEvents builds from its filter. The rows that the
-- database returns are not modelled.
mod Samples
use Prim.Native.String.{String}
use text.Mathlib.Text.{◌==◌ as str_eq}
use lybrix.Base.{
  ℕ, ◌+◌, ◌≤◌, ◌≡◌, refl, ◌↔◌, Bool, true, false, not, ◌&&◌, ◌||◌, Option, none, some, List, [],
  ◌∷◌, ◌++◌, arith, ltb, leb, ◌==◌, if◌then◌else◌, length,
}

-- EventFilter; the id of a document is none where the code has the empty text.
pub record EventFilter : Type 0 where
  pub doc_id : Option ℕ
  pub level : String
  pub stage : String
  pub limit : ℕ
  pub last_id : ℕ
  pub asc : Bool

pub data Column : Type 0 where
  by_doc by_level by_stage after_id row_limit : Column

pub data Argument : Type 0 where
  doc_arg : ℕ → Argument
  text_arg : String → Argument
  number_arg : ℕ → Argument

-- The statement: each condition with the number of its placeholder, and the arguments passed.
pub record Query : Type 0 where
  pub uses : List (Column × ℕ)
  pub args : List Argument

-- The arguments and the conditions grow together, but a condition's placeholder is written out.
abbrev pub condition : Bool → Column → ℕ → Argument → Query → Query
condition given column placeholder arg q =
    if given
    then record { uses = q.uses ++ (column, placeholder) ∷ []; args = q.args ++ arg ∷ [] }
    else q

abbrev given_doc : Option ℕ → Bool
given_doc none = false
given_doc (some id) = true

abbrev doc_of : Option ℕ → ℕ
doc_of none = 0
doc_of (some id) = id

abbrev pub page_limit : ℕ → ℕ
page_limit limit = if limit == 0 || ltb 500 limit then 100 else limit

-- ListEvents up to the query.
unfoldable pub list_events_query : EventFilter → Query
list_events_query f = condition true row_limit 5 (number_arg (page_limit f.limit)) (
    condition (ltb 0 f.last_id) after_id 4 (number_arg f.last_id) (
      condition (not (str_eq f.stage "")) by_stage 3 (text_arg f.stage) (
        condition (not (str_eq f.level "")) by_level 2 (text_arg f.level) (
          condition (given_doc f.doc_id) by_doc 1 (doc_arg (doc_of f.doc_id))
            (record { uses = []; args = [] })))))

-- A statement can only run if each placeholder names an argument that is passed.
abbrev pub names_passed : ℕ → List (Column × ℕ) → Bool
names_passed passed [] = true
names_passed passed ((column, n) ∷ uses) =
    let rest = names_passed passed uses in leb 1 n && (leb n passed && rest)

abbrev pub can_run : Query → Bool
can_run q = names_passed (length q.args) q.uses

-- Every filter is set.
abbrev pub all_given : EventFilter → Bool
all_given f =
    given_doc f.doc_id && (not (str_eq f.level "") && (not (str_eq f.stage "") && ltb 0 f.last_id))

-- The statement of ListEvents names only arguments that are passed precisely if all four filters of
-- conditions are set.
pub list_events_can_run : (f : EventFilter) → can_run (list_events_query f) ≡ all_given f
unfolding list_events_query
list_events_can_run f = ground arith

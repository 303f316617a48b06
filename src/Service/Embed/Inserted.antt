-- ===== src/Service/Embed/Inserted.antt =====
-- internal/store/chunks.go: the rows that InsertParents and InsertChunks add, where no key is taken.
use Prim.Native.String.{String}
use text.Mathlib.Text.{◌==◌ as str_eq}
use lybrix.Base.{
  ℕ, ◌≡◌, refl, ap, sym, ◌∙◌, inl, inr, Bool, true, false, List, [], ◌∷◌, ◌++◌, ◌==◌, if◌then◌else◌,
  arith, map, append_assoc, append-nil, Bool-cases,
}
use lybrix.Base.Results.{ok, ◌>>=◌}
use lybrix.Embed.Chunks.{Piece, has_hash, hashes_of}
use lybrix.Embed.Chunks.Distinct.{distinct_from, distinct_from-ext}
use lybrix.Store.Rows.{Chunk}
use lybrix.Service.Embed.{chunk_row, has_chunk, has_row, insert_rows, unseen_rows}

abbrev pub ids_of : List Chunk → List String
ids_of = map (λ (c : Chunk). c.id)

has_chunk-ids : (id : String) (cs : List Chunk) → has_chunk id cs ≡ has_hash id (ids_of cs)
has_chunk-ids id [] = refl
has_chunk-ids id (c ∷ cs) = ground (arith, has_chunk-ids id cs)

has_hash-ids-append :
    (id : String) (cs : List Chunk) (c : Chunk)
    → has_hash id (c.id ∷ ids_of cs) ≡ has_hash id (ids_of (cs ++ c ∷ []))
has_hash-ids-append id [] c = refl
has_hash-ids-append id (d ∷ cs) c = ground (arith, has_hash-ids-append id cs c)

-- The hashes of a document's chunks.
abbrev pub doc_hashes : ℕ → List Chunk → List String
doc_hashes doc_id [] = []
doc_hashes doc_id (c ∷ cs) =
    let rest = doc_hashes doc_id cs in if c.doc_id == doc_id then c.chunk_hash ∷ rest else rest

has_row-hashes :
    (doc_id : ℕ) (h : String) (cs : List Chunk)
    → has_row doc_id h cs ≡ has_hash h (doc_hashes doc_id cs)
has_row-hashes doc_id h [] = refl
has_row-hashes doc_id h (c ∷ cs) = ground (arith, has_row-hashes doc_id h cs)

has_hash-hashes-append :
    (h : String) (doc_id : ℕ) (cs : List Chunk) (c : Chunk)
    → c.doc_id ≡ doc_id
    → has_hash h (c.chunk_hash ∷ doc_hashes doc_id cs)
      ≡ has_hash h (doc_hashes doc_id (cs ++ c ∷ []))
has_hash-hashes-append h doc_id [] c own = ground (arith, own)
has_hash-hashes-append h doc_id (d ∷ cs) c own =
    ground (arith, own, has_hash-hashes-append h doc_id cs c own)

abbrev pub hashes_of_rows : List Chunk → List String
hashes_of_rows = map (λ (c : Chunk). c.chunk_hash)

abbrev pub AreOf : ℕ → List Chunk → Type 0
AreOf doc_id [] = Unit {0}
AreOf doc_id (c ∷ cs) = (c.doc_id ≡ doc_id) × AreOf doc_id cs

-- Rows of a document whose ids and hashes are distinct and not in the table are all added.
pub insert_rows-distinct :
    (doc_id : ℕ) (rows chunks : List Chunk)
    → AreOf doc_id rows
    → distinct_from (ids_of chunks) (ids_of rows) ≡ true
    → distinct_from (doc_hashes doc_id chunks) (hashes_of_rows rows) ≡ true
    → insert_rows rows chunks ≡ ok (chunks ++ rows)
unfolding insert_rows distinct_from
insert_rows-distinct doc_id [] chunks own ids hashes = ap ok (sym (append-nil chunks))
insert_rows-distinct doc_id (c ∷ rows) chunks (own, owns) ids hashes =
    elim (Bool-cases (has_hash c.id (ids_of chunks))) [
      | inl there ↦ absurd (ground (arith, there, ids))
      | inr free ↦ elim (Bool-cases (has_hash c.chunk_hash (doc_hashes doc_id chunks))) [
        | inl there ↦ absurd (ground (arith, there, hashes))
        | inr fresh ↦
            let new_row : has_row c.doc_id c.chunk_hash chunks ≡ false =
              ap (λ k. has_row k c.chunk_hash chunks) own
              ∙ (has_row-hashes doc_id c.chunk_hash chunks ∙ fresh) in
            rw (new_row, has_chunk-ids c.id chunks ∙ free)
              (insert_rows-distinct doc_id rows (chunks ++ c ∷ []) owns
                  (distinct_from-ext (c.id ∷ ids_of chunks) (ids_of (chunks ++ c ∷ []))
                    (ids_of rows) (λ h. has_hash-ids-append h chunks c) (rw free at ids))
                  (distinct_from-ext (c.chunk_hash ∷ doc_hashes doc_id chunks)
                    (doc_hashes doc_id (chunks ++ c ∷ [])) (hashes_of_rows rows)
                    (λ h. has_hash-hashes-append h doc_id chunks c own) (rw fresh at hashes))
                ∙ ap ok (append_assoc chunks (c ∷ []) rows))
      ]
    ]

pub unseen_rows-distinct :
    (seen : List String) (rows : List Chunk)
    → distinct_from seen (ids_of rows) ≡ true
    → unseen_rows seen rows ≡ rows
unfolding unseen_rows distinct_from
unseen_rows-distinct seen [] d = refl
unseen_rows-distinct seen (c ∷ rows) d = elim (Bool-cases (has_hash c.id seen)) [
  | inl there ↦ absurd (ground (arith, there, d))
  | inr free ↦ rw free (ap (◌∷◌ c) (unseen_rows-distinct (c.id ∷ seen) rows (rw free at d)))
]

pub insert_rows-append :
    (xs ys chunks : List Chunk)
    → insert_rows (xs ++ ys) chunks ≡ (insert_rows xs chunks >>= insert_rows ys)
unfolding insert_rows
insert_rows-append [] ys chunks = refl
insert_rows-append (x ∷ xs) ys chunks = elim (Bool-cases (has_row x.doc_id x.chunk_hash chunks)) [
  | inl there ↦ rw there (insert_rows-append xs ys chunks)
  | inr fresh ↦ elim (Bool-cases (has_chunk x.id chunks)) [
    | inl taken ↦ rw (fresh, taken) refl
    | inr free ↦ rw (fresh, free) (insert_rows-append xs ys (chunks ++ x ∷ []))
  ]
]

pub distinct_from-prefix :
    (t xs ys : List String) → distinct_from t (xs ++ ys) ≡ true → distinct_from t xs ≡ true
unfolding distinct_from
distinct_from-prefix t [] ys d = refl
distinct_from-prefix t (x ∷ xs) ys d = elim (Bool-cases (has_hash x t)) [
  | inl there ↦ absurd (ground (arith, there, d))
  | inr free ↦ rw free (distinct_from-prefix (x ∷ t) xs ys (rw free at d))
]

distinct_from-fewer :
    (t u hs : List String)
    → ((h : String) → has_hash h t ≡ true → has_hash h u ≡ true)
    → distinct_from u hs ≡ true
    → distinct_from t hs ≡ true
unfolding distinct_from
distinct_from-fewer t u [] sub d = refl
distinct_from-fewer t u (h ∷ hs) sub d = elim (Bool-cases (has_hash h u)) [
  | inl there ↦ absurd (ground (arith, there, d))
  | inr free ↦ elim (Bool-cases (has_hash h t)) [
    | inl here ↦ absurd (ground (arith, sub h here, free))
    | inr fresh ↦ rw fresh (
        distinct_from-fewer (h ∷ t) (h ∷ u) hs (λ k there. ground (arith, sub k, there))
          (rw free at d))
  ]
]

pub distinct_from-suffix :
    (t xs ys : List String) → distinct_from t (xs ++ ys) ≡ true → distinct_from t ys ≡ true
unfolding distinct_from
distinct_from-suffix t [] ys d = d
distinct_from-suffix t (x ∷ xs) ys d = elim (Bool-cases (has_hash x t)) [
  | inl there ↦ absurd (ground (arith, there, d))
  | inr free ↦
      distinct_from-fewer t (x ∷ t) ys (λ h there. ground (arith, there))
        (distinct_from-suffix (x ∷ t) xs ys (rw free at d))
]

-- Distinct hashes give distinct ids.
pub distinct_from-map :
    (id_of : String → String) (taken ids hs : List String)
    → ((h k : String) → str_eq (id_of h) (id_of k) ≡ str_eq h k)
    → ((h : String) → has_hash (id_of h) ids ≡ has_hash h taken)
    → distinct_from taken hs ≡ true
    → distinct_from ids (map id_of hs) ≡ true
unfolding distinct_from
distinct_from-map id_of taken ids [] inj same d = refl
distinct_from-map id_of taken ids (h ∷ hs) inj same d = elim (Bool-cases (has_hash h taken)) [
  | inl there ↦ absurd (ground (arith, there, d))
  | inr free ↦ rw (same h ∙ free) (
      distinct_from-map id_of (h ∷ taken) (id_of h ∷ ids) hs inj
        (λ k. ground (arith, inj h k, same k)) (rw free at d))
]

pub rows-ids :
    (id_of : String → String) (doc_id : ℕ) (surviving : List String) (is_parent : Bool)
    (cs : List Piece)
    → ids_of (map (chunk_row id_of doc_id surviving is_parent) cs) ≡ map id_of (hashes_of cs)
rows-ids id_of doc_id surviving is_parent [] = refl
rows-ids id_of doc_id surviving is_parent (c ∷ cs) =
    ap (◌∷◌ (id_of c.hash)) (rows-ids id_of doc_id surviving is_parent cs)

pub map-append :
    {A B : Type 0} (f : A → B) (xs ys : List A) → map f (xs ++ ys) ≡ map f xs ++ map f ys
map-append f [] ys = refl
map-append f (x ∷ xs) ys = ap (◌∷◌ (f x)) (map-append f xs ys)

pub rows-hashes :
    (id_of : String → String) (doc_id : ℕ) (surviving : List String) (is_parent : Bool)
    (cs : List Piece)
    → hashes_of_rows (map (chunk_row id_of doc_id surviving is_parent) cs) ≡ hashes_of cs
rows-hashes id_of doc_id surviving is_parent [] = refl
rows-hashes id_of doc_id surviving is_parent (c ∷ cs) =
    ap (◌∷◌ c.hash) (rows-hashes id_of doc_id surviving is_parent cs)

pub rows-AreOf :
    (id_of : String → String) (doc_id : ℕ) (surviving : List String) (is_parent : Bool)
    (cs : List Piece)
    → AreOf doc_id (map (chunk_row id_of doc_id surviving is_parent) cs)
rows-AreOf id_of doc_id surviving is_parent [] = tt
rows-AreOf id_of doc_id surviving is_parent (c ∷ cs) =
    (refl, rows-AreOf id_of doc_id surviving is_parent cs)

pub append-AreOf :
    (doc_id : ℕ) (xs ys : List Chunk) → AreOf doc_id xs → AreOf doc_id ys → AreOf doc_id (xs ++ ys)
append-AreOf doc_id [] ys own owns = owns
append-AreOf doc_id (x ∷ xs) ys (h, own) owns = (h, append-AreOf doc_id xs ys own owns)

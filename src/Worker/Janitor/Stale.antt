-- ===== src/Worker/Janitor/Stale.antt =====
-- internal/store/janitor.go and internal/worker/janitor.go: which shards the sweep of pending shards
-- finds lost, and in which order.
use Prim.Native.String.{String}
use lybrix.Base.{
  ℕ, ◌≤◌, ◌<◌, ◌≡◌, refl, ◌⊎◌, ◌∙◌, inl, inr, Bool, true, false, not, ◌&&◌, Option, none, some,
  List, [], ◌∷◌, ◌==◌, ltb, map, count_if, arith, Bool-cases,
}
use lybrix.Queue.Jobs.{ParseJob, schema_version}
use lybrix.Store.Rows.{Document, Shard, is_pending}
use lybrix.Store.Documents.{find_document, is_terminal}
use lybrix.Store.Sweeps.{StalePendingShard, stale_pending, precedes, insert_stale, sort_stale}
use lybrix.Worker.Janitor.{has_pair, parse_job_of, missing_parse_jobs}

-- A document that is not terminal and was last written before a time.
abbrev pub is_late : ℕ → Option Document → Bool
is_late time none = false
is_late time (some d) = ltb d.updated_at time && not (is_terminal d.state)

-- A pending shard that no worker has claimed, under such a document, whose key does not wait on the
-- stream.
abbrev pub is_lost : ℕ → List (ℕ × ℕ) → List Document → Shard → Bool
is_lost time queued docs s =
    not (has_pair s.doc_id s.idx queued)
    && (is_late time (find_document s.doc_id docs) && (s.attempts == 0 && is_pending s.state))

abbrev uri_of : Option Document → String
uri_of none = ""
uri_of (some d) = d.source_uri

-- The job that parses a shard.
abbrev pub job_for : List Document → Shard → ParseJob
job_for docs s = record {
  schema_version = schema_version;
  doc_id = s.doc_id;
  idx = s.idx;
  page_start = s.page_start;
  page_end = s.page_end;
  source_uri = uri_of (find_document s.doc_id docs);
}

insert_stale-count :
    (p : StalePendingShard → Bool) (s : StalePendingShard) (l : List StalePendingShard)
    → count_if p (insert_stale s l) ≡ count_if p (s ∷ l)
unfolding insert_stale
insert_stale-count p s [] = refl
insert_stale-count p s (r ∷ rs) = ground (arith, insert_stale-count p s rs)

sort_stale-count :
    (p : StalePendingShard → Bool) (l : List StalePendingShard)
    → count_if p (sort_stale l) ≡ count_if p l
unfolding sort_stale
sort_stale-count p [] = refl
sort_stale-count p (s ∷ ss) =
    ground (arith, insert_stale-count p s (sort_stale ss), sort_stale-count p ss)

abbrev is_missing : List (ℕ × ℕ) → (ParseJob → Bool) → StalePendingShard → Bool
is_missing queued p s = not (has_pair s.doc_id s.idx queued) && p (parse_job_of s)

missing-count :
    (queued : List (ℕ × ℕ)) (p : ParseJob → Bool) (l : List StalePendingShard)
    → count_if p (missing_parse_jobs queued l) ≡ count_if (is_missing queued p) l
unfolding missing_parse_jobs
missing-count queued p [] = refl
missing-count queued p (s ∷ ss) = ground (arith, missing-count queued p ss)

stale-count :
    (time : ℕ) (queued : List (ℕ × ℕ)) (p : ParseJob → Bool) (docs : List Document)
    (ss : List Shard)
    → count_if (is_missing queued p) (stale_pending time docs ss)
      ≡ count_if (λ s. is_lost time queued docs s && p (job_for docs s)) ss
unfolding stale_pending
stale-count time queued p docs [] = refl
stale-count time queued p docs (s ∷ ss) = ground (arith, stale-count time queued p docs ss)

-- What the sweep sends, counted: a job for each lost shard.
pub lost-count :
    (time : ℕ) (queued : List (ℕ × ℕ)) (p : ParseJob → Bool) (docs : List Document)
    (ss : List Shard)
    → count_if p (missing_parse_jobs queued (sort_stale (stale_pending time docs ss)))
      ≡ count_if (λ s. is_lost time queued docs s && p (job_for docs s)) ss
lost-count time queued p docs ss =
    missing-count queued p (sort_stale (stale_pending time docs ss))
    ∙ (sort_stale-count (is_missing queued p) (stale_pending time docs ss)
        ∙ stale-count time queued p docs ss)

-- A key that stands before all of some keys, by the document and then by the number.
abbrev IsFirst : ℕ → ℕ → List (ℕ × ℕ) → Type 0
IsFirst doc_id idx [] = Unit {0}
IsFirst doc_id idx ((d, i) ∷ keys) =
    ((doc_id < d) ⊎ ((doc_id ≡ d) × (idx ≤ i))) × IsFirst doc_id idx keys

abbrev pub InKeyOrder : List (ℕ × ℕ) → Type 0
InKeyOrder [] = Unit {0}
InKeyOrder ((d, i) ∷ keys) = IsFirst d i keys × InKeyOrder keys

abbrev stale_keys : List StalePendingShard → List (ℕ × ℕ)
stale_keys = map (λ (s : StalePendingShard). (s.doc_id, s.idx))

abbrev pub job_keys : List ParseJob → List (ℕ × ℕ)
job_keys = map (λ (j : ParseJob). (j.doc_id, j.idx))

before-IsFirst :
    (d i d' i' : ℕ) (keys : List (ℕ × ℕ))
    → (d < d') ⊎ ((d ≡ d') × (i ≤ i'))
    → IsFirst d' i' keys
    → IsFirst d i keys
before-IsFirst d i d' i' [] h all = tt
before-IsFirst d i d' i' ((e, j) ∷ keys) h (here, all) =
    (ground (arith, h, here), before-IsFirst d i d' i' keys h all)

insert_stale-IsFirst :
    (d i : ℕ) (s : StalePendingShard) (l : List StalePendingShard)
    → (d < s.doc_id) ⊎ ((d ≡ s.doc_id) × (i ≤ s.idx))
    → IsFirst d i (stale_keys l)
    → IsFirst d i (stale_keys (insert_stale s l))
unfolding insert_stale
insert_stale-IsFirst d i s [] h all = (h, tt)
insert_stale-IsFirst d i s (r ∷ rs) h (here, all) = elim (Bool-cases (precedes s r)) [
  | inl first ↦ rw first (h, (here, all))
  | inr later ↦ rw later (here, insert_stale-IsFirst d i s rs h all)
]

precedes_cases :
    (s r : StalePendingShard)
    → precedes s r ≡ true
    → (s.doc_id < r.doc_id) ⊎ ((s.doc_id ≡ r.doc_id) × (s.idx ≤ r.idx))
precedes_cases s r h = ground arith

precedes_not :
    (s r : StalePendingShard)
    → precedes s r ≡ false
    → (r.doc_id < s.doc_id) ⊎ ((r.doc_id ≡ s.doc_id) × (r.idx ≤ s.idx))
precedes_not s r h = ground arith

insert_stale-InKeyOrder :
    (s : StalePendingShard) (l : List StalePendingShard)
    → InKeyOrder (stale_keys l)
    → InKeyOrder (stale_keys (insert_stale s l))
unfolding insert_stale
insert_stale-InKeyOrder s [] rest = (tt, tt)
insert_stale-InKeyOrder s (r ∷ rs) (all, rest) = elim (Bool-cases (precedes s r)) [
  | inl first ↦
      let h = precedes_cases s r first in
      rw first
        ((h, before-IsFirst s.doc_id s.idx r.doc_id r.idx (stale_keys rs) h all), (all, rest))
  | inr later ↦ rw later (
    insert_stale-IsFirst r.doc_id r.idx s rs (precedes_not s r later) all,
    insert_stale-InKeyOrder s rs rest,
  )
]

sort_stale-InKeyOrder : (l : List StalePendingShard) → InKeyOrder (stale_keys (sort_stale l))
unfolding sort_stale
sort_stale-InKeyOrder [] = tt
sort_stale-InKeyOrder (s ∷ ss) =
    insert_stale-InKeyOrder s (sort_stale ss) (sort_stale-InKeyOrder ss)

missing-IsFirst :
    (d i : ℕ) (queued : List (ℕ × ℕ)) (l : List StalePendingShard)
    → IsFirst d i (stale_keys l)
    → IsFirst d i (job_keys (missing_parse_jobs queued l))
unfolding missing_parse_jobs
missing-IsFirst d i queued [] all = tt
missing-IsFirst d i queued (s ∷ ss) (here, all) =
    elim (Bool-cases (has_pair s.doc_id s.idx queued)) [
      | inl waits ↦ rw waits (missing-IsFirst d i queued ss all)
      | inr lost ↦ rw lost (here, missing-IsFirst d i queued ss all)
    ]

missing-InKeyOrder :
    (queued : List (ℕ × ℕ)) (l : List StalePendingShard)
    → InKeyOrder (stale_keys l)
    → InKeyOrder (job_keys (missing_parse_jobs queued l))
unfolding missing_parse_jobs
missing-InKeyOrder queued [] all = tt
missing-InKeyOrder queued (s ∷ ss) (all, rest) =
    elim (Bool-cases (has_pair s.doc_id s.idx queued)) [
      | inl waits ↦ rw waits (missing-InKeyOrder queued ss rest)
      | inr lost ↦
          rw lost (missing-IsFirst s.doc_id s.idx queued ss all, missing-InKeyOrder queued ss rest)
    ]

pub lost-InKeyOrder :
    (queued : List (ℕ × ℕ)) (l : List StalePendingShard)
    → InKeyOrder (job_keys (missing_parse_jobs queued (sort_stale l)))
lost-InKeyOrder queued l = missing-InKeyOrder queued (sort_stale l) (sort_stale-InKeyOrder l)

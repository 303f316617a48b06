-- ===== src/Queue/Scan.antt =====
-- PendingJobKeys of internal/queue/streams.go. The Redis server is a parameter, in `Server`: entry ids
-- are numbers, and the key that `keyOf` finds in a payload belongs to the entry. The loop is on fuel:
-- a round reads what stands behind the last entry of the round before.
pub mod Complete
use lybrix.Base.{
  ℕ, zero, suc, ◌≤◌, ◌<◌, ◌≡◌, refl, ap, ◌∙◌, inl, inr, false, Option, none, some, List, [], ◌∷◌,
  ◌++◌, ltb, if◌then◌else◌, length, filter_if, arith, Bool-cases, append-nil,
}
use lybrix.Base.Results.{Result, ok, err}

-- An entry of the stream; no key where its payload cannot be read or has none.
pub record Item (K : Type 0) : Type 0 where
  pub id : ℕ
  pub key : Option K

-- The server's answers: the last delivered id of the consumer group, or none where the stream has no
-- such group; the entries after an id; the ids of the pending entries; an entry by its id. Each is
-- none where the call fails.
pub record Server (K : Type 0) : Type 0 where
  pub last_delivered : Option (Option ℕ)
  pub range_after : ℕ → Option (List (Item K))
  pub pending : Option (List ℕ)
  pub entry : ℕ → Option (List (Item K))

pub data ScanError : Type 0 where
  redis_failed scan_out_of_fuel : ScanError

abbrev pub scan_page_keys : ℕ
scan_page_keys = 500

module _ {K : Type 0} where
  abbrev key_of : Option K → List K
  key_of none = []
  key_of (some k) = k ∷ []

  unfoldable pub keys_of : List (Item K) → List K
  keys_of [] = []
  keys_of (x ∷ xs) = key_of x.key ++ keys_of xs

  -- The id of the last entry, or `id` where there is none.
  unfoldable pub last_id : ℕ → List (Item K) → ℕ
  last_id id [] = id
  last_id id (x ∷ xs) = last_id x.id xs

  abbrev next_round : List (Item K) → Result ScanError (List K) → Result ScanError (List K)
  next_round page (err e) = err e
  next_round page (ok rest) = ok (keys_of page ++ rest)

  abbrev after_page : List (Item K) → Result ScanError (List K) → Result ScanError (List K)
  after_page [] rest = ok []
  after_page (x ∷ page) rest =
      if ltb (length (x ∷ page)) scan_page_keys
      then ok (keys_of (x ∷ page))
      else next_round (x ∷ page) rest

  -- The keys behind `cursor`.
  unfoldable pub scan_from : ℕ → Server K → ℕ → Result ScanError (List K)
  unfolding keys_of last_id
  scan_from zero server cursor = err scan_out_of_fuel
  scan_from (suc fuel) server cursor = elim (server.range_after cursor) [
    | none ↦ err redis_failed
    | some page ↦ after_page page (scan_from fuel server (last_id cursor page))
  ]

  abbrev entry_keys : Option (List (Item K)) → List K
  entry_keys none = []
  entry_keys (some items) = keys_of items

  -- The pending entries: one that cannot be read is passed over.
  unfoldable pub pending_keys : Server K → List ℕ → List K
  unfolding keys_of
  pending_keys server [] = []
  pending_keys server (id ∷ ids) = entry_keys (server.entry id) ++ pending_keys server ids

  abbrev with_pending :
      Server K → Result ScanError (List K) → Option (List ℕ) → Result ScanError (List K)
  with_pending server (err e) ids = err e
  with_pending server (ok keys) none = err redis_failed
  with_pending server (ok keys) (some ids) = ok (keys ++ pending_keys server ids)

  -- No group, no delivery to wait for.
  unfoldable pub scan_group : ℕ → Server K → Option (Option ℕ) → Result ScanError (List K)
  unfolding scan_from pending_keys
  scan_group fuel server none = err redis_failed
  scan_group fuel server (some none) = ok []
  scan_group fuel server (some (some last)) =
      with_pending server (scan_from fuel server last) server.pending

  -- PendingJobKeys.
  unfoldable pub pending_job_keys : ℕ → Server K → Result ScanError (List K)
  unfolding scan_group
  pending_job_keys fuel server = scan_group fuel server server.last_delivered

-- ===== src/Queue/Scan/Complete.antt =====
-- PendingJobKeys of internal/queue/streams.go against the whole stream.
use lybrix.Base.{
  ℕ, suc, ◌≤◌, ◌<◌, ◌≡◌, refl, ap, ◌∙◌, inl, inr, false, some, List, [], ◌∷◌, ◌++◌, ltb, length,
  filter_if, arith, Bool-cases, append-nil,
}
use lybrix.Base.Results.{Result, ok}
use lybrix.Queue.Scan.{
  Item, Server, ScanError, scan_page_keys, keys_of, last_id, after_page, scan_from, pending_keys,
  with_pending, scan_group, pending_job_keys,
}

module _ {K : Type 0} where
  -- Ids that grow from entry to entry.
  abbrev pub Ascends : ℕ → List (Item K) → Type 0
  Ascends lo [] = Unit
  Ascends lo (x ∷ xs) = (lo < x.id) × Ascends x.id xs

  abbrev pub after : ℕ → List (Item K) → List (Item K)
  after id = filter_if (λ (x : Item K). ltb id x.id)

  last_id-le : (lo : ℕ) (xs : List (Item K)) → Ascends lo xs → lo ≤ last_id lo xs
  unfolding last_id
  last_id-le lo [] a = omega arith
  last_id-le lo (x ∷ xs) (low, a) = omega (arith, low, last_id-le x.id xs a)

  -- Nothing stands behind the last entry.
  after-last :
      (lo id : ℕ) (xs : List (Item K)) → Ascends lo xs → last_id lo xs ≤ id → after id xs ≡ []
  unfolding last_id
  after-last lo id [] a h = refl
  after-last lo id (x ∷ xs) (low, a) h =
      let passed : ltb id x.id ≡ false = ground (arith, h, last_id-le x.id xs a) in
      rw passed (after-last x.id id xs a h)

  last_id-after :
      (lo id d : ℕ) (xs : List (Item K))
      → Ascends lo xs
      → lo ≤ d
      → id ≤ d
      → last_id lo xs ≤ last_id d (after id xs)
  unfolding last_id
  last_id-after lo id d [] a h k = h
  last_id-after lo id d (x ∷ xs) (low, a) h k = elim (Bool-cases (ltb id x.id)) [
    | inl behind ↦
        rw behind (last_id-after x.id id x.id xs a (omega arith) (ground (arith, behind)))
    | inr passed ↦ rw passed (last_id-after x.id id d xs a (ground (arith, passed, k)) k)
  ]

  pub after-last_id :
      (cursor : ℕ) (entries : List (Item K))
      → Ascends 0 entries
      → after (last_id cursor (after cursor entries)) entries ≡ []
  after-last_id cursor entries a =
      after-last 0 (last_id cursor (after cursor entries)) entries a
        (last_id-after 0 cursor cursor entries a (omega arith) (omega arith))

  scan_from-all :
      (fuel : ℕ) (server : Server K) (entries : List (Item K)) (cursor : ℕ)
      → Ascends 0 entries
      → ((id : ℕ) → server.range_after id ≡ some (after id entries))
      → scan_from (suc (suc fuel)) server cursor ≡ ok (keys_of (after cursor entries))
  unfolding scan_from
  scan_from-all fuel server entries cursor a answers =
      let page = after cursor entries in
      let last = last_id cursor page in
      rw (answers cursor, scan_from)
        (second page (scan_from (suc fuel) server last)
          (rw (answers last, after-last_id cursor entries a, scan_from) refl))
    where
      second :
          (page : List (Item K)) (rest : Result ScanError (List K))
          → rest ≡ ok []
          → after_page page rest ≡ ok (keys_of page)
      second [] rest h = refl
      second (x ∷ page) rest h = elim (Bool-cases (ltb (length (x ∷ page)) scan_page_keys)) [
        | inl short ↦ rw short refl
        | inr full ↦ rw (full, h) (ap ok (append-nil (keys_of (x ∷ page))))
      ]

  -- If XRANGE returns the entries after an id, whose ids grow, and the other calls succeed, the scan
  -- ends in its second round at the latest, and finds the keys of every undelivered entry and then
  -- those of the pending entries that it is given.
  pub pending_job_keys-all :
      (fuel : ℕ) (server : Server K) (entries : List (Item K)) (last : ℕ) (ids : List ℕ)
      → server.last_delivered ≡ some (some last)
      → Ascends 0 entries
      → ((id : ℕ) → server.range_after id ≡ some (after id entries))
      → server.pending ≡ some ids
      → pending_job_keys (suc (suc fuel)) server
        ≡ ok (keys_of (after last entries) ++ pending_keys server ids)
  unfolding pending_job_keys
  pending_job_keys-all fuel server entries last ids group a answers given =
      ap (scan_group (suc (suc fuel)) server) group
      ∙ (ap (λ keys. with_pending server keys server.pending)
            (scan_from-all fuel server entries last a answers)
          ∙ ap (with_pending server (ok (keys_of (after last entries)))) given)

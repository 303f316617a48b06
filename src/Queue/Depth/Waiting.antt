-- ===== src/Queue/Depth/Waiting.antt =====
-- QueueDepth of internal/queue/streams.go against the whole stream.
use lybrix.Base.{
  ℕ, suc, ◌+◌, ◌≡◌, refl, ap, inl, inr, Option, none, some, List, ltb, length, arith, Bool-cases,
}
use lybrix.Base.Results.{Result, ok}
use lybrix.Queue.Scan.{Item, ScanError, last_id}
use lybrix.Queue.Scan.Complete.{Ascends, after, after-last_id}
use lybrix.Queue.Depth.{
  Group, groups, after_tail, scan_undelivered_tail, group_lag, pending_count, queue_depth,
}

-- A lag, where Redis gives one, is the number of the entries behind the last delivered id.
abbrev pub LagIs : ℕ → Option ℕ → Type 0
LagIs n none = Unit
LagIs n (some lag) = lag ≡ n

module _ {K : Type 0} where
  tail-waiting :
      (fuel : ℕ) (range_after : ℕ → Option (List (Item K))) (entries : List (Item K)) (cursor : ℕ)
      → Ascends 0 entries
      → ((id : ℕ) → range_after id ≡ some (after id entries))
      → scan_undelivered_tail (suc (suc fuel)) range_after cursor
        ≡ ok (length (after cursor entries))
  unfolding scan_undelivered_tail
  tail-waiting fuel range_after entries cursor a answers =
      let page = after cursor entries in
      let last = last_id cursor page in
      rw (answers cursor, scan_undelivered_tail)
        (second page (scan_undelivered_tail (suc fuel) range_after last)
          (rw (answers last, after-last_id cursor entries a, scan_undelivered_tail) refl))
    where
      second :
          (page : List (Item K)) (rest : Result ScanError ℕ)
          → rest ≡ ok 0
          → after_tail page rest ≡ ok (length page)
      second page rest h = elim (Bool-cases (ltb (length page) 500)) [
        | inl short ↦ rw short refl
        | inr full ↦ rw (full, h) (ap ok (omega arith))
      ]

  group_lag-waiting :
      (fuel : ℕ) (range_after : ℕ → Option (List (Item K))) (entries : List (Item K)) (last : ℕ)
      (lag : Option ℕ)
      → Ascends 0 entries
      → ((id : ℕ) → range_after id ≡ some (after id entries))
      → LagIs (length (after last entries)) lag
      → group_lag (suc (suc fuel)) range_after last lag ≡ ok (length (after last entries))
  group_lag-waiting fuel range_after entries last none a answers known =
      tail-waiting fuel range_after entries last a answers
  group_lag-waiting fuel range_after entries last (some lag) a answers known = ap ok known

  -- If XRANGE returns the entries after an id, whose ids grow, and the lag, where Redis gives one, is
  -- the number of the entries behind the last delivered one, then the depth is the number of these
  -- entries and of those that XPENDING counts, none where it fails, with a lag or without.
  pub queue_depth-waiting :
      (fuel : ℕ) (range_after : ℕ → Option (List (Item K))) (entries : List (Item K)) (g : Group)
      (pending : Option ℕ)
      → Ascends 0 entries
      → ((id : ℕ) → range_after id ≡ some (after id entries))
      → LagIs (length (after g.last_delivered entries)) g.lag
      → queue_depth (suc (suc fuel)) range_after (groups (some g)) pending
        ≡ ok (length (after g.last_delivered entries) + pending_count pending)
  unfolding queue_depth
  queue_depth-waiting fuel range_after entries g pending a answers known =
      rw (group_lag-waiting fuel range_after entries g.last_delivered g.lag a answers known) refl

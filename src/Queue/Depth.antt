-- ===== src/Queue/Depth.antt =====
-- QueueDepth, UndeliveredCount and scanUndeliveredTail of internal/queue/streams.go. What Redis
-- answers is a parameter; the loop is on fuel, as in Queue/Scan.antt.
pub mod Waiting
use lybrix.Base.{ℕ, zero, suc, ◌+◌, Option, none, some, List, ltb, if◌then◌else◌, length}
use lybrix.Base.Results.{Result, ok, err, ◌>>=◌}
use lybrix.Queue.Scan.{Item, ScanError, redis_failed, scan_out_of_fuel, last_id}

-- A consumer group: no lag where Redis does not know it, and the last delivered id, where the empty
-- text and "0-0" are both 0.
pub record Group : Type 0 where
  pub lag : Option ℕ
  pub last_delivered : ℕ

-- What XINFO GROUPS answers: an error for a stream that does not exist, another error, or the groups,
-- among which there may be the one of the workers.
pub data Groups : Type 0 where
  no_such_key groups_failed : Groups
  groups : Option Group → Groups

abbrev pub pending_count : Option ℕ → ℕ
pending_count none = 0
pending_count (some n) = n

module _ {K : Type 0} where
  abbrev after_tail : List (Item K) → Result ScanError ℕ → Result ScanError ℕ
  after_tail page rest =
      if ltb (length page) 500 then ok (length page) else do total ← rest; ok (length page + total)

  -- scanUndeliveredTail.
  unfoldable pub scan_undelivered_tail : ℕ → (ℕ → Option (List (Item K))) → ℕ → Result ScanError ℕ
  unfolding last_id
  scan_undelivered_tail zero range_after cursor = err scan_out_of_fuel
  scan_undelivered_tail (suc fuel) range_after cursor = elim (range_after cursor) [
    | none ↦ err redis_failed
    | some page ↦ after_tail page (scan_undelivered_tail fuel range_after (last_id cursor page))
  ]

  abbrev group_lag : ℕ → (ℕ → Option (List (Item K))) → ℕ → Option ℕ → Result ScanError ℕ
  group_lag fuel range_after last (some lag) = ok lag
  group_lag fuel range_after last none = scan_undelivered_tail fuel range_after last

  -- UndeliveredCount.
  unfoldable pub undelivered_count : ℕ → (ℕ → Option (List (Item K))) → Groups → Result ScanError ℕ
  unfolding scan_undelivered_tail
  undelivered_count fuel range_after no_such_key = ok 0
  undelivered_count fuel range_after groups_failed = err redis_failed
  undelivered_count fuel range_after (groups none) = ok 0
  undelivered_count fuel range_after (groups (some g)) =
      group_lag fuel range_after g.last_delivered g.lag

  -- QueueDepth: a failed XPENDING counts as nothing pending.
  unfoldable pub queue_depth :
      ℕ → (ℕ → Option (List (Item K))) → Groups → Option ℕ → Result ScanError ℕ
  unfolding undelivered_count
  queue_depth fuel range_after answer pending = do
    undelivered ← undelivered_count fuel range_after answer
    ok (undelivered + pending_count pending)

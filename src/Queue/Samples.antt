-- ===== src/Queue/Samples.antt =====
-- A stream of three entries, of which one is delivered and pending, and the scan of it.
use lybrix.Base.{
  ℕ, ◌≡◌, refl, none, some, List, [], ◌∷◌, ◌++◌, arith, ◌==◌, ◌+◌, length, if◌then◌else◌,
}
use lybrix.Base.Results.{ok, err}
use lybrix.Queue.Scan.{Item, Server, redis_failed, keys_of, pending_keys, pending_job_keys}
use lybrix.Queue.Scan.Complete.{after, pending_job_keys-all}
use lybrix.Queue.Depth.{Group, groups, groups_failed, queue_depth}
use lybrix.Queue.Depth.Waiting.{queue_depth-waiting}

abbrev entries : List (Item ℕ)
entries =
    record { id = 1; key = some 7 }
    ∷ record { id = 2; key = none }
    ∷ record { id = 3; key = some 9 }
    ∷ []

abbrev server : Server ℕ
server = record {
  last_delivered = some (some 1);
  range_after = λ id. some (after id entries);
  pending = some (1 ∷ []);
  entry = λ id. if id == 1 then some (record { id = 1; key = some 7 } ∷ []) else some [];
}

found : pending_job_keys 2 server ≡ ok (9 ∷ 7 ∷ [])
unfolding pending_job_keys
found = refl

pending_job_keys-all_example :
    pending_job_keys 2 server ≡ ok (keys_of (after 1 entries) ++ pending_keys server (1 ∷ []))
pending_job_keys-all_example =
    pending_job_keys-all 0 server entries 1 (1 ∷ []) refl
      (omega arith, (omega arith, (omega arith, tt))) (λ id. refl) refl

-- A group whose lag Redis does not know.
abbrev no_lag : Group
no_lag = record { lag = none; last_delivered = 1 }

depth : queue_depth 2 server.range_after (groups (some no_lag)) (some 1) ≡ ok 3
unfolding queue_depth
depth = refl

depth_unknown : queue_depth 2 server.range_after groups_failed (some 1) ≡ err redis_failed
unfolding queue_depth
depth_unknown = refl

queue_depth-waiting_example :
    queue_depth 2 server.range_after (groups (some no_lag)) (some 1)
    ≡ ok (length (after 1 entries) + 1)
queue_depth-waiting_example =
    queue_depth-waiting 0 server.range_after entries no_lag (some 1)
      (omega arith, (omega arith, (omega arith, tt))) (λ id. refl) tt

-- ===== src/Store/Retry/Samples.antt =====
-- A deadlock that a second run heals, and the theorems at it.
use lybrix.Base.{ℕ, zero, suc, ◌≡◌, refl, Option, none, some, [], ◌∷◌, ltb, if◌then◌else◌}
use lybrix.Store.Retry.{TxError, tx_with_retry_loop}
use lybrix.Store.Retry.Bounds.{Bounded, tx_with_retry_loop-Bounded}

abbrev deadlock_once : ℕ → Option TxError
deadlock_once zero = some (record { code = some "40P01" })
deadlock_once (suc n) = none

healed : tx_with_retry_loop 3 deadlock_once ≡ record { error = none; runs = 2; pauses = 1 ∷ [] }
unfolding tx_with_retry_loop
healed = refl

tx_with_retry_loop-Bounded_example :
    Bounded deadlock_once 0 (if ltb 3 1 then 1 else 3) (tx_with_retry_loop 3 deadlock_once)
tx_with_retry_loop-Bounded_example = tx_with_retry_loop-Bounded 3 deadlock_once

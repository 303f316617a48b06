-- ===== src/Store/Retry.antt =====
-- internal/store/db.go and internal/store/pgerr.go: the retry loop around a transaction, and its
-- pauses. A transaction is a parameter: the outcome of its n-th run.
pub mod Bounds
mod Samples
use Prim.Native.String.{String}
use text.Mathlib.Text.{◌==◌ as str_eq}
use lybrix.Base.{
  ℕ, zero, suc, ◌+◌, ◌-◌, ◌*◌, ◌/◌, ◌^◌, ◌≤◌, ◌<◌, ◌≡◌, refl, ◌⊎◌, ap, sym, ◌∙◌, inl, inr, Bool,
  true, false, not, ◌&&◌, ◌||◌, Option, none, some, List, [], ◌∷◌, ◌++◌, arith, ltb, leb,
  if◌then◌else◌, min, Bool-cases, Option-cases, length,
}

-- An error of a run: the SQLSTATE of a Postgres error, or none for any other error.
pub record TxError : Type 0 where
  pub code : Option String

-- IsTransientPGError: a deadlock, a serialization failure or a lock that was not won in time.
abbrev pub is_transient_code : Option String → Bool
is_transient_code none = false
is_transient_code (some code) = str_eq code "40P01" || str_eq code "40001" || str_eq code "55P03"

abbrev pub is_transient : TxError → Bool
is_transient e = is_transient_code e.code

-- How a run of the loop ends: the error it returns, and how often the transaction was run and the
-- loop has slept, with the attempts that each pause was computed from.
pub record Retried : Type 0 where
  pub error : Option TxError
  pub runs : ℕ
  pub pauses : List ℕ

abbrev pub add_run : Retried → Retried
add_run r = record r { runs = r.runs + 1 }

abbrev pub add_pause : ℕ → Retried → Retried
add_pause attempt r = record r { runs = r.runs + 1; pauses = attempt ∷ r.pauses }

abbrev pub ended : Option TxError → Retried
ended e = record { error = e; runs = 1; pauses = [] }

-- The loop from `attempt` on, with `left` attempts left; `rest` is what the next rounds do.
abbrev pub after_error : ℕ → ℕ → TxError → Retried → Retried
after_error attempt left e rest =
    if is_transient e
    then (if ltb 0 left then add_pause (attempt + 1) rest else ended (some e))
    else ended (some e)

abbrev pub after_run : ℕ → ℕ → Option TxError → Retried → Retried
after_run attempt left none rest = ended none
after_run attempt left (some e) rest = after_error attempt left e rest

unfoldable pub retry_from : (ℕ → Option TxError) → ℕ → ℕ → Retried
retry_from tx attempt zero = record { error = none; runs = 0; pauses = [] }
retry_from tx attempt (suc left) =
    let rest = retry_from tx (attempt + 1) left in after_run attempt left (tx attempt) rest

-- txWithRetryLoop.
unfoldable pub tx_with_retry_loop : ℕ → (ℕ → Option TxError) → Retried
unfolding retry_from
tx_with_retry_loop attempts tx = retry_from tx 0 (if ltb attempts 1 then 1 else attempts)

-- The doubling of retryBackoff: `base *= 2`, cut off at the cap, in nanoseconds.
unfoldable pub doubled : ℕ → ℕ → ℕ
doubled zero base = base
doubled (suc n) base =
    let rest = doubled n (base * 2) in if ltb 2000000000 (base * 2) then 2000000000 else rest

-- retryBackoff, with the random draw `r` of 0 to 50 as a parameter: `base + base * (r - 25) / 100`,
-- where Go's division rounds towards zero, and the two clamps.
abbrev pub jittered : ℕ → ℕ → ℕ
jittered base r = if leb 25 r then base + base * (r - 25) / 100 else base - base * (25 - r) / 100

unfoldable pub retry_backoff : ℕ → ℕ → ℕ
unfolding doubled
retry_backoff attempt r = min (jittered (doubled (attempt - 1) 50000000) r) 4000000000

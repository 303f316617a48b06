-- ===== src/Store/Retry/Bounds.antt =====
-- How often the retry loop runs its transaction, and how long it pauses.
use native.Mathlib.Nat.{mul-le-mul_left}
use lybrix.Base.{
  ℕ, zero, suc, ◌+◌, ◌-◌, ◌*◌, ◌≤◌, ◌<◌, ◌≡◌, refl, ◌⊎◌, ap, sym, ◌∙◌, inl, inr, Bool, true, false,
  Option, none, some, arith, ltb, if◌then◌else◌, min, Bool-cases, Option-cases, length,
}
use lybrix.Store.Retry.{
  TxError, is_transient, Retried, ended, add_pause, retry_from, tx_with_retry_loop, doubled,
  jittered, retry_backoff,
}

abbrev pub transient_error : Option TxError → Bool
transient_error none = false
transient_error (some e) = is_transient e

-- How the loop from run number `attempt` on uses its `left` attempts.
pub record Bounded (tx : ℕ → Option TxError) (attempt left : ℕ) (r : Retried) : Type 0 where
  pub ran : 1 ≤ r.runs
  pub at_most : r.runs ≤ left
  pub slept : length r.pauses + 1 ≡ r.runs
  pub last : r.error ≡ tx (attempt + r.runs - 1)
  pub used : (r.runs ≡ left) ⊎ (transient_error r.error ≡ false)
  pub earlier : (n : ℕ) → n + 1 < r.runs → transient_error (tx (attempt + n)) ≡ true

ended-Bounded :
    (tx : ℕ → Option TxError) (attempt left : ℕ) (e : Option TxError)
    → tx attempt ≡ e
    → (left ≡ 0) ⊎ (transient_error e ≡ false)
    → Bounded tx attempt (suc left) (ended e)
ended-Bounded tx attempt left e now h = record {
  ran = omega arith;
  at_most = omega arith;
  slept = refl;
  last = sym now ∙ ap tx (omega arith);
  used = elim h [ inl out ↦ inl (omega (arith, out)) | inr hard ↦ inr hard ];
  earlier = λ n before. absurd (omega (arith, before));
}

paused-Bounded :
    (tx : ℕ → Option TxError) (attempt left : ℕ) (r : Retried)
    → transient_error (tx attempt) ≡ true
    → Bounded tx (attempt + 1) (suc left) r
    → Bounded tx attempt (suc (suc left)) (add_pause (attempt + 1) r)
paused-Bounded tx attempt left r soft next = record {
  ran = omega (arith, next.ran);
  at_most = omega (arith, next.at_most);
  slept = omega (arith, next.slept);
  last = next.last ∙ ap tx (omega (arith, next.ran));
  used = elim next.used [ inl out ↦ inl (omega (arith, out)) | inr hard ↦ inr hard ];
  earlier = before_last;
}
  where
    before_last : (n : ℕ) → n + 1 < r.runs + 1 → transient_error (tx (attempt + n)) ≡ true
    before_last zero h = ap (λ k. transient_error (tx k)) (omega arith) ∙ soft
    before_last (suc n) h =
        ap (λ k. transient_error (tx k)) (omega arith) ∙ next.earlier n (omega (arith, h))

retry_from-Bounded :
    (tx : ℕ → Option TxError) (attempt left : ℕ)
    → Bounded tx attempt (suc left) (retry_from tx attempt (suc left))
unfolding retry_from
retry_from-Bounded tx attempt zero = elim (Option-cases (tx attempt)) [
  | inl good ↦ rw good (ended-Bounded tx attempt zero none good (inl refl))
  | inr (e, bad) ↦ rw bad (elim (Bool-cases (is_transient e)) [
    | inl soft ↦ rw soft (ended-Bounded tx attempt zero (some e) bad (inl refl))
    | inr hard ↦ rw hard (ended-Bounded tx attempt zero (some e) bad (inl refl))
  ])
]
retry_from-Bounded tx attempt (suc left) = elim (Option-cases (tx attempt)) [
  | inl good ↦ rw good (ended-Bounded tx attempt (suc left) none good (inr refl))
  | inr (e, bad) ↦ elim (Bool-cases (is_transient e)) [
    | inl soft ↦
        let more : ltb 0 (suc left) ≡ true = ground arith in
        rw (bad, soft, more)
          (paused-Bounded tx attempt left (retry_from tx (attempt + 1) (suc left)) (rw bad soft)
            (retry_from-Bounded tx (attempt + 1) left))
    | inr hard ↦ rw (bad, hard) (ended-Bounded tx attempt (suc left) (some e) bad (inr hard))
  ]
]

-- The transaction is run at least once and at most `attempts` times (once, if `attempts` is 0), and
-- the loop sleeps once between two runs. Every run but the last ended in a transient error, so none
-- follows a success or another error. What the loop returns is what the last run returned, as it is,
-- and that is a transient error only if all the attempts are used up.
pub tx_with_retry_loop-Bounded :
    (attempts : ℕ) (tx : ℕ → Option TxError)
    → Bounded tx 0 (if ltb attempts 1 then 1 else attempts) (tx_with_retry_loop attempts tx)
unfolding tx_with_retry_loop
tx_with_retry_loop-Bounded zero tx = retry_from-Bounded tx 0 0
tx_with_retry_loop-Bounded (suc n) tx =
    let some_left : ltb (suc n) 1 ≡ false = ground arith in rw some_left (retry_from-Bounded tx 0 n)

doubled_range :
    (n base : ℕ) → base ≤ 2000000000 → (base ≤ doubled n base) × (doubled n base ≤ 2000000000)
unfolding doubled
doubled_range zero base h = (omega arith, h)
doubled_range (suc n) base h = ground (arith, doubled_range n (base * 2))

-- Every pause lasts between 37.5 and 2500 milliseconds, for any random draw from 0 to 50, so the
-- code's clamps of the result never act.
pub retry_backoff_range :
    (attempt r : ℕ)
    → r ≤ 50
    → (37500000 ≤ retry_backoff attempt r) × (retry_backoff attempt r ≤ 2500000000)
unfolding retry_backoff
retry_backoff_range attempt r h =
    jittered_range (doubled (attempt - 1) 50000000) r h
      (doubled_range (attempt - 1) 50000000 (omega arith))
  where
    jittered_range :
        (base r : ℕ)
        → r ≤ 50
        → (50000000 ≤ base) × (base ≤ 2000000000)
        → (37500000 ≤ min (jittered base r) 4000000000)
          × (min (jittered base r) 4000000000 ≤ 2500000000)
    jittered_range base r h (low, high) = ground (arith, more, less)
      where
        more : base * (r - 25) ≤ base * 25
        more = mul-le-mul_left base (omega arith)

        less : base * (25 - r) ≤ base * 25
        less = mul-le-mul_left base (omega arith)

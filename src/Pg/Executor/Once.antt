-- ===== src/Pg/Executor/Once.antt =====
-- What the one retry is safe for.
use workers_auth.Prelude.{◌≡◌, String, false, Option, inl, inr, Bool-cases}
use workers_auth.Pg.Executor.{Outcome, ok, err, is_retryable, retry_once}

-- How one run of a transaction ends: committed and answered, rolled back, or committed with the
-- answer lost on the way.
pub data Attempt : Type 0 where
  committed : Attempt
  rolled_back lost : (sqlstate : Option String) → Attempt

-- Postgres reports the two retryable states only after it has rolled back.
abbrev pub IsReported : Attempt → Type 0
IsReported committed = Unit
IsReported (rolled_back sqlstate) = Unit
IsReported (lost sqlstate) = is_retryable sqlstate ≡ false

module _ {S A : Type 0} (step : S → A × S) where
  unfoldable pub run_attempt : Attempt → S → Outcome A × S
  run_attempt committed s = (ok (step s).0, (step s).1)
  run_attempt (rolled_back sqlstate) s = (err sqlstate, s)
  run_attempt (lost sqlstate) s = (err sqlstate, (step s).1)

  -- The call took effect once and answered, or took effect at most once and reported an error.
  pub data Settled (s : S) : Outcome A × S → Type 0 where
    answered : Settled s (ok (step s).0, (step s).1)
    refused : (sqlstate : Option String) → Settled s (err sqlstate, s)
    unknown : (sqlstate : Option String) → Settled s (err sqlstate, (step s).1)

  run_attempt-Settled : (attempt : Attempt) (s : S) → Settled s (run_attempt attempt s)
  unfolding run_attempt
  run_attempt-Settled committed s = answered
  run_attempt-Settled (rolled_back sqlstate) s = refused sqlstate
  run_attempt-Settled (lost sqlstate) s = unknown sqlstate

  -- A call with its one retry takes effect once where it answers, and at most once where it reports
  -- an error, whatever happens to either run, given that a retryable state means a rollback.
  pub retry_once-Settled :
      (first second : Attempt) (s : S)
      → IsReported first
      → Settled s (retry_once (run_attempt first) (run_attempt second) s)
  unfolding retry_once run_attempt
  retry_once-Settled committed second s h = answered
  retry_once-Settled (rolled_back sqlstate) second s h = elim (Bool-cases (is_retryable sqlstate)) [
    | inl e ↦ rw e (run_attempt-Settled second s)
    | inr e ↦ rw e (refused sqlstate)
  ]
  retry_once-Settled (lost sqlstate) second s h = rw h (unknown sqlstate)

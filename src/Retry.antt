-- ===== src/Retry.antt =====
-- `retry_async` of backend/app/utils/retry.py. The `while True` runs on fuel: the number of attempts
-- is enough, and the last clause of the loop is never reached (`Retry/Attempts.antt`). Delays are in
-- milliseconds.
pub mod Attempts
pub mod Kept
pub mod Returned
use ims_prakash.Base.{ℕ, zero, suc, ◌+◌, ◌*◌, leb, if◌then◌else◌}
use ims_prakash.Errors.{Error, Result, ok, err, runtime_error}
use ims_prakash.Effects.{Action, ◌>>=◌, ◌>>◌, raise, catch}
use ims_prakash.Services.{Services}
use ims_prakash.World.{World, Effect, retry_attempt, retry_failed, slept, emit}

module _ {s : Services} {A : Type 0} where
  -- The `except` branch of one round: `again` is the next round.
  unfoldable pub after_failure : ℕ → ℕ → ℕ → Error → Action (World s) A → Action (World s) A
  after_failure attempt retries delay e again = do
    emit (retry_attempt attempt e)
    if leb retries attempt
        then (do emit (retry_failed e); raise e)
        else (do emit (slept delay); again)

  unfoldable pub retry_loop : ℕ → ℕ → ℕ → ℕ → ℕ → Action (World s) A → Action (World s) A
  retry_loop zero attempt retries delay backoff fn = raise runtime_error
  retry_loop (suc fuel) attempt retries delay backoff fn =
      let again = retry_loop fuel (attempt + 1) retries (delay * backoff) backoff fn in
      catch fn (λ e. after_failure (attempt + 1) retries delay e again)

  unfoldable pub retry_with : ℕ → ℕ → ℕ → Action (World s) A → Action (World s) A
  retry_with retries delay backoff fn = retry_loop (suc retries) 0 retries delay backoff fn

  -- `retry_async(fn, …)` with the defaults, which every call of the backend takes.
  unfoldable pub retry_async : Action (World s) A → Action (World s) A
  unfolding retry_with
  retry_async fn = retry_with 3 100 2 fn

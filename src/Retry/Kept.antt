-- ===== src/Retry/Kept.antt =====
-- What `retry_async` of backend/app/utils/retry.py keeps.
use ims_prakash.Base.{ℕ, zero, suc, ◌+◌, ◌*◌, leb}
use ims_prakash.Errors.{Error}
use ims_prakash.Effects.{Action}
use ims_prakash.Effects.Ensures.{Keeps, Ensures-if, Ensures-catch, Keeps-bind, Keeps-raise}
use ims_prakash.Services.{Services}
use ims_prakash.World.{World}
use ims_prakash.World.Frame.{IsAside, Keeps-emit}
use ims_prakash.Retry.{after_failure, retry_loop, retry_async}

module _ {s : Services} {P : World s → Type 0} (aside : IsAside {s = s} P) {A : Type 0} where
  after_failure-Keeps :
      (attempt retries delay : ℕ) (e : Error) (again : Action (World s) A)
      → Keeps P again
      → Keeps P (after_failure attempt retries delay e again)
  unfolding after_failure
  after_failure-Keeps attempt retries delay e again k = Keeps-bind (Keeps-emit aside _) (λ u.
      Ensures-if (leb retries attempt) (Keeps-bind (Keeps-emit aside _) (λ v. Keeps-raise e))
        (Keeps-bind (Keeps-emit aside _) (λ v. k)))

  retry_loop-Keeps :
      (fn : Action (World s) A)
      → Keeps P fn
      → (fuel attempt retries delay backoff : ℕ)
      → Keeps P (retry_loop fuel attempt retries delay backoff fn)
  unfolding retry_loop
  retry_loop-Keeps fn k zero attempt retries delay backoff = Keeps-raise _
  retry_loop-Keeps fn k (suc fuel) attempt retries delay backoff =
      let again = retry_loop-Keeps fn k fuel (attempt + 1) retries (delay * backoff) backoff in
      Ensures-catch k (λ e. after_failure-Keeps (attempt + 1) retries delay e _ again)

  pub retry_async-Keeps : (fn : Action (World s) A) → Keeps P fn → Keeps P (retry_async fn)
  unfolding retry_async
  retry_async-Keeps fn k = retry_loop-Keeps fn k 4 0 3 100 2

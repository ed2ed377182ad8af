-- ===== src/Retry/Returned.antt =====
-- What `retry_async` (backend/app/utils/retry.py) leaves where it returns.
use ims_prakash.Base.{ℕ, zero, suc, ◌+◌, ◌*◌, ◌≡◌, inl, inr, leb, Bool-cases}
use ims_prakash.Errors.{ok}
use ims_prakash.Effects.{Action, Outcome-cases, ◌>>=◌, catch, raise}
use ims_prakash.Services.{Services}
use ims_prakash.World.{World, emit}
use ims_prakash.Retry.{after_failure, retry_loop, retry_async}

module _ {s : Services} {A : Type 0} (fn : Action (World s) A) (a : A) (v : World s) where
  -- Some call returned this, and left this state.
  abbrev pub LastCall : Type 0
  LastCall = (u : World s) × (fn u ≡ (ok a, v))

  loop_returned :
      (f attempt retries delay backoff : ℕ) (w : World s)
      → retry_loop f attempt retries delay backoff fn w ≡ (ok a, v)
      → LastCall
  unfolding retry_loop after_failure ◌>>=◌ catch emit raise
  loop_returned zero attempt retries delay backoff w h = cc
  loop_returned (suc f) attempt retries delay backoff w h = elim (Outcome-cases (fn w)) [
    | inl (b, x, e) ↦ (w, cc (e, rw e at h))
    | inr (x, t, e) ↦ elim (Bool-cases (leb retries (attempt + 1))) [
      | inl last ↦ cc (rw (e, last) at h)
      | inr more ↦
          loop_returned f (attempt + 1) retries (delay * backoff) backoff _ (rw (e, more) at h)
    ]
  ]

  -- Where `retry_async` returns, its last call returned the same and left the same state.
  pub retry_async_returned : (w : World s) → retry_async fn w ≡ (ok a, v) → LastCall
  unfolding retry_async
  retry_async_returned w h = loop_returned 4 0 3 100 2 w h

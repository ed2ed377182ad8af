-- ===== src/Workers/Quiet.antt =====
-- Which calls of backend/app/workers.py leave the queue and the counters alone.
use ims_prakash.Base.{ℕ, zero, suc, ◌+◌, ◌*◌, Option, none, some}
use ims_prakash.Base.Int.{ℤ}
use ims_prakash.Text.{Text}
use ims_prakash.Errors.{Error}
use ims_prakash.Effects.{Action}
use ims_prakash.Config.{Settings}
use ims_prakash.Models.{SignalIn}
use ims_prakash.Ingestion.{IngestQueueState}
use ims_prakash.Services.{Services}
use ims_prakash.World.Quiet.{
  IsQuiet-bind, IsQuiet-catch, IsQuiet-raise, IsQuiet-emit, IsQuiet-clock_now, IsQuiet-on_redis,
  IsQuiet-on_mongo, IsQuiet-on_db, IsQuiet, quiet_rules,
}
use ims_prakash.World.{World, backfill_failed}
use ims_prakash.Retry.{after_failure, retry_loop, retry_async}
use ims_prakash.Workers.{open_incident, attach, find_incident, link_signal, publish}

module _ {s : Services} where
  after_failure-IsQuiet :
      {A : Type 0} (attempt retries delay : ℕ) (e : Error) (again : Action (World s) A)
      → IsQuiet again
      → IsQuiet (after_failure attempt retries delay e again)
  unfolding after_failure
  after_failure-IsQuiet attempt retries delay e again q = search quiet_rules

  retry_loop-IsQuiet :
      {A : Type 0} (fn : Action (World s) A)
      → IsQuiet fn
      → (fuel attempt retries delay backoff : ℕ)
      → IsQuiet (retry_loop fuel attempt retries delay backoff fn)
  unfolding retry_loop
  retry_loop-IsQuiet fn q zero attempt retries delay backoff = IsQuiet-raise _
  retry_loop-IsQuiet fn q (suc fuel) attempt retries delay backoff =
      let again = retry_loop-IsQuiet fn q fuel (attempt + 1) retries (delay * backoff) backoff in
      IsQuiet-catch q (λ e. after_failure-IsQuiet (attempt + 1) retries delay e _ again)

  pub retry_async-IsQuiet :
      {A : Type 0} (fn : Action (World s) A) → IsQuiet fn → IsQuiet (retry_async fn)
  unfolding retry_async
  retry_async-IsQuiet fn q = retry_loop-IsQuiet fn q 4 0 3 100 2

module _ (s : Services) (c : Settings) (sig : SignalIn) where
  pub open_incident-IsQuiet : IsQuiet (open_incident s c sig)
  unfolding open_incident
  open_incident-IsQuiet = search (quiet_rules, retry_async-IsQuiet) depth 12

  attach-IsQuiet : (o : Option ℤ) → IsQuiet (attach s c sig o)
  unfolding attach
  attach-IsQuiet none = search (quiet_rules, retry_async-IsQuiet) depth 12
  attach-IsQuiet (some z) = search (quiet_rules, retry_async-IsQuiet) depth 12

  pub find_incident-IsQuiet : IsQuiet (find_incident s c sig)
  unfolding find_incident
  find_incident-IsQuiet = IsQuiet-bind (IsQuiet-on_redis _) attach-IsQuiet

  pub link_signal-IsQuiet : (id : Text) (o : Option ℤ) → IsQuiet (link_signal s c sig id o)
  unfolding link_signal
  link_signal-IsQuiet id none = search quiet_rules
  link_signal-IsQuiet id (some z) =
      IsQuiet-bind (retry_async-IsQuiet _ (IsQuiet-on_db _))
        (λ _. IsQuiet-catch (IsQuiet-on_mongo _) (λ e. IsQuiet-emit (backfill_failed e)))

module _ (s : Services) (c : Settings) where
  pub publish-IsQuiet : (i : IngestQueueState) (a p : ℕ) → IsQuiet (publish s c i a p)
  unfolding publish
  publish-IsQuiet i a p =
      IsQuiet-bind IsQuiet-clock_now (λ now. retry_async-IsQuiet _ (IsQuiet-on_redis _))

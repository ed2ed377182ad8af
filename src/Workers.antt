-- ===== src/Workers.antt =====
-- backend/app/workers.py. One coroutine runs at a time in this model; `Workers/Placeholder.antt` says
-- what a second worker meets between the awaits of the first.
mod Bucket
unfoldable pub use Bucket.{bucket_for}
pub mod Published
pub mod BucketBounds
pub mod Quiet
pub mod Kept
pub mod Gated
pub mod Counters
pub mod Placeholder
pub mod Window
pub mod Tasks
pub mod Windows
use ims_prakash.Base.{
  ℕ, zero, suc, ◌+◌, ◌-◌, ◌*◌, Bool, true, false, Option, none, some, List, [], ◌∷◌, ◌++◌, ◌==◌,
  if◌then◌else◌,
}
use ims_prakash.Base.Int.{ℤ}
use ims_prakash.Text.{Text, codes}
use ims_prakash.Text.Decimal.{str_int}
use ims_prakash.Datetime.{Datetime}
use ims_prakash.Enums.{component_value, severity_value}
use ims_prakash.Errors.{Error, zero_division_error}
use ims_prakash.Effects.{Action, pure, raise, gets, catch, ◌>>=◌, ◌>>◌}
use ims_prakash.Config.{Settings}
use ims_prakash.Models.{SignalIn}
use ims_prakash.Alerting.{AlertContext, alerter_for, dispatch}
use ims_prakash.Ingestion
use ims_prakash.Ingestion.{Queue, IngestQueueState, round_half_even, snapshot}
use ims_prakash.Services.{Services, Document, Clock, Mongo}
use ims_prakash.World.{
  World, alert, process_error, publish_failed, backfill_failed, on_redis, on_mongo, on_db,
  on_ingest, emit, clock_now,
}
use ims_prakash.Retry.{retry_async}
use ims_prakash.Storage.PostgresRepo.{
  create_work_item, increment_signal_count, add_signal_link, upsert_metric_bucket,
}
use ims_prakash.Storage.RedisCache.{
  dedup_key, set_if_absent, set_if_present, plain_set, push_live_feed, get_open_work_item,
  set_metrics, MetricValue, count, fixed, text,
}
use ims_prakash.Storage.MongoStore.{insert_signal}

-- `f"pending:{mongo_id}"`.
abbrev pub placeholder : Text → Text
placeholder mongo_id = codes "pending:" ++ mongo_id

unfoldable pub raw_doc : SignalIn → Datetime → Document
unfolding component_value severity_value
raw_doc sig now = record {
  component_id = sig.component_id;
  component_type = component_value sig.component_type;
  severity = severity_value sig.severity;
  timestamp = sig.timestamp;
  payload = sig.payload;
  ingested_at = now;
  work_item_id = none;
}

unfoldable pub work_item_summary : SignalIn → Text
unfolding component_value severity_value
work_item_summary sig =
    component_value sig.component_type ++ (codes " signal: " ++ severity_value sig.severity)

unfoldable pub alert_context : SignalIn → ℤ → AlertContext
unfolding component_value
alert_context sig work_item_id = record {
  work_item_id = work_item_id;
  component_id = sig.component_id;
  component_type = sig.component_type;
  severity = sig.severity;
  timestamp = sig.timestamp;
  summary = some (codes "new " ++ (component_value sig.component_type ++ codes " incident"));
}

unfoldable pub count_processed : IngestQueueState → IngestQueueState
count_processed st = record st { processed = st.processed + 1 }

unfoldable pub with_queue : (Queue → Queue) → IngestQueueState → IngestQueueState
with_queue f st = record st { queue = f st.queue }

unfoldable pub roll_windows : IngestQueueState → IngestQueueState
roll_windows st = record st {
  last_accepted_window = st.accepted;
  last_processed_window = st.processed;
}

module _ (s : Services) (c : Settings) where
  unfoldable pub new_work_item : SignalIn → Action (World s) ℤ
  unfolding work_item_summary
  new_work_item sig = retry_async (
      on_db (
        create_work_item s.sql sig.component_id sig.component_type sig.severity sig.timestamp
          (some (work_item_summary sig))))

  -- The dispatch only logs, and a log call does not raise here.
  unfoldable pub send_alert : SignalIn → ℤ → Action (World s) (Unit {0})
  unfolding alert_context
  send_alert sig work_item_id =
      emit (alert (dispatch (alerter_for sig.component_type) (alert_context sig work_item_id)))

  -- Step 3a: the worker that won the window creates the work item.
  unfoldable pub open_incident : SignalIn → Action (World s) (Option ℤ)
  unfolding new_work_item send_alert
  open_incident sig = do
    work_item_id ← new_work_item sig
    on_redis (
        s.redis.set (dedup_key sig.component_id) (str_int work_item_id)
          (set_if_present c.dedup_window_seconds))
    retry_async (
        on_redis
          (push_live_feed s.redis work_item_id (severity_value sig.severity) sig.component_id))
    send_alert sig work_item_id
    pure (some work_item_id)

  -- Step 3b, on what the window holds: `existing` is an `int` whenever it is not `None`.
  unfoldable pub attach : SignalIn → Option ℤ → Action (World s) (Option ℤ)
  unfolding new_work_item
  attach sig none = do
    work_item_id ← new_work_item sig
    on_redis (
        s.redis.set (dedup_key sig.component_id) (str_int work_item_id)
          (plain_set c.dedup_window_seconds))
    pure (some work_item_id)
  attach sig (some existing) = do
    retry_async (on_db (increment_signal_count s.sql existing))
    pure (some existing)

  unfoldable pub find_incident : SignalIn → Action (World s) (Option ℤ)
  unfolding attach
  find_incident sig = do
    existing ← on_redis (get_open_work_item s.redis sig.component_id)
    attach sig existing

  -- Step 4, with the backfill of the document, whose failure is only logged.
  unfoldable pub link_signal : SignalIn → Text → Option ℤ → Action (World s) (Unit {0})
  link_signal sig mongo_id none = pure tt
  link_signal sig mongo_id (some work_item_id) = do
    retry_async (
        on_db
          (add_signal_link s.sql work_item_id mongo_id sig.component_id sig.severity sig.timestamp))
    catch (on_mongo (s.mongo.set_work_item_id mongo_id work_item_id))
        (λ e. emit (backfill_failed e))

  unfoldable pub process_one : SignalIn → Action (World s) (Unit {0})
  unfolding raw_doc open_incident find_incident link_signal count_processed
  process_one sig = do
    now ← clock_now
    mongo_id ← retry_async (on_mongo (insert_signal s.mongo (raw_doc sig now)))
    won ← on_redis (
        s.redis.set (dedup_key sig.component_id) (placeholder mongo_id)
          (set_if_absent c.dedup_window_seconds))
    work_item_id ← if won then open_incident sig else find_incident sig
    link_signal sig mongo_id work_item_id
    retry_async (
        on_db (upsert_metric_bucket s.sql (bucket_for sig.timestamp) sig.component_id sig.severity))
    on_ingest count_processed

  -- The body of the `try` of the worker loop with its `except` and its `finally`.
  unfoldable pub handle : SignalIn → Action (World s) (Unit {0})
  unfolding with_queue
  handle sig = do
    catch (process_one sig) (λ e. emit (process_error e))
    on_ingest (with_queue Ingestion.task_done)

  serve_first : Option (SignalIn × Queue) → Action (World s) (Unit {0})
  unfolding handle
  serve_first none = pure tt
  serve_first (some (sig, q)) = do on_ingest (with_queue (λ _. q)); handle sig

  -- One round of `_worker_loop`: where nothing waits, the `get` times out and the loop goes on.
  unfoldable pub worker_round : Action (World s) (Unit {0})
  unfolding serve_first
  worker_round w = serve_first (Ingestion.get w.ingest.queue) w

  -- The rounds until the shutdown.
  unfoldable pub worker_loop : ℕ → Action (World s) (Unit {0})
  worker_loop zero = pure tt
  worker_loop (suc rounds) = do worker_round; worker_loop rounds

  -- A window's signals per second, in hundredths.
  abbrev pub per_sec : ℕ → ℕ
  per_sec window = round_half_even (100 * window) c.throughput_log_interval

  unfoldable pub throughput_metrics : IngestQueueState → ℕ → ℕ → Text → List (Text × MetricValue)
  throughput_metrics st accepted_window processed_window updated_at =
      let snap = snapshot st in
      (codes "signals_in_per_sec", fixed 2 (per_sec accepted_window))
      ∷ (codes "signals_processed_per_sec", fixed 2 (per_sec processed_window))
      ∷ (codes "queue_depth", count snap.queue_depth)
      ∷ (codes "queue_pct_full", fixed 4 snap.queue_pct_full)
      ∷ (codes "dropped_total", count snap.dropped_total)
      ∷ (codes "accepted_total", count snap.accepted_total)
      ∷ (codes "processed_total", count snap.processed_total)
      ∷ (codes "updated_at", text updated_at)
      ∷ []

  unfoldable pub publish : IngestQueueState → ℕ → ℕ → Action (World s) (Unit {0})
  unfolding throughput_metrics
  publish st accepted_window processed_window = do
    now ← clock_now
    retry_async (
        on_redis (
          set_metrics s.redis
            (throughput_metrics st accepted_window processed_window (Clock.isoformat s.clock now))))

  -- One round of `_throughput_loop`, after its wait. The counters only grow, so the differences are
  -- natural numbers. The totals published are those before the wait for Redis. The two divisions by
  -- the interval stand before the `try`.
  unfoldable pub throughput_round : Action (World s) (Unit {0})
  unfolding publish roll_windows
  throughput_round = do
    st ← gets (λ w. w.ingest)
    let accepted_window = st.accepted - st.last_accepted_window
    let processed_window = st.processed - st.last_processed_window
    on_ingest roll_windows
    if c.throughput_log_interval == 0
        then raise zero_division_error
        else catch (publish st accepted_window processed_window) (λ e. emit (publish_failed e))

  -- The measurements until the shutdown. The wait before each ends by its timeout, or, before the
  -- last, by the shutdown.
  unfoldable pub throughput_loop : ℕ → Action (World s) (Unit {0})
  throughput_loop zero = pure tt
  throughput_loop (suc rounds) = do throughput_round; throughput_loop rounds

-- ===== src/Examples/Queueing.antt =====
-- The queue, the workers and the retries at concrete inputs.
use ims_prakash.Base.{◌+◌, ◌≡◌, ◌⊎◌, refl, List, [], ◌∷◌, length, drop, arith}
use ims_prakash.Text.{Text, codes}
use ims_prakash.Text.Decimal.{str_of}
use ims_prakash.Enums
use ims_prakash.Errors.{ok, err, value_error, operational_error}
use ims_prakash.Effects.{Action}
use ims_prakash.Config.{Settings, default_settings}
use ims_prakash.Models.{SignalIn, SignalAccepted}
use ims_prakash.Ingestion
use ims_prakash.Ingestion.{IngestQueueState, Queue, offer, is_backpressured, queue_pct_full}
use ims_prakash.Ingestion.Offers.{admitted, refused, Admits}
use ims_prakash.Ingestion.Accounts.{Event, offered, taken, IsSound, run, start, run-IsSound}
use ims_prakash.Services.{Document}
use ims_prakash.World.{World}
use ims_prakash.Retry.{retry_async}
use ims_prakash.Retry.Attempts.{retry_async_result, Retried}
use ims_prakash.Storage.MongoStore.{insert_signal}
use ims_prakash.Workers.{process_one, worker_loop, placeholder, raw_doc}
use ims_prakash.Workers.Counters.{worker_loop_drains}
use ims_prakash.Workers.Placeholder.{LosesWindow, process_one-placeholder}
use ims_prakash.App.{accepted_202, backpressure_503, post_signal}
use ims_prakash.App.Signals.{post_signal_answers}
use ims_prakash.Examples.Memory.{memory, at}

abbrev pub signal : SignalIn
signal = record {
  component_id = codes "db-1";
  component_type = Enums.ComponentType.rdbms;
  severity = Enums.Severity.error;
  timestamp = at 3;
  payload = codes "x";
}

abbrev pub waiting : List SignalIn → IngestQueueState
waiting items = record {
  queue = record { items = items; maxsize = 4; unfinished = length items };
  accepted = length items;
  dropped = 0;
  processed = 0;
  last_accepted_window = 0;
  last_processed_window = 0;
}

abbrev pub small : Settings
small = record default_settings {
  queue_maxsize = 4;
  queue_backpressure_threshold = record { num = 1; den = 2 };
}

abbrev pub world : List SignalIn → World memory
world items = record {
  redis = record { keys = []; feed = []; hash = [] };
  mongo = [];
  db = record { work_items = []; rcas = [] };
  time = 20;
  ingest = waiting items;
  effects = [];
}

abbrev pub two : List SignalIn
two = signal ∷ signal ∷ []

post_signal_answers_example :
    (Admits small (waiting two)
      × (out : SignalAccepted) × (post_signal small signal (waiting two)
          ≡ (admitted signal (waiting two), accepted_202 out))
      × (out.queue_depth ≡ 2 + 1))
    ⊎ (¬ Admits small (waiting two)
        × (post_signal small signal (waiting two)
            ≡ (refused (waiting two), backpressure_503 (queue_pct_full (waiting two)))))
post_signal_answers_example = post_signal_answers small signal (waiting two)

abbrev events : List Event
events = offered signal ∷ offered signal ∷ offered signal ∷ taken ∷ []

run-IsSound_example : IsSound small (run small (start small) events)
run-IsSound_example = run-IsSound small events (omega arith) (omega arith)

worker_loop_drains_example :
    ((worker_loop memory small 1 (world two)).0 ≡ ok tt)
    × ((worker_loop memory small 1 (world two)).1.ingest.queue.items ≡ drop 1 two)
worker_loop_drains_example = worker_loop_drains memory small 1 (world two)

-- Another worker has won the window of the component.
abbrev contended : World memory
contended = record (world []) {
  redis = record {
    keys = (codes "dedup:db-1", placeholder (codes "5")) ∷ [];
    feed = [];
    hash = [];
  };
}

abbrev stored_document : List (Text × Document)
stored_document = (str_of 0, raw_doc signal (at 20)) ∷ []

lost_window :
    LosesWindow memory small signal contended stored_document contended.redis contended.redis
      (placeholder (codes "5"))
unfolding insert_signal
lost_window = record { id = str_of 0; stored = refl; lost = refl; read = refl }

process_one-placeholder_example :
    process_one memory small signal contended
    ≡ (err value_error, record contended { mongo = stored_document; time = 21 })
process_one-placeholder_example =
    process_one-placeholder memory small signal contended stored_document contended.redis
      contended.redis (codes "5") lost_window

-- A call that always raises and changes nothing.
abbrev failing : Action (World memory) (Unit {0})
failing w = (err operational_error, w)

retry_async_result_example : Retried failing (world []) (retry_async failing (world []))
retry_async_result_example = retry_async_result failing (world [])

-- ===== src/Scripts/Outage/Backend.antt =====
-- The backend of backend/app/main.py behind a network, as the host of scripts/simulate_outage.py.
use ims_prakash.Base.{ℕ, ◌+◌}
use ims_prakash.Text.{Text}
use ims_prakash.Config.{Settings}
use ims_prakash.Models.{SignalIn}
use ims_prakash.Ingestion.{IngestQueueState}
use ims_prakash.App
use ims_prakash.App.{SignalResponse, accepted_202, backpressure_503}
use ims_prakash.Scripts.Outage.{Reply, response, http_error, failure, SignalDoc, Host}

-- What becomes of a request: its reply may be lost, or the request itself, or the server answers it
-- with the HTTP error 400 + n before the handler runs, as the rate limiter and the schemas do.
pub data Fate : Type 0 where
  delivered : Fate
  reply_lost request_lost : Text → Fate
  turned_away : ℕ → Text → Fate

pub record Rig : Type 0 where
  pub ingest : IngestQueueState
  -- The number of requests so far.
  pub turn : ℕ

-- FastAPI reads the body and renders the answer; `between` is what the workers do to the queue while
-- the script sleeps.
pub record Setting : Type 0 where
  pub config : Settings
  pub read : SignalDoc → SignalIn
  pub render : SignalResponse → Text
  pub fates : ℕ → Fate
  pub stamps : ℕ → Text
  pub traces : ℕ → Text
  pub between : ℕ → IngestQueueState → IngestQueueState

module _ (e : Setting) where
  abbrev pub reply_of : SignalResponse → Reply
  reply_of (accepted_202 out) = response 202 (e.render (accepted_202 out))
  reply_of (backpressure_503 share) = http_error 503 (e.render (backpressure_503 share))

  unfoldable pub served : Fate → SignalDoc → IngestQueueState → Reply × IngestQueueState
  served delivered doc st =
      let (after, answer) = App.post_signal e.config (e.read doc) st in (reply_of answer, after)
  served (reply_lost message) doc st =
      let (after, answer) = App.post_signal e.config (e.read doc) st in (failure message, after)
  served (request_lost message) doc st = (failure message, st)
  served (turned_away n body) doc st = (http_error (400 + n) body, st)

  abbrev pub backend : Host
  backend = record {
    State = Rig;
    urlopen = λ doc w.
        let (reply, after) = served (e.fates w.turn) doc w.ingest in
        (reply, record { ingest = after; turn = w.turn + 1 });
    now_isoformat = λ w. (e.stamps w.turn, w);
    uuid4 = λ w. (e.traces w.turn, w);
    sleep = λ ms w. record w { ingest = e.between ms w.ingest };
  }

-- ===== src/App.antt =====
-- The handlers of backend/app/main.py. The rate limit stands in App/Server.
pub mod Health
pub mod Signals
pub mod Lifespan
pub mod Server
pub mod System
use ims_prakash.Base.{ℕ, Bool, true, false, ◌&&◌, Option, none, some, List, [], ◌∷◌, if◌then◌else◌}
use ims_prakash.Text.{Text, codes}
use ims_prakash.Errors.{Error, Result, ok, err}
use ims_prakash.Effects.{Action, pure, gets, ◌>>=◌}
use ims_prakash.Config.{Ratio, Settings}
use ims_prakash.Models.{SignalIn, SignalAccepted}
use ims_prakash.Ingestion.{IngestQueueState, Snapshot, offer, snapshot, queue_pct_full}
use ims_prakash.Services.{Services}
use ims_prakash.World.{World, on_redis, on_mongo, on_db}
use ims_prakash.Storage.Postgres
use ims_prakash.Storage.RedisCache
use ims_prakash.Storage.RedisCache.{get_metrics}

-- The answer of `post_signal`: 202 with the depth, or 503 with the share that is used.
pub data SignalResponse : Type 0 where
  accepted_202 : SignalAccepted → SignalResponse
  backpressure_503 : Ratio → SignalResponse

respond : IngestQueueState × Bool → IngestQueueState × SignalResponse
respond (st, true) =
    let snap = snapshot st in
    (
      st,
      accepted_202 (record {
        accepted = true;
        queue_depth = snap.queue_depth;
        queue_pct_full = snap.queue_pct_full;
      }),
    )
respond (st, false) = (st, backpressure_503 (queue_pct_full st))

unfoldable pub post_signal :
    Settings → SignalIn → IngestQueueState → IngestQueueState × SignalResponse
unfolding respond
post_signal c signal st = respond (offer c signal st)

-- The body of `health`: one entry for each server, and the errors of those that raised.
pub record HealthOut : Type 0 where
  pub status_code : ℕ
  pub status : Text
  pub checks : List (Text × Bool)
  pub errors : List (Text × Error)

-- What one `try` of the loop adds.
pub record Probe : Type 0 where
  pub name : Text
  pub outcome : Result Bool

unfoldable pub check_of : Probe → Text × Bool
check_of p = (p.name, elim p.outcome [ ok b ↦ b | err e ↦ false ])

unfoldable pub collect_checks : List Probe → List (Text × Bool)
unfolding check_of
collect_checks [] = []
collect_checks (p ∷ ps) = check_of p ∷ collect_checks ps

unfoldable pub collect_errors : List Probe → List (Text × Error)
collect_errors [] = []
collect_errors (p ∷ ps) =
    let rest = collect_errors ps in elim p.outcome [ ok b ↦ rest | err e ↦ (p.name, e) ∷ rest ]

-- `all(checks.values())`.
unfoldable pub all_checks : List (Text × Bool) → Bool
all_checks [] = true
all_checks ((name, b) ∷ rest) = b && all_checks rest

unfoldable pub health_of : List Probe → HealthOut
unfolding collect_checks collect_errors all_checks
health_of probes =
    let checks = collect_checks probes in
    let healthy = all_checks checks in
    record {
      status_code = if healthy then 200 else 503;
      status = if healthy then codes "ok" else codes "degraded";
      checks = checks;
      errors = collect_errors probes;
    }

module _ (s : Services) where
  -- A `try` that keeps the outcome and goes on.
  unfoldable pub probe : Text → Action (World s) Bool → Action (World s) Probe
  probe name ping w = let (r, v) = ping w in (ok (record { name = name; outcome = r }), v)

  unfoldable pub health : Action (World s) HealthOut
  unfolding health_of probe RedisCache.ping
  health = do
    postgres ← probe (codes "postgres") (on_db (Postgres.ping s.sql))
    mongo ← probe (codes "mongo") (on_mongo s.mongo.ping)
    redis ← probe (codes "redis") (on_redis (RedisCache.ping s.redis))
    pure (health_of (postgres ∷ mongo ∷ redis ∷ []))

  unfoldable pub metrics : Action (World s) (Snapshot × List (Text × Text))
  metrics = do
    snap ← gets (λ w. snapshot w.ingest)
    redis_metrics ← on_redis (get_metrics s.redis)
    pure (snap, redis_metrics)

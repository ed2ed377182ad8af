-- ===== src/World.antt =====
-- The state that the code runs in: the servers, the clock, the backend's own queue state and the
-- effects that nobody reads back (log lines and sleeps), in order.
pub mod Frame
pub mod Quiet
pub mod Tables
use ims_prakash.Base.{ℕ, ◌≡◌, List, [], ◌∷◌, ◌++◌}
use ims_prakash.Base.Int.{ℤ}
use ims_prakash.Datetime.{Datetime}
use ims_prakash.Errors.{Error, Result, ok}
use ims_prakash.Effects.{Action}
use ims_prakash.Alerting.{AlertEntry}
use ims_prakash.Ingestion.{IngestQueueState}
use ims_prakash.Services.{Services, Redis, Mongo, Sql, Clock}

pub data Effect : Type 0 where
  alert : AlertEntry → Effect
  retry_attempt : ℕ → Error → Effect
  retry_failed backfill_failed process_error publish_failed : Error → Effect
  cleanup_failed : ℤ → Error → Effect
  -- `asyncio.sleep`, in milliseconds.
  slept : ℕ → Effect

pub record World (s : Services) : Type 0 where
  pub redis : Redis.Store s.redis
  pub mongo : Mongo.Store s.mongo
  pub db : Sql.Db s.sql
  pub time : Clock.Time s.clock
  pub ingest : IngestQueueState
  pub effects : List Effect

module _ {s : Services} {A : Type 0} where
  unfoldable pub on_redis : Action (Redis.Store s.redis) A → Action (World s) A
  on_redis m w = let (r, t) = m w.redis in (r, record w { redis = t })

  unfoldable pub on_mongo : Action (Mongo.Store s.mongo) A → Action (World s) A
  on_mongo m w = let (r, t) = m w.mongo in (r, record w { mongo = t })

  unfoldable pub on_db : Action (Sql.Db s.sql) A → Action (World s) A
  on_db m w = let (r, t) = m w.db in (r, record w { db = t })

  -- The outcome of a call on one server in the world is that of the call.
  pub on_redis-eq :
      (m : Action (Redis.Store s.redis) A) (w v : World s) (r : Result A)
      → on_redis m w ≡ (r, v)
      → m w.redis ≡ (r, v.redis)
  unfolding on_redis
  on_redis-eq m w v r h = λ j. ((h j).0, (h j).1.redis)

  pub on_db-eq :
      (m : Action (Sql.Db s.sql) A) (w v : World s) (r : Result A)
      → on_db m w ≡ (r, v)
      → m w.db ≡ (r, v.db)
  unfolding on_db
  on_db-eq m w v r h = λ j. ((h j).0, (h j).1.db)

module _ {s : Services} where
  unfoldable pub emit : Effect → Action (World s) (Unit {0})
  emit e w = (ok tt, record w { effects = w.effects ++ e ∷ [] })

  unfoldable pub clock_now : Action (World s) Datetime
  clock_now w = let (d, t) = Clock.now s.clock w.time in (ok d, record w { time = t })

  unfoldable pub on_ingest : (IngestQueueState → IngestQueueState) → Action (World s) (Unit {0})
  on_ingest f w = (ok tt, record w { ingest = f w.ingest })

-- ===== src/App/Lifespan/Startup.antt =====
-- What a start of the process leaves (backend/app/main.py).
use ims_prakash.Base.{
  ℕ, zero, suc, ◌+◌, ◌≡◌, ◌≢◌, refl, sym, inl, inr, none, some, List, [], length, All,
}
use mathlib.Core.Path.{subst}
use ims_prakash.Errors.{Result, ok, Result-cases}
use ims_prakash.Effects.{catch, ◌>>=◌}
use ims_prakash.Config.{Settings, mongo_uri, postgres_dsn, redis_url}
use ims_prakash.Storage.Clients.{
  Drivers, Clients, init_engine, init_mongo, init_redis, signals, no_clients, signals_collection,
}
use ims_prakash.Workers.Tasks.{running, Task, new_workers, start_workers}
use ims_prakash.App.Lifespan.{LogLine, Process, startup, ensure_on}

abbrev pub IsRunning : Task → Type 0
IsRunning t = t.status ≡ running

length-new_workers : (i n : ℕ) → length (new_workers i n) ≡ n
unfolding new_workers
length-new_workers i zero = refl
length-new_workers i (suc n) = rw (length-new_workers (i + 1) n)

new_workers-IsRunning : (i n : ℕ) → All IsRunning (new_workers i n)
unfolding new_workers
new_workers-IsRunning i zero = tt
new_workers-IsRunning i (suc n) = (refl, new_workers-IsRunning (i + 1) n)

-- Every client is there, and the workers run.
pub record IsServing {d : Drivers} (c : Settings) (p : Process d) : Type 0 where
  pub engine : p.clients.engine ≢ none
  pub sessions : p.clients.sessionmaker ≢ none
  pub mongo : p.clients.mongo ≢ none
  pub db : p.clients.db ≢ none
  pub redis : p.clients.redis ≢ none
  pub workers : length p.pool.workers ≡ c.worker_count
  pub running_workers : All IsRunning p.pool.workers
  pub throughput : (t : Task) × (p.pool.throughput ≡ some t) × IsRunning t

-- The clients that the settings give: every constructor returns.
pub record IsMade (d : Drivers) (c : Settings) : Type 0 where
  pub engine : d.Engine
  pub mongo : d.MongoClient
  pub db : d.MongoDb
  pub redis : d.RedisClient
  pub makes_engine : d.create_async_engine (postgres_dsn c) ≡ ok engine
  pub makes_mongo : d.motor_client (mongo_uri c) ≡ ok mongo
  pub names_db : d.database mongo c.mongo_db ≡ ok db
  pub makes_redis : d.from_url (redis_url c) ≡ ok redis

module _ (d : Drivers) (c : Settings) (create : d.Collection → Result (Unit {0}))
    (made : IsMade d c) where
  abbrev Starts : Process d → Type 0
  Starts p = ((startup d c create p).0 ≡ ok tt) × IsServing c (startup d c create p).1

  made-IsServing :
      (p : Process d) (log : List LogLine)
      → p.pool.workers ≡ []
      → IsServing {d = d} c (record {
        clients = record {
          engine = some made.engine;
          sessionmaker = some (d.async_sessionmaker made.engine);
          mongo = some made.mongo;
          db = some made.db;
          redis = some made.redis;
        };
        pool = start_workers c p.pool;
        log = log;
      })
  unfolding start_workers
  made-IsServing p log idle = rw idle (record {
    engine = λ k. cc;
    sessions = λ k. cc;
    mongo = λ k. cc;
    db = λ k. cc;
    redis = λ k. cc;
    workers = length-new_workers 0 c.worker_count;
    running_workers = new_workers-IsRunning 0 c.worker_count;
    throughput = (_, refl, refl);
  })

  fresh-Starts :
      (p : Process d) → p.pool.workers ≡ [] → Starts (record p { clients = no_clients d })
  unfolding startup ◌>>=◌ catch ensure_on signals init_engine init_mongo init_redis start_workers
      no_clients
  fresh-Starts p idle = elim (Result-cases (create (d.collection made.db signals_collection))) [
    | inl (done, e) ↦
        rw (made.makes_engine, made.makes_mongo, made.names_db, made.makes_redis, e)
          (refl, made-IsServing p _ idle)
    | inr (x, e) ↦
        rw (made.makes_engine, made.makes_mongo, made.names_db, made.makes_redis, e)
          (refl, made-IsServing p _ idle)
  ]

  -- From a process without clients and workers, with settings from which every client is made and the
  -- database is named, the start never raises, also where making the indexes does; it leaves every
  -- client made and `worker_count` workers and the throughput task running.
  pub startup-IsServing :
      (p : Process d)
      → p.clients ≡ no_clients d
      → p.pool.workers ≡ []
      → ((startup d c create p).0 ≡ ok tt) × IsServing c (startup d c create p).1
  startup-IsServing p fresh idle =
      subst (λ (v : Clients d). Starts (record p { clients = v })) (sym fresh) (fresh-Starts p idle)

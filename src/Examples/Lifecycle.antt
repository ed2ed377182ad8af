-- ===== src/Examples/Lifecycle.antt =====
-- A start and a shutdown of the process with clients of one value each.
use ims_prakash.Base.{◌≡◌, refl, true, none, []}
use ims_prakash.Text.{Text}
use ims_prakash.Config.{default_settings, postgres_dsn, mongo_uri, redis_url}
use ims_prakash.Errors.{Result, ok, err, operational_error}
use ims_prakash.Storage.Clients.{Drivers, no_clients}
use ims_prakash.Workers.Tasks.{no_tasks}
use ims_prakash.App.Lifespan.{Process, startup, shutdown}
use ims_prakash.App.Lifespan.Startup.{IsServing, IsMade, startup-IsServing}
use ims_prakash.App.Lifespan.Shutdown.{IsStopped, shutdown-IsStopped}

-- An address stands for the client that is made with it.
abbrev pub by_address : Drivers
by_address = record {
  Engine = Text;
  Maker = Text;
  MongoClient = Text;
  MongoDb = Text;
  Collection = Text;
  RedisClient = Text;
  create_async_engine = λ a. ok a;
  async_sessionmaker = λ e. e;
  dispose = λ e. ok tt;
  motor_client = λ a. ok a;
  database = λ m n. ok n;
  collection = λ b n. n;
  admin_ping = λ m. ok true;
  from_url = λ a. ok a;
  aclose = λ r. ok tt;
}

abbrev made : IsMade by_address default_settings
made = record {
  engine = postgres_dsn default_settings;
  mongo = mongo_uri default_settings;
  db = default_settings.mongo_db;
  redis = redis_url default_settings;
  makes_engine = refl;
  makes_mongo = refl;
  names_db = refl;
  makes_redis = refl;
}

abbrev index_fails : Text → Result (Unit {0})
index_fails coll = err operational_error

abbrev fresh : Process by_address
fresh = record { clients = no_clients by_address; pool = no_tasks; log = [] }

fresh-idle : fresh.pool.workers ≡ []
unfolding no_tasks
fresh-idle = refl

startup-IsServing_example :
    ((startup by_address default_settings index_fails fresh).0 ≡ ok tt)
    × IsServing default_settings (startup by_address default_settings index_fails fresh).1
startup-IsServing_example =
    startup-IsServing by_address default_settings index_fails made fresh refl fresh-idle

abbrev serving : Process by_address
serving = (startup by_address default_settings index_fails fresh).1

shutdown-IsStopped_example :
    ((shutdown by_address default_settings serving).0 ≡ ok tt)
    × ((shutdown by_address default_settings serving).1.clients.engine ≡ none)
    × ((shutdown by_address default_settings serving).1.clients.mongo ≡ none)
    × ((shutdown by_address default_settings serving).1.clients.redis ≡ none)
    × IsStopped serving.pool (shutdown by_address default_settings serving).1.pool
shutdown-IsStopped_example =
    shutdown-IsStopped by_address default_settings serving (λ e. refl) (λ r. refl)

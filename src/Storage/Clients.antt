-- ===== src/Storage/Clients.antt =====
-- The module variables that hold the clients: `init_engine`, `close_engine` of
-- backend/app/storage/postgres.py, and `init_client`, `close_client` with the accessors of
-- backend/app/storage/mongo.py and backend/app/storage/redis_cache.py.
pub mod Unnamed
use ims_prakash.Base.{Bool, Option, none, some}
use ims_prakash.Text.{Text, codes}
use ims_prakash.Config.{Settings, postgres_dsn, mongo_uri, redis_url}
use ims_prakash.Errors.{Result, ok, err, assertion_error}
use ims_prakash.Effects.{Action, pure, raise, lift, ◌>>=◌, ◌>>◌}

-- SQLAlchemy, motor and redis.asyncio, as far as clients are made and closed. Making one does not
-- connect, but raises on an address or a name of a database that it does not take. motor's `close` does
-- not raise, and `raw_signals` is a name that `collection` takes.
pub record Drivers : Type 1 where
  pub Engine : Type 0
  pub Maker : Type 0
  pub MongoClient : Type 0
  pub MongoDb : Type 0
  pub Collection : Type 0
  pub RedisClient : Type 0
  pub create_async_engine : Text → Result Engine
  pub async_sessionmaker : Engine → Maker
  pub dispose : Engine → Result (Unit {0})
  pub motor_client : Text → Result MongoClient
  pub database : MongoClient → Text → Result MongoDb
  pub collection : MongoDb → Text → Collection
  pub admin_ping : MongoClient → Result Bool
  pub from_url : Text → Result RedisClient
  pub aclose : RedisClient → Result (Unit {0})

-- `_engine`, `_sessionmaker`; `_client` and `_db` of mongo.py; `_client` of redis_cache.py.
pub record Clients (d : Drivers) : Type 0 where
  pub engine : Option d.Engine
  pub sessionmaker : Option d.Maker
  pub mongo : Option d.MongoClient
  pub db : Option d.MongoDb
  pub redis : Option d.RedisClient

abbrev pub signals_collection : Text
signals_collection = codes "raw_signals"

-- `assert x is not None`.
abbrev pub assert_some : {W A : Type 0} → Option A → Action W A
assert_some none w = (err assertion_error, w)
assert_some (some a) w = (ok a, w)

module _ (d : Drivers) (c : Settings) where
  unfoldable pub init_engine : Action (Clients d) (Unit {0})
  init_engine v = elim v.engine [
    | none ↦ elim (d.create_async_engine (postgres_dsn c)) [
      | ok e ↦ (ok tt, record v { engine = some e; sessionmaker = some (d.async_sessionmaker e) })
      | err x ↦ (err x, v)
    ]
    | some e ↦ (ok tt, v)
  ]

  unfoldable pub close_engine : Action (Clients d) (Unit {0})
  close_engine v = elim v.engine [
    | none ↦ (ok tt, v)
    | some e ↦ elim (d.dispose e) [
      | ok done ↦ (ok tt, record v { engine = none; sessionmaker = none })
      | err x ↦ (err x, v)
    ]
  ]

  -- The start of `session_scope`.
  unfoldable pub current_sessionmaker : Action (Clients d) d.Maker
  unfolding init_engine
  current_sessionmaker v = elim v.sessionmaker [
    | none ↦ (init_engine >>= λ u w. assert_some w.sessionmaker w) v
    | some m ↦ (ok m, v)
  ]

  -- Where naming the database raises, the client is set and the database is not.
  unfoldable pub init_mongo : Action (Clients d) (Unit {0})
  init_mongo v = elim v.mongo [
    | none ↦ elim (d.motor_client (mongo_uri c)) [
      | ok m ↦ elim (d.database m c.mongo_db) [
        | ok b ↦ (ok tt, record v { mongo = some m; db = some b })
        | err x ↦ (err x, record v { mongo = some m })
      ]
      | err x ↦ (err x, v)
    ]
    | some m ↦ (ok tt, v)
  ]

  unfoldable pub close_mongo : Clients d → Clients d
  close_mongo v = elim v.mongo [ none ↦ v | some m ↦ record v { mongo = none; db = none } ]

  unfoldable pub signals : Action (Clients d) d.Collection
  unfolding init_mongo
  signals v = elim v.db [
    | none ↦
        (init_mongo >>= λ u w. elim w.db [
          | none ↦ (err assertion_error, w)
          | some b ↦ (ok (d.collection b signals_collection), w)
        ])
          v
    | some b ↦ (ok (d.collection b signals_collection), v)
  ]

  unfoldable pub mongo_ping : Action (Clients d) Bool
  unfolding init_mongo
  mongo_ping v = elim v.mongo [
    | none ↦
        (init_mongo >>= λ u w. elim w.mongo [
          | none ↦ (err assertion_error, w)
          | some m ↦ (d.admin_ping m, w)
        ])
          v
    | some m ↦ (d.admin_ping m, v)
  ]

  unfoldable pub init_redis : Action (Clients d) (Unit {0})
  init_redis v = elim v.redis [
    | none ↦ elim (d.from_url (redis_url c)) [
      | ok r ↦ (ok tt, record v { redis = some r })
      | err x ↦ (err x, v)
    ]
    | some r ↦ (ok tt, v)
  ]

  unfoldable pub close_redis : Action (Clients d) (Unit {0})
  close_redis v = elim v.redis [
    | none ↦ (ok tt, v)
    | some r ↦ elim (d.aclose r) [
      | ok done ↦ (ok tt, record v { redis = none })
      | err x ↦ (err x, v)
    ]
  ]

  unfoldable pub redis_client : Action (Clients d) d.RedisClient
  unfolding init_redis
  redis_client v = elim v.redis [
    | none ↦ (init_redis >>= λ u w. assert_some w.redis w) v
    | some r ↦ (ok r, v)
  ]

unfoldable pub no_clients : (d : Drivers) → Clients d
no_clients d = record { engine = none; sessionmaker = none; mongo = none; db = none; redis = none }

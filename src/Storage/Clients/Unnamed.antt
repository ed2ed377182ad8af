-- ===== src/Storage/Clients/Unnamed.antt =====
-- A name of the database that motor does not take: `init_client` and `signals` of
-- backend/app/storage/mongo.py.
use ims_prakash.Base.{◌≡◌, some, none, arith}
use ims_prakash.Config.{Settings, mongo_uri}
use ims_prakash.Errors.{Error, ok, err, assertion_error}
use ims_prakash.Effects.{◌>>=◌}
use ims_prakash.Storage.Clients.{Drivers, Clients, init_mongo, signals}

module _ (d : Drivers) (c : Settings) (m : d.MongoClient) (x : Error)
    (makes : d.motor_client (mongo_uri c) ≡ ok m) (raises : d.database m c.mongo_db ≡ err x) where
  -- With an address that motor takes and a name of the database that raises `x`: the first `signals`
  -- of a process without clients raises `x` and leaves the client set without a database, and each
  -- later one raises AssertionError and changes nothing.
  pub signals_asserts :
      (v : Clients d)
      → v.mongo ≡ none
      → v.db ≡ none
      → (signals d c v ≡ (err x, record v { mongo = some m }))
        × (signals d c (signals d c v).1 ≡ (err assertion_error, (signals d c v).1))
  unfolding signals init_mongo ◌>>=◌
  signals_asserts v unset unnamed = (ground arith, ground arith)

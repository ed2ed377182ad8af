-- ===== src/Examples/Unnamed.antt =====
-- A name of the database that motor refuses.
use ims_prakash.Base.{◌≡◌, refl, some, none}
use ims_prakash.Config.{default_settings, mongo_uri}
use ims_prakash.Errors.{err, assertion_error, value_error}
use ims_prakash.Storage.Clients.{Drivers, Clients, signals}
use ims_prakash.Storage.Clients.Unnamed.{signals_asserts}
use ims_prakash.Examples.Lifecycle.{by_address}

abbrev unnamed : Drivers
unnamed = record by_address { database = λ m n. err value_error }

abbrev unset : Clients unnamed
unset = record { engine = none; sessionmaker = none; mongo = none; db = none; redis = none }

signals_asserts_example :
    (signals unnamed default_settings unset
      ≡ (err value_error, record unset { mongo = some (mongo_uri default_settings) }))
    × (signals unnamed default_settings (signals unnamed default_settings unset).1
        ≡ (err assertion_error, (signals unnamed default_settings unset).1))
signals_asserts_example =
    signals_asserts unnamed default_settings (mongo_uri default_settings) value_error refl refl
      unset refl refl

-- ===== src/App/Lifespan.antt =====
-- `lifespan` of backend/app/main.py: the start and the shutdown of the process around its requests.
pub mod Startup
pub mod Shutdown
use ims_prakash.Base.{Option, none, some, List, [], ◌∷◌, ◌++◌}
use ims_prakash.Errors.{Error, Result, ok, err}
use ims_prakash.Effects.{Action, pure, catch, ◌>>=◌, ◌>>◌}
use ims_prakash.Config.{Settings}
use ims_prakash.Storage.Clients.{
  Drivers, Clients, init_engine, close_engine, init_mongo, close_mongo, init_redis, close_redis,
  signals,
}
use ims_prakash.Workers.Tasks.{Pool, start_workers, stop_workers}

pub data LogLine : Type 0 where
  startup_begin startup_complete shutdown_begin shutdown_complete : LogLine
  mongo_index_skip : Error → LogLine

pub record Process (d : Drivers) : Type 0 where
  pub clients : Clients d
  pub pool : Pool
  pub log : List LogLine

module _ {d : Drivers} where
  abbrev on_clients : {A : Type 0} → Action (Clients d) A → Action (Process d) A
  on_clients m p = let (r, v) = m p.clients in (r, record p { clients = v })

  abbrev set_clients : (Clients d → Clients d) → Action (Process d) (Unit {0})
  set_clients f p = (ok tt, record p { clients = f p.clients })

  abbrev set_pool : (Pool → Pool) → Action (Process d) (Unit {0})
  set_pool f p = (ok tt, record p { pool = f p.pool })

  abbrev log_line : LogLine → Action (Process d) (Unit {0})
  log_line l p = (ok tt, record p { log = p.log ++ l ∷ [] })

module _ (d : Drivers) (c : Settings) where
  -- `ensure_indexes`, on the collection that `signals` gives; the three calls of motor are `create`.
  unfoldable pub ensure_on : (d.Collection → Result (Unit {0})) → Action (Process d) (Unit {0})
  ensure_on create p = (on_clients (signals d c) >>= λ coll q. (create coll, q)) p

  unfoldable pub startup : (d.Collection → Result (Unit {0})) → Action (Process d) (Unit {0})
  unfolding ensure_on
  startup create = do
    log_line startup_begin
    on_clients (init_engine d c)
    on_clients (init_mongo d c)
    on_clients (init_redis d c)
    catch (ensure_on create) (λ e. log_line (mongo_index_skip e))
    set_pool (start_workers c)
    log_line startup_complete

  unfoldable pub shutdown : Action (Process d) (Unit {0})
  shutdown = do
    log_line shutdown_begin
    set_pool stop_workers
    on_clients (close_engine d c)
    set_clients (close_mongo d c)
    on_clients (close_redis d c)
    log_line shutdown_complete

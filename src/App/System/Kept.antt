-- ===== src/App/System/Kept.antt =====
-- What a run of requests and rounds keeps of the tables.
use ims_prakash.Base.{}
use ims_prakash.Config.{Settings}
use ims_prakash.Models.{Pydantic}
use ims_prakash.Effects.Ensures.{Keeps-state}
use ims_prakash.Services.{Services}
use ims_prakash.Services.Laws.{SqlLaws, RetryLaws, Tables}
use ims_prakash.World.Tables.{InTables}
use ims_prakash.Workers.Kept.{WorkerWrites, worker_round-Keeps, throughput_round-Keeps}
use ims_prakash.App.Server.{Limiter, Server}
use ims_prakash.App.Server.Kept.{HandlerRules, serve-Kept}
use ims_prakash.App.System.{Step, served, worked, measured, Reach, Reach-keeps}

module _ (s : Services) (laws : SqlLaws s.sql) (retry : RetryLaws s.sql) (l : Limiter)
    (p : Pydantic) (c : Settings) (Q : Tables → Type 0)
    (writes : WorkerWrites s.sql laws retry Q) where
  -- One step, from one condition to the other.
  pub Step-Moves :
      (R : Tables → Type 0)
      → ((t : Tables) → Q t → R t)
      → HandlerRules s p (InTables s laws Q) (InTables s laws R)
      → (x y : Server s l) → Step s l p c x y
      → Q (laws.tables x.world.db)
      → R (laws.tables y.world.db)
  Step-Moves R weaken rules _ _ (served r x) h = serve-Kept s laws l p c Q R weaken rules r x h
  Step-Moves R weaken rules _ _ (worked x) h =
      weaken _ (Keeps-state (worker_round-Keeps s c laws retry Q writes) x.world h)
  Step-Moves R weaken rules _ _ (measured x) h =
      weaken _ (Keeps-state (throughput_round-Keeps s c laws retry Q writes) x.world h)

  pub Reach-Kept :
      {x y : Server s l}
      → HandlerRules s p (InTables s laws Q) (InTables s laws Q)
      → Reach s l p c x y
      → Q (laws.tables x.world.db)
      → Q (laws.tables y.world.db)
  Reach-Kept rules r h =
      Reach-keeps s l p c (λ z. Q (laws.tables z.world.db)) (Step-Moves Q (λ t k. k) rules) _ _ r h

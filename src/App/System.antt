-- ===== src/App/System.antt =====
-- Runs of a backend: requests of any kind, and rounds of the workers and of the measuring loop of
-- backend/app/workers.py, in any order. A step is a whole request or a whole round.
pub mod Kept
pub mod Gated
pub mod Diagram
pub mod Counted
use ims_prakash.Base.{}
use ims_prakash.Config.{Settings}
use ims_prakash.Models.{Pydantic}
use ims_prakash.Services.{Services}
use ims_prakash.World.{World}
use ims_prakash.Workers.{worker_round, throughput_round}
use ims_prakash.App.Server.{Limiter, Request, Server, serve}

module _ (s : Services) (l : Limiter) (p : Pydantic) (c : Settings) where
  pub data Step : Server s l → Server s l → Type 0 where
    served : (r : Request) (x : Server s l) → Step x (serve s l p c r x).1
    worked : (x : Server s l) → Step x (record x { world = (worker_round s c x.world).1 })
    measured : (x : Server s l) → Step x (record x { world = (throughput_round s c x.world).1 })

  pub data Reach (start : Server s l) : Server s l → Type 0 where
    here : Reach start start
    next : {x y : Server s l} → Reach start x → Step x y → Reach start y

  -- What every step keeps is kept by every run.
  pub Reach-keeps :
      (P : Server s l → Type 0)
      → ((x y : Server s l) → Step x y → P x → P y)
      → (x y : Server s l) → Reach x y
      → P x
      → P y
  Reach-keeps P step x y here h = h
  Reach-keeps P step x y (next r st) h = step _ _ st (Reach-keeps P step _ _ r h)

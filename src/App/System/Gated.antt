-- ===== src/App/System/Gated.antt =====
-- The closed work items in a run of requests and rounds.
use ims_prakash.Base.{◌≡◌, some}
use ims_prakash.Datetime.{utc}
use ims_prakash.Config.{Settings}
use ims_prakash.Models.{Pydantic}
use ims_prakash.Services.{Services, Clock}
use ims_prakash.Services.Laws.{SqlLaws, RetryLaws}
use ims_prakash.IncidentsApi.Gated.{IsGated}
use ims_prakash.App.Server.{Limiter, Server}
use ims_prakash.App.Server.Kept.{HandlerRules}
use ims_prakash.World.Tables.{InTables}
use ims_prakash.IncidentsApi.Gated.Handlers.{transition_incident-Keeps, submit_rca-Keeps}
use ims_prakash.Workers.Gated.{writes-IsGated}
use ims_prakash.App.System.Kept.{Reach-Kept}
use ims_prakash.App.System.{Reach}

module _ (s : Services) (laws : SqlLaws s.sql) (retry : RetryLaws s.sql)
    (utc_clock : (t : Clock.Time s.clock) → (Clock.now s.clock t).0.tzinfo ≡ some utc) (l : Limiter)
    (p : Pydantic) (c : Settings) where
  rules : HandlerRules s p (InTables s laws IsGated) (InTables s laws IsGated)
  rules = record {
    transition = transition_incident-Keeps s laws retry utc_clock;
    submit = submit_rca-Keeps s laws retry p;
  }

  -- With the documented behaviour of PostgreSQL and tenacity and a clock in UTC: from tables in which
  -- every closed work item has a complete RCA, after any run of requests of any kind, worker rounds
  -- and measuring rounds, and whichever of their calls raise or lose their reply, every closed work
  -- item has a complete RCA.
  pub Reach-IsGated :
      {x y : Server s l}
      → Reach s l p c x y
      → IsGated (laws.tables x.world.db)
      → IsGated (laws.tables y.world.db)
  Reach-IsGated = Reach-Kept s laws retry l p c IsGated (writes-IsGated s.sql laws retry) rules

-- ===== src/App/System/Diagram.antt =====
-- The state of a work item over a request or a round, against the diagram of
-- backend/app/patterns/states.py.
use ims_prakash.Base.{◌⊎◌, inl, inr, refl, ◌≡◌, some}
use ims_prakash.Base.Int.{ℤ}
use ims_prakash.Enums.{WorkItemState}
use ims_prakash.Config.{Settings}
use ims_prakash.Models.{WorkItem, Pydantic}
use ims_prakash.States.Graph.{◌⟶◌}
use ims_prakash.Services.{Services}
use ims_prakash.Services.Laws.{SqlLaws, RetryLaws, find_row}
use ims_prakash.Storage.PostgresRepo.RowState.{
  HasItem, create_work_item-HasItem, increment_signal_count-HasItem, add_signal_link-HasItem,
  upsert_metric_bucket-HasItem,
}
use ims_prakash.World.Tables.{InTables}
use ims_prakash.Workers.Kept.{WorkerWrites}
use ims_prakash.IncidentsApi.Diagram.{transition_incident-S, submit_rca-S}
use ims_prakash.App.Server.{Limiter, Server}
use ims_prakash.App.Server.Kept.{HandlerRules}
use ims_prakash.App.System.{Step}
use ims_prakash.App.System.Kept.{Step-Moves}

-- The state is as before, or an edge of the diagram leads to it.
abbrev pub IsNear : WorkItemState → WorkItemState → Type 0
IsNear a b = (b ≡ a) ⊎ (a ⟶ b)

module _ (s : Services) (laws : SqlLaws s.sql) (retry : RetryLaws s.sql) (l : Limiter)
    (p : Pydantic) (c : Settings) (i : ℤ) (a : WorkItemState) where
  abbrev Same : WorkItemState → Type 0
  Same b = b ≡ a

  stays : (b : WorkItemState) → Same b → IsNear a b
  stays b = inl

  along : (b d : WorkItemState) → Same b → b ⟶ d → IsNear a d
  along b d same edge = inr (rw same at edge)

  rules :
      HandlerRules s p (InTables s laws (HasItem i Same)) (InTables s laws (HasItem i (IsNear a)))
  rules = record {
    transition = transition_incident-S s laws retry i Same (IsNear a) stays along;
    submit = λ raw body j e. submit_rca-S s laws retry i Same (IsNear a) stays along body j;
  }

  writes : WorkerWrites s.sql laws retry (HasItem i Same)
  writes = record {
    create = create_work_item-HasItem i Same s.sql laws retry;
    increment = increment_signal_count-HasItem i Same s.sql laws retry;
    link = add_signal_link-HasItem i Same s.sql laws retry;
    metric = upsert_metric_bucket-HasItem i Same s.sql laws retry;
  }

  near :
      {x y : Server s l}
      → Step s l p c x y
      → HasItem i Same (laws.tables x.world.db)
      → HasItem i (IsNear a) (laws.tables y.world.db)
  near st h =
      Step-Moves s laws retry l p c (HasItem i Same) writes (HasItem i (IsNear a))
        (λ t k. (k.0, k.1, stays k.0.state k.2)) rules _ _ st h

module _ (s : Services) (laws : SqlLaws s.sql) (retry : RetryLaws s.sql) (l : Limiter)
    (p : Pydantic) (c : Settings) where
  -- With the documented behaviour of PostgreSQL and tenacity: one whole request of any kind, worker
  -- round or measuring round, whichever of its calls raise or lose their reply and however often a
  -- write is attempted, leaves a work item that is on file on file, in the state that it had or in one
  -- that a single edge of the diagram leads to from there.
  pub Step-state_edge :
      {x y : Server s l} (i : ℤ) (w : WorkItem)
      → Step s l p c x y
      → find_row i (laws.tables x.world.db).work_items ≡ some w
      → (v : WorkItem) × (find_row i (laws.tables y.world.db).work_items ≡ some v)
        × ((v.state ≡ w.state) ⊎ (w.state ⟶ v.state))
  Step-state_edge i w st found = near s laws retry l p c i w.state st (w, found, refl)

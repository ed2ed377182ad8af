-- ===== src/IncidentsApi/Transitions.antt =====
-- `POST /incidents/{id}/transition` and `/close` of backend/app/incidents_api.py.
use ims_prakash.Base.{◌≡◌, Option, some}
use ims_prakash.Base.Int.{ℤ}
use ims_prakash.Datetime.{Datetime}
use ims_prakash.Enums.{WorkItemState}
use ims_prakash.Errors.{Error, ok, err, http_exception, illegal_transition}
use ims_prakash.Effects.{◌>>=◌}
use ims_prakash.Models.{WorkItem, Rca}
use ims_prakash.States.{transition}
use ims_prakash.States.Graph.{◌⟶◌, transition_illegal}
use ims_prakash.Services.{Services, Clock, Sql}
use ims_prakash.World.{World, on_db, clock_now}
use ims_prakash.Storage.PostgresRepo.{get_work_item, get_rca}
use ims_prakash.IncidentsApi.{
  transition_incident, with_http_errors, http_error, seen_by_states, optional_rca,
}

module _ (s : Services) (w : World s) where
  abbrev read_clock : Datetime × Clock.Time s.clock
  read_clock = Clock.now s.clock w.time

  -- The reads of the handler returned the item and what RCA there is.
  pub record Found (i : ℤ) (wi : WorkItem) (rca : Option Rca) (d e : Sql.Db s.sql) : Type 0 where
    pub item : get_work_item s.sql i w.db ≡ (ok (some wi), d)
    pub rca_on_file : get_rca s.sql i d ≡ (ok rca, e)

  -- Where the two reads returned the item and its RCA, if any, a transition that the state machine
  -- refuses is answered by the HTTP error of the refusal, and nothing more is called but the
  -- clock.
  pub transition_incident_refused :
      (i : ℤ) (target : WorkItemState) (wi : WorkItem) (rca : Option Rca) (d e : Sql.Db s.sql)
      (x : Error)
      → Found i wi rca d e
      → transition (seen_by_states wi) target (optional_rca rca) read_clock.0 ≡ err x
      → transition_incident s target i w
        ≡ (err (http_error x), record w { db = e; time = read_clock.1 })
  unfolding transition_incident ◌>>=◌ on_db clock_now with_http_errors
  transition_incident_refused i target wi rca d e x found h = rw (found.item, found.rca_on_file, h)

  -- Where the two reads returned the item and its RCA, if any, a move that the diagram does not
  -- have is answered by 409 with the two states, and nothing more is called but the clock.
  pub transition_incident_illegal :
      (i : ℤ) (target : WorkItemState) (wi : WorkItem) (rca : Option Rca) (d e : Sql.Db s.sql)
      → Found i wi rca d e
      → ¬ (wi.state ⟶ target)
      → transition_incident s target i w ≡ (
        err (http_exception 409 (illegal_transition wi.state target)),
        record w { db = e; time = read_clock.1 },
      )
  unfolding http_error
  transition_incident_illegal i target wi rca d e found no_edge =
      transition_incident_refused i target wi rca d e _ found
        (transition_illegal (seen_by_states wi) target (optional_rca rca) read_clock.0 no_edge)

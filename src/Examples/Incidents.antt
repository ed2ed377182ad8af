-- ===== src/Examples/Incidents.antt =====
-- Transitions of the incident API on servers in memory.
use ims_prakash.Base.{◌≡◌, refl, some, [], ◌∷◌}
use ims_prakash.Base.Int.{pos}
use ims_prakash.Text.{strip, lstrip, rstrip, is_space, startswith}
use ims_prakash.Text.Decimal.{str_int}
use ims_prakash.Datetime.{earlier, assume_utc, elapsed}
use ims_prakash.Enums.{resolved, closed, investigating, state_eq}
use ims_prakash.Errors.{Result, ok}
use ims_prakash.Effects.{◌>>=◌, catch}
use ims_prakash.Models.{WorkItem, WorkItemOut, work_item_out}
use ims_prakash.Services.Laws.{find_row, find_rca}
use ims_prakash.World.{World, on_db, on_redis, emit, clock_now}
use ims_prakash.RcaValidator.{validate, rca_like, blank}
use ims_prakash.RcaValidator.Complete.{IsCompleteRca}
use ims_prakash.States.{transition}
use ims_prakash.Storage.Postgres.{session_scope}
use ims_prakash.Storage.PostgresRepo.{get_work_item, get_rca, update_state}
use ims_prakash.Storage.RedisCache.{remove_from_live_feed, clear_dedup}
use ims_prakash.IncidentsApi.{close_incident, transition_incident, optional_rca, with_http_errors}
use ims_prakash.IncidentsApi.Closing.{close_incident-IsCompleteRca}
use ims_prakash.IncidentsApi.Accepted.{Answered, transition_incident-ok}
use ims_prakash.Examples.Memory.{memory, attempts, at}
use ims_prakash.Examples.Memory.Laws.{table_laws, attempt_laws}
use ims_prakash.Examples.Fixtures.{item, report, holding}

abbrev closing_run : Result WorkItemOut × World memory
closing_run = close_incident memory (pos 7) (holding resolved)

abbrev closed_out : WorkItemOut
closed_out = work_item_out (record (item closed) {
  end_time = some (at 20);
  mttr_seconds = some (pos 17);
  updated_at = at 9;
})

closing_run_ok : closing_run ≡ (ok closed_out, closing_run.1)
unfolding close_incident ◌>>=◌ on_db get_work_item session_scope find_row get_rca clock_now
    with_http_errors transition validate optional_rca find_rca rca_like earlier blank strip lstrip
    rstrip is_space assume_utc elapsed state_eq catch on_redis emit remove_from_live_feed
    clear_dedup update_state attempts work_item_out startswith str_int
closing_run_ok = refl

close_incident-IsCompleteRca_example :
    (wi : WorkItem) × (find_row (pos 7) (item resolved ∷ []) ≡ some wi)
    × (wi.state ≡ resolved)
    × IsCompleteRca (optional_rca (find_rca (pos 7) (report ∷ [])))
    × (closed_out.state ≡ closed)
close_incident-IsCompleteRca_example =
    close_incident-IsCompleteRca memory table_laws attempt_laws (pos 7) closed_out
      (holding resolved) closing_run.1 closing_run_ok

abbrev pub bounced_run : Result WorkItemOut × World memory
bounced_run = transition_incident memory investigating (pos 7) (holding resolved)

abbrev pub bounced_out : WorkItemOut
bounced_out = work_item_out (record (item investigating) { updated_at = at 9 })

pub bounced_run_ok : bounced_run ≡ (ok bounced_out, bounced_run.1)
unfolding transition_incident ◌>>=◌ on_db get_work_item session_scope find_row get_rca clock_now
    with_http_errors transition optional_rca find_rca rca_like state_eq update_state attempts
    work_item_out
bounced_run_ok = refl

transition_incident-ok_example :
    Answered memory table_laws attempt_laws
      (pos 7)
      investigating
      (holding resolved).db
      bounced_run.1.db
      bounced_out
transition_incident-ok_example =
    transition_incident-ok memory table_laws attempt_laws (pos 7) investigating bounced_out
      (holding resolved) bounced_run.1 bounced_run_ok

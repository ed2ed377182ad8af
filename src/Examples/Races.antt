-- ===== src/Examples/Races.antt =====
-- A close and a bounce of one incident that run at the same time, and a bounce that comes too late.
use ims_prakash.Base.{ℕ, ◌≡◌, ◌≢◌, refl, some}
use ims_prakash.Enums.{resolved, closed, investigating}
use ims_prakash.Text.{strip, rstrip, lstrip, is_space}
use ims_prakash.Datetime.{earlier}
use ims_prakash.Storage.PostgresRepo.{state_values}
use ims_prakash.Errors.{illegal_transition_error}
use ims_prakash.RcaValidator.{validate, rca_like, blank}
use ims_prakash.RcaValidator.Complete.{IsCompleteRca, validate-eq-ok_iff}
use ims_prakash.States.{transition}
use ims_prakash.IncidentsApi.{optional_rca, http_error}
use ims_prakash.IncidentsApi.Race.{
  Incident, System, Reach, Request, transition_to, wants, answered, has_item, failed, read_item,
  refuse, arriving,
}
use ims_prakash.IncidentsApi.Race.Alone.{At, transition_incident-At}
use ims_prakash.IncidentsApi.Accepted.{tables_of}
use ims_prakash.Services.Laws.{find_row, find_rca}
use ims_prakash.Base.Int.{pos}
use ims_prakash.Examples.Incidents.{bounced_run, bounced_out, bounced_run_ok}
use ims_prakash.IncidentsApi.Race.Complete.{closed-IsCompleteRca}
use ims_prakash.IncidentsApi.Race.Settled.{closed_stays}
use ims_prakash.IncidentsApi.Race.Reopened.{closed_reopens, close_and_bounce, is_closed, closes}
use ims_prakash.Interleaving.{update, moved, here, next}
use ims_prakash.Examples.Memory.{memory, at}
use ims_prakash.Examples.Memory.Laws.{table_laws, attempt_laws}
use ims_prakash.Examples.Fixtures.{item, report, holding}
use ims_prakash.Examples.Stores.{by_length}
use native.Mathlib.Decide.{ℕ_discrete}

abbrev incident : Incident
incident = record { item = item resolved; rca = some report }

report-IsComplete : IsCompleteRca (optional_rca incident.rca)
unfolding validate optional_rca rca_like earlier blank strip rstrip lstrip is_space
report-IsComplete = (validate-eq-ok_iff (optional_rca incident.rca)).0 refl

not_closed : resolved ≢ closed
not_closed h = cc

abbrev requests : ℕ → Request by_length
requests = close_and_bounce

abbrev after_close : System
after_close = is_closed by_length incident (at 20)

closed-IsCompleteRca_example : IsCompleteRca (optional_rca (some report))
unfolding state_values
closed-IsCompleteRca_example =
    closed-IsCompleteRca by_length incident requests after_close not_closed
      (closes by_length incident (at 20) refl report-IsComplete refl) refl

closed_reopens_example :
    (y z : System) × Reach (arriving incident requests) y
    × (y.shared.item.state ≡ closed)
    × Reach y z
    × (z.shared.item.state ≡ investigating)
    × (z.shared.item.end_time ≡ some (at 20))
closed_reopens_example = closed_reopens by_length incident (at 20) refl report-IsComplete refl

-- A bounce that reads a closed item and is refused.
abbrev bounces : ℕ → Request by_length
bounces i = transition_to investigating

abbrev at_end : System
at_end = arriving (record incident { item = item closed }) bounces

abbrev has_read : System
has_read = record at_end { phase = update at_end.phase 0 (has_item investigating (item closed)) }

abbrev refused : System
refused = record has_read {
  phase =
      update has_read.phase 0 (failed (http_error (illegal_transition_error closed investigating)));
}

refusal : Reach at_end refused
unfolding update ℕ_discrete transition
refusal = next (next here (moved 0 (read_item refl))) (moved 0 (refuse (at 20) refl))

closed_stays_example : refused.shared.item ≡ item closed
closed_stays_example = closed_stays at_end refused refl (λ i. tt) refusal

-- The bounce that runs alone on servers in memory, as the one request.
abbrev before_bounce : System
before_bounce = arriving incident bounces

bounce_waits :
    At
      (pos 7)
      0
      before_bounce
      (wants investigating)
      (tables_of memory table_laws (holding resolved))
unfolding find_row find_rca
bounce_waits = (before_bounce, here, refl, (refl, refl))

transition_incident-At_example :
    At (pos 7) 0 before_bounce answered (tables_of memory table_laws bounced_run.1)
transition_incident-At_example =
    transition_incident-At memory table_laws attempt_laws (λ t. refl) (pos 7) 0 before_bounce
      investigating bounced_out (holding resolved) bounced_run.1 bounced_run_ok bounce_waits

-- ===== src/Examples/Serving.antt =====
-- A backend on servers in memory that serves requests and runs its workers.
use ims_prakash.Base.{ℕ, ◌+◌, ◌≡◌, ◌⊎◌, refl, some, List, [], ◌∷◌, ltb, arith}
use ims_prakash.Base.Int.{pos}
use ims_prakash.Text.{codes}
use ims_prakash.Enums.{resolved}
use ims_prakash.Models.{WorkItem}
use ims_prakash.Services.Laws.{find_row}
use ims_prakash.Workers.Windows.{IsAccounted}
use ims_prakash.IncidentsApi.Gated.{IsGated}
use ims_prakash.App.Server.{Limiter, Endpoint, Request, Server, serve, serve_all}
use ims_prakash.App.Server.Queue.{passed, offer_each, serve_all-ingest}
use ims_prakash.App.System.{Step, Reach}
use ims_prakash.App.System.Gated.{Reach-IsGated}
use ims_prakash.App.System.Counted.{Reach-IsAccounted}
use ims_prakash.App.System.Diagram.{Step-state_edge}
use ims_prakash.States.Graph.{◌⟶◌}
use ims_prakash.Examples.Memory.{memory}
use ims_prakash.Examples.Memory.Laws.{table_laws, attempt_laws}
use ims_prakash.Examples.Fixtures.{item, holding, idle}
use ims_prakash.Examples.Stores.{by_length}
use ims_prakash.Examples.Queueing.{signal, small}

-- One counter for all clients, in one second that does not end.
abbrev one_second : Limiter
one_second = record { Counters = ℕ; hit = λ client most n. (ltb n most, n + 1) }

abbrev from_dashboard : Endpoint → Request
from_dashboard e = record { client = codes "10.0.0.1"; endpoint = e }

abbrev post : Request
post = from_dashboard (Endpoint.post_signal signal)

abbrev close : Request
close = from_dashboard (Endpoint.close_incident (pos 7))

abbrev start : Server memory one_second
start = record { world = holding resolved; counters = 0 }

abbrev then_serve : Request → Server memory one_second → Server memory one_second
then_serve r x = (serve memory one_second by_length small r x).1

-- A close, a signal, a round of a worker that takes it, and a measuring round.
abbrev posted : Server memory one_second
posted = then_serve post (then_serve close start)

abbrev run : (x : Server memory one_second) × Reach memory one_second by_length small start x
run = (
  _,
  Reach.next
      (Reach.next
        (Reach.next (Reach.next Reach.here (Step.served close start)) (Step.served post _))
        (Step.worked _))
      (Step.measured _),
)

not_closed : IsGated (holding resolved).db
not_closed = ((λ e. cc), tt)

Reach-IsGated_example : IsGated run.0.world.db
Reach-IsGated_example =
    Reach-IsGated memory table_laws attempt_laws (λ t. refl) one_second by_length small run.1
      not_closed

on_file : find_row (pos 7) (item resolved ∷ []) ≡ some (item resolved)
unfolding find_row
on_file = refl

Step-state_edge_example :
    (v : WorkItem) × (find_row (pos 7) (then_serve close start).world.db.work_items ≡ some v)
    × ((v.state ≡ resolved) ⊎ (resolved ⟶ v.state))
Step-state_edge_example =
    Step-state_edge memory table_laws attempt_laws one_second by_length small (pos 7)
      (item resolved) (Step.served close start) on_file

idle-IsAccounted : IsAccounted idle
idle-IsAccounted = record {
  processed_bound = omega arith;
  unfinished = refl;
  accepted_window = omega arith;
  processed_window = omega arith;
}

Reach-IsAccounted_example : IsAccounted run.0.world.ingest
Reach-IsAccounted_example =
    Reach-IsAccounted memory one_second by_length small run.1 idle-IsAccounted

abbrev three : List Request
three = post ∷ close ∷ post ∷ []

serve_all-ingest_example :
    (serve_all memory one_second by_length small three start).world.ingest
    ≡ offer_each small (passed one_second by_length small three 0) idle
serve_all-ingest_example = serve_all-ingest memory one_second by_length small three start

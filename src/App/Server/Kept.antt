-- ===== src/App/Server/Kept.antt =====
-- What a request of any kind keeps of the tables (backend/app/main.py, backend/app/incidents_api.py).
use ims_prakash.Base.{◌≡◌}
use ims_prakash.Base.Int.{ℤ}
use ims_prakash.Text.{Text}
use ims_prakash.Config.{Settings}
use ims_prakash.Models.{RcaIn, Pydantic, rca_in}
use ims_prakash.Services.{Services}
use ims_prakash.Services.Laws.{SqlLaws, Tables}
use ims_prakash.World.Tables.{InTables, InTables-IsReadable}
use ims_prakash.IncidentsApi.{transition_incident, submit_rca, close_incident}
use ims_prakash.World.{World}
use ims_prakash.Effects.Ensures.{Ensures, Keeps}
use ims_prakash.Enums.{WorkItemState, closed}
use ims_prakash.Errors.{ok}
use ims_prakash.App.Server.{
  Limiter, Endpoint, Content, ok_200, Server, Request, serve_rca, serve_endpoint, serve,
}
use ims_prakash.App.Server.Reads.{
  IsRead, read-Keeps, with_id-Keeps, with_id-Moves, signal-Keeps, with_body-Keeps,
}

-- What the handlers that write do: a transition leads from one condition to the other, and the
-- submission of an RCA, which has passed the schema, keeps the first.
pub record HandlerRules (s : Services) (p : Pydantic) (P Q : World s → Type 0) : Type 0 where
  pub transition :
      (target : WorkItemState) (i : ℤ) → Ensures P (λ _. Q) Q (transition_incident s target i)
  pub submit : (raw body : RcaIn) (i : ℤ) → rca_in p raw ≡ ok body → Keeps P (submit_rca s body i)

module _ (s : Services) (laws : SqlLaws s.sql) (l : Limiter) (p : Pydantic) (c : Settings)
    (Q R : Tables → Type 0) (weaken : (t : Tables) → Q t → R t)
    (rules : HandlerRules s p (InTables s laws Q) (InTables s laws R)) where
  abbrev Kept : Server s l → Type 0
  Kept x = InTables s laws Q x.world

  abbrev Moved : Server s l → Type 0
  Moved x = InTables s laws R x.world

  read-Kept :
      (client : Text) (e : Endpoint)
      → IsRead e
      → (x : Server s l) → Kept x
      → Kept (serve_endpoint s l p c client e x).1
  read-Kept client e r x h =
      let readable = InTables-IsReadable s laws Q in
      (read-Keeps s l p c (InTables s laws Q) readable client e r x h).0

  serve_rca-Kept :
      (i : ℤ) (raw : RcaIn) (x : Server s l) → Kept x → Kept (serve_rca s l p c i raw x).1
  unfolding serve_rca
  serve_rca-Kept i raw x h =
      with_body-Keeps s l p c Kept (rca_in p raw) _ x
        (λ body e.
          (with_id-Keeps s l p c (InTables s laws Q) i (ok_200 Content.rca) _
            (rules.submit raw body i e) x h).0)
        h

  serve_endpoint-Kept :
      (client : Text) (e : Endpoint) (x : Server s l)
      → Kept x
      → Moved (serve_endpoint s l p c client e x).1
  unfolding serve_endpoint close_incident
  serve_endpoint-Kept client (Endpoint.post_signal raw) x h =
      weaken _ (signal-Keeps s l p c (InTables s laws Q) (λ w st g. g) client raw x h)
  serve_endpoint-Kept client (Endpoint.transition_incident i body) x h =
      with_id-Moves s l p c (InTables s laws Q) (InTables s laws R) (λ w. weaken _) i
        (ok_200 Content.item) _ (rules.transition body.target_state i) x h
  serve_endpoint-Kept client (Endpoint.submit_rca i raw) x h = weaken _ (serve_rca-Kept i raw x h)
  serve_endpoint-Kept client (Endpoint.close_incident i) x h =
      with_id-Moves s l p c (InTables s laws Q) (InTables s laws R) (λ w. weaken _) i
        (ok_200 Content.item) _ (rules.transition closed i) x h
  serve_endpoint-Kept client Endpoint.health x h =
      weaken _ (read-Kept client Endpoint.health tt x h)
  serve_endpoint-Kept client Endpoint.metrics x h =
      weaken _ (read-Kept client Endpoint.metrics tt x h)
  serve_endpoint-Kept client (Endpoint.list_incidents state severity limit) x h =
      weaken _ (read-Kept client (Endpoint.list_incidents state severity limit) tt x h)
  serve_endpoint-Kept client (Endpoint.live_feed limit) x h =
      weaken _ (read-Kept client (Endpoint.live_feed limit) tt x h)
  serve_endpoint-Kept client (Endpoint.get_incident i) x h =
      weaken _ (read-Kept client (Endpoint.get_incident i) tt x h)
  serve_endpoint-Kept client (Endpoint.get_incident_signals i limit) x h =
      weaken _ (read-Kept client (Endpoint.get_incident_signals i limit) tt x h)

  pub serve-Kept : (r : Request) (x : Server s l) → Kept x → Moved (serve s l p c r x).1
  unfolding serve
  serve-Kept r x h = serve_endpoint-Kept r.client r.endpoint x h

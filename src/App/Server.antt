-- ===== src/App/Server.antt =====
-- The endpoints of backend/app/main.py and of its router of backend/app/incidents_api.py, as FastAPI
-- calls them: the bounds that the signatures declare, the schemas, the rate limit of `POST /signals`,
-- and the code of each answer. FastAPI has found the endpoint and decoded the JSON, and what it cannot
-- decode never gets here. slowapi's counters are a parameter.
pub mod Reads
pub mod Kept
pub mod Queue
use ims_prakash.Base.{
  ℕ, zero, suc, ◌≡◌, Bool, true, false, Option, none, some, List, [], ◌∷◌, leb, if◌then◌else◌,
}
use ims_prakash.Base.Int.{ℤ, pos, negsuc}
use ims_prakash.Text.{Text}
use ims_prakash.Enums.{WorkItemState, Severity}
use ims_prakash.Errors.{Error, Result, ok, err, http_exception, Detail}
use ims_prakash.Effects.{Action}
use ims_prakash.Config.{Settings, Ratio}
use ims_prakash.Models.{
  SignalIn, RcaIn, TransitionIn, Pydantic, signal_in, rca_in, SignalAccepted, WorkItemOut, RcaOut,
  IncidentDetailOut,
}
use ims_prakash.Ingestion.{Snapshot}
use ims_prakash.Services.{Services}
use ims_prakash.World.{World}
use ims_prakash.IncidentsApi
use ims_prakash.IncidentsApi.{FeedEntry, SignalsOut}
use ims_prakash.App
use ims_prakash.App.{HealthOut, SignalResponse, accepted_202, backpressure_503}

-- slowapi's `Limiter`: whether a request of the client is within the limit for each second.
pub record Limiter : Type 1 where
  pub Counters : Type 0
  pub hit : Text → ℕ → Counters → Bool × Counters

-- A query parameter that is left out is `none`.
pub data Endpoint : Type 0 where
  health metrics : Endpoint
  post_signal : SignalIn → Endpoint
  list_incidents : Option WorkItemState → Option Severity → Option ℤ → Endpoint
  live_feed : Option ℤ → Endpoint
  get_incident : ℤ → Endpoint
  get_incident_signals : ℤ → Option ℤ → Endpoint
  transition_incident : ℤ → TransitionIn → Endpoint
  submit_rca : ℤ → RcaIn → Endpoint
  close_incident : ℤ → Endpoint

pub record Request : Type 0 where
  pub client : Text
  pub endpoint : Endpoint

pub data Content : Type 0 where
  health_out : HealthOut → Content
  metrics_out : Snapshot × List (Text × Text) → Content
  signal_accepted : SignalAccepted → Content
  backpressure : Ratio → Content
  items : List WorkItemOut → Content
  feed : List FeedEntry → Content
  detail : IncidentDetailOut → Content
  signals : SignalsOut → Content
  item : WorkItemOut → Content
  rca : RcaOut → Content
  http_detail : Detail → Content
  -- What FastAPI and slowapi answer by themselves.
  invalid rate_limited internal_error : Content

pub record Response : Type 0 where
  pub status_code : ℕ
  pub content : Content

-- `Path(..., ge=1)`.
unfoldable pub valid_id : ℤ → Bool
valid_id (pos zero) = false
valid_id (pos (suc n)) = true
valid_id (negsuc n) = false

-- `Query(default=…, ge=1, le=most)`.
unfoldable pub valid_limit : ℕ → ℕ → Option ℤ → Option ℕ
valid_limit default_ most none = some default_
valid_limit default_ most (some (pos zero)) = none
valid_limit default_ most (some (pos (suc n))) = if leb (suc n) most then some (suc n) else none
valid_limit default_ most (some (negsuc n)) = none

-- An `HTTPException` has its code; any other exception is an internal error.
unfoldable pub answer_of : {A : Type 0} → (A → Response) → Result A → Response
answer_of respond (ok a) = respond a
answer_of respond (err (http_exception code d)) = record {
  status_code = code;
  content = http_detail d;
}
answer_of respond (err e) = record { status_code = 500; content = internal_error }

abbrev pub ok_200 : {A : Type 0} → (A → Content) → A → Response
ok_200 content a = record { status_code = 200; content = content a }

abbrev pub unprocessable : Response
unprocessable = record { status_code = 422; content = invalid }

abbrev pub too_many_requests : Response
too_many_requests = record { status_code = 429; content = rate_limited }

abbrev pub health_response : HealthOut → Response
health_response h = record { status_code = h.status_code; content = health_out h }

abbrev pub signal_response : SignalResponse → Response
signal_response (accepted_202 out) = record { status_code = 202; content = signal_accepted out }
signal_response (backpressure_503 used) = record { status_code = 503; content = backpressure used }

-- A backend: the state of the world, and the counters of the rate limiter.
pub record Server (s : Services) (l : Limiter) : Type 0 where
  pub world : World s
  pub counters : l.Counters

module _ (s : Services) (l : Limiter) (p : Pydantic) (c : Settings) where
  -- A handler runs on the world.
  unfoldable pub call :
      {A : Type 0} → (A → Response) → Action (World s) A → Server s l → Response × Server s l
  unfolding answer_of
  call respond m x = let (r, w) = m x.world in (answer_of respond r, record x { world = w })

  -- The handler runs where the id of the path is one.
  unfoldable pub with_id :
      {A : Type 0} → ℤ → (A → Response) → Action (World s) A → Server s l → Response × Server s l
  unfolding call valid_id
  with_id i respond m x = if valid_id i then call respond m x else (unprocessable, x)

  unfoldable pub with_limit :
      {A : Type 0}
      → Option ℕ
      → (A → Response)
      → (ℕ → Action (World s) A)
      → Server s l
      → Response × Server s l
  unfolding call
  with_limit none respond m x = (unprocessable, x)
  with_limit (some n) respond m x = call respond (m n) x

  -- The rate limit of the client, and the handler.
  unfoldable pub limited_signal : Text → SignalIn → Server s l → Response × Server s l
  limited_signal client signal x =
      let (allowed, counters) = l.hit client c.rate_limit_per_second x.counters in
      let (st, r) = App.post_signal c signal x.world.ingest in
      let limited = record x { counters = counters } in
      if allowed
      then (signal_response r, record limited { world = record x.world { ingest = st } })
      else (too_many_requests, limited)

  -- A body that the schema refuses never gets to the handler.
  unfoldable pub with_body :
      {A : Type 0}
      → Result A
      → (A → Server s l → Response × Server s l)
      → Server s l
      → Response × Server s l
  with_body (ok body) handler x = handler body x
  with_body (err e) handler x = (unprocessable, x)

  -- `POST /signals`.
  unfoldable pub serve_signal : Text → SignalIn → Server s l → Response × Server s l
  unfolding with_body limited_signal
  serve_signal client raw x = with_body (signal_in p raw) (limited_signal client) x

  -- `POST /incidents/{work_item_id}/rca`.
  unfoldable pub serve_rca : ℤ → RcaIn → Server s l → Response × Server s l
  unfolding with_body with_id
  serve_rca i raw x =
      with_body (rca_in p raw) (λ body. with_id i (ok_200 rca) (IncidentsApi.submit_rca s body i)) x

  unfoldable pub serve_endpoint : Text → Endpoint → Server s l → Response × Server s l
  unfolding call with_id with_limit valid_limit serve_signal serve_rca
  serve_endpoint client health x = call health_response (App.health s) x
  serve_endpoint client metrics x = call (ok_200 metrics_out) (App.metrics s) x
  serve_endpoint client (post_signal raw) x = serve_signal client raw x
  serve_endpoint client (list_incidents state severity limit) x =
      with_limit (valid_limit 200 1000 limit) (ok_200 items)
        (IncidentsApi.list_incidents s state severity) x
  serve_endpoint client (live_feed limit) x =
      with_limit (valid_limit 50 200 limit) (ok_200 feed) (IncidentsApi.live_feed s) x
  serve_endpoint client (get_incident i) x =
      with_id i (ok_200 detail) (IncidentsApi.get_incident s i) x
  serve_endpoint client (get_incident_signals i limit) x =
      if valid_id i
      then with_limit (valid_limit 200 1000 limit) (ok_200 signals)
          (IncidentsApi.get_incident_signals s i) x
      else (unprocessable, x)
  serve_endpoint client (transition_incident i body) x =
      with_id i (ok_200 item) (IncidentsApi.transition_incident s body.target_state i) x
  serve_endpoint client (submit_rca i raw) x = serve_rca i raw x
  serve_endpoint client (close_incident i) x =
      with_id i (ok_200 item) (IncidentsApi.close_incident s i) x

  unfoldable pub serve : Request → Server s l → Response × Server s l
  unfolding serve_endpoint
  serve r x = serve_endpoint r.client r.endpoint x

  -- Requests that are served one after the other.
  pub serve_all : List Request → Server s l → Server s l
  serve_all [] x = x
  serve_all (r ∷ rs) x = serve_all rs (serve r x).1

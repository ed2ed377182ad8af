-- ===== src/App/Server/Reads.antt =====
-- What the endpoints that read keep, and those requests that leave the tables alone
-- (backend/app/main.py, backend/app/incidents_api.py).
use ims_prakash.Base.{ℕ, ◌≡◌, refl, inl, inr, Bool, Option, none, some, Bool-cases}
use ims_prakash.Base.Int.{ℤ}
use ims_prakash.Text.{Text}
use ims_prakash.Errors.{Result, ok, err}
use ims_prakash.Effects.{Action, Outcome-cases}
use ims_prakash.Effects.Ensures.{Ensures, Keeps, Keeps-bind, Keeps-pure, Keeps-gets}
use ims_prakash.Config.{Settings}
use ims_prakash.Ingestion.{IngestQueueState}
use ims_prakash.Models.{SignalIn, Pydantic, signal_in}
use ims_prakash.Services.{Services}
use ims_prakash.Services.Laws.{SqlLaws}
use ims_prakash.World.{World}
use ims_prakash.World.Frame.{Keeps-on_redis, Keeps-on_mongo}
use ims_prakash.App
use ims_prakash.App.{probe}
use ims_prakash.App.Server.{
  Limiter, Endpoint, Content, Response, Server, Request, health_response, ok_200, with_body,
  limited_signal, valid_id, call, with_id, with_limit, serve_signal, serve_endpoint, serve,
}
use ims_prakash.World.Tables.{IsReadable, InTables-IsReadable}
use ims_prakash.IncidentsApi.Reads.{
  list_incidents-Keeps, live_feed-Keeps, get_incident-Keeps, get_incident_signals-Keeps,
}

module _ (s : Services) (P : World s → Type 0) (readable : IsReadable {s = s} P) where
  probe-Keeps : (name : Text) (m : Action (World s) Bool) → Keeps P m → Keeps P (probe s name m)
  unfolding probe
  probe-Keeps name m k = record {
    at = λ w h. elim (Outcome-cases (m w)) [
      | inl (a, v, e) ↦ rw e (rw e at (k.at w h))
      | inr (x, v, e) ↦ rw e (rw e at (k.at w h))
    ];
  }

  health-Keeps : Keeps P (App.health s)
  unfolding App.health
  health-Keeps = Keeps-bind (probe-Keeps _ _ readable.ping) (λ postgres.
      Keeps-bind (probe-Keeps _ _ (Keeps-on_mongo readable.aside _)) (λ mongo.
        Keeps-bind (probe-Keeps _ _ (Keeps-on_redis readable.aside _)) (λ redis. Keeps-pure _)))

  metrics-Keeps : Keeps P (App.metrics s)
  unfolding App.metrics
  metrics-Keeps =
      Keeps-bind (Keeps-gets _)
        (λ snap. Keeps-bind (Keeps-on_redis readable.aside _) (λ m. Keeps-pure _))

-- The condition holds of the world, and the counters of the rate limiter are as they were.
abbrev pub Leaves :
    {s : Services} {l : Limiter} → (World s → Type 0) → Server s l → Server s l → Type 0
Leaves P x y = P y.world × (y.counters ≡ x.counters)

module _ (s : Services) (l : Limiter) (p : Pydantic) (c : Settings) (P : World s → Type 0) where
  pub call-Keeps :
      {A : Type 0} (respond : A → Response) (m : Action (World s) A)
      → Keeps P m
      → (x : Server s l) → P x.world
      → Leaves P x (call s l p c respond m x).1
  unfolding call
  call-Keeps respond m k x h = elim (Outcome-cases (m x.world)) [
    | inl (a, w, e) ↦ rw e (rw e at (k.at x.world h), refl)
    | inr (er, w, e) ↦ rw e (rw e at (k.at x.world h), refl)
  ]

  pub with_id-Keeps :
      {A : Type 0} (i : ℤ) (respond : A → Response) (m : Action (World s) A)
      → Keeps P m
      → (x : Server s l) → P x.world
      → Leaves P x (with_id s l p c i respond m x).1
  unfolding with_id
  with_id-Keeps i respond m k x h = elim (Bool-cases (valid_id i)) [
    | inl fine ↦ rw fine (call-Keeps respond m k x h)
    | inr bad ↦ rw bad (h, refl)
  ]

  pub with_limit-Keeps :
      {A : Type 0} (n : Option ℕ) (respond : A → Response) (m : ℕ → Action (World s) A)
      → ((k : ℕ) → Keeps P (m k))
      → (x : Server s l) → P x.world
      → Leaves P x (with_limit s l p c n respond m x).1
  unfolding with_limit
  with_limit-Keeps none respond m k x h = (h, refl)
  with_limit-Keeps (some n) respond m k x h = call-Keeps respond (m n) (k n) x h

module _ (s : Services) (l : Limiter) (p : Pydantic) (c : Settings) (P Q : World s → Type 0)
    (weaken : (w : World s) → P w → Q w) where
  pub with_id-Moves :
      {A : Type 0} (i : ℤ) (respond : A → Response) (m : Action (World s) A)
      → Ensures P (λ _. Q) Q m
      → (x : Server s l) → P x.world
      → Q (with_id s l p c i respond m x).1.world
  unfolding with_id call
  with_id-Moves i respond m k x h = elim (Bool-cases (valid_id i)) [
    | inl fine ↦ elim (Outcome-cases (m x.world)) [
      | inl (a, w, e) ↦ rw (fine, e) (rw e at (k.at x.world h))
      | inr (er, w, e) ↦ rw (fine, e) (rw e at (k.at x.world h))
    ]
    | inr bad ↦ rw bad (weaken x.world h)
  ]

-- The endpoints that only read.
abbrev pub IsRead : Endpoint → Type 0
IsRead (Endpoint.post_signal signal) = ⊥
IsRead (Endpoint.transition_incident i body) = ⊥
IsRead (Endpoint.submit_rca i body) = ⊥
IsRead (Endpoint.close_incident i) = ⊥
IsRead _ = Unit

-- Requests that are not to write in the database.
abbrev pub IsAsideOfTables : Endpoint → Type 0
IsAsideOfTables (Endpoint.post_signal signal) = Unit
IsAsideOfTables e = IsRead e

module _ (s : Services) (l : Limiter) (p : Pydantic) (c : Settings) (P : World s → Type 0)
    (readable : IsReadable {s = s} P) (client : Text) where
  pub read-Keeps :
      (e : Endpoint)
      → IsRead e
      → (x : Server s l) → P x.world
      → Leaves P x (serve_endpoint s l p c client e x).1
  unfolding serve_endpoint
  read-Keeps Endpoint.health r x h =
      call-Keeps s l p c P health_response _ (health-Keeps s P readable) x h
  read-Keeps Endpoint.metrics r x h =
      call-Keeps s l p c P (ok_200 Content.metrics_out) _ (metrics-Keeps s P readable) x h
  read-Keeps (Endpoint.post_signal signal) r x h = absurd r
  read-Keeps (Endpoint.list_incidents state severity limit) r x h =
      with_limit-Keeps s l p c P _ _ _ (list_incidents-Keeps s P readable state severity) x h
  read-Keeps (Endpoint.live_feed limit) r x h =
      with_limit-Keeps s l p c P _ _ _ (live_feed-Keeps s P readable) x h
  read-Keeps (Endpoint.get_incident i) r x h =
      with_id-Keeps s l p c P i _ _ (get_incident-Keeps s P readable i) x h
  read-Keeps (Endpoint.get_incident_signals i limit) r x h = elim (Bool-cases (valid_id i)) [
    | inl fine ↦
        rw fine (with_limit-Keeps s l p c P _ _ _ (get_incident_signals-Keeps s P readable i) x h)
    | inr bad ↦ rw bad (h, refl)
  ]
  read-Keeps (Endpoint.transition_incident i body) r x h = absurd r
  read-Keeps (Endpoint.submit_rca i body) r x h = absurd r
  read-Keeps (Endpoint.close_incident i) r x h = absurd r

module _ (s : Services) (l : Limiter) (p : Pydantic) (c : Settings) where
  pub with_body-Keeps :
      (Q : Server s l → Type 0) {A : Type 0} (r : Result A)
      (handler : A → Server s l → Response × Server s l)
      → (x : Server s l) → ((body : A) → r ≡ ok body → Q (handler body x).1)
      → Q x
      → Q (with_body s l p c r handler x).1
  unfolding with_body
  with_body-Keeps Q (ok body) handler x k h = k body refl
  with_body-Keeps Q (err e) handler x k h = h

  -- What does not look at the ingestion queue.
  pub signal-Keeps :
      (P : World s → Type 0)
      → ((w : World s) (st : IngestQueueState) → P w → P (record w { ingest = st }))
      → (client : Text) (raw : SignalIn) (x : Server s l) → P x.world
      → P (serve_signal s l p c client raw x).1.world
  unfolding serve_signal limited_signal
  signal-Keeps P aside client raw x h =
      with_body-Keeps (λ y. P y.world) (signal_in p raw) (limited_signal s l p c client) x
        (λ signal e. elim (Bool-cases (l.hit client c.rate_limit_per_second x.counters).0) [
          | inl allowed ↦ rw allowed (aside x.world _ h)
          | inr refused ↦ rw refused h
        ])
        h

  module _ (laws : SqlLaws s.sql) where
    read-tables :
        (client : Text) (e : Endpoint)
        → IsRead e
        → (x : Server s l)
        → laws.tables (serve_endpoint s l p c client e x).1.world.db ≡ laws.tables x.world.db
    read-tables client e r x =
        let same = InTables-IsReadable s laws (λ t. t ≡ laws.tables x.world.db) in
        (read-Keeps s l p c _ same client e r x refl).0

    aside-tables :
        (client : Text) (e : Endpoint) (x : Server s l)
        → IsAsideOfTables e
        → laws.tables (serve_endpoint s l p c client e x).1.world.db ≡ laws.tables x.world.db
    unfolding serve_endpoint
    aside-tables client (Endpoint.post_signal raw) x r =
        signal-Keeps (λ w. laws.tables w.db ≡ laws.tables x.world.db) (λ w st g. g) client raw x
          refl
    aside-tables client Endpoint.health x r = read-tables client Endpoint.health tt x
    aside-tables client Endpoint.metrics x r = read-tables client Endpoint.metrics tt x
    aside-tables client (Endpoint.list_incidents state severity limit) x r =
        read-tables client (Endpoint.list_incidents state severity limit) tt x
    aside-tables client (Endpoint.live_feed limit) x r =
        read-tables client (Endpoint.live_feed limit) tt x
    aside-tables client (Endpoint.get_incident i) x r =
        read-tables client (Endpoint.get_incident i) tt x
    aside-tables client (Endpoint.get_incident_signals i limit) x r =
        read-tables client (Endpoint.get_incident_signals i limit) tt x
    aside-tables client (Endpoint.transition_incident i body) x r = absurd r
    aside-tables client (Endpoint.submit_rca i body) x r = absurd r
    aside-tables client (Endpoint.close_incident i) x r = absurd r

    -- With the documented behaviour of PostgreSQL: a request that is not a transition, an RCA or a
    -- close leaves the tables as they are, also where it raises.
    pub serve-tables :
        (r : Request) (x : Server s l)
        → IsAsideOfTables r.endpoint
        → laws.tables (serve s l p c r x).1.world.db ≡ laws.tables x.world.db
    unfolding serve
    serve-tables r x aside = aside-tables r.client r.endpoint x aside

-- ===== src/App/Server/Queue.antt =====
-- What requests of any kind do to the ingestion queue (backend/app/main.py,
-- backend/app/incidents_api.py).
use ims_prakash.Base.{
  ℕ, ◌≡◌, refl, sym, ap, ◌∙◌, inl, inr, Bool, true, false, Option, List, [], ◌∷◌, ◌++◌, Bool-cases,
  if◌then◌else◌,
}
use ims_prakash.Base.Int.{ℤ}
use ims_prakash.Text.{Text}
use ims_prakash.Enums.{closed}
use ims_prakash.Errors.{Result, ok, err}
use ims_prakash.Effects.{Action, Outcome-cases}
use ims_prakash.Effects.Ensures.{Keeps}
use ims_prakash.Config.{Settings}
use ims_prakash.Models.{SignalIn, RcaIn, Pydantic, signal_in, rca_in}
use ims_prakash.Ingestion.{IngestQueueState, offer}
use ims_prakash.Services.{Services}
use ims_prakash.World.{World}
use ims_prakash.World.Quiet.{IsQuiet, quiet_rules}
use ims_prakash.IncidentsApi
use ims_prakash.IncidentsApi.{
  find_item, or_not_found, or_assert, clean_up, store_transition, transition_incident, submit_rca,
  close_incident, list_incidents, live_feed, get_incident, get_incident_signals,
}
use ims_prakash.IncidentsApi.Quiet.{
  transition_incident-IsQuiet, submit_rca-IsQuiet, list_incidents-IsQuiet, live_feed-IsQuiet,
  get_incident-IsQuiet, get_incident_signals-IsQuiet,
}
use ims_prakash.App
use ims_prakash.App.{probe}
use ims_prakash.App.Server.{
  Limiter, Endpoint, Content, Server, Request, health_response, ok_200, valid_id, valid_limit,
  with_limit, with_body, limited_signal, unprocessable, serve_signal, serve_rca, serve_endpoint,
  serve, serve_all,
}
use ims_prakash.App.Server.Reads.{
  Leaves, call-Keeps, with_id-Keeps, with_limit-Keeps, with_body-Keeps,
}

module _ (s : Services) where
  probe-IsQuiet : (name : Text) (m : Action (World s) Bool) → IsQuiet m → IsQuiet (probe s name m)
  unfolding probe
  probe-IsQuiet name m q = record { at = q.at }

  health-IsQuiet : IsQuiet (App.health s)
  unfolding App.health
  health-IsQuiet = search (quiet_rules, probe-IsQuiet)

  metrics-IsQuiet : IsQuiet (App.metrics s)
  unfolding App.metrics
  metrics-IsQuiet = search quiet_rules

  -- A call that leaves the queue alone keeps the queue that it found.
  kept :
      (st : IngestQueueState) {A : Type 0} {m : Action (World s) A}
      → IsQuiet m
      → Keeps (λ w. w.ingest ≡ st) m
  kept st {m = m} q = record {
    at = λ w h. elim (Outcome-cases (m w)) [
      | inl (a, v, e) ↦ rw e ((rw e at (q.at w)) ∙ h)
      | inr (x, v, e) ↦ rw e ((rw e at (q.at w)) ∙ h)
    ];
  }

-- The rate limit and the schema alone, beside any handler.
module _ (l : Limiter) (p : Pydantic) (c : Settings) where
  -- Whether the signal of one request passes, and the counters then.
  limited : Text → Result SignalIn → l.Counters → List SignalIn × l.Counters
  limited client (err e) counters = ([], counters)
  limited client (ok signal) counters =
      let (allowed, after) = l.hit client c.rate_limit_per_second counters in
      (if allowed then signal ∷ [] else [], after)

  pub passed_by : Text → Endpoint → l.Counters → List SignalIn × l.Counters
  unfolding limited
  passed_by client (Endpoint.post_signal raw) counters = limited client (signal_in p raw) counters
  passed_by client e counters = ([], counters)

  -- The signals of the requests that the schema accepts within the limit of their client, in order.
  pub passed : List Request → l.Counters → List SignalIn
  unfolding passed_by
  passed [] counters = []
  passed (r ∷ rs) counters =
      let (signals, after) = passed_by r.client r.endpoint counters in signals ++ passed rs after

respond-queue : (o : IngestQueueState × Bool) → (App.respond o).0 ≡ o.0
unfolding App.respond
respond-queue (st, true) = refl
respond-queue (st, false) = refl

-- One offer after the other.
unfoldable pub offer_each : Settings → List SignalIn → IngestQueueState → IngestQueueState
offer_each c [] st = st
offer_each c (x ∷ xs) st = offer_each c xs (offer c x st).0

offer_each-append :
    (c : Settings) (xs ys : List SignalIn) (st : IngestQueueState)
    → offer_each c (xs ++ ys) st ≡ offer_each c ys (offer_each c xs st)
unfolding offer_each
offer_each-append c [] ys st = refl
offer_each-append c (x ∷ xs) ys st = offer_each-append c xs ys (offer c x st).0

module _ (s : Services) (l : Limiter) (p : Pydantic) (c : Settings) where
  -- What one request does to the queue and to the counters.
  Offers : List SignalIn × l.Counters → Server s l → Server s l → Type 0
  Offers o x y = (y.world.ingest ≡ offer_each c o.0 x.world.ingest) × (y.counters ≡ o.1)

  limited_signal-Offers :
      (client : Text) (raw : Result SignalIn) (x : Server s l)
      → Offers
          (limited l p c client raw x.counters)
          x
          (with_body s l p c raw (limited_signal s l p c client) x).1
  unfolding Offers with_body limited_signal limited offer_each App.post_signal
  limited_signal-Offers client (err e) x = (refl, refl)
  limited_signal-Offers client (ok signal) x =
      elim (Bool-cases (l.hit client c.rate_limit_per_second x.counters).0) [
        | inl allowed ↦ rw allowed (respond-queue (offer c signal x.world.ingest), refl)
        | inr refused ↦ rw refused (refl, refl)
      ]

  serve_rca-quiet :
      (i : ℤ) (raw : RcaIn) (x : Server s l)
      → Leaves (λ w. w.ingest ≡ x.world.ingest) x (serve_rca s l p c i raw x).1
  unfolding serve_rca
  serve_rca-quiet i raw x =
      with_body-Keeps s l p c (Leaves (λ w. w.ingest ≡ x.world.ingest) x) (rca_in p raw) _ x
        (λ body e.
          with_id-Keeps s l p c _ i (ok_200 Content.rca) _
            (kept s x.world.ingest (submit_rca-IsQuiet s body i)) x refl)
        (refl, refl)

  serve_signals-quiet :
      (i : ℤ) (limit : Option ℕ) (x : Server s l)
      → Leaves
          (λ w. w.ingest ≡ x.world.ingest)
          x
          (if valid_id i
            then with_limit s l p c limit
                (ok_200 Content.signals)
                (IncidentsApi.get_incident_signals s i)
                x
            else (unprocessable, x)).1
  serve_signals-quiet i limit x = elim (Bool-cases (valid_id i)) [
    | inl fine ↦ rw fine (
        with_limit-Keeps s l p c _ limit (ok_200 Content.signals) _
          (λ n. kept s x.world.ingest (get_incident_signals-IsQuiet s i n)) x refl)
    | inr bad ↦ rw bad (refl, refl)
  ]

  serve_endpoint-Offers :
      (client : Text) (e : Endpoint) (x : Server s l)
      → Offers (passed_by l p c client e x.counters) x (serve_endpoint s l p c client e x).1
  unfolding Offers passed_by serve_endpoint serve_signal offer_each close_incident
  serve_endpoint-Offers client Endpoint.health x =
      call-Keeps s l p c _ health_response _ (kept s x.world.ingest (health-IsQuiet s)) x refl
  serve_endpoint-Offers client Endpoint.metrics x =
      call-Keeps s l p c _ (ok_200 Content.metrics_out) _
        (kept s x.world.ingest (metrics-IsQuiet s)) x refl
  serve_endpoint-Offers client (Endpoint.post_signal raw) x =
      limited_signal-Offers client (signal_in p raw) x
  serve_endpoint-Offers client (Endpoint.list_incidents state severity limit) x =
      with_limit-Keeps s l p c _ (valid_limit 200 1000 limit) (ok_200 Content.items) _
        (λ n. kept s x.world.ingest (list_incidents-IsQuiet s state severity n)) x refl
  serve_endpoint-Offers client (Endpoint.live_feed limit) x =
      with_limit-Keeps s l p c _ (valid_limit 50 200 limit) (ok_200 Content.feed) _
        (λ n. kept s x.world.ingest (live_feed-IsQuiet s n)) x refl
  serve_endpoint-Offers client (Endpoint.get_incident i) x =
      with_id-Keeps s l p c _ i (ok_200 Content.detail) _
        (kept s x.world.ingest (get_incident-IsQuiet s i)) x refl
  serve_endpoint-Offers client (Endpoint.get_incident_signals i limit) x =
      serve_signals-quiet i (valid_limit 200 1000 limit) x
  serve_endpoint-Offers client (Endpoint.transition_incident i body) x =
      with_id-Keeps s l p c _ i (ok_200 Content.item) _
        (kept s x.world.ingest (transition_incident-IsQuiet s body.target_state i)) x refl
  serve_endpoint-Offers client (Endpoint.submit_rca i raw) x = serve_rca-quiet i raw x
  serve_endpoint-Offers client (Endpoint.close_incident i) x =
      with_id-Keeps s l p c _ i (ok_200 Content.item) _
        (kept s x.world.ingest (transition_incident-IsQuiet s closed i)) x refl

  -- One request offers the signals that pass.
  pub serve-Offers :
      (r : Request) (x : Server s l)
      → ((serve s l p c r x).1.world.ingest
          ≡ offer_each c (passed_by l p c r.client r.endpoint x.counters).0 x.world.ingest)
        × ((serve s l p c r x).1.counters ≡ (passed_by l p c r.client r.endpoint x.counters).1)
  unfolding serve Offers
  serve-Offers r x = serve_endpoint-Offers r.client r.endpoint x

  -- However many requests of any kind are served one after the other, and whichever of their calls
  -- raise, the queue and its counters are then what comes of offering, in order, the signals that the
  -- schema accepts within the limit of their client.
  pub serve_all-ingest :
      (rs : List Request) (x : Server s l)
      → (serve_all s l p c rs x).world.ingest
        ≡ offer_each c (passed l p c rs x.counters) x.world.ingest
  unfolding serve_all passed offer_each
  serve_all-ingest [] x = refl
  serve_all-ingest (r ∷ rs) x =
      let o = passed_by l p c r.client r.endpoint x.counters in
      let y = (serve s l p c r x).1 in
      let (same, counted) = serve-Offers r x in
      serve_all-ingest rs y
      ∙ ap (λ k. offer_each c (passed l p c rs k) y.world.ingest) counted
      ∙ ap (offer_each c (passed l p c rs o.1)) same
      ∙ sym (offer_each-append c o.0 (passed l p c rs o.1) x.world.ingest)

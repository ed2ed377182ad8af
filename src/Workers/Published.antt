-- ===== src/Workers/Published.antt =====
-- The rates that the measuring loop of backend/app/workers.py writes to Redis, as `/metrics` of
-- backend/app/main.py reads them.
use ims_prakash.Base.{ℕ, ◌≡◌, sym, ap, ◌∙◌, Option, none, some, List, [], ◌∷◌, map, if◌then◌else◌}
use ims_prakash.Text.{Text, text_eq}
use ims_prakash.Datetime.{Datetime}
use ims_prakash.Errors.{Result, ok}
use ims_prakash.Effects.{pure, gets, >>=-eq-ok}
use ims_prakash.Config.{Settings}
use ims_prakash.Ingestion.{IngestQueueState, Snapshot, snapshot}
use ims_prakash.Services.{Services, Redis, Clock}
use ims_prakash.World.{World, on_redis, on_redis-eq, clock_now}
use ims_prakash.Retry.Returned.{retry_async_returned}
use ims_prakash.Storage.RedisCache.{MetricValue, str_value, set_metrics, get_metrics, metrics_key}
use ims_prakash.Workers.{publish, throughput_metrics}
use ims_prakash.App.{metrics}

-- The value of a key in a dict.
abbrev pub get_field : Text → List (Text × Text) → Option Text
get_field f [] = none
get_field f ((k, v) ∷ rest) = if text_eq k f then some v else get_field f rest

-- What `get_field` finds, or else what was there.
abbrev pub or_else : Option Text → Option Text → Option Text
or_else (some v) old = some v
or_else none old = old

-- A hash of Redis: HSET sets the fields that it is given and keeps the others.
pub record HashLaws (r : Redis) : Type 0 where
  pub field : Text → Text → r.Store → Option Text
  pub hset_field :
      (k f : Text) (kvs : List (Text × Text)) (t u : r.Store)
      → r.hset k kvs t ≡ (ok tt, u)
      → field k f u ≡ or_else (get_field f kvs) (field k f t)
  pub hgetall_field :
      (k f : Text) (kvs : List (Text × Text)) (t u : r.Store)
      → r.hgetall k t ≡ (ok kvs, u)
      → get_field f kvs ≡ field k f t

abbrev pub written : List (Text × MetricValue) → List (Text × Text)
written = map (λ (kv : Text × MetricValue). (kv.0, str_value kv.1))

got_eq :
    {s : Services} {A : Type 0} {a b : A} {w v : World s}
    → ◌≡◌ {A = Result A × World s} (ok a, w) (ok b, v)
    → (a ≡ b) × (w ≡ v)
got_eq h = (cc, cc)

clock_now-eq :
    {s : Services} (w v : World s) {d : Datetime}
    → clock_now w ≡ (ok d, v)
    → (Clock.now s.clock w.time).0 ≡ d
unfolding clock_now
clock_now-eq w v h = (got_eq h).0

module _ (s : Services) (laws : HashLaws s.redis) where
  -- What was set last is what is read.
  set_metrics-get_metrics :
      (ms : List (Text × MetricValue)) (kvs : List (Text × Text)) (t u v : Redis.Store s.redis)
      (f x : Text)
      → set_metrics s.redis ms t ≡ (ok tt, u)
      → get_metrics s.redis u ≡ (ok kvs, v)
      → get_field f (written ms) ≡ some x
      → get_field f kvs ≡ some x
  unfolding set_metrics get_metrics
  set_metrics-get_metrics ms kvs t u v f x set got there =
      laws.hgetall_field metrics_key f kvs u v got
      ∙ laws.hset_field metrics_key f (written ms) t u set
      ∙ ap (λ (o : Option Text). or_else o (laws.field metrics_key f t)) there

  metrics-ok :
      (w v : World s) (snap : Snapshot) (kvs : List (Text × Text))
      → metrics s w ≡ (ok (snap, kvs), v)
      → (snap ≡ snapshot w.ingest) × (get_metrics s.redis w.redis ≡ (ok kvs, v.redis))
  unfolding metrics gets pure
  metrics-ok w v snap kvs h =
      let (sn, w1, e1, h1) = >>=-eq-ok (gets (λ (x : World s). snapshot x.ingest)) _ w h in
      let (got, w2, e2, h2) = >>=-eq-ok (on_redis (get_metrics s.redis)) _ w1 h1 in
      let (is_snap, same) = got_eq e1 in
      let (is_pair, last) = got_eq h2 in
      let read : get_metrics s.redis w1.redis ≡ (ok got, w2.redis) =
        on_redis-eq (get_metrics s.redis) w1 w2 (ok got) e2 in
      (
        sym (is_snap ∙ ap (λ (p : Snapshot × List (Text × Text)). p.0) is_pair),
        ap (λ (x : World s). get_metrics s.redis x.redis) same
            ∙ read
            ∙ (λ j. (ok (is_pair j).1, (last j).redis)),
      )

  module _ (c : Settings) (st : IngestQueueState) (accepted_window processed_window : ℕ) where
    -- With Redis's hashes as documented: where a publication of the measuring loop returned and
    -- `/metrics` answers next, the answer has the queue's figures at that time, and under
    -- `throughput` every field with the text that was published.
    pub publish-metrics :
        (w v u : World s) (snap : Snapshot) (kvs : List (Text × Text)) (f x : Text)
        → publish s c st accepted_window processed_window w ≡ (ok tt, v)
        → metrics s v ≡ (ok (snap, kvs), u)
        → get_field f (
            written (
              throughput_metrics s c st accepted_window processed_window
                (Clock.isoformat s.clock (Clock.now s.clock w.time).0)))
          ≡ some x
        → (snap ≡ snapshot v.ingest) × (get_field f kvs ≡ some x)
    unfolding publish
    publish-metrics w v u snap kvs f x published answered there =
        let (now, w1, reading, h1) = >>=-eq-ok clock_now _ w published in
        let ms =
          throughput_metrics s c st accepted_window processed_window
            (Clock.isoformat s.clock now) in
        let (before, set) = retry_async_returned (on_redis (set_metrics s.redis ms)) tt v w1 h1 in
        let (same, read) = metrics-ok v u snap kvs answered in
        let stored = on_redis-eq (set_metrics s.redis ms) before v (ok tt) set in
        (
          same,
          set_metrics-get_metrics ms kvs before.redis v.redis u.redis f x stored read (
              ap
                (λ (d : Datetime). get_field f (
                  written (
                    throughput_metrics s c st accepted_window processed_window
                      (Clock.isoformat s.clock d))))
                (sym (clock_now-eq w w1 reading))
              ∙ there),
        )

-- ===== src/World/Quiet.antt =====
-- Calls that leave the queue and its counters alone, with a rule for each way that calls are put
-- together.
use ims_prakash.Base.{◌≡◌, refl, ◌∙◌, Bool, true, false, if◌then◌else◌}
use ims_prakash.Errors.{Error, Result, ok, err}
use ims_prakash.Effects.{Action, pure, raise, lift, gets, ◌>>=◌, catch, continue, rescue}
use ims_prakash.Ingestion.{IngestQueueState}
use ims_prakash.Services.{Services, Redis, Mongo, Sql}
use ims_prakash.World.{World, Effect, on_redis, on_mongo, on_db, emit, clock_now}

module _ {s : Services} where
  -- The call leaves the queue and the counters alone.
  pub record IsQuiet {A : Type 0} (m : Action (World s) A) : Type 0 where
    pub at : (w : World s) → (m w).1.ingest ≡ w.ingest

  pub IsQuiet-bind :
      {A B : Type 0} {m : Action (World s) A} {f : A → Action (World s) B}
      → IsQuiet m
      → ((a : A) → IsQuiet (f a))
      → IsQuiet (m >>= f)
  unfolding ◌>>=◌
  IsQuiet-bind {A} {B} {m = m} {f = f} qm qf = record { at = λ w. go (m w) (qm.at w) }
    where
      go :
          {i : IngestQueueState} (o : Result A × World s)
          → o.1.ingest ≡ i
          → (continue o f).1.ingest ≡ i
      go (ok a, v) h = (qf a).at v ∙ h
      go (err e, v) h = h

  pub IsQuiet-catch :
      {A : Type 0} {m : Action (World s) A} {h : Error → Action (World s) A}
      → IsQuiet m
      → ((e : Error) → IsQuiet (h e))
      → IsQuiet (catch m h)
  unfolding catch
  IsQuiet-catch {A} {m = m} {h = h} qm qh = record { at = λ w. go (m w) (qm.at w) }
    where
      go :
          {i : IngestQueueState} (o : Result A × World s)
          → o.1.ingest ≡ i
          → (rescue o h).1.ingest ≡ i
      go (ok a, v) e = e
      go (err x, v) e = (qh x).at v ∙ e

  pub IsQuiet-if :
      {A : Type 0} (b : Bool) {m n : Action (World s) A}
      → IsQuiet m
      → IsQuiet n
      → IsQuiet (if b then m else n)
  IsQuiet-if true qm qn = qm
  IsQuiet-if false qm qn = qn

  pub IsQuiet-pure : {A : Type 0} (a : A) → IsQuiet (pure a)
  unfolding pure
  IsQuiet-pure a = record { at = λ w. refl }

  pub IsQuiet-raise : {A : Type 0} (e : Error) → IsQuiet (raise {A = A} e)
  unfolding raise
  IsQuiet-raise e = record { at = λ w. refl }

  pub IsQuiet-lift : {A : Type 0} (r : Result A) → IsQuiet (lift r)
  unfolding lift
  IsQuiet-lift (ok a) = record { at = λ w. refl }
  IsQuiet-lift (err e) = record { at = λ w. refl }

  pub IsQuiet-emit : (x : Effect) → IsQuiet (emit x)
  unfolding emit
  IsQuiet-emit x = record { at = λ w. refl }

  pub IsQuiet-gets : {A : Type 0} (f : World s → A) → IsQuiet (gets f)
  unfolding gets
  IsQuiet-gets f = record { at = λ w. refl }

  pub IsQuiet-clock_now : IsQuiet clock_now
  unfolding clock_now
  IsQuiet-clock_now = record { at = λ w. refl }

  pub IsQuiet-on_redis : {A : Type 0} (m : Action (Redis.Store s.redis) A) → IsQuiet (on_redis m)
  unfolding on_redis
  IsQuiet-on_redis m = record { at = λ w. refl }

  pub IsQuiet-on_mongo : {A : Type 0} (m : Action (Mongo.Store s.mongo) A) → IsQuiet (on_mongo m)
  unfolding on_mongo
  IsQuiet-on_mongo m = record { at = λ w. refl }

  pub IsQuiet-on_db : {A : Type 0} (m : Action (Sql.Db s.sql) A) → IsQuiet (on_db m)
  unfolding on_db
  IsQuiet-on_db m = record { at = λ w. refl }

pub ruleset quiet_rules = (
  IsQuiet-bind, IsQuiet-catch, IsQuiet-if, IsQuiet-pure, IsQuiet-raise, IsQuiet-lift, IsQuiet-emit,
  IsQuiet-gets, IsQuiet-clock_now, IsQuiet-on_redis, IsQuiet-on_mongo, IsQuiet-on_db,
)

-- ===== src/World/Frame.antt =====
-- Conditions on the world that calls on the other servers, the log and the clock leave alone.
use ims_prakash.Base.{List, inl, inr}
use ims_prakash.Effects.{Action, Outcome, Outcome-cases}
use ims_prakash.Effects.Ensures.{Ensures, Keeps}
use ims_prakash.Services.{Services, Redis, Mongo, Sql, Clock}
use ims_prakash.World.{World, Effect, on_redis, on_mongo, on_db, emit, clock_now}

-- The condition does not look at Redis, MongoDB, the clock and the log.
pub record IsAside {s : Services} (P : World s → Type 0) : Type 0 where
  pub redis : (w : World s) (t : Redis.Store s.redis) → P w → P (record w { redis = t })
  pub mongo : (w : World s) (t : Mongo.Store s.mongo) → P w → P (record w { mongo = t })
  pub time : (w : World s) (t : Clock.Time s.clock) → P w → P (record w { time = t })
  pub effects : (w : World s) (t : List Effect) → P w → P (record w { effects = t })

module _ {s : Services} {P : World s → Type 0} (aside : IsAside {s = s} P) where
  pub Keeps-on_redis : {A : Type 0} (m : Action (Redis.Store s.redis) A) → Keeps P (on_redis m)
  unfolding on_redis
  Keeps-on_redis m = record {
    at = λ w h. elim (Outcome-cases (m w.redis)) [
      | inl (a, t, e) ↦ rw e (aside.redis w t h)
      | inr (x, t, e) ↦ rw e (aside.redis w t h)
    ];
  }

  pub Keeps-on_mongo : {A : Type 0} (m : Action (Mongo.Store s.mongo) A) → Keeps P (on_mongo m)
  unfolding on_mongo
  Keeps-on_mongo m = record {
    at = λ w h. elim (Outcome-cases (m w.mongo)) [
      | inl (a, t, e) ↦ rw e (aside.mongo w t h)
      | inr (x, t, e) ↦ rw e (aside.mongo w t h)
    ];
  }

  pub Keeps-emit : (x : Effect) → Keeps P (emit x)
  unfolding emit
  Keeps-emit x = record { at = λ w h. aside.effects w _ h }

  pub Keeps-clock_now : Keeps P clock_now
  unfolding clock_now
  Keeps-clock_now = record { at = λ w h. aside.time w _ h }

-- What a call on the database does, in the world.
module _ {s : Services} {A : Type 0} (Pre Fail : Sql.Db s.sql → Type 0)
    (Post : A → Sql.Db s.sql → Type 0) where
  pub Ensures-on_db :
      (m : Action (Sql.Db s.sql) A)
      → ((d : Sql.Db s.sql) → Pre d → Outcome Fail Post (m d))
      → Ensures {W = World s} (λ w. Pre w.db) (λ a w. Post a w.db) (λ w. Fail w.db) (on_db m)
  unfolding on_db
  Ensures-on_db m h = record {
    at = λ w p. elim (Outcome-cases (m w.db)) [
      | inl (a, d, e) ↦ rw e (rw e at (h w.db p))
      | inr (x, d, e) ↦ rw e (rw e at (h w.db p))
    ];
  }

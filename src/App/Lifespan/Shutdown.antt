-- ===== src/App/Lifespan/Shutdown.antt =====
-- What a shutdown of the process leaves (backend/app/main.py).
use ims_prakash.Base.{
  ◌≡◌, refl, ◌∙◌, inl, inr, none, some, List, [], ◌∷◌, ◌++◌, map, length, All, arith, Option-cases,
}
use ims_prakash.Errors.{Error, ok, err}
use ims_prakash.Effects.{◌>>=◌}
use ims_prakash.Config.{Settings}
use ims_prakash.Storage.Clients.{Drivers, Clients, close_engine, close_mongo, close_redis}
use ims_prakash.Workers.Tasks.{
  ended, Task, Pool, stop_workers, cancel, cancel_throughput, await_end,
}
use ims_prakash.App.Lifespan.{Process, shutdown}

abbrev pub IsEnded : Task → Type 0
IsEnded t = t.status ≡ ended

length-stopped : (ts : List Task) → length (map await_end (map cancel ts)) ≡ length ts
length-stopped [] = refl
length-stopped (t ∷ ts) = rw (length-stopped ts)

stopped-IsEnded : (ts : List Task) → All IsEnded (map await_end (map cancel ts))
unfolding await_end
stopped-IsEnded [] = tt
stopped-IsEnded (t ∷ ts) = (refl, stopped-IsEnded ts)

-- What a shutdown has done to the tasks: the workers that were there ended, and the throughput
-- task was asked to end.
pub record IsStopped (before after : Pool) : Type 0 where
  pub none_left : after.workers ≡ []
  pub ended_workers :
      (ts : List Task) × (after.released ≡ before.released ++ ts)
      × (length ts ≡ length before.workers)
      × All IsEnded ts
  pub throughput : after.throughput ≡ cancel_throughput before.throughput

stop_workers-IsStopped : (p : Pool) → IsStopped p (stop_workers p)
unfolding stop_workers
stop_workers-IsStopped p = record {
  none_left = refl;
  ended_workers = (
    map await_end (map cancel p.workers),
    refl,
    length-stopped p.workers,
    stopped-IsEnded p.workers,
  );
  throughput = refl;
}

module _ (d : Drivers) (c : Settings) where
  close_mongo_lem :
      (v : Clients d)
      → ((close_mongo d c v).mongo ≡ none)
        × ((close_mongo d c v).redis ≡ v.redis)
        × ((close_mongo d c v).engine ≡ v.engine)
  unfolding close_mongo
  close_mongo_lem v = elim (Option-cases v.mongo) [
    | inl e ↦ rw e (refl, refl, refl)
    | inr (m, e) ↦ rw e (refl, refl, refl)
  ]

  closes_engine :
      (v : Clients d)
      → ((e : d.Engine) → d.dispose e ≡ ok tt)
      → (u : Clients d) × (close_engine d c v ≡ (ok tt, u)) × (u.engine ≡ none)
  unfolding close_engine
  closes_engine v disposes = elim (Option-cases v.engine) [
    | inl e ↦ (v, rw e refl, e)
    | inr (x, e) ↦
        (record v { engine = none; sessionmaker = none }, ground (arith, e, disposes x), refl)
  ]

  closes_redis :
      (v : Clients d)
      → ((r : d.RedisClient) → d.aclose r ≡ ok tt)
      → (u : Clients d) × (close_redis d c v ≡ (ok tt, u))
        × (u.redis ≡ none)
        × (u.engine ≡ v.engine)
        × (u.mongo ≡ v.mongo)
  unfolding close_redis
  closes_redis v closes = elim (Option-cases v.redis) [
    | inl e ↦ (v, rw e refl, e, refl, refl)
    | inr (x, e) ↦ (record v { redis = none }, ground (arith, e, closes x), refl, refl, refl)
  ]

  -- With an engine and a Redis client that close, a shutdown never raises, lets go of every client,
  -- and stops the tasks: every worker has ended, and the throughput task was asked to end.
  pub shutdown-IsStopped :
      (p : Process d)
      → ((e : d.Engine) → d.dispose e ≡ ok tt)
      → ((r : d.RedisClient) → d.aclose r ≡ ok tt)
      → ((shutdown d c p).0 ≡ ok tt)
        × ((shutdown d c p).1.clients.engine ≡ none)
        × ((shutdown d c p).1.clients.mongo ≡ none)
        × ((shutdown d c p).1.clients.redis ≡ none)
        × IsStopped p.pool (shutdown d c p).1.pool
  unfolding shutdown ◌>>=◌
  shutdown-IsStopped p disposes closes =
      let (v, ev, no_engine) = closes_engine p.clients disposes in
      let (mongo, redis, engine) = close_mongo_lem v in
      let (u, eu, no_redis, same_engine, same_mongo) = closes_redis (close_mongo d c v) closes in
      rw (ev, eu)
        (
          refl,
          same_engine ∙ engine ∙ no_engine,
          same_mongo ∙ mongo,
          no_redis,
          stop_workers-IsStopped p.pool,
        )

  -- Where disposing of the engine raises, the shutdown raises that: the tasks are stopped, and no
  -- client is let go of.
  pub shutdown_raises :
      (p : Process d) (e : d.Engine) (x : Error)
      → p.clients.engine ≡ some e
      → d.dispose e ≡ err x
      → ((shutdown d c p).0 ≡ err x)
        × ((shutdown d c p).1.clients ≡ p.clients)
        × IsStopped p.pool (shutdown d c p).1.pool
  unfolding shutdown ◌>>=◌
  shutdown_raises p e x there raises =
      rw (kept p.clients there) (refl, refl, stop_workers-IsStopped p.pool)
    where
      kept : (v : Clients d) → v.engine ≡ some e → close_engine d c v ≡ (err x, v)
      kept v h = unfold close_engine in ground (arith, h, raises)

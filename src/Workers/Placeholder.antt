-- ===== src/Workers/Placeholder.antt =====
-- What a worker does with what it reads from the window of a component (backend/app/workers.py and
-- backend/app/storage/redis_cache.py).
use ims_prakash.Datetime.{Datetime}
use ims_prakash.Base.{ℕ, ◌≡◌, refl, false, some, [], ◌∷◌, ◌++◌}
use ims_prakash.Base.Int.{ℤ}
use ims_prakash.Text.{Text, codes, strip, lstrip, rstrip, trim_end, is_space}
use ims_prakash.Text.Decimal.{int_of, str_int, read_signed, read_nat, scan}
use ims_prakash.Text.Decimal.RoundTrip.{int_of-str_int, str_int-truthy}
use ims_prakash.Errors.{ok, err, value_error}
use ims_prakash.Effects.{◌>>=◌}
use ims_prakash.Config.{Settings}
use ims_prakash.Models.{SignalIn}
use ims_prakash.Services.{Services, Redis, Mongo, Clock}
use ims_prakash.World.{World, on_redis, on_mongo, clock_now}
use ims_prakash.Storage.RedisCache.{get_open_work_item, dedup_key, set_if_absent}
use ims_prakash.Storage.MongoStore.{insert_signal}
use ims_prakash.Retry.Attempts.{retry_async_first}
use ims_prakash.Workers.{placeholder, raw_doc, process_one}

trim_end_clean : (c : ℕ) (t : Text) → is_space c ≡ false → trim_end c t ≡ c ∷ t
unfolding trim_end
trim_end_clean c [] h = rw h
trim_end_clean c (d ∷ t) h = refl

strip-p : (t : Text) → strip (b'p' ∷ t) ≡ b'p' ∷ rstrip t
unfolding strip lstrip rstrip is_space
strip-p t = trim_end_clean b'p' (rstrip t) refl

-- `int` of the placeholder raises, whatever the id of the document.
pub int_of-placeholder : (id : Text) → int_of (placeholder id) ≡ err value_error
unfolding int_of read_signed read_nat scan
int_of-placeholder id = let t : Text = codes "ending:" ++ id in rw (strip-p t, int_of)

module _ (r : Redis) (component : Text) (t u : r.Store) where
  -- A number that was written into the window is read back as that number.
  get_open_work_item-number :
      (z : ℤ)
      → r.get (dedup_key component) t ≡ (ok (some (str_int z)), u)
      → get_open_work_item r component t ≡ (ok (some z), u)
  unfolding get_open_work_item ◌>>=◌
  get_open_work_item-number z h = rw (h, str_int-truthy z, int_of-str_int z)

  -- While the window holds the placeholder of the worker that won it, reading it raises a
  -- `ValueError`.
  get_open_work_item-placeholder :
      (id : Text)
      → r.get (dedup_key component) t ≡ (ok (some (placeholder id)), u)
      → get_open_work_item r component t ≡ (err value_error, u)
  unfolding get_open_work_item ◌>>=◌
  get_open_work_item-placeholder id h = rw (h, int_of-placeholder id)

-- A second worker of the same component, whose document was stored at the first attempt and which
-- did not win the window.
module _ (s : Services) (c : Settings) (sig : SignalIn) (w : World s) where
  abbrev read_clock : Datetime × Clock.Time s.clock
  read_clock = Clock.now s.clock w.time

  pub record LosesWindow (m : Mongo.Store s.mongo) (t u : Redis.Store s.redis) (found : Text)
      : Type 0 where
    pub id : Text
    pub stored : insert_signal s.mongo (raw_doc sig read_clock.0) w.mongo ≡ (ok id, m)
    pub lost :
        s.redis.set
          (dedup_key sig.component_id)
          (placeholder id)
          (set_if_absent c.dedup_window_seconds)
          w.redis
        ≡ (ok false, t)
    pub read : s.redis.get (dedup_key sig.component_id) t ≡ (ok (some found), u)

  -- For a second worker whose document was stored at the first attempt, which did not win the
  -- window, and which reads the placeholder of the first: its processing raises a `ValueError`,
  -- its document stays without a work item, and neither the database nor a counter is touched.
  pub process_one-placeholder :
      (m : Mongo.Store s.mongo) (t u : Redis.Store s.redis) (other : Text)
      → LosesWindow m t u (placeholder other)
      → process_one s c sig w
        ≡ (err value_error, record w { mongo = m; redis = u; time = read_clock.1 })
  unfolding process_one ◌>>=◌ clock_now on_mongo on_redis
  process_one-placeholder m t u other h =
      let v : World s = record w { time = read_clock.1 } in
      let insert = on_mongo {s = s} (insert_signal s.mongo (raw_doc sig read_clock.0)) in
      let first = retry_async_first insert v (record v { mongo = m }) h.id (rw h.stored) in
      rw (first, h.lost, get_open_work_item-placeholder s.redis sig.component_id t u other h.read)

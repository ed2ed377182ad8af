-- ===== src/Storage/RedisCache.antt =====
-- backend/app/storage/redis_cache.py.
pub mod LiveFeed
pub mod Removal
use ims_prakash.Base.{
  ℕ, ◌-◌, Bool, true, false, Option, none, some, List, [], ◌∷◌, ◌++◌, map, if◌then◌else◌,
}
use ims_prakash.Base.Int.{ℤ}
use ims_prakash.Text.{Text, codes, truthy, startswith, text_eq}
use ims_prakash.Text.Decimal.{str_of, str_int, str_fixed, int_of}
use ims_prakash.Errors.{ok}
use ims_prakash.Effects.{Action, pure, lift, ◌>>=◌, ◌>>◌}
use ims_prakash.Services.{Redis, SetOptions}

abbrev pub dedup_key : Text → Text
dedup_key component_id = codes "dedup:" ++ component_id

abbrev pub live_feed_key : Text
live_feed_key = codes "live_feed"

abbrev pub metrics_key : Text
metrics_key = codes "metrics:throughput"

-- `SEVERITY_SCORE.get(severity, 0)`.
unfoldable pub severity_score : Text → ℕ
severity_score severity =
    if text_eq severity (codes "INFO")
    then 1
    else if text_eq severity (codes "WARN")
    then 2
    else if text_eq severity (codes "ERROR")
    then 3
    else if text_eq severity (codes "CRITICAL")
    then 4
    else 0

-- `f"{work_item_id}|"`, with which the members of an item begin.
unfoldable pub feed_prefix : ℤ → Text
feed_prefix work_item_id = str_int work_item_id ++ b'|' ∷ []

-- `f"{work_item_id}|{payload}"`.
unfoldable pub feed_member : ℤ → Text → Text
feed_member work_item_id payload = str_int work_item_id ++ b'|' ∷ payload

abbrev pub plain_set : ℕ → SetOptions
plain_set ttl = record { nx = false; xx = false; ex = some ttl }

abbrev pub set_if_absent : ℕ → SetOptions
set_if_absent ttl = record { nx = true; xx = false; ex = some ttl }

abbrev pub set_if_present : ℕ → SetOptions
set_if_present ttl = record { nx = false; xx = true; ex = some ttl }

-- What `set_metrics` is given: a count, a rounded float with its number of places, or a text.
pub data MetricValue : Type 0 where
  count : ℕ → MetricValue
  fixed : ℕ → ℕ → MetricValue
  text : Text → MetricValue

unfoldable pub str_value : MetricValue → Text
unfolding str_of str_fixed
str_value (count n) = str_of n
str_value (fixed places n) = str_fixed places n
str_value (text t) = t

module _ (r : Redis) where
  unfoldable pub claim_dedup_window : Text → ℤ → ℕ → Action r.Store Bool
  claim_dedup_window component_id work_item_id ttl_seconds =
      r.set (dedup_key component_id) (str_int work_item_id) (set_if_absent ttl_seconds)

  -- `int(val) if val else None`.
  unfoldable pub parse_item : Option Text → Action r.Store (Option ℤ)
  parse_item none = pure none
  parse_item (some val) =
      if truthy val then (do z ← lift (int_of val); pure (some z)) else pure none

  unfoldable pub get_open_work_item : Text → Action r.Store (Option ℤ)
  unfolding parse_item
  get_open_work_item component_id = do val ← r.get (dedup_key component_id); parse_item val

  unfoldable pub clear_dedup : Text → Action r.Store (Unit {0})
  clear_dedup component_id = r.delete (dedup_key component_id)

  unfoldable pub push_live_feed : ℤ → Text → Text → Action r.Store (Unit {0})
  unfolding severity_score feed_member
  push_live_feed work_item_id severity payload =
      r.zadd live_feed_key (feed_member work_item_id payload) (severity_score severity)

  unfoldable pub remove_members : ℤ → List Text → Action r.Store (Unit {0})
  unfolding feed_prefix
  remove_members work_item_id [] = pure tt
  remove_members work_item_id (m ∷ ms) =
      let rest = remove_members work_item_id ms in
      if startswith m (feed_prefix work_item_id) then (do r.zrem live_feed_key m; rest) else rest

  unfoldable pub remove_from_live_feed : ℤ → Action r.Store (Unit {0})
  unfolding remove_members
  remove_from_live_feed work_item_id = do
    members ← r.zrange_all live_feed_key
    remove_members work_item_id members

  unfoldable pub get_live_feed : ℕ → Action r.Store (List (Text × ℕ))
  get_live_feed limit = r.zrevrange live_feed_key 0 (limit - 1)

  unfoldable pub set_metrics : List (Text × MetricValue) → Action r.Store (Unit {0})
  unfolding str_value
  set_metrics metrics = r.hset metrics_key (map (λ kv. (kv.0, str_value kv.1)) metrics)

  unfoldable pub ping : Action r.Store Bool
  ping = r.ping

  unfoldable pub get_metrics : Action r.Store (List (Text × Text))
  get_metrics = r.hgetall metrics_key

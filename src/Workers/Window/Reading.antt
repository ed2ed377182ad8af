-- ===== src/Workers/Window/Reading.antt =====
-- What a worker reads from the window is what `get_open_work_item` of
-- backend/app/storage/redis_cache.py makes of the value that Redis returned.
use ims_prakash.Base.{◌≡◌, refl, inl, inr, Option, none, some, Bool-cases}
use ims_prakash.Text.{Text, truthy}
use ims_prakash.Text.Decimal.{int_of}
use ims_prakash.Errors.{ok, Result-cases}
use ims_prakash.Effects
use ims_prakash.Services.{Redis}
use ims_prakash.Storage.RedisCache.{dedup_key, parse_item, get_open_work_item}
use ims_prakash.Workers.Window.{window_value}

module _ (r : Redis) where
  pub parse_item-window_value :
      (o : Option Text) (t : r.Store) → parse_item r o t ≡ (window_value o, t)
  unfolding parse_item window_value Effects.◌>>=◌
  parse_item-window_value none t = refl
  parse_item-window_value (some v) t = elim (Bool-cases (truthy v)) [
    | inl full ↦ elim (Result-cases (int_of v)) [
      | inl (z, e) ↦ rw (full, e) refl
      | inr (x, e) ↦ rw (full, e) refl
    ]
    | inr empty ↦ rw empty refl
  ]

  pub get_open_work_item-window_value :
      (component : Text) (t u : r.Store) (found : Option Text)
      → r.get (dedup_key component) t ≡ (ok found, u)
      → get_open_work_item r component t ≡ (window_value found, u)
  unfolding get_open_work_item Effects.◌>>=◌
  get_open_work_item-window_value component t u found h = rw (h, parse_item-window_value found u)

-- ===== src/Workers/BucketBounds.antt =====
-- The one-minute buckets of `_bucket_for` (backend/app/workers.py).
use ims_prakash.Base.{ℕ, ◌+◌, ◌-◌, ◌%◌, ◌≤◌, ◌<◌, ◌≡◌, ◌↔◌, none, some, arith}
use ims_prakash.Base.Int.{ℤ}
use ims_prakash.Datetime.{Datetime, utc, minute}
use ims_prakash.Workers.Bucket.{bucket_for}

abbrev pub zone_or_utc : Datetime → ℤ
zone_or_utc d = elim d.tzinfo [ none ↦ utc | some z ↦ z ]

-- A bucket is aware, begins at a whole minute, and holds its timestamp: it begins at most that much
-- before it that less than a minute lies between.
pub record IsBucketOf (ts b : Datetime) : Type 0 where
  pub aware : b.tzinfo ≡ some (zone_or_utc ts)
  pub whole : b.wall % minute ≡ 0
  pub begins : b.wall ≤ ts.wall
  pub ends : ts.wall < b.wall + minute

whole_unique : (t b : ℕ) → b % minute ≡ 0 → b ≤ t → t < b + minute → t - t % minute ≡ b
whole_unique t b h k l = omega arith

-- The bucket of a timestamp is the one minute that holds it, in its zone or in UTC.
pub bucket_for_lem : (ts b : Datetime) → (bucket_for ts ≡ b) ↔ IsBucketOf ts b
unfolding bucket_for
bucket_for_lem ts b = (there, back)
  where
    there : bucket_for ts ≡ b → IsBucketOf ts b
    there h = ground arith

    back : IsBucketOf ts b → bucket_for ts ≡ b
    back h = ground (arith, whole_unique ts.wall b.wall h.whole h.begins h.ends)

-- A bucket is its own bucket.
pub bucket_for-bucket_for : (ts : Datetime) → bucket_for (bucket_for ts) ≡ bucket_for ts
unfolding bucket_for
bucket_for-bucket_for ts = ground arith

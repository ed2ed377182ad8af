-- ===== src/Workers/Bucket.antt =====
-- `_bucket_for` of backend/app/workers.py.
use ims_prakash.Datetime.{Datetime, assume_utc, replace_seconds}

unfoldable pub bucket_for : Datetime → Datetime
unfolding assume_utc replace_seconds
bucket_for ts = replace_seconds (assume_utc ts)

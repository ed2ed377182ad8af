-- ===== src/Dashboard/Ranks.antt =====
-- The ranks of dashboard/app.py and of backend/app/storage/redis_cache.py.
use ims_prakash.Base.{◌≡◌, refl, some}
use ims_prakash.Enums.{Severity, severity_value}
use ims_prakash.Storage.RedisCache.{severity_score}
use ims_prakash.Dashboard.{severity_order}

-- The table of the dashboard ranks every severity as the live feed does.
severity_order-severity_score :
    (s : Severity) → severity_order (severity_value s) ≡ some (severity_score (severity_value s))
unfolding severity_order severity_score severity_value
severity_order-severity_score Severity.info = refl
severity_order-severity_score _ = refl

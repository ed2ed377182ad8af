-- ===== src/Config.antt =====
-- backend/app/config.py. The backpressure threshold is a fraction instead of a float.
use ims_prakash.Base.{ℕ, ◌++◌, Option, none, some}
use ims_prakash.Text.{Text, codes}
use ims_prakash.Text.Decimal.{str_of}

pub record Ratio : Type 0 where
  pub num : ℕ
  pub den : ℕ

pub record Settings : Type 0 where
  pub log_level : Text
  pub postgres_user : Text
  pub postgres_password : Text
  pub postgres_db : Text
  pub postgres_host : Text
  pub postgres_port : ℕ
  pub mongo_user : Text
  pub mongo_password : Text
  pub mongo_host : Text
  pub mongo_port : ℕ
  pub mongo_db : Text
  pub redis_host : Text
  pub redis_port : ℕ
  pub redis_db : ℕ
  pub queue_maxsize : ℕ
  pub queue_backpressure_threshold : Ratio
  pub dedup_window_seconds : ℕ
  pub worker_count : ℕ
  pub rate_limit_per_second : ℕ
  pub throughput_log_interval : ℕ

abbrev pub default_settings : Settings
default_settings = record {
  log_level = codes "INFO";
  postgres_user = codes "ims";
  postgres_password = codes "ims_pw";
  postgres_db = codes "ims";
  postgres_host = codes "postgres";
  postgres_port = 5432;
  mongo_user = codes "ims";
  mongo_password = codes "ims_pw";
  mongo_host = codes "mongo";
  mongo_port = 27017;
  mongo_db = codes "ims_signals";
  redis_host = codes "redis";
  redis_port = 6379;
  redis_db = 0;
  queue_maxsize = 50000;
  queue_backpressure_threshold = record { num = 80; den = 100 };
  dedup_window_seconds = 10;
  worker_count = 8;
  rate_limit_per_second = 1000;
  throughput_log_interval = 5;
}

unfoldable pub postgres_dsn : Settings → Text
postgres_dsn s =
    codes "postgresql+asyncpg://"
    ++ (s.postgres_user
        ++ (codes ":"
            ++ (s.postgres_password
                ++ (codes "@"
                    ++ (s.postgres_host
                        ++ (codes ":"
                            ++ (str_of s.postgres_port ++ (codes "/" ++ s.postgres_db))))))))

unfoldable pub mongo_uri : Settings → Text
mongo_uri s =
    codes "mongodb://"
    ++ (s.mongo_user
        ++ (codes ":"
            ++ (s.mongo_password
                ++ (codes "@"
                    ++ (s.mongo_host
                        ++ (codes ":" ++ (str_of s.mongo_port ++ codes "/?authSource=admin")))))))

unfoldable pub redis_url : Settings → Text
redis_url s =
    codes "redis://"
    ++ (s.redis_host ++ (codes ":" ++ (str_of s.redis_port ++ (codes "/" ++ str_of s.redis_db))))

-- `get_settings`, under `lru_cache(maxsize=1)`: `loaded` is what pydantic reads from the environment on
-- the first call.
unfoldable pub get_settings : Settings → Option Settings → Settings × Option Settings
get_settings loaded none = (loaded, some loaded)
get_settings loaded (some cached) = (cached, some cached)

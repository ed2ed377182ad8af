-- ===== src/Storage.antt =====
-- backend/app/storage: the three clients' modules.
pub mod Postgres
pub mod PostgresRepo
pub mod RedisCache
pub mod MongoStore
pub mod Clients

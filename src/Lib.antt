-- ===== src/Lib.antt =====
-- The incident management system of this repository, its backend in backend/app above all, and theorems
-- about it.
--
-- Signals about failing components arrive over HTTP, wait in a bounded queue, and are taken by
-- workers, which store each one in MongoDB, open at most one work item per component and time window
-- (guarded by a key in Redis), link the signals to it in PostgreSQL and raise an alert. The incident
-- API reads the work items, moves them through their states and records root cause analyses (RCAs);
-- closing needs a complete RCA.
--
-- Parts and their files:
--   Enums, Models          backend/app/models.py: the enumerations, rows (Models/Rows) and schemas
--                          (Models/Schemas, where pydantic's length checks are a parameter), and
--                          the CHECK constraints (Models/Checks).
--   Errors, Effects        What the code raises, and awaited calls as functions from a state to a
--                          result and a state: what was written before a raise stays written.
--   RcaValidator           backend/app/rca_validator.py: `validate`; Messages has the texts of its
--                          exceptions and of the state machine's.
--   States                 backend/app/patterns/states.py: a `State` object is a record of its methods;
--                          `transition`, `close_resolved` for `ResolvedState.to_closed`.
--   Alerting, Config       backend/app/patterns/alerting.py and backend/app/config.py.
--   Ingestion              backend/app/ingestion.py: `IngestQueueState`, `offer`, `snapshot`.
--   Retry                  backend/app/utils/retry.py: `retry_async`.
--   Storage                backend/app/storage: `session_scope` (Postgres), the repository
--                          (PostgresRepo), Redis (RedisCache) and MongoDB (MongoStore), and the
--                          variables that hold the clients (Clients).
--   Workers                backend/app/workers.py: `process_one`, `worker_loop`, `throughput_loop`;
--                          Workers/Window has the dedup window with many workers, one move for what a
--                          worker does up to its next await, and Workers/Tasks `start_workers` and
--                          `stop_workers`.
--   IncidentsApi           backend/app/incidents_api.py: the handlers; IncidentsApi/Race has
--                          `transition_incident` and `submit_rca` of one incident at the same time.
--   Interleaving           Coroutines that take turns at their awaits, for Workers/Window and
--                          IncidentsApi/Race.
--   App                    backend/app/main.py: `health`, `post_signal`, `metrics`, and the lifespan
--                          (App/Lifespan: `startup`, `shutdown`). App/Server has the endpoints of
--                          main.py and of the router as FastAPI calls them, with their bounds, schemas,
--                          codes and the rate limit, and App/System runs of requests and of the rounds
--                          of the loops of workers.py.
--   Logging                backend/app/logging_setup.py: `configure_logging`.
--   Scripts                scripts/simulate_outage.py (Scripts/Outage; Scripts/Outage/Backend puts the
--                          backend behind a network that loses requests) and
--                          scripts/locustfile.py (Scripts/Load).
--   Dashboard              dashboard/app.py: what the page computes, the form of its RCA tab
--                          (RcaForm), and one run of the page (Page) on the JSON that it reads
--                          (Values) and what it runs on (Site).
--   Services, World        The servers and clients as parameters, and the state of the whole backend;
--                          Services/Laws has the documented behaviour that proofs assume. Conditions
--                          that calls keep: Effects/Ensures, World/Frame, World/Tables, World/Quiet.
--   Base, Text, Datetime   Shared helpers, Python's `str`, `int(...)` and `datetime`.
--   Examples               Servers kept in memory, which have the assumed behaviour, and each result at
--                          a concrete input.
--
-- How the parts meet: a handler or a worker is an action on `World`, which has the state of each
-- server, the queue with its counters and the log. `on_redis`, `on_mongo` and `on_db` run a call of one
-- server in it, as a coroutine that runs alone. Workers/Window and IncidentsApi/Race are the exceptions:
-- the state of the first is the key of one window and a phase for each signal, that of the second the
-- row and the RCA of one incident and a phase for each request, and their steps interleave the
-- coroutines at every await. In App/System a step is a whole request or a whole round, so what a
-- request does between the awaits of another is in IncidentsApi/Race alone. Workers/Published puts the
-- measuring loop before `metrics`. The outage script and the dashboard meet the backend as clients:
-- through `post_signal`, and through the form that `submit_rca` takes.
--
-- Workers/Window starts without the coroutines for the expiry of its key and for the deletion by a
-- close, `clearing`; its moves `expires` and `deletes` are theirs. In IncidentsApi/Race a submission
-- reads the RCA, writes the columns that differ from what it read, and commits, with turns of others
-- between.
--
-- Numbers: a float of seconds is a whole number of microseconds, a number in the JSON of the dashboard
-- is in millionths, the threshold of the queue is a fraction, and a rounded share is its digits;
-- binary rounding is not modelled. A timestamptz column keeps the instant of a time in UTC, and takes
-- a naive time in the zone of the session. Identifiers and offsets are integers, counters are natural
-- numbers as in Python, without a bound.
--
-- Fuel: `retry_loop` has one unit more than there are retries, which is never used up, since the last
-- attempt raises; decimal printing has the number itself, which is never smaller than its number of
-- digits. The rounds of a worker and of the measuring loop before the shutdown are an argument.
--
-- Not modelled: how slowapi counts requests, which is a parameter of App/Server; CORS, and what FastAPI
-- decodes and encodes; the triggers of the database beyond those in Services/Laws; what the widgets,
-- requests and data frames of dashboard/app.py do themselves; the classes of locust in
-- scripts/locustfile.py; the linking of signals by several workers at once.
pub mod Base
pub mod Text
pub mod Enums
pub mod Errors
pub mod Messages
pub mod Datetime
pub mod Models
pub mod RcaValidator
pub mod States
pub mod Alerting
pub mod Config
pub mod Ingestion
pub mod Effects
pub mod Services
pub mod World
pub mod Interleaving
pub mod Retry
pub mod Storage
pub mod Workers
pub mod IncidentsApi
pub mod App
pub mod Logging
pub mod Scripts
pub mod Dashboard
mod Examples

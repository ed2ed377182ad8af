-- ===== src/Services.antt =====
-- The servers and client libraries that the backend calls and that are not in the repository, as
-- parameters: their states are abstract, and each call may raise. What the proofs need of their
-- documented behaviour stands in `Services/Laws.antt`.
pub mod Laws
use ims_prakash.Base.{ℕ, Bool, Option, List}
use ims_prakash.Base.Int.{ℤ}
use ims_prakash.Text.{Text}
use ims_prakash.Datetime.{Datetime}
use ims_prakash.Enums.{ComponentType, Severity, WorkItemState}
use ims_prakash.Effects.{Action}
use ims_prakash.Models.{WorkItem, Rca, SignalLink}

-- The options `nx`, `xx` and `ex` of SET.
pub record SetOptions : Type 0 where
  pub nx : Bool
  pub xx : Bool
  pub ex : Option ℕ

-- redis.asyncio.
pub record Redis : Type 1 where
  pub Store : Type 0
  pub set : Text → Text → SetOptions → Action Store Bool
  pub get : Text → Action Store (Option Text)
  pub delete : Text → Action Store (Unit {0})
  pub zadd : Text → Text → ℕ → Action Store (Unit {0})
  pub zrange_all : Text → Action Store (List Text)
  pub zrem : Text → Text → Action Store (Unit {0})
  pub zrevrange : Text → ℕ → ℕ → Action Store (List (Text × ℕ))
  pub hset : Text → List (Text × Text) → Action Store (Unit {0})
  pub hgetall : Text → Action Store (List (Text × Text))
  pub ping : Action Store Bool

-- The document that a worker stores for a signal.
pub record Document : Type 0 where
  pub component_id : Text
  pub component_type : Text
  pub severity : Text
  pub timestamp : Datetime
  pub payload : Text
  pub ingested_at : Datetime
  pub work_item_id : Option ℤ

-- motor, on the collection of signals. A document's id is its text.
pub record Mongo : Type 1 where
  pub Store : Type 0
  pub insert_one : Document → Action Store Text
  pub set_work_item_id : Text → ℤ → Action Store (Unit {0})
  pub find_by_work_item : ℤ → ℕ → Action Store (List (Text × Document))
  pub create_index : Text → Action Store (Unit {0})
  pub ping : Action Store Bool

-- The columns that the code gives a new work item; the others have their defaults.
pub record NewWorkItem : Type 0 where
  pub component_id : Text
  pub component_type : ComponentType
  pub severity : Severity
  pub state : WorkItemState
  pub start_time : Datetime
  pub summary : Option Text

pub record NewLink : Type 0 where
  pub work_item_id : ℤ
  pub mongo_signal_id : Text
  pub component_id : Text
  pub severity : Severity
  pub signal_timestamp : Datetime

pub record NewRca : Type 0 where
  pub work_item_id : ℤ
  pub root_cause_category : Text
  pub fix_applied : Text
  pub prevention : Text
  pub rca_start_time : Datetime
  pub rca_end_time : Datetime

-- The `values` of an UPDATE of work_items: a column that is not named keeps its value.
pub data Assignment : Type 0 where
  set_state : WorkItemState → Assignment
  set_end_time : Datetime → Assignment
  set_mttr_seconds : ℤ → Assignment
  add_signal_count : ℕ → Assignment

-- The columns that the code sets on an RCA that it has read.
pub data RcaAssignment : Type 0 where
  set_root_cause_category set_fix_applied set_prevention : Text → RcaAssignment
  set_rca_start_time set_rca_end_time : Datetime → RcaAssignment

-- SQLAlchemy on PostgreSQL. A session is opened on the database and closed to it; a session that is
-- closed loses what it has not committed.
pub record Sql : Type 1 where
  pub Db : Type 0
  pub Session : Type 0
  pub begin : Db → Session
  pub commit : Action Session (Unit {0})
  pub rollback : Session → Session
  pub close : Session → Db
  pub insert_work_item : NewWorkItem → Action Session ℤ
  pub update_work_item : ℤ → List Assignment → Action Session (Unit {0})
  pub select_work_item : ℤ → Action Session (Option WorkItem)
  pub select_work_items :
      Option WorkItemState → Option Severity → ℕ → Action Session (List WorkItem)
  pub insert_link : NewLink → Action Session (Unit {0})
  pub select_links : ℤ → ℕ → Action Session (List SignalLink)
  pub upsert_metric : Datetime → Text → Severity → ℕ → Action Session (Unit {0})
  pub select_rca : ℤ → Action Session (Option Rca)
  pub insert_rca : NewRca → Action Session Rca
  pub update_rca : Rca → List RcaAssignment → Action Session Rca
  pub select_one : Action Db ℕ
  -- tenacity's `AsyncRetrying`, with the number of attempts that it stops after.
  pub retrying : (A : Type 0) → ℕ → Action Db A → Action Db A

-- `datetime.now(timezone.utc)`.
pub record Clock : Type 1 where
  pub Time : Type 0
  pub now : Time → Datetime × Time
  -- The text of `isoformat`.
  pub isoformat : Datetime → Text

pub record Services : Type 1 where
  pub redis : Redis
  pub mongo : Mongo
  pub sql : Sql
  pub clock : Clock

-- ===== src/Models/Rows.antt =====
-- The ORM classes of backend/app/models.py. Identifiers are Python integers.
use ims_prakash.Base.{ℕ, Option}
use ims_prakash.Base.Int.{ℤ}
use ims_prakash.Text.{Text}
use ims_prakash.Datetime.{Datetime}
use ims_prakash.Enums.{ComponentType, Severity, WorkItemState}

pub record WorkItem : Type 0 where
  pub id : ℤ
  pub component_id : Text
  pub component_type : ComponentType
  pub severity : Severity
  pub state : WorkItemState
  pub start_time : Datetime
  pub end_time : Option Datetime
  pub mttr_seconds : Option ℤ
  pub signal_count : ℕ
  pub summary : Option Text
  pub created_at : Datetime
  pub updated_at : Datetime

pub record Rca : Type 0 where
  pub id : ℤ
  pub work_item_id : ℤ
  pub root_cause_category : Text
  pub fix_applied : Text
  pub prevention : Text
  pub rca_start_time : Datetime
  pub rca_end_time : Datetime
  pub submitted_at : Datetime

pub record SignalLink : Type 0 where
  pub id : ℤ
  pub work_item_id : ℤ
  pub mongo_signal_id : Text
  pub component_id : Text
  pub severity : Severity
  pub signal_timestamp : Datetime

pub record SignalMetric : Type 0 where
  pub bucket : Datetime
  pub component_id : Text
  pub severity : Severity
  pub count : ℕ

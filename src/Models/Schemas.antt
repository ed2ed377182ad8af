-- ===== src/Models/Schemas.antt =====
-- The pydantic schemas of backend/app/models.py. pydantic itself is a parameter: `Pydantic` has the
-- length constraints of `Field`, which it checks before a plain `field_validator` runs.
use ims_prakash.Base.{ℕ, ◌≤◌, ◌≡◌, ◌↔◌, Bool, true, ◌&&◌, not, Option, length, if◌then◌else◌}
use ims_prakash.Base.Int.{ℤ}
use ims_prakash.Text.{Text, strip, truthy}
use ims_prakash.Datetime.{Datetime}
use ims_prakash.Enums.{ComponentType, Severity, WorkItemState, RootCauseCategory}
use ims_prakash.Errors.{Result, ok, err, value_error, ◌>>=◌, ◌>>◌}
use ims_prakash.Models.Rows.{WorkItem, Rca}

pub record Pydantic : Type 0 where
  pub min_length : ℕ → Text → Bool
  pub max_length : ℕ → Text → Bool
  pub min_length_iff : (n : ℕ) (t : Text) → (min_length n t ≡ true) ↔ (n ≤ length t)
  pub max_length_iff : (n : ℕ) (t : Text) → (max_length n t ≡ true) ↔ (length t ≤ n)

pub record SignalIn : Type 0 where
  pub component_id : Text
  pub component_type : ComponentType
  pub severity : Severity
  pub timestamp : Datetime
  pub payload : Text

pub record RcaIn : Type 0 where
  pub root_cause_category : RootCauseCategory
  pub fix_applied : Text
  pub prevention : Text
  pub rca_start_time : Datetime
  pub rca_end_time : Datetime

abbrev pub require_that : Bool → Result (Unit {0})
require_that b = if b then ok tt else err value_error

unfoldable pub strip_component : Text → Text
strip_component v = strip v

unfoldable pub not_blank : Text → Result Text
not_blank v = if not (truthy (strip v)) then err value_error else ok (strip v)

-- Validation of a body whose fields have the declared types.
module _ (p : Pydantic) where
  unfoldable pub signal_in : SignalIn → Result SignalIn
  unfolding strip_component
  signal_in s = do
    require_that (p.min_length 1 s.component_id && p.max_length 128 s.component_id)
    ok (record s { component_id = strip_component s.component_id })

  unfoldable pub rca_in : RcaIn → Result RcaIn
  unfolding not_blank
  rca_in r = do
    require_that (p.min_length 1 r.fix_applied)
    fix ← not_blank r.fix_applied
    require_that (p.min_length 1 r.prevention)
    prevention ← not_blank r.prevention
    ok (record r { fix_applied = fix; prevention = prevention })

pub record SignalAccepted : Type 0 where
  pub accepted : Bool
  pub queue_depth : ℕ
  -- In ten-thousandths.
  pub queue_pct_full : ℕ

pub record WorkItemOut : Type 0 where
  pub id : ℤ
  pub component_id : Text
  pub component_type : ComponentType
  pub severity : Severity
  pub state : WorkItemState
  pub start_time : Datetime
  pub end_time : Option Datetime
  pub mttr_seconds : Option ℤ
  pub signal_count : ℕ
  pub summary : Option Text
  pub created_at : Datetime
  pub updated_at : Datetime

unfoldable pub work_item_out : WorkItem → WorkItemOut
work_item_out w = record {
  id = w.id;
  component_id = w.component_id;
  component_type = w.component_type;
  severity = w.severity;
  state = w.state;
  start_time = w.start_time;
  end_time = w.end_time;
  mttr_seconds = w.mttr_seconds;
  signal_count = w.signal_count;
  summary = w.summary;
  created_at = w.created_at;
  updated_at = w.updated_at;
}

-- `RCAOut` has the fields of the row.
abbrev pub RcaOut : Type 0
RcaOut = Rca

pub record IncidentDetailOut : Type 0 where
  pub work_item : WorkItemOut
  pub rca : Option RcaOut

pub record TransitionIn : Type 0 where
  pub target_state : WorkItemState

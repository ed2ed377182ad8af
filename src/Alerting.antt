-- ===== src/Alerting.antt =====
-- backend/app/patterns/alerting.py. An alerter is its tier, its channel and its log level; what
-- `dispatch` writes to the log is an entry with the fields of the call.
use ims_prakash.Base.{Option}
use ims_prakash.Base.Int.{ℤ}
use ims_prakash.Text.{Text, codes}
use ims_prakash.Datetime.{Datetime}
use ims_prakash.Enums.{ComponentType, Severity, component_value, severity_value}

pub record AlertContext : Type 0 where
  pub work_item_id : ℤ
  pub component_id : Text
  pub component_type : ComponentType
  pub severity : Severity
  pub timestamp : Datetime
  pub summary : Option Text

pub data Level : Type 0 where
  level_info level_warning : Level

-- The keyword arguments of the log call. The timestamp is kept as a value, not as its ISO text.
pub record AlertEntry : Type 0 where
  pub level : Level
  pub tier : Text
  pub channel : Text
  pub work_item_id : ℤ
  pub component_id : Text
  pub component_type : Text
  pub severity : Text
  pub summary : Option Text
  pub timestamp : Datetime

pub data Alerter : Type 0 where
  p0_alerter p1_alerter p2_alerter : Alerter

unfoldable pub tier : Alerter → Text
tier p0_alerter = codes "P0"
tier p1_alerter = codes "P1"
tier p2_alerter = codes "P2"

entry : Level → Text → Text → AlertContext → AlertEntry
entry level tier channel ctx = record {
  level = level;
  tier = tier;
  channel = channel;
  work_item_id = ctx.work_item_id;
  component_id = ctx.component_id;
  component_type = component_value ctx.component_type;
  severity = severity_value ctx.severity;
  summary = ctx.summary;
  timestamp = ctx.timestamp;
}

unfoldable pub dispatch : Alerter → AlertContext → AlertEntry
unfolding entry tier
dispatch p0_alerter ctx = entry level_warning (tier p0_alerter) (codes "pagerduty+slack#sev0") ctx
dispatch p1_alerter ctx = entry level_info (tier p1_alerter) (codes "slack#alerts") ctx
dispatch p2_alerter ctx = entry level_info (tier p2_alerter) (codes "slack#noise") ctx

-- `ALERT_MAP`.
unfoldable pub alerter_for : ComponentType → Alerter
alerter_for ComponentType.rdbms = p0_alerter
alerter_for ComponentType.mcp = p0_alerter
alerter_for ComponentType.api = p1_alerter
alerter_for ComponentType.queue = p1_alerter
alerter_for ComponentType.cache = p2_alerter
alerter_for ComponentType.nosql = p2_alerter

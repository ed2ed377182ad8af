-- ===== src/Enums.antt =====
-- The enumerations of backend/app/models.py and their `.value` texts.
use ims_prakash.Base.{Bool, true, false}
use ims_prakash.Text.{Text, codes}

pub data ComponentType : Type 0 where
  cache rdbms api mcp queue nosql : ComponentType

pub data Severity : Type 0 where
  info warn error critical : Severity

pub data WorkItemState : Type 0 where
  open_state investigating resolved closed : WorkItemState

pub data RootCauseCategory : Type 0 where
  infrastructure network code_defect config capacity dependency human_error security unknown :
      RootCauseCategory

unfoldable pub component_value : ComponentType → Text
component_value ComponentType.cache = codes "CACHE"
component_value ComponentType.rdbms = codes "RDBMS"
component_value ComponentType.api = codes "API"
component_value ComponentType.mcp = codes "MCP"
component_value ComponentType.queue = codes "QUEUE"
component_value ComponentType.nosql = codes "NOSQL"

unfoldable pub severity_value : Severity → Text
severity_value Severity.info = codes "INFO"
severity_value Severity.warn = codes "WARN"
severity_value Severity.error = codes "ERROR"
severity_value Severity.critical = codes "CRITICAL"

unfoldable pub state_value : WorkItemState → Text
state_value WorkItemState.open_state = codes "OPEN"
state_value WorkItemState.investigating = codes "INVESTIGATING"
state_value WorkItemState.resolved = codes "RESOLVED"
state_value WorkItemState.closed = codes "CLOSED"

unfoldable pub category_value : RootCauseCategory → Text
category_value RootCauseCategory.infrastructure = codes "INFRASTRUCTURE"
category_value RootCauseCategory.network = codes "NETWORK"
category_value RootCauseCategory.code_defect = codes "CODE_DEFECT"
category_value RootCauseCategory.config = codes "CONFIG"
category_value RootCauseCategory.capacity = codes "CAPACITY"
category_value RootCauseCategory.dependency = codes "DEPENDENCY"
category_value RootCauseCategory.human_error = codes "HUMAN_ERROR"
category_value RootCauseCategory.security = codes "SECURITY"
category_value RootCauseCategory.unknown = codes "UNKNOWN"

-- `==` on the members of an enumeration.
unfoldable pub state_eq : WorkItemState → WorkItemState → Bool
state_eq WorkItemState.open_state WorkItemState.open_state = true
state_eq WorkItemState.investigating WorkItemState.investigating = true
state_eq WorkItemState.resolved WorkItemState.resolved = true
state_eq WorkItemState.closed WorkItemState.closed = true
state_eq _ _ = false

unfoldable pub severity_eq : Severity → Severity → Bool
severity_eq Severity.info Severity.info = true
severity_eq Severity.warn Severity.warn = true
severity_eq Severity.error Severity.error = true
severity_eq Severity.critical Severity.critical = true
severity_eq _ _ = false

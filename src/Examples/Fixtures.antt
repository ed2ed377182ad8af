-- ===== src/Examples/Fixtures.antt =====
-- An incident in each of its states, with its RCA, on servers in memory.
use ims_prakash.Base.{none, [], ◌∷◌}
use ims_prakash.Base.Int.{pos}
use ims_prakash.Text.{codes}
use ims_prakash.Enums
use ims_prakash.Enums.{WorkItemState, resolved, closed, investigating, open_state, state_eq}
use ims_prakash.Models.{WorkItem, Rca}
use ims_prakash.Ingestion.{IngestQueueState}
use ims_prakash.World.{World}
use ims_prakash.Examples.Memory.{memory, at}

abbrev pub item : WorkItemState → WorkItem
item state = record {
  id = pos 7;
  component_id = codes "db-1";
  component_type = Enums.ComponentType.rdbms;
  severity = Enums.Severity.error;
  state = state;
  start_time = at 3;
  end_time = none;
  mttr_seconds = none;
  signal_count = 1;
  summary = none;
  created_at = at 3;
  updated_at = at 3;
}

abbrev pub report : Rca
report = record {
  id = pos 1;
  work_item_id = pos 7;
  root_cause_category = codes "CONFIG";
  fix_applied = codes "restart";
  prevention = codes "limits";
  rca_start_time = at 3;
  rca_end_time = at 5;
  submitted_at = at 6;
}

abbrev pub idle : IngestQueueState
idle = record {
  queue = record { items = []; maxsize = 4; unfinished = 0 };
  accepted = 0;
  dropped = 0;
  processed = 0;
  last_accepted_window = 0;
  last_processed_window = 0;
}

abbrev pub holding : WorkItemState → World memory
holding state = record {
  redis = record { keys = []; feed = (codes "7|db-1", 3) ∷ []; hash = [] };
  mongo = [];
  db = record { work_items = item state ∷ []; rcas = report ∷ [] };
  time = 20;
  ingest = idle;
  effects = [];
}

-- ===== src/Storage/PostgresRepo.antt =====
-- backend/app/storage/postgres_repo.py. `RETRY_POLICY` stops after five attempts.
pub mod Reads
pub mod Writes
pub mod UpdateState
pub mod UpsertRca
pub mod SignalCount
pub mod Creation
pub mod RowState
use ims_prakash.Base.{ℕ, Option, none, some, List, [], ◌∷◌, ◌++◌}
use ims_prakash.Base.Int.{ℤ}
use ims_prakash.Text.{Text}
use ims_prakash.Datetime.{Datetime}
use ims_prakash.Enums.{ComponentType, Severity, WorkItemState, open_state}
use ims_prakash.Effects.{Action, ◌>>=◌}
use ims_prakash.Models.{WorkItem, Rca, SignalLink}
use ims_prakash.Services.{
  RcaAssignment, set_root_cause_category, set_fix_applied, set_prevention, set_rca_start_time,
  set_rca_end_time, Sql, NewWorkItem, NewLink, NewRca, Assignment, set_state, set_end_time,
  set_mttr_seconds, add_signal_count,
}
use ims_prakash.Storage.Postgres.{session_scope}

abbrev pub max_attempts : ℕ
max_attempts = 5

-- `if v is not None: values[…] = v`.
abbrev pub optional : {A : Type 0} → (A → Assignment) → Option A → List Assignment
optional f none = []
optional f (some a) = f a ∷ []

unfoldable pub state_values : WorkItemState → Option Datetime → Option ℤ → List Assignment
state_values new_state end_time mttr_seconds =
    set_state new_state ∷ (optional set_end_time end_time ++ optional set_mttr_seconds mttr_seconds)

-- The assignments of `upsert_rca` to the row that it found.
abbrev pub rca_values : NewRca → List RcaAssignment
rca_values n =
    set_root_cause_category n.root_cause_category
    ∷ set_fix_applied n.fix_applied
    ∷ set_prevention n.prevention
    ∷ set_rca_start_time n.rca_start_time
    ∷ set_rca_end_time n.rca_end_time
    ∷ []

module _ (q : Sql) where
  -- `async for attempt in AsyncRetrying(**RETRY_POLICY): with attempt: async with session_scope()`.
  unfoldable pub transact : {A : Type 0} → Action q.Session A → Action q.Db A
  transact {A} body = q.retrying A max_attempts (session_scope q body)

  unfoldable pub create_work_item :
      Text → ComponentType → Severity → Datetime → Option Text → Action q.Db ℤ
  unfolding transact
  create_work_item component_id component_type severity start_time summary = transact (
      q.insert_work_item (record {
        component_id = component_id;
        component_type = component_type;
        severity = severity;
        state = open_state;
        start_time = start_time;
        summary = summary;
      }))

  unfoldable pub increment_signal_count : ℤ → Action q.Db (Unit {0})
  unfolding transact
  increment_signal_count work_item_id =
      transact (q.update_work_item work_item_id (add_signal_count 1 ∷ []))

  unfoldable pub add_signal_link : ℤ → Text → Text → Severity → Datetime → Action q.Db (Unit {0})
  unfolding transact
  add_signal_link work_item_id mongo_signal_id component_id severity signal_timestamp = transact (
      q.insert_link (record {
        work_item_id = work_item_id;
        mongo_signal_id = mongo_signal_id;
        component_id = component_id;
        severity = severity;
        signal_timestamp = signal_timestamp;
      }))

  unfoldable pub upsert_metric_bucket : Datetime → Text → Severity → Action q.Db (Unit {0})
  unfolding transact
  upsert_metric_bucket bucket component_id severity =
      transact (q.upsert_metric bucket component_id severity 1)

  unfoldable pub get_work_item : ℤ → Action q.Db (Option WorkItem)
  get_work_item work_item_id = session_scope q (q.select_work_item work_item_id)

  unfoldable pub list_work_items :
      Option WorkItemState → Option Severity → ℕ → Action q.Db (List WorkItem)
  list_work_items state severity limit = session_scope q (q.select_work_items state severity limit)

  unfoldable pub update_state :
      ℤ → WorkItemState → Option Datetime → Option ℤ → Action q.Db (Unit {0})
  unfolding transact state_values
  update_state work_item_id new_state end_time mttr_seconds =
      transact (q.update_work_item work_item_id (state_values new_state end_time mttr_seconds))

  -- The row to write: a new one, or the one found with its columns set.
  pub write_rca : NewRca → Option Rca → Action q.Session Rca
  write_rca n none = q.insert_rca n
  write_rca n (some row) = q.update_rca row (rca_values n)

  unfoldable pub upsert_rca : NewRca → Action q.Db Rca
  unfolding transact write_rca
  upsert_rca n = transact (do row ← q.select_rca n.work_item_id; write_rca n row)

  unfoldable pub get_rca : ℤ → Action q.Db (Option Rca)
  get_rca work_item_id = session_scope q (q.select_rca work_item_id)

  unfoldable pub get_signal_links : ℤ → ℕ → Action q.Db (List SignalLink)
  get_signal_links work_item_id limit = session_scope q (q.select_links work_item_id limit)

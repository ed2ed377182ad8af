-- ===== src/IncidentsApi/Race.antt =====
-- Requests against one incident that run at the same time: `transition_incident` and `submit_rca` of
-- backend/app/incidents_api.py. No row is locked between the reads of a request and its write, each of
-- which is a session of its own. A phase is the await that a request has reached, with what it has
-- read; a move is what happens up to its next await. A call that raises may have been applied,
-- and an update or an upsert may be attempted again after that. The
-- clean-up in Redis does not touch the incident.
pub mod Complete
pub mod Settled
pub mod Reopened
pub mod Alone
use ims_prakash.Base.{ℕ, ◌≡◌, ◌⊎◌, true, false, Option, none, some}
use ims_prakash.Base.Int.{ℤ}
use ims_prakash.Datetime.{Datetime, utc, earlier, IsStored}
use ims_prakash.Enums.{WorkItemState}
use ims_prakash.Errors.{Error, Result, ok, err, http_exception, rca_time_range}
use ims_prakash.Models.{WorkItem, Rca, RcaIn, Pydantic, rca_in, at_or_after}
use ims_prakash.States.{TransitionResult, transition}
use ims_prakash.Services.{NewRca}
use ims_prakash.Services.Laws.{HasValues, assign_all}
use ims_prakash.Storage.PostgresRepo.{state_values}
use ims_prakash.IncidentsApi.{seen_by_states, optional_rca, http_error, new_rca}
use ims_prakash.Interleaving

-- The row of the item and the RCA on file.
pub record Incident : Type 0 where
  pub item : WorkItem
  pub rca : Option Rca

pub data Phase : Type 0 where
  -- A transition: before the read of the item, before that of the RCA, before the update with what
  -- the state machine accepted, and before the last read.
  wants : WorkItemState → Phase
  has_item : WorkItemState → WorkItem → Phase
  storing : TransitionResult → Phase
  stored : Phase
  -- A submission: before the read of the item, before the SELECT of an attempt of `upsert_rca`, and
  -- then before the INSERT, or the UPDATE of the row that the SELECT found. Its form is what the
  -- schema made of a raw one.
  submits : RcaIn → Phase
  upserting : RcaIn → Phase
  inserting : RcaIn → Phase
  updating : RcaIn → Rca → Phase
  answered : Phase
  failed : Error → Phase

-- The request waits for a call.
abbrev pub InFlight : Phase → Type 0
InFlight answered = ⊥
InFlight (failed e) = ⊥
InFlight _ = Unit

-- `update_state`, where the trigger of the table stamps `updated_at`.
abbrev pub with_result : TransitionResult → Datetime → Incident → Incident
with_result r updated_at s = record s {
  item = record (assign_all (state_values r.new_state r.end_time r.mttr_seconds) s.item) {
    updated_at = updated_at;
  };
}

-- The unique item id of the table lets in a first row only. It is locked from the flush to the commit, so
-- other sessions see the two as one.
pub record Inserted (n : NewRca) (s t : Incident) (row : Rca) : Type 0 where
  pub first : s.rca ≡ none
  pub values : HasValues n row
  pub after : t ≡ record s { rca = some row }

-- A column gets the value that is set, or keeps what the row now has where the value is that of the row
-- that was read: the ORM writes the columns that changed.
abbrev pub IsMerged : {A : Type 0} → (A → Type 0) → A → A → A → Type 0
IsMerged given read current x = given x ⊎ (given read × (x ≡ current))

-- The flush waits for the lock of the row and then writes to what is there, which another submission may
-- have written since the SELECT. The CHECK on the times refuses a row that ends before it starts.
pub record Updated (n : NewRca) (read current : Rca) (s t : Incident) (row : Rca) : Type 0 where
  pub local : ℤ
  pub there : s.rca ≡ some current
  pub category :
      IsMerged
        (λ x. x ≡ n.root_cause_category)
        read.root_cause_category
        current.root_cause_category
        row.root_cause_category
  pub fix : IsMerged (λ x. x ≡ n.fix_applied) read.fix_applied current.fix_applied row.fix_applied
  pub prevention :
      IsMerged (λ x. x ≡ n.prevention) read.prevention current.prevention row.prevention
  pub starts :
      IsMerged
        (IsStored local n.rca_start_time)
        read.rca_start_time
        current.rca_start_time
        row.rca_start_time
  pub ends :
      IsMerged
        (IsStored local n.rca_end_time)
        read.rca_end_time
        current.rca_end_time
        row.rca_end_time
  pub checked : at_or_after row.rca_end_time row.rca_start_time ≡ true
  pub after : t ≡ record s { rca = some row }

-- The item was on file when the requests began, and no row is ever deleted.
pub data Move : Incident → Phase → Incident → Phase → Type 0 where
  read_item :
      {s : Incident} {target : WorkItemState} {wi : WorkItem}
      → wi ≡ s.item
      → Move s (wants target) s (has_item target wi)
  accept :
      {s : Incident} {target : WorkItemState} {wi : WorkItem} {r : TransitionResult}
      (now : Datetime)
      → now.tzinfo ≡ some utc
      → transition (seen_by_states wi) target (optional_rca s.rca) now ≡ ok r
      → Move s (has_item target wi) s (storing r)
  refuse :
      {s : Incident} {target : WorkItemState} {wi : WorkItem} {e : Error} (now : Datetime)
      → transition (seen_by_states wi) target (optional_rca s.rca) now ≡ err e
      → Move s (has_item target wi) s (failed (http_error e))
  store :
      {s t : Incident} {r : TransitionResult} (updated_at : Datetime)
      → t ≡ with_result r updated_at s
      → Move s (storing r) t stored
  store_lost_reply :
      {s t : Incident} {r : TransitionResult} {e : Error} (updated_at : Datetime)
      → t ≡ with_result r updated_at s
      → Move s (storing r) t (failed e)
  -- An attempt that was applied and whose reply was lost, where the next attempt follows.
  store_again :
      {s t : Incident} {r : TransitionResult} (updated_at : Datetime)
      → t ≡ with_result r updated_at s
      → Move s (storing r) t (storing r)
  answer : {s : Incident} → Move s stored s answered
  find :
      {s : Incident} {body : RcaIn}
      → earlier body.rca_end_time body.rca_start_time ≡ ok false
      → Move s (submits body) s (upserting body)
  late :
      {s : Incident} {body : RcaIn}
      → earlier body.rca_end_time body.rca_start_time ≡ ok true
      → Move s (submits body) s (failed (http_exception 400 rca_time_range))
  select_none :
      {s : Incident} {body : RcaIn} → s.rca ≡ none → Move s (upserting body) s (inserting body)
  select_row :
      {s : Incident} {body : RcaIn} {read : Rca}
      → s.rca ≡ some read
      → Move s (upserting body) s (updating body read)
  insert :
      {s t : Incident} {body : RcaIn} (row : Rca)
      → Inserted (new_rca s.item.id body) s t row
      → Move s (inserting body) t answered
  insert_lost_reply :
      {s t : Incident} {body : RcaIn} {e : Error} (row : Rca)
      → Inserted (new_rca s.item.id body) s t row
      → Move s (inserting body) t (failed e)
  insert_again :
      {s t : Incident} {body : RcaIn} (row : Rca)
      → Inserted (new_rca s.item.id body) s t row
      → Move s (inserting body) t (upserting body)
  overwrite :
      {s t : Incident} {body : RcaIn} (read current row : Rca)
      → Updated (new_rca s.item.id body) read current s t row
      → Move s (updating body read) t answered
  overwrite_lost_reply :
      {s t : Incident} {body : RcaIn} {e : Error} (read current row : Rca)
      → Updated (new_rca s.item.id body) read current s t row
      → Move s (updating body read) t (failed e)
  overwrite_again :
      {s t : Incident} {body : RcaIn} (read current row : Rca)
      → Updated (new_rca s.item.id body) read current s t row
      → Move s (updating body read) t (upserting body)
  -- Attempts that were not applied and are followed by another.
  retry_insert : {s : Incident} {body : RcaIn} → Move s (inserting body) s (upserting body)
  retry_overwrite :
      {s : Incident} {body : RcaIn} {read : Rca} → Move s (updating body read) s (upserting body)
  raises : {s : Incident} {p : Phase} {e : Error} → InFlight p → Move s p s (failed e)

-- What a client asks for: a close is a transition too. The form of a submission has passed the schema.
pub data Request (p : Pydantic) : Type 0 where
  transition_to : WorkItemState → Request p
  submission : (raw body : RcaIn) → rca_in p raw ≡ ok body → Request p

abbrev pub first_phase : {p : Pydantic} → Request p → Phase
first_phase (transition_to target) = wants target
first_phase (submission raw body accepted) = submits body

abbrev pub System : Type 0
System = Interleaving.System Incident Phase

abbrev pub Step : System → System → Type 0
Step = Interleaving.Step Move

abbrev pub Reach : System → System → Type 0
Reach = Interleaving.Reach Move

-- The requests by number, none of which has begun.
abbrev pub arriving : {p : Pydantic} → Incident → (ℕ → Request p) → System
arriving s requests = record { shared = s; phase = λ i. first_phase (requests i) }

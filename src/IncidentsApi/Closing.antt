-- ===== src/IncidentsApi/Closing.antt =====
-- What it takes to close an incident through backend/app/incidents_api.py.
use ims_prakash.Base.{◌≡◌, refl, inl, inr, Option, some}
use ims_prakash.Base.Int.{ℤ}
use ims_prakash.Datetime.{Datetime}
use ims_prakash.Enums.{WorkItemState, resolved, closed}
use ims_prakash.Errors.{ok, Result-cases}
use ims_prakash.Models.{WorkItem, WorkItemOut}
use ims_prakash.RcaValidator.{RcaLike, validate}
use ims_prakash.RcaValidator.Complete.{IsCompleteRca, validate-eq-ok_iff}
use ims_prakash.States.{WorkItemLike, TransitionResult, transition, close_resolved}
use ims_prakash.Services.{Services}
use ims_prakash.Services.Laws.{SqlLaws, RetryLaws, find_row, find_rca}
use ims_prakash.World.{World}
use ims_prakash.IncidentsApi.{close_incident, optional_rca}
use ims_prakash.IncidentsApi.Accepted.{transition_incident-ok}

close_resolved-IsCompleteRca :
    (wi : WorkItemLike) (rca : Option RcaLike) (now : Datetime) (r : TransitionResult)
    → close_resolved wi rca now ≡ ok r
    → IsCompleteRca rca
unfolding close_resolved
close_resolved-IsCompleteRca wi rca now r h = elim (Result-cases (validate rca)) [
  | inl (done, v) ↦ (validate-eq-ok_iff rca).0 v
  | inr (e, v) ↦ cc
]

closed_from_resolved :
    (s : WorkItemState) (start : Datetime) (rca : Option RcaLike) (now : Datetime)
    (r : TransitionResult)
    → transition (record { state = s; start_time = start }) closed rca now ≡ ok r
    → (s ≡ resolved) × IsCompleteRca rca
unfolding transition
closed_from_resolved resolved start rca now r h = (
  refl,
  close_resolved-IsCompleteRca (record { state = resolved; start_time = start }) rca now r h,
)
closed_from_resolved s start rca now r h = cc

-- With the documented behaviour of PostgreSQL and tenacity: if closing an incident is answered, then
-- the item was on file and resolved, the database had a complete RCA of it, and the answer says that it
-- is closed.
pub close_incident-IsCompleteRca :
    (s : Services) (laws : SqlLaws s.sql) (retry : RetryLaws s.sql) (i : ℤ) (out : WorkItemOut)
    (w v : World s)
    → close_incident s i w ≡ (ok out, v)
    → let before = laws.tables w.db in
      (wi : WorkItem) × (find_row i before.work_items ≡ some wi)
      × (wi.state ≡ resolved)
      × IsCompleteRca (optional_rca (find_rca i before.rcas))
      × (out.state ≡ closed)
unfolding close_incident
close_incident-IsCompleteRca s laws retry i out w v h =
    let a = transition_incident-ok s laws retry i closed out w v h in
    let (from, complete) =
      closed_from_resolved a.item.state a.item.start_time _ a.now a.result a.accepted in
    (a.item, a.on_file, from, complete, a.answer)

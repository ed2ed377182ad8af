-- ===== src/IncidentsApi/SubmitThenClose.antt =====
-- `POST /incidents/{id}/rca` followed by `POST /incidents/{id}/close` (backend/app/incidents_api.py).
use ims_prakash.Base.{◌≡◌, refl, sym, ap, ◌∙◌, Bool, true, false, some, if◌then◌else◌}
use ims_prakash.Base.Int.{ℤ}
use ims_prakash.Datetime.{Datetime, utc, earlier}
use ims_prakash.Enums.{resolved, closed}
use ims_prakash.Errors.{ok, http_exception, rca_time_range}
use ims_prakash.Effects.{Action, raise, lift, >>=-eq-ok}
use ims_prakash.Models.{WorkItem, Rca, RcaIn, RcaOut, Pydantic, rca_in}
use ims_prakash.RcaValidator.Complete.{IsCompleteRca}
use ims_prakash.States.{transition}
use ims_prakash.States.Gate.{closing, transition-closed_iff}
use ims_prakash.Services.{Services}
use ims_prakash.Services.Laws.{SqlLaws, RetryLaws, Tables, HasValues, find_row, find_rca}
use ims_prakash.World.{World, on_db, on_db-eq}
use ims_prakash.Storage.PostgresRepo.{upsert_rca}
use ims_prakash.Storage.PostgresRepo.UpsertRca.{upsert_rca_lem, Submitted}
use ims_prakash.IncidentsApi.{submit_rca, new_rca, find_item, optional_rca, seen_by_states}
use ims_prakash.IncidentsApi.Accepted.{lift-eq, find_item-ok}
use ims_prakash.IncidentsApi.Submissions.{submitted-IsComplete}

-- The end of `submit_rca`.
module _ (s : Services) (body : RcaIn) (i : ℤ) where
  store_if : Bool → Action (World s) RcaOut
  store_if late =
      if late
      then raise (http_exception 400 rca_time_range)
      else on_db (upsert_rca s.sql (new_rca i body))

  store_if-ok :
      (late : Bool) (out : Rca) (w v : World s)
      → store_if late w ≡ (ok out, v)
      → (late ≡ false) × (on_db (upsert_rca s.sql (new_rca i body)) w ≡ (ok out, v))
  unfolding store_if raise
  store_if-ok true out w v h = cc
  store_if-ok false out w v h = (refl, h)

module _ (s : Services) (laws : SqlLaws s.sql) (retry : RetryLaws s.sql) (body : RcaIn) (i : ℤ)
    (out : Rca) (w v : World s) (answered : submit_rca s body i w ≡ (ok out, v)) where
  abbrev before : Tables
  before = laws.tables w.db

  abbrev after : Tables
  after = laws.tables v.db

  -- What an answered submission has found and stored.
  pub record Stored (item : WorkItem) : Type 0 where
    pub on_file : find_row i before.work_items ≡ some item
    pub in_order : earlier body.rca_end_time body.rca_start_time ≡ ok false
    pub kept : after.work_items ≡ before.work_items
    pub rca_on_file : find_rca i after.rcas ≡ some out
    pub values : HasValues (new_rca i body) out

  submit_rca-ok : (item : WorkItem) × Stored item
  unfolding submit_rca store_if new_rca
  submit_rca-ok =
      let (wi, w1, find, h1) = >>=-eq-ok (find_item s i) _ w answered in
      let (late, w2, compare, h2) =
        >>=-eq-ok (lift (earlier body.rca_end_time body.rca_start_time)) (store_if s body i) w1
          h1 in
      let (is_false, stored) = store_if-ok s body i late out w2 v h2 in
      let (row, same) = find_item-ok s laws i wi w w1 find in
      let (order, w12) = lift-eq _ late w1 w2 compare in
      let t2 : laws.tables w2.db ≡ before =
        ap (λ (x : World s). laws.tables x.db) (sym w12) ∙ same in
      let n = new_rca i body in
      let submitted : Submitted n (laws.tables w2.db) out after =
        rw (on_db-eq (upsert_rca s.sql n) w2 v (ok out) stored) at
          (upsert_rca_lem n s.sql laws retry w2.db) in
      (
        wi,
        record {
          on_file = row;
          in_order = rw is_false at order;
          kept = submitted.0.1 ∙ ap (λ (t : Tables). t.work_items) t2;
          rca_on_file = submitted.1;
          values = submitted.2;
        },
      )

  -- With the documented behaviour of PostgreSQL and tenacity: if the schema accepted the form and
  -- its submission is answered, and the item on file before was resolved, then the item is on file as
  -- before, and the state machine accepts its close with the RCA that is now on file, at any reading
  -- of the clock in UTC.
  pub submit_rca-closes :
      (p : Pydantic) (raw : RcaIn) (now : Datetime) (item : WorkItem)
      → rca_in p raw ≡ ok body
      → now.tzinfo ≡ some utc
      → find_row i before.work_items ≡ some item
      → item.state ≡ resolved
      → (find_row i after.work_items ≡ some item)
        × (transition (seen_by_states item) closed (optional_rca (find_rca i after.rcas)) now
            ≡ ok (closing (seen_by_states item) now))
  submit_rca-closes p raw now item accepted aware there is_resolved = (
    rw stored.kept there,
    (transition-closed_iff (optional_rca (find_rca i after.rcas)) now aware (seen_by_states item)
          (closing (seen_by_states item) now)).1
        (is_resolved, complete, refl),
  )
    where
      stored : Stored submit_rca-ok.0
      stored = submit_rca-ok.1

      complete : IsCompleteRca (optional_rca (find_rca i after.rcas))
      complete = rw stored.rca_on_file (
          unfold optional_rca in
          submitted-IsComplete p raw body i out accepted stored.in_order stored.values)

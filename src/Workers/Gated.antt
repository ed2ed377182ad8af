-- ===== src/Workers/Gated.antt =====
-- Tables in which every closed work item has a complete RCA, under the writes of the workers
-- (backend/app/workers.py) with their repeated attempts.
use ims_prakash.Base.{◌≢◌, sym, ◌∙◌, List, [], ◌∷◌, Option, All-append}
use ims_prakash.Base.Int.{ℤ}
use ims_prakash.Text.{Text}
use ims_prakash.Datetime.{Datetime}
use ims_prakash.Enums.{ComponentType, Severity, open_state, closed}
use ims_prakash.Services.{Sql, NewWorkItem, Assignment, add_signal_count}
use ims_prakash.Services.Laws.{SqlLaws, RetryLaws}
use ims_prakash.Storage.PostgresRepo.{
  create_work_item, increment_signal_count, add_signal_link, upsert_metric_bucket,
}
use ims_prakash.Storage.PostgresRepo.Writes.{KeepsTables, transact-KeepsTables}
use ims_prakash.Workers.Kept.{WorkerWrites}
use ims_prakash.IncidentsApi.Gated.{IsGated, GatedRow, update-Gated}

module _ (q : Sql) (laws : SqlLaws q) (retry : RetryLaws q) where
  open laws use {view}

  create_work_item-KeepsGated :
      (component_id : Text) (component_type : ComponentType) (severity : Severity)
      (start_time : Datetime) (summary : Option Text)
      → KeepsTables q laws retry IsGated
          (create_work_item q component_id component_type severity start_time summary)
  unfolding create_work_item
  create_work_item-KeepsGated component_id component_type severity start_time summary =
      transact-KeepsTables q laws retry IsGated (q.insert_work_item new)
        (laws.base-insert_work_item new)
        (λ t i h ret.
          let (row, id, same, e) =
            laws.insert_work_item_row new t _ i (λ j. (ret j, (q.insert_work_item new t).1)) in
          rw e (
            All-append (GatedRow (view t).rcas) (view t).work_items (row ∷ []) h
              ((λ c. absurd (not_closed (sym same.state ∙ c))), tt)))
    where
      new : NewWorkItem
      new = record {
        component_id = component_id;
        component_type = component_type;
        severity = severity;
        state = open_state;
        start_time = start_time;
        summary = summary;
      }

      not_closed : open_state ≢ closed
      not_closed h = cc

  increment_signal_count-KeepsGated :
      (i : ℤ) → KeepsTables q laws retry IsGated (increment_signal_count q i)
  unfolding increment_signal_count
  increment_signal_count-KeepsGated i =
      transact-KeepsTables q laws retry IsGated (q.update_work_item i values)
        (laws.base-update_work_item i values)
        (λ t a h ret.
          let (now, e) =
            laws.view-update_work_item i values t _
              (λ j. (ret j, (q.update_work_item i values t).1)) in
          rw e (
            update-Gated i values now (view t).rcas (λ w id g c. rw (← id) (g c))
              (view t).work_items h))
    where
      values : List Assignment
      values = add_signal_count 1 ∷ []

  add_signal_link-KeepsGated :
      (i : ℤ) (id component_id : Text) (severity : Severity) (time : Datetime)
      → KeepsTables q laws retry IsGated (add_signal_link q i id component_id severity time)
  unfolding add_signal_link
  add_signal_link-KeepsGated i id component_id severity time =
      transact-KeepsTables q laws retry IsGated _ (laws.base-insert_link _)
        (λ t a h ret. rw (laws.view-insert_link _ t) h)

  upsert_metric_bucket-KeepsGated :
      (bucket : Datetime) (component_id : Text) (severity : Severity)
      → KeepsTables q laws retry IsGated (upsert_metric_bucket q bucket component_id severity)
  unfolding upsert_metric_bucket
  upsert_metric_bucket-KeepsGated bucket component_id severity =
      transact-KeepsTables q laws retry IsGated _
        (laws.base-upsert_metric bucket component_id severity 1)
        (λ t a h ret. rw (laws.view-upsert_metric bucket component_id severity 1 t) h)

  pub writes-IsGated : WorkerWrites q laws retry IsGated
  writes-IsGated = record {
    create = create_work_item-KeepsGated;
    increment = increment_signal_count-KeepsGated;
    link = add_signal_link-KeepsGated;
    metric = upsert_metric_bucket-KeepsGated;
  }

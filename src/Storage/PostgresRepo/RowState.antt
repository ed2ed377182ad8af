-- ===== src/Storage/PostgresRepo/RowState.antt =====
-- The state of one work item's row under the writes of backend/app/storage/postgres_repo.py with their
-- repeated attempts.
use ims_prakash.Base.{
  some-injective, ◌≡◌, refl, sym, ◌∙◌, inl, inr, Bool-cases, List, [], ◌∷◌, ◌++◌, map, Option, some,
}
use ims_prakash.Base.Int.{ℤ}
use ims_prakash.Text.{Text}
use ims_prakash.Datetime.{Datetime}
use ims_prakash.Enums.{ComponentType, Severity, WorkItemState, open_state}
use ims_prakash.Effects.{Action}
use ims_prakash.Models.{WorkItem}
use ims_prakash.Services.{Sql, NewWorkItem, NewRca, Assignment, add_signal_count}
use ims_prakash.Services.Laws.{SqlLaws, RetryLaws, Tables, update_row, assign_all, int_eq, find_row}
use ims_prakash.Storage.PostgresRepo.{
  create_work_item, increment_signal_count, add_signal_link, upsert_metric_bucket, update_state,
  upsert_rca, state_values, transact,
}
use ims_prakash.Storage.PostgresRepo.Writes.{KeepsTables, transact-KeepsTables}
use ims_prakash.Storage.PostgresRepo.UpdateState.{assign_all-id, state_values-state}
use ims_prakash.Storage.PostgresRepo.UpsertRca.{
  int_eq→≡, upsert_body, upsert_body-stays, upsert_body-Submitted,
}

update_row-id :
    (j : ℤ) (vs : List Assignment) (now : Datetime) (r : WorkItem)
    → (update_row j vs now r).id ≡ r.id
update_row-id j vs now r = elim (Bool-cases (int_eq r.id j)) [
  | inl mine ↦ rw mine (assign_all-id vs r)
  | inr other ↦ rw other refl
]

-- The item with the id is on file, in one of the states.
abbrev pub HasItem : ℤ → (WorkItemState → Type 0) → Tables → Type 0
HasItem i S t = (w : WorkItem) × (find_row i t.work_items ≡ some w) × S w.state

module _ (i : ℤ) (S : WorkItemState → Type 0) where
  abbrev Has : List WorkItem → Type 0
  Has rows = (w : WorkItem) × (find_row i rows ≡ some w) × S w.state

  find_row-append :
      (rows more : List WorkItem) (w : WorkItem)
      → find_row i rows ≡ some w
      → find_row i (rows ++ more) ≡ some w
  unfolding find_row
  find_row-append [] more w h = cc
  find_row-append (r ∷ rows) more w h = elim (Bool-cases (int_eq r.id i)) [
    | inl mine ↦ rw mine (rw mine at h)
    | inr other ↦ rw other (find_row-append rows more w (rw other at h))
  ]

  module _ (j : ℤ) (vs : List Assignment) (now : Datetime)
      (ready : (w : WorkItem) → i ≡ j → S w.state → S (assign_all vs w).state) where
    update_row-S : (r : WorkItem) → r.id ≡ i → S r.state → S (update_row j vs now r).state
    update_row-S r id h = elim (Bool-cases (int_eq r.id j)) [
      | inl mine ↦ rw mine (ready r (sym id ∙ int_eq→≡ r.id j mine) h)
      | inr other ↦ rw other h
    ]

    pub update-Has : (rows : List WorkItem) → Has rows → Has (map (update_row j vs now) rows)
    unfolding find_row
    update-Has [] (w, e, h) = cc
    update-Has (r ∷ rows) (w, e, h) = elim (Bool-cases (int_eq r.id i)) [
      | inl mine ↦
          let same = some-injective r w (rw mine at e) in
          (
            update_row j vs now r,
            rw (update_row-id j vs now r, mine) refl,
            update_row-S r (int_eq→≡ r.id i mine) (rw same h),
          )
      | inr other ↦
          let (v, found, k) = update-Has rows (w, (rw other at e), h) in
          (v, rw (update_row-id j vs now r, other) found, k)
    ]

  module _ (q : Sql) (laws : SqlLaws q) (retry : RetryLaws q) where
    open laws use {tables, view}

    abbrev Keeping : {A : Type 0} → Action q.Db A → Type 0
    Keeping m = KeepsTables q laws retry (HasItem i S) m

    update-Keeping :
        (j : ℤ) (vs : List Assignment)
        → ((w : WorkItem) → i ≡ j → S w.state → S (assign_all vs w).state)
        → Keeping (transact q (q.update_work_item j vs))
    update-Keeping j vs ready =
        transact-KeepsTables q laws retry (HasItem i S) (q.update_work_item j vs)
          (laws.base-update_work_item j vs)
          (λ t a h ret.
            let (now, e) =
              laws.view-update_work_item j vs t _ (λ k. (ret k, (q.update_work_item j vs t).1)) in
            rw e (update-Has j vs now ready (view t).work_items h))

    -- A new state for the item is to be one of the states; another item may get any.
    pub update_state-HasItem :
        (j : ℤ) (new : WorkItemState) (end : Option Datetime) (mttr : Option ℤ)
        → (i ≡ j → S new)
        → Keeping (update_state q j new end mttr)
    unfolding update_state
    update_state-HasItem j new end mttr ready =
        update-Keeping j (state_values new end mttr)
          (λ w e h. rw (state_values-state new end mttr w) (ready e))

    pub increment_signal_count-HasItem : (j : ℤ) → Keeping (increment_signal_count q j)
    unfolding increment_signal_count
    increment_signal_count-HasItem j = update-Keeping j (add_signal_count 1 ∷ []) (λ w e h. h)

    pub create_work_item-HasItem :
        (component_id : Text) (component_type : ComponentType) (severity : Severity)
        (start_time : Datetime) (summary : Option Text)
        → Keeping (create_work_item q component_id component_type severity start_time summary)
    unfolding create_work_item
    create_work_item-HasItem component_id component_type severity start_time summary =
        transact-KeepsTables q laws retry (HasItem i S) (q.insert_work_item new)
          (laws.base-insert_work_item new)
          (λ t k h ret.
            let (row, id, same, e) =
              laws.insert_work_item_row new t _ k (λ j. (ret j, (q.insert_work_item new t).1)) in
            rw e (h.0, find_row-append (view t).work_items (row ∷ []) h.0 h.1, h.2))
      where
        new : NewWorkItem
        new = record {
          component_id = component_id;
          component_type = component_type;
          severity = severity;
          state = open_state;
          start_time = start_time;
          summary = summary;
        }

    pub upsert_rca-HasItem : (n : NewRca) → Keeping (upsert_rca q n)
    unfolding upsert_rca
    upsert_rca-HasItem n =
        transact-KeepsTables q laws retry (HasItem i S) (upsert_body n q laws)
          (upsert_body-stays n q laws)
          (λ t r h ret.
            let done = upsert_body-Submitted n q laws (view t) t r (refl, refl) ret in
            rw (done.0.1) h)

    pub add_signal_link-HasItem :
        (j : ℤ) (id component_id : Text) (severity : Severity) (time : Datetime)
        → Keeping (add_signal_link q j id component_id severity time)
    unfolding add_signal_link
    add_signal_link-HasItem j id component_id severity time =
        transact-KeepsTables q laws retry (HasItem i S) _ (laws.base-insert_link _)
          (λ t a h ret. rw (laws.view-insert_link _ t) h)

    pub upsert_metric_bucket-HasItem :
        (bucket : Datetime) (component_id : Text) (severity : Severity)
        → Keeping (upsert_metric_bucket q bucket component_id severity)
    unfolding upsert_metric_bucket
    upsert_metric_bucket-HasItem bucket component_id severity =
        transact-KeepsTables q laws retry (HasItem i S) _
          (laws.base-upsert_metric bucket component_id severity 1)
          (λ t a h ret. rw (laws.view-upsert_metric bucket component_id severity 1 t) h)

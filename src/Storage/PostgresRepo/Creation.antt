-- ===== src/Storage/PostgresRepo/Creation.antt =====
-- `create_work_item` of backend/app/storage/postgres_repo.py. An attempt whose commit raised may have
-- been applied, so the next may insert a second row.
use ims_prakash.Base.{
  ℕ, ◌+◌, ◌≤◌, ◌≡◌, refl, sym, ap, ◌∙◌, List, [], ◌∷◌, ◌++◌, Option, All, All-append, length,
  length-append, arith,
}
use mathlib.Core.List.{append_assoc, append-nil}
use ims_prakash.Base.Int.{ℤ}
use ims_prakash.Text.{Text}
use ims_prakash.Datetime.{Datetime}
use ims_prakash.Enums.{ComponentType, Severity, open_state}
use ims_prakash.Errors.{ok}
use ims_prakash.Effects.{Outcome}
use ims_prakash.Models.{WorkItem}
use ims_prakash.Services.{Sql, NewWorkItem}
use ims_prakash.Services.Laws.{SqlLaws, RetryLaws, Tables, IsRowOf}
use ims_prakash.Storage.PostgresRepo.{create_work_item}
use ims_prakash.Storage.PostgresRepo.Writes.{transact_rule}

module _ (n : NewWorkItem) (before : Tables) where
  -- Rows with the values of `n` stand behind the ones before, and nothing else changed.
  pub record Added (rows : List WorkItem) (t : Tables) : Type 0 where
    pub items : t.work_items ≡ before.work_items ++ rows
    pub values : All (IsRowOf n) rows
    pub rcas : t.rcas ≡ before.rcas

  -- At most five rows.
  abbrev pub AddedSome : Tables → Type 0
  AddedSome t = (rows : List WorkItem) × (length rows ≤ 5) × Added rows t

  -- One to five rows, the last of which has the id.
  abbrev pub AddedLast : ℤ → Tables → Type 0
  AddedLast i t =
      (earlier : List WorkItem) × (row : WorkItem) × (length earlier ≤ 4)
      × (row.id ≡ i)
      × Added (earlier ++ row ∷ []) t

  -- With `m` attempts left.
  abbrev Left : ℕ → Tables → Type 0
  Left m t = (rows : List WorkItem) × (length rows + m ≤ 5) × Added rows t

  module _ (q : Sql) (laws : SqlLaws q) where
    open laws use {view}

    once_more :
        (rows : List WorkItem) (t : q.Session) (i : ℤ)
        → Added rows (view t)
        → (q.insert_work_item n t).0 ≡ ok i
        → (row : WorkItem) × (row.id ≡ i)
          × Added (rows ++ row ∷ []) (view (q.insert_work_item n t).1)
    once_more rows t i h ret =
        let (row, id, same, e) =
          laws.insert_work_item_row n t _ i (λ j. (ret j, (q.insert_work_item n t).1)) in
        (
          row,
          id,
          rw e (record {
            items =
                ap (λ l. l ++ row ∷ []) h.items ∙ append_assoc before.work_items rows (row ∷ []);
            values = All-append (IsRowOf n) rows (row ∷ []) h.values (same, tt);
            rcas = h.rcas;
          }),
        )

-- What `create_work_item` gives to a new row.
abbrev pub new_values : Text → ComponentType → Severity → Datetime → Option Text → NewWorkItem
new_values component_id component_type severity start_time summary = record {
  component_id = component_id;
  component_type = component_type;
  severity = severity;
  state = open_state;
  start_time = start_time;
  summary = summary;
}

module _ (component_id : Text) (component_type : ComponentType) (severity : Severity)
    (start_time : Datetime) (summary : Option Text) (q : Sql) (laws : SqlLaws q)
    (retry : RetryLaws q) where
  open laws use {tables}

  -- With the documented behaviour of PostgreSQL and tenacity: when `create_work_item` returns, one
  -- to five rows with the given values (the start time as the column keeps it, in UTC), in the state
  -- OPEN, stand behind those before, and the id is that of the last; when it raises, at most five
  -- do. The other work items and the RCAs are as before.
  pub create_work_item_lem :
      (d : q.Db)
      → Outcome
          (λ e.
            AddedSome
              (new_values component_id component_type severity start_time summary)
              (tables d)
              (tables e))
          (λ i e.
            AddedLast
              (new_values component_id component_type severity start_time summary)
              (tables d)
              i
              (tables e))
          (create_work_item q component_id component_type severity start_time summary d)
  unfolding create_work_item
  create_work_item_lem d =
      transact_rule q laws retry (Left new before) (AddedSome new before) (AddedLast new before)
        (q.insert_work_item new)
        (record {
          stays = laws.base-insert_work_item new;
          writes = λ m t i h ret.
              let (rows, bound, added) = h in
              let (row, id, grown) = once_more new before q laws rows t i added ret in
              let longer = length-append rows (row ∷ []) in
              (
                (rows, row, omega (arith, bound), id, grown),
                (rows ++ row ∷ [], omega (arith, bound, longer), grown),
              );
          weaken = λ m t h. (h.0, omega (arith, h.1), h.2);
          fails = λ m t h. (h.0, omega (arith, h.1), h.2);
        })
        d
        (
          [],
          omega arith,
          record { items = sym (append-nil before.work_items); values = tt; rcas = refl },
        )
    where
      before : Tables
      before = tables d

      new : NewWorkItem
      new = new_values component_id component_type severity start_time summary

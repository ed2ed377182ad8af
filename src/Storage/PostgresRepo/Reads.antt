-- ===== src/Storage/PostgresRepo/Reads.antt =====
-- What the reads of backend/app/storage/postgres_repo.py return.
use ims_prakash.Base.{ℕ, inl, inr, ◌≡◌, ap, ◌∙◌, Option}
use ims_prakash.Enums.{WorkItemState, Severity}
use ims_prakash.Base.Int.{ℤ}
use ims_prakash.Errors.{Result, ok}
use ims_prakash.Effects.{Action, Outcome-cases, ◌>>=◌}
use ims_prakash.Models.{WorkItem, Rca}
use ims_prakash.Services.{Sql}
use ims_prakash.Services.Laws.{SqlLaws, Tables, find_row, find_rca}
use ims_prakash.Storage.Postgres.{session_scope, ping}
use ims_prakash.Storage.Postgres.Atomic.{
  Applied, committed, nothing_done, commit_raised, session_scope_lem, session_scope-eq-ok,
}
use ims_prakash.Storage.PostgresRepo.{get_work_item, get_rca, list_work_items}

module _ (q : Sql) (laws : SqlLaws q) where
  open laws use {tables, view, base}

  -- A scope whose body changes nothing leaves the tables, whatever its outcome.
  read_only :
      {A : Type 0} (body : Action q.Session A) (d : q.Db)
      → ((t : q.Session) → base (body t).1 ≡ base t)
      → ((t : q.Session) → view (body t).1 ≡ view t)
      → tables (session_scope q body d).1 ≡ tables d
  read_only body d kb kv = go (session_scope_lem q laws body d kb)
    where
      same : view (body (q.begin d)).1 ≡ tables d
      same = kv (q.begin d) ∙ laws.view-begin d

      go :
          {r : Result _} {t : Tables}
          → Applied q laws (body (q.begin d)) (tables d) r t
          → t ≡ tables d
      go (committed a x y z) = z ∙ same
      go (nothing_done e x y) = y
      go (commit_raised a e x y z) = z ∙ same

  -- `get_work_item` leaves the tables alone, and returns the row with the id or `None`.
  pub tables-get_work_item : (i : ℤ) (d : q.Db) → tables (get_work_item q i d).1 ≡ tables d
  unfolding get_work_item
  tables-get_work_item i d =
      read_only (q.select_work_item i) d (laws.base-select_work_item i)
        (laws.view-select_work_item i)

  pub get_work_item_row :
      (i : ℤ) (d e : q.Db) (o : Option WorkItem)
      → get_work_item q i d ≡ (ok o, e)
      → o ≡ find_row i (tables d).work_items
  unfolding get_work_item
  get_work_item_row i d e o h =
      let (r, t) =
        session_scope-eq-ok q laws (q.select_work_item i) d e o (laws.base-select_work_item i) h in
      let (row, same) =
        laws.select_work_item_row i (q.begin d) (q.select_work_item i (q.begin d)).1 o
          (λ j. (r j, (q.select_work_item i (q.begin d)).1)) in
      row ∙ ap (λ (t : Tables). find_row i t.work_items) (laws.view-begin d)

  pub tables-get_rca : (i : ℤ) (d : q.Db) → tables (get_rca q i d).1 ≡ tables d
  unfolding get_rca
  tables-get_rca i d =
      read_only (q.select_rca i) d (laws.base-select_rca i) (laws.view-select_rca i)

  pub get_rca_row :
      (i : ℤ) (d e : q.Db) (o : Option Rca)
      → get_rca q i d ≡ (ok o, e)
      → o ≡ find_rca i (tables d).rcas
  unfolding get_rca
  get_rca_row i d e o h =
      let (r, t) = session_scope-eq-ok q laws (q.select_rca i) d e o (laws.base-select_rca i) h in
      let row =
        laws.select_rca_row i (q.begin d) (q.select_rca i (q.begin d)).1 o
          (λ j. (r j, (q.select_rca i (q.begin d)).1)) in
      row ∙ ap (λ (t : Tables). find_rca i t.rcas) (laws.view-begin d)

  pub tables-list_work_items :
      (state : Option WorkItemState) (severity : Option Severity) (limit : ℕ) (d : q.Db)
      → tables (list_work_items q state severity limit d).1 ≡ tables d
  unfolding list_work_items
  tables-list_work_items state severity limit d =
      read_only (q.select_work_items state severity limit) d
        (laws.base-select_work_items state severity limit)
        (laws.view-select_work_items state severity limit)

  pub tables-ping : (d : q.Db) → tables (ping q d).1 ≡ tables d
  unfolding ping ◌>>=◌
  tables-ping d = elim (Outcome-cases (q.select_one d)) [
    | inl (n, e, eq) ↦ rw eq (rw eq at (laws.tables-select_one d))
    | inr (x, e, eq) ↦ rw eq (rw eq at (laws.tables-select_one d))
  ]

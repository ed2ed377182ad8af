-- ===== src/Storage/PostgresRepo/UpdateState.antt =====
-- `update_state` of backend/app/storage/postgres_repo.py, with its repeated attempts.
use ims_prakash.Effects.{Outcome}
use ims_prakash.Base.{
  some-injective, ◌≡◌, refl, sym, ◌∙◌, inl, inr, true, not, List, [], ◌∷◌, map, All, Option, none,
  some, Bool-cases,
}
use mathlib.Core.Bool.{false≢true}
use mathlib.Core.Path.{subst}
use ims_prakash.Base.Int.{ℤ}
use ims_prakash.Datetime.{Datetime}
use ims_prakash.Enums.{WorkItemState}
use ims_prakash.Errors.{ok}
use ims_prakash.Models.{WorkItem}
use ims_prakash.Services.{
  Sql, Assignment, set_state, set_end_time, set_mttr_seconds, add_signal_count,
}
use ims_prakash.Services.Laws.{
  SqlLaws, RetryLaws, Tables, update_row, assign_all, int_eq, keep, find_row,
}
use ims_prakash.Storage.PostgresRepo.{update_state, state_values}
use ims_prakash.Storage.PostgresRepo.Writes.{Writes, transact_rule}

pub assign_all-id : (as_ : List Assignment) (w : WorkItem) → (assign_all as_ w).id ≡ w.id
assign_all-id [] w = refl
assign_all-id (set_state x ∷ as_) w = assign_all-id as_ _
assign_all-id (set_end_time x ∷ as_) w = assign_all-id as_ _
assign_all-id (set_mttr_seconds x ∷ as_) w = assign_all-id as_ _
assign_all-id (add_signal_count x ∷ as_) w = assign_all-id as_ _

pub state_values-state :
    (new : WorkItemState) (end : Option Datetime) (mttr : Option ℤ) (w : WorkItem)
    → (assign_all (state_values new end mttr) w).state ≡ new
unfolding state_values
state_values-state new none none w = refl
state_values-state new none (some m) w = refl
state_values-state new (some e) none w = refl
state_values-state new (some e) (some m) w = refl

-- The rows of the other work items.
pub other_rows : ℤ → List WorkItem → List WorkItem
other_rows i = keep (λ r. not (int_eq r.id i))

-- Every row with the id has the state.
abbrev pub HasState : ℤ → WorkItemState → WorkItem → Type 0
HasState i new r = int_eq r.id i ≡ true → r.state ≡ new

module _ (i : ℤ) (vs : List Assignment) (now : Datetime) where
  pub other_rows-update :
      (rows : List WorkItem) → other_rows i (map (update_row i vs now) rows) ≡ other_rows i rows
  unfolding other_rows keep
  other_rows-update [] = refl
  other_rows-update (r ∷ rows) = elim (Bool-cases (int_eq r.id i)) [
    | inl mine ↦ rw (mine, assign_all-id vs r, mine) (other_rows-update rows)
    | inr other ↦ rw (other, other, other_rows-update rows)
  ]

module _ (i : ℤ) (new : WorkItemState) (end : Option Datetime) (mttr : Option ℤ) where
  updated-HasState :
      (now : Datetime) (rows : List WorkItem)
      → All (HasState i new) (map (update_row i (state_values new end mttr) now) rows)
  updated-HasState now [] = tt
  updated-HasState now (r ∷ rows) = (mine_or_other, updated-HasState now rows)
    where
      mine_or_other : HasState i new (update_row i (state_values new end mttr) now r)
      mine_or_other = elim (Bool-cases (int_eq r.id i)) [
        | inl mine ↦ rw mine (λ e. state_values-state new end mttr r)
        | inr other ↦ rw other (λ e. absurd (false≢true (sym other ∙ e)))
      ]

  -- What `update_state` may have done to tables that were `before`.
  abbrev pub OthersKept : Tables → Tables → Type 0
  OthersKept before t =
      (other_rows i t.work_items ≡ other_rows i before.work_items) × (t.rcas ≡ before.rcas)

  abbrev pub Updated : Tables → Tables → Type 0
  Updated before t = OthersKept before t × All (HasState i new) t.work_items

  module _ (q : Sql) (laws : SqlLaws q) (retry : RetryLaws q) where
    -- With the documented behaviour of PostgreSQL and tenacity: when `update_state` returns, every
    -- row with the id has the new state. Whether it returns or raises, and however many attempts
    -- it made, the other work items and the RCAs are as before.
    pub update_state_lem :
        (d : q.Db)
        → let before = laws.tables d in
          Outcome
            (λ e. OthersKept before (laws.tables e))
            (λ _ e. Updated before (laws.tables e))
            (update_state q i new end mttr d)
    unfolding update_state
    update_state_lem d =
        transact_rule q laws retry (λ _. OthersKept (laws.tables d)) (OthersKept (laws.tables d))
          (λ _. Updated (laws.tables d)) (q.update_work_item i values) rules d (refl, refl)
      where
        values : List Assignment
        values = state_values new end mttr

        written :
            (t : q.Session)
            → OthersKept (laws.tables d) (laws.view t)
            → q.update_work_item i values t ≡ (ok tt, (q.update_work_item i values t).1)
            → Updated (laws.tables d) (laws.view (q.update_work_item i values t).1)
        written t h ret =
            let (now, e) = laws.view-update_work_item i values t _ ret in
            rw e (
              (other_rows-update i values now (laws.view t).work_items ∙ h.0, h.1),
              updated-HasState now (laws.view t).work_items,
            )

        rules :
            Writes q laws retry
              (λ _. OthersKept (laws.tables d))
              (OthersKept (laws.tables d))
              (λ _. Updated (laws.tables d))
              (q.update_work_item i (state_values new end mttr))
        rules = record {
          stays = laws.base-update_work_item i (state_values new end mttr);
          writes = λ m t a h ret.
              let w = written t h (λ j. (ret j, (q.update_work_item i values t).1)) in (w, w.0);
          weaken = λ m t h. h;
          fails = λ m t h. h;
        }

-- The row that is found has the id, and what all rows have.
pub find_row-All :
    (P : WorkItem → Type 0) (i : ℤ) (rows : List WorkItem) (r : WorkItem)
    → All P rows
    → find_row i rows ≡ some r
    → P r × (int_eq r.id i ≡ true)
unfolding find_row
find_row-All P i [] r h e = cc
find_row-All P i (x ∷ rows) r h e = elim (Bool-cases (int_eq x.id i)) [
  | inl mine ↦
      let same = some-injective x r (rw mine at e) in
      subst (λ y. P y × (int_eq y.id i ≡ true)) same (h.0, mine)
  | inr other ↦ find_row-All P i rows r h.1 (rw other at e)
]

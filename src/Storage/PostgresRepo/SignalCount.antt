-- ===== src/Storage/PostgresRepo/SignalCount.antt =====
-- `increment_signal_count` of backend/app/storage/postgres_repo.py. An attempt whose commit raised may
-- have been applied, so the signal may be counted again by the next.
use ims_prakash.Effects.{Outcome}
use ims_prakash.Base.{
  ℕ, suc, ◌+◌, ◌≤◌, ◌≡◌, refl, sym, ap, ◌∙◌, inl, inr, List, [], ◌∷◌, map, Bool-cases, arith,
  if◌then◌else◌,
}
use ims_prakash.Base.Int.{ℤ}
use ims_prakash.Datetime.{Datetime}
use ims_prakash.Errors.{ok}
use ims_prakash.Models.{WorkItem}
use ims_prakash.Services.{Sql, Assignment, add_signal_count}
use ims_prakash.Services.Laws.{SqlLaws, RetryLaws, Tables, update_row, int_eq}
use ims_prakash.Storage.PostgresRepo.{increment_signal_count}
use ims_prakash.Storage.PostgresRepo.Writes.{transact_rule}
use ims_prakash.Storage.PostgresRepo.UpdateState.{other_rows, other_rows-update}

-- Each row's id and its signal count.
pub counts : List WorkItem → List (ℤ × ℕ)
counts [] = []
counts (w ∷ ws) = (w.id, w.signal_count) ∷ counts ws

-- The counts of the item are raised by `k`.
pub raised : ℤ → ℕ → List (ℤ × ℕ) → List (ℤ × ℕ)
raised i k [] = []
raised i k ((j, c) ∷ rest) = (j, if int_eq j i then c + k else c) ∷ raised i k rest

module _ (i : ℤ) where
  raised_zero : (l : List (ℤ × ℕ)) → raised i 0 l ≡ l
  unfolding raised
  raised_zero [] = refl
  raised_zero ((j, c) ∷ rest) = ground (arith, raised_zero rest)

  raised_again : (k : ℕ) (l : List (ℤ × ℕ)) → raised i 1 (raised i k l) ≡ raised i (suc k) l
  unfolding raised
  raised_again k [] = refl
  raised_again k ((j, c) ∷ rest) = ground (arith, raised_again k rest)

  counts-update :
      (now : Datetime) (rows : List WorkItem)
      → counts (map (update_row i (add_signal_count 1 ∷ []) now) rows) ≡ raised i 1 (counts rows)
  unfolding counts raised
  counts-update now [] = refl
  counts-update now (w ∷ rows) = elim (Bool-cases (int_eq w.id i)) [
    | inl mine ↦ rw (mine, counts-update now rows)
    | inr other ↦ rw (other, counts-update now rows)
  ]

  -- The item is counted `k` times more than before, and nothing else of the other items changed.
  pub record Counted (before : Tables) (k : ℕ) (t : Tables) : Type 0 where
    pub grown : counts t.work_items ≡ raised i k (counts before.work_items)
    pub others : other_rows i t.work_items ≡ other_rows i before.work_items
    pub rcas : t.rcas ≡ before.rcas

  abbrev pub CountedWithin : Tables → ℕ → ℕ → Tables → Type 0
  CountedWithin before lo hi t = (k : ℕ) × (lo ≤ k) × (k ≤ hi) × Counted before k t

  module _ (q : Sql) (laws : SqlLaws q) (retry : RetryLaws q) where
    open laws use {tables, view}

    once_more :
        (before : Tables) (k : ℕ) (t : q.Session)
        → Counted before k (view t)
        → (q.update_work_item i (add_signal_count 1 ∷ []) t).0 ≡ ok tt
        → Counted before (suc k) (view (q.update_work_item i (add_signal_count 1 ∷ []) t).1)
    once_more before k t h ret =
        let values : List Assignment = add_signal_count 1 ∷ [] in
        let (now, e) =
          laws.view-update_work_item i values t _
            (λ j. (ret j, (q.update_work_item i values t).1)) in
        let rows = (view t).work_items in
        rw e (record {
          grown =
              counts-update now rows
              ∙ ap (raised i 1) h.grown
              ∙ raised_again k (counts before.work_items);
          others = other_rows-update i values now rows ∙ h.others;
          rcas = h.rcas;
        })

    -- With the documented behaviour of PostgreSQL and tenacity: when `increment_signal_count`
    -- returns, the item's signal count has grown by at least 1 and at most 5; when it raises, by at
    -- most 5. In both cases the other items and the RCAs are as before.
    pub increment_signal_count_lem :
        (d : q.Db)
        → let before = tables d in
          Outcome
            (λ e. CountedWithin before 0 5 (tables e))
            (λ _ e. CountedWithin before 1 5 (tables e))
            (increment_signal_count q i d)
    unfolding increment_signal_count
    increment_signal_count_lem d =
        transact_rule q laws retry left (CountedWithin before 0 5) (λ _. CountedWithin before 1 5)
          (q.update_work_item i (add_signal_count 1 ∷ []))
          (record {
            stays = laws.base-update_work_item i (add_signal_count 1 ∷ []);
            writes = λ m t a h ret.
                let next = once_more before h.0 t h.2 ret in
                (
                  (suc h.0, omega arith, omega (arith, h.1), next),
                  (suc h.0, omega (arith, h.1), next),
                );
            weaken = λ m t h. (h.0, omega (arith, h.1), h.2);
            fails = λ m t h. (h.0, omega arith, omega (arith, h.1), h.2);
          })
          d
          (
            0,
            omega arith,
            record {
              grown = sym (raised_zero (counts before.work_items));
              others = refl;
              rcas = refl;
            },
          )
      where
        before : Tables
        before = tables d

        -- With `m` attempts left.
        left : ℕ → Tables → Type 0
        left m t = (k : ℕ) × (k + m ≤ 5) × Counted before k t

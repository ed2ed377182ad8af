-- ===== src/IncidentsApi/Gated.antt =====
-- Tables in which every closed work item has a complete RCA, under the writes of
-- backend/app/storage/postgres_repo.py with their repeated attempts.
pub mod Handlers
use ims_prakash.Base.{
  ◌≡◌, ◌≢◌, refl, sym, ap, ◌∙◌, inl, inr, Bool, true, false, not, List, [], ◌∷◌, map, Option, none,
  some, All, Bool-cases,
}
use ims_prakash.Base.Int.{ℤ}
use ims_prakash.Datetime.{Datetime}
use ims_prakash.Enums.{WorkItemState, closed}
use ims_prakash.Errors.{ok}
use ims_prakash.Effects.{Action, Outcome, ◌>>=◌}
use ims_prakash.Models.{WorkItem, Rca}
use ims_prakash.RcaValidator.{rca_like}
use ims_prakash.RcaValidator.Complete.{IsComplete, IsCompleteRca}
use ims_prakash.Services.{Sql, Assignment, NewRca}
use ims_prakash.Services.Laws.{
  SqlLaws, RetryLaws, Tables, HasValues, update_row, assign_all, int_eq, find_rca, keep,
}
use ims_prakash.Storage.PostgresRepo.{state_values, update_state, upsert_rca}
use ims_prakash.Storage.PostgresRepo.Writes.{transact_rule}
use ims_prakash.Storage.PostgresRepo.UpdateState.{state_values-state, assign_all-id}
use ims_prakash.Storage.PostgresRepo.UpsertRca.{
  int_eq→≡, find_rca-other, Submitted, upsert_body, upsert_body-stays, upsert_body-Submitted,
}
use ims_prakash.IncidentsApi.{optional_rca}

-- The item's RCA is complete.
abbrev pub Reported : ℤ → List Rca → Type 0
Reported i rcas = IsCompleteRca (optional_rca (find_rca i rcas))

abbrev pub GatedRow : List Rca → WorkItem → Type 0
GatedRow rcas w = w.state ≡ closed → Reported w.id rcas

abbrev pub IsGated : Tables → Type 0
IsGated t = All (GatedRow t.rcas) t.work_items

module _ (i : ℤ) (vs : List Assignment) (now : Datetime) (rcas : List Rca)
    (ready : (w : WorkItem)
      → w.id ≡ i
      → GatedRow rcas w
      → (assign_all vs w).state ≡ closed
      → Reported i rcas) where
  update_row-Gated : (w : WorkItem) → GatedRow rcas w → GatedRow rcas (update_row i vs now w)
  update_row-Gated w h = elim (Bool-cases (int_eq w.id i)) [
    | inl mine ↦ rw mine (λ (e : (assign_all vs w).state ≡ closed).
        rw (assign_all-id vs w, int_eq→≡ w.id i mine) (ready w (int_eq→≡ w.id i mine) h e))
    | inr other ↦ rw other h
  ]

  pub update-Gated :
      (rows : List WorkItem)
      → All (GatedRow rcas) rows
      → All (GatedRow rcas) (map (update_row i vs now) rows)
  update-Gated [] h = tt
  update-Gated (w ∷ rows) (h, hs) = (update_row-Gated w h, update-Gated rows hs)

module _ (n : NewRca) (before : Tables) (r : Rca) (t : Tables) (done : Submitted n before r t)
    (complete : IsComplete (rca_like r)) where
  submitted-GatedRow : (w : WorkItem) → GatedRow before.rcas w → GatedRow t.rcas w
  unfolding optional_rca
  submitted-GatedRow w h = elim (Bool-cases (int_eq w.id n.work_item_id)) [
    | inl mine ↦ λ e. rw (int_eq→≡ w.id n.work_item_id mine, done.1) complete
    | inr other ↦
        let same : find_rca w.id t.rcas ≡ find_rca w.id before.rcas =
          find_rca-other n.work_item_id w.id other t.rcas
          ∙ ap (find_rca w.id) done.0.0
          ∙ sym (find_rca-other n.work_item_id w.id other before.rcas) in
        λ e. rw same (h e)
  ]

  submitted-rows :
      (rows : List WorkItem) → All (GatedRow before.rcas) rows → All (GatedRow t.rcas) rows
  submitted-rows [] h = tt
  submitted-rows (w ∷ rows) (h, hs) = (submitted-GatedRow w h, submitted-rows rows hs)

  submitted-IsGated : IsGated before → IsGated t
  submitted-IsGated h = rw done.0.1 (submitted-rows before.work_items h)

module _ (q : Sql) (laws : SqlLaws q) (retry : RetryLaws q) where
  open laws use {tables, view}

  -- An update to closed wants a complete RCA on file; any other needs nothing.
  pub update_state-IsGated :
      (i : ℤ) (new : WorkItemState) (end : Option Datetime) (mttr : Option ℤ) (d : q.Db)
      → IsGated (tables d)
      → (new ≡ closed → Reported i (tables d).rcas)
      → Outcome
          (λ e. IsGated (tables e))
          (λ _ e. IsGated (tables e))
          (update_state q i new end mttr d)
  unfolding update_state
  update_state-IsGated i new end mttr d gated gate =
      transact_rule q laws retry (λ _. Kept) (λ t. IsGated t) (λ _ t. IsGated t)
        (q.update_work_item i values)
        (record {
          stays = laws.base-update_work_item i values;
          writes = λ m t a h ret. let k = written t h ret in (k.0, k);
          weaken = λ m t h. h;
          fails = λ m t h. h.0;
        })
        d (gated, refl)
    where
      values : List Assignment
      values = state_values new end mttr

      Kept : Tables → Type 0
      Kept t = IsGated t × (t.rcas ≡ (tables d).rcas)

      written :
          (t : q.Session)
          → Kept (view t)
          → (q.update_work_item i values t).0 ≡ ok tt
          → Kept (view (q.update_work_item i values t).1)
      written t (h, same) ret =
          let (now, e) =
            laws.view-update_work_item i values t _
              (λ j. (ret j, (q.update_work_item i values t).1)) in
          rw e (
            update-Gated i values now (view t).rcas
                (λ w id g e. rw same (gate (sym (state_values-state new end mttr w) ∙ e)))
                (view t).work_items h,
            same,
          )

  -- An upsert of values of which any row is a complete RCA.
  pub upsert_rca-IsGated :
      (n : NewRca) (d : q.Db)
      → IsGated (tables d)
      → ((r : Rca) → HasValues n r → IsComplete (rca_like r))
      → Outcome (λ e. IsGated (tables e)) (λ _ e. IsGated (tables e)) (upsert_rca q n d)
  unfolding upsert_rca
  upsert_rca-IsGated n d gated complete =
      transact_rule q laws retry (λ _ t. IsGated t) (λ t. IsGated t) (λ _ t. IsGated t)
        (upsert_body n q laws)
        (record {
          stays = upsert_body-stays n q laws;
          writes = λ m t r h ret.
              let done = upsert_body-Submitted n q laws (view t) t r (refl, refl) ret in
              let k = submitted-IsGated n (view t) r _ done (complete r done.2) h in (k, k);
          weaken = λ m t h. h;
          fails = λ m t h. h;
        })
        d gated

-- ===== src/IncidentsApi/Diagram.antt =====
-- The state of one work item under the handlers of backend/app/incidents_api.py, however they end.
use ims_prakash.Base.{some-injective, ◌≡◌, ◌∙◌, inl, inr, Option, none, some}
use ims_prakash.Base.Int.{ℤ}
use ims_prakash.Datetime.{Datetime}
use ims_prakash.Enums.{WorkItemState, closed, state_eq}
use ims_prakash.Errors.{Result-cases}
use ims_prakash.Effects.{raise, pure, Outcome-cases, lift}
use ims_prakash.Effects.Ensures.{
  Ensures, Keeps, Ensures-bind, Ensures-fail, Ensures-given, Ensures-if, Keeps-bind, Keeps-pure,
  Keeps-raise, Keeps-lift,
}
use ims_prakash.Models.{WorkItem, Rca, RcaIn}
use ims_prakash.States.{TransitionResult, transition}
use ims_prakash.States.Graph.{◌⟶◌, transition-⟶}
use ims_prakash.Services.{Services}
use ims_prakash.Services.Laws.{SqlLaws, RetryLaws, find_row}
use ims_prakash.Storage.PostgresRepo.{get_work_item}
use ims_prakash.Storage.PostgresRepo.Reads.{tables-get_work_item, get_work_item_row}
use ims_prakash.Storage.PostgresRepo.RowState.{HasItem, update_state-HasItem, upsert_rca-HasItem}
use ims_prakash.World.{World, on_db}
use ims_prakash.World.Frame.{Keeps-clock_now}
use ims_prakash.World.Tables.{InTables, IsReadable, InTables-IsReadable, write-Keeps}
use ims_prakash.IncidentsApi.{
  find_item, or_not_found, store_transition, transition_incident, submit_rca, seen_by_states,
  optional_rca, with_http_errors, new_rca,
}
use ims_prakash.IncidentsApi.Reads.{find_item-Keeps, or_assert-Keeps, clean_up-Keeps}

-- The states that the item may be in before, and those that it may be in after a transition.
module _ (s : Services) (laws : SqlLaws s.sql) (retry : RetryLaws s.sql) (i : ℤ)
    (Before After : WorkItemState → Type 0) (stays : (b : WorkItemState) → Before b → After b)
    (along : (a b : WorkItemState) → Before a → a ⟶ b → After b) where
  abbrev P : World s → Type 0
  P = InTables s laws (HasItem i Before)

  abbrev Q : World s → Type 0
  Q = InTables s laws (HasItem i After)

  P→Q : (w : World s) → P w → Q w
  P→Q w h = (h.0, h.1, stays h.0.state h.2)

  readable : IsReadable {s = s} P
  readable = InTables-IsReadable s laws (HasItem i Before)

  readable_after : IsReadable {s = s} Q
  readable_after = InTables-IsReadable s laws (HasItem i After)

  -- The row that was read is the one on file.
  abbrev HasRow : ℤ → Option WorkItem → World s → Type 0
  HasRow j o w = P w × (o ≡ find_row j (laws.tables w.db).work_items)

  get_item-HasRow : (j : ℤ) → Ensures P (HasRow j) P (on_db (get_work_item s.sql j))
  unfolding on_db
  get_item-HasRow j = record {
    at = λ w h.
        let same = tables-get_work_item s.sql laws j w.db in
        elim (Outcome-cases (get_work_item s.sql j w.db)) [
          | inl (o, d, e) ↦
              let kept = rw e at same in
              rw e (rw kept h, rw kept (get_work_item_row s.sql laws j w.db d o e))
          | inr (x, d, e) ↦ rw e (rw (rw e at same) h)
        ];
  }

  or_not_found-S :
      (j : ℤ) (o : Option WorkItem)
      → Ensures (HasRow j o) (λ wi w. P w × (i ≡ j → Before wi.state)) P (or_not_found s j o)
  unfolding or_not_found raise pure
  or_not_found-S j none = record { at = λ w h. h.0 }
  or_not_found-S j (some wi) = record {
    at = λ w h.
        let ((row, found, in_s), read) = h in
        (
          h.0,
          λ same.
              let equal : wi ≡ row = some-injective wi row (read ∙ rw (← same) found) in
              rw equal in_s,
        );
  }

  find_item-S : (j : ℤ) → Ensures P (λ wi w. P w × (i ≡ j → Before wi.state)) P (find_item s j)
  unfolding find_item
  find_item-S j = Ensures-bind (get_item-HasRow j) (or_not_found-S j)

  accept-S :
      (j : ℤ) (wi : WorkItem) (rca : Option Rca) (target : WorkItemState) (now : Datetime)
      → (i ≡ j → Before wi.state)
      → Ensures P
          (λ r w. Q w × (i ≡ j → After (TransitionResult.new_state r)))
          Q
          (lift (with_http_errors (transition (seen_by_states wi) target (optional_rca rca) now)))
  unfolding lift with_http_errors
  accept-S j wi rca target now from = record {
    at = λ w h. elim (Result-cases (transition (seen_by_states wi) target (optional_rca rca) now)) [
      | inl (r, e) ↦
          let (edge, to) = transition-⟶ (seen_by_states wi) target (optional_rca rca) now e in
          rw e (P→Q w h, λ same. rw to (along wi.state target (from same) edge))
      | inr (x, e) ↦ rw e (P→Q w h)
    ];
  }

  store_transition-S :
      (j : ℤ) (wi : WorkItem) (r : TransitionResult)
      → (i ≡ j → After r.new_state)
      → Keeps Q (store_transition s wi j r)
  unfolding store_transition
  store_transition-S j wi r ready =
      Keeps-bind
        (write-Keeps s laws retry (HasItem i After) _ (
          update_state-HasItem i After s.sql laws retry j r.new_state r.end_time r.mttr_seconds
            ready))
        (λ u.
          Keeps-bind
            (Ensures-if (state_eq r.new_state closed) (clean_up-Keeps s Q readable_after wi j)
              (Keeps-pure tt))
            (λ v. Keeps-bind (readable_after.item j) (or_assert-Keeps s Q readable_after)))

  pub transition_incident-S :
      (target : WorkItemState) (j : ℤ) → Ensures P (λ _. Q) Q (transition_incident s target j)
  unfolding transition_incident
  transition_incident-S target j = Ensures-bind (Ensures-fail P→Q (find_item-S j)) (λ wi.
      Ensures-given (λ from. Ensures-bind {Mid = λ _. P} (Ensures-fail P→Q (readable.rca j)) (λ rca.
        Ensures-bind {Mid = λ _. P} (Ensures-fail P→Q (Keeps-clock_now readable.aside)) (λ now.
          Ensures-bind (accept-S j wi rca target now from)
            (λ r. Ensures-given (store_transition-S j wi r))))))

  pub submit_rca-S : (body : RcaIn) (j : ℤ) → Keeps P (submit_rca s body j)
  unfolding submit_rca
  submit_rca-S body j = Keeps-bind (find_item-Keeps s P readable j) (λ wi.
      Keeps-bind (Keeps-lift _) (λ late. Ensures-if late (Keeps-raise _) (
        write-Keeps s laws retry (HasItem i Before) _
          (upsert_rca-HasItem i Before s.sql laws retry (new_rca j body)))))

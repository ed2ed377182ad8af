-- ===== src/IncidentsApi/Gated/Handlers.antt =====
-- Tables in which every closed work item has a complete RCA, under the handlers of
-- backend/app/incidents_api.py, however they end.
use ims_prakash.Base.{◌≡◌, refl, inl, inr, Bool, true, false, Option, some, if◌then◌else◌}
use ims_prakash.Base.Int.{ℤ}
use ims_prakash.Datetime.{Datetime, utc, earlier}
use ims_prakash.Enums.{WorkItemState, closed, state_eq}
use ims_prakash.Errors.{Result-cases, ok, http_exception, rca_time_range}
use ims_prakash.Effects.{Outcome-cases, raise, lift}
use ims_prakash.Effects.Ensures.{Ensures, Keeps, Ensures-bind, Ensures-if, Keeps-bind, Keeps-pure}
use ims_prakash.Models.{WorkItem, Rca, RcaIn, Pydantic, rca_in}
use ims_prakash.RcaValidator.Complete.{IsCompleteRca}
use mathlib.Core.Path.{subst}
use ims_prakash.States.{TransitionResult, transition}
use ims_prakash.States.Gate.{accepted-closed}
use ims_prakash.Services.{Services, Clock}
use ims_prakash.Services.Laws.{SqlLaws, RetryLaws, find_rca}
use ims_prakash.World.{World, on_db, clock_now}
use ims_prakash.World.Frame.{Ensures-on_db}
use ims_prakash.Storage.PostgresRepo.{get_rca, update_state, upsert_rca}
use ims_prakash.Storage.PostgresRepo.Reads.{tables-get_rca, get_rca_row}
use ims_prakash.IncidentsApi.{
  store_transition, transition_incident, submit_rca, seen_by_states, optional_rca, with_http_errors,
  new_rca,
}
use ims_prakash.IncidentsApi.Submissions.{submitted-IsComplete}
use ims_prakash.World.Tables.{InTables, IsReadable, InTables-IsReadable}
use ims_prakash.IncidentsApi.Reads.{or_assert-Keeps, clean_up-Keeps, find_item-Keeps}
use ims_prakash.IncidentsApi.Gated.{Reported, IsGated, update_state-IsGated, upsert_rca-IsGated}

module _ (s : Services) (laws : SqlLaws s.sql) where
  abbrev P : World s → Type 0
  P = InTables s laws IsGated

  readable : IsReadable {s = s} P
  readable = InTables-IsReadable s laws IsGated

  -- The RCA that was read is the one on file.
  abbrev HasRca : ℤ → Option Rca → World s → Type 0
  HasRca i rca w = P w × (rca ≡ find_rca i (laws.tables w.db).rcas)

  -- A result may be stored: where it is closed, a complete RCA is on file.
  abbrev IsReady : ℤ → TransitionResult → World s → Type 0
  IsReady i r w = P w × (r.new_state ≡ closed → Reported i (laws.tables w.db).rcas)

  get_rca-HasRca : (i : ℤ) → Ensures P (HasRca i) P (on_db (get_rca s.sql i))
  unfolding on_db
  get_rca-HasRca i = record {
    at = λ w h.
        let same = tables-get_rca s.sql laws i w.db in
        elim (Outcome-cases (get_rca s.sql i w.db)) [
          | inl (rca, d, e) ↦
              let kept = rw e at same in
              rw e (rw kept h, rw kept (get_rca_row s.sql laws i w.db d rca e))
          | inr (x, d, e) ↦ rw e (rw (rw e at same) h)
        ];
  }

  module _ (utc_clock : (t : Clock.Time s.clock) → (Clock.now s.clock t).0.tzinfo ≡ some utc) where
    clock_now-utc :
        (i : ℤ) (rca : Option Rca)
        → Ensures (HasRca i rca) (λ now w. HasRca i rca w × (now.tzinfo ≡ some utc)) P clock_now
    unfolding clock_now
    clock_now-utc i rca = record { at = λ w h. (h, utc_clock w.time) }

  accept-IsReady :
      (i : ℤ) (wi : WorkItem) (rca : Option Rca) (target : WorkItemState) (now : Datetime)
      → Ensures
          (λ w. HasRca i rca w × (now.tzinfo ≡ some utc))
          (IsReady i)
          P
          (lift (with_http_errors (transition (seen_by_states wi) target (optional_rca rca) now)))
  unfolding lift with_http_errors
  accept-IsReady i wi rca target now = record {
    at = λ w h.
        let ((gated, same), aware) = h in
        elim (Result-cases (transition (seen_by_states wi) target (optional_rca rca) now)) [
          | inl (r, accepted) ↦ rw accepted (
            gated,
            λ is_closed.
                subst (λ (o : Option Rca). IsCompleteRca (optional_rca o)) same
                  (accepted-closed (optional_rca rca) now aware (seen_by_states wi) target r
                    accepted is_closed),
          )
          | inr (e, refused) ↦ rw refused gated
        ];
  }

  module _ (retry : RetryLaws s.sql) where
    update-Keeps :
        (i : ℤ) (r : TransitionResult)
        → Ensures
            (IsReady i r)
            (λ _. P)
            P
            (on_db (update_state s.sql i r.new_state r.end_time r.mttr_seconds))
    update-Keeps i r =
        Ensures-on_db
          (λ d. IsGated (laws.tables d) × (r.new_state ≡ closed → Reported i (laws.tables d).rcas))
          (λ d. IsGated (laws.tables d)) (λ u d. IsGated (laws.tables d))
          (update_state s.sql i r.new_state r.end_time r.mttr_seconds)
          (λ d h.
            update_state-IsGated s.sql laws retry i r.new_state r.end_time r.mttr_seconds d h.0 h.1)

    store_transition-Keeps :
        (wi : WorkItem) (i : ℤ) (r : TransitionResult)
        → Ensures (IsReady i r) (λ _. P) P (store_transition s wi i r)
    unfolding store_transition
    store_transition-Keeps wi i r = Ensures-bind {Mid = λ _. P} (update-Keeps i r) (λ u.
        Keeps-bind
          (Ensures-if (state_eq r.new_state closed) (clean_up-Keeps s P readable wi i)
            (Keeps-pure tt))
          (λ v. Keeps-bind (readable.item i) (or_assert-Keeps s P readable)))

    -- The comparison of the times, and what follows it.
    compare-Ensures :
        (body : RcaIn)
        → Ensures P
            (λ late w. P w × (earlier body.rca_end_time body.rca_start_time ≡ ok late))
            P
            (lift (earlier body.rca_end_time body.rca_start_time))
    unfolding lift
    compare-Ensures body = record {
      at = λ w h. elim (Result-cases (earlier body.rca_end_time body.rca_start_time)) [
        | inl (late, e) ↦ rw e (h, refl)
        | inr (x, e) ↦ rw e h
      ];
    }

    upsert-Keeps :
        (p : Pydantic) (raw body : RcaIn) (i : ℤ)
        → rca_in p raw ≡ ok body
        → (late : Bool)
        → Ensures
            (λ w. P w × (earlier body.rca_end_time body.rca_start_time ≡ ok late))
            (λ _. P)
            P
            (if late
              then raise (http_exception 400 rca_time_range)
              else on_db (upsert_rca s.sql (new_rca i body)))
    unfolding raise
    upsert-Keeps p raw body i accepted true = record { at = λ w h. h.0 }
    upsert-Keeps p raw body i accepted false =
        Ensures-on_db
          (λ d.
            IsGated (laws.tables d) × (earlier body.rca_end_time body.rca_start_time ≡ ok false))
          (λ d. IsGated (laws.tables d)) (λ r d. IsGated (laws.tables d))
          (upsert_rca s.sql (new_rca i body))
          (λ d h.
            upsert_rca-IsGated s.sql laws retry (new_rca i body) d h.0
              (λ r values. submitted-IsComplete p raw body i r accepted h.1 values))

    pub submit_rca-Keeps :
        (p : Pydantic) (raw body : RcaIn) (i : ℤ)
        → rca_in p raw ≡ ok body
        → Keeps P (submit_rca s body i)
    unfolding submit_rca
    submit_rca-Keeps p raw body i accepted =
        Keeps-bind (find_item-Keeps s P readable i)
          (λ wi. Ensures-bind (compare-Ensures body) (upsert-Keeps p raw body i accepted))

    module _
        (utc_clock : (t : Clock.Time s.clock) → (Clock.now s.clock t).0.tzinfo ≡ some utc) where
      pub transition_incident-Keeps :
          (target : WorkItemState) (i : ℤ) → Keeps P (transition_incident s target i)
      unfolding transition_incident
      transition_incident-Keeps target i = Keeps-bind (find_item-Keeps s P readable i) (λ wi.
          Ensures-bind (get_rca-HasRca i) (λ rca.
            Ensures-bind (clock_now-utc utc_clock i rca) (λ now.
              Ensures-bind (accept-IsReady i wi rca target now) (store_transition-Keeps wi i))))

-- ===== src/States/Gate.antt =====
-- The RCA gate and the time to repair of backend/app/patterns/states.py.
use ims_prakash.Base.{◌≡◌, ◌↔◌, refl, sym, ◌∙◌, inl, inr, Option, none, some, arith}
use ims_prakash.Base.Int.{ℤ, ◌-ℤ◌}
use ims_prakash.Datetime.{Datetime, utc, instant, assume_utc, elapsed}
use ims_prakash.Enums.{WorkItemState, open_state, investigating, resolved, closed}
use ims_prakash.Errors.{ok, Result-cases}
use ims_prakash.RcaValidator.{RcaLike, validate}
use ims_prakash.RcaValidator.Complete.{IsCompleteRca, validate-eq-ok_iff}
use ims_prakash.States.Graph.{transition-⟶}
use ims_prakash.States.{WorkItemLike, TransitionResult, transition, close_resolved}

-- The start of a work item as an instant of UTC; a naive one is read as UTC.
abbrev pub start_instant : Datetime → ℤ
start_instant d = elim d.tzinfo [ none ↦ instant d.wall utc | some z ↦ instant d.wall z ]

-- With an aware clock the subtraction of the close does not raise.
elapsed-utc :
    (now start : Datetime)
    → now.tzinfo ≡ some utc
    → elapsed now (assume_utc start) ≡ ok (instant now.wall utc -ℤ start_instant start)
unfolding elapsed assume_utc
elapsed-utc now start h = ground arith

-- What a close that passes the gate returns.
abbrev pub closing : WorkItemLike → Datetime → TransitionResult
closing wi now = record {
  new_state = closed;
  end_time = some now;
  mttr_seconds = some (instant now.wall utc -ℤ start_instant wi.start_time);
}

module _ (rca : Option RcaLike) (now : Datetime) (aware : now.tzinfo ≡ some utc) where
  close_ok :
      (wi : WorkItemLike) → validate rca ≡ ok tt → close_resolved wi rca now ≡ ok (closing wi now)
  unfolding close_resolved
  close_ok wi v = rw (v, elapsed-utc now wi.start_time aware)

  close-ok_iff :
      (wi : WorkItemLike) (r : TransitionResult)
      → (close_resolved wi rca now ≡ ok r) ↔ (IsCompleteRca rca × (r ≡ closing wi now))
  close-ok_iff wi r = (there, λ h. rw (h.1) (close_ok wi ((validate-eq-ok_iff rca).1 h.0)))
    where
      there : close_resolved wi rca now ≡ ok r → IsCompleteRca rca × (r ≡ closing wi now)
      there h = elim (Result-cases (validate rca)) [
        | inl (done, v) ↦ ((validate-eq-ok_iff rca).0 v, cc (h, close_ok wi v))
        | inr (e, v) ↦ (unfold close_resolved in cc)
      ]

  closes_from :
      (s : WorkItemState) (start : Datetime) (r : TransitionResult)
      → let wi : WorkItemLike = record { state = s; start_time = start } in
        (transition wi closed rca now ≡ ok r)
        ↔ ((s ≡ resolved) × IsCompleteRca rca × (r ≡ closing wi now))
  unfolding transition
  closes_from resolved start r =
      let (there, back) = close-ok_iff (record { state = resolved; start_time = start }) r in
      ((λ h. (refl, (there h).0, (there h).1)), (λ h. back (h.1, h.2)))
  closes_from open_state start r = ((λ h. cc), (λ h. cc (h.0)))
  closes_from investigating start r = ((λ h. cc), (λ h. cc (h.0)))
  closes_from closed start r = ((λ h. cc), (λ h. cc (h.0)))

  -- With a reading of the clock in UTC, a close is accepted exactly from RESOLVED and with a
  -- complete RCA. It stamps that reading, and the time to repair is the difference between it and
  -- the start, in UTC.
  pub transition-closed_iff :
      (wi : WorkItemLike) (r : TransitionResult)
      → (transition wi closed rca now ≡ ok r)
        ↔ ((wi.state ≡ resolved) × IsCompleteRca rca × (r ≡ closing wi now))
  transition-closed_iff wi r = closes_from wi.state wi.start_time r

  -- Whatever was asked for, a result that is closed has passed the gate.
  pub accepted-closed :
      (wi : WorkItemLike) (target : WorkItemState) (r : TransitionResult)
      → transition wi target rca now ≡ ok r
      → r.new_state ≡ closed
      → IsCompleteRca rca
  accepted-closed wi target r accepted is_closed =
      let to = (transition-⟶ wi target rca now accepted).1 in
      let same : target ≡ closed = sym to ∙ is_closed in
      ((transition-closed_iff wi r).0 (rw same at accepted)).1

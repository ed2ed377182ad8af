-- ===== src/IncidentsApi/Race/Reopened.antt =====
-- A close and a bounce of one incident that run at the same time (backend/app/incidents_api.py).
use ims_prakash.Base.{ℕ, zero, suc, ◌≡◌, refl, none, some, arith}
use ims_prakash.Datetime.{Datetime, utc}
use ims_prakash.Enums.{closed, resolved, investigating}
use ims_prakash.Errors.{ok}
use ims_prakash.Models.{Pydantic}
use ims_prakash.RcaValidator.Complete.{IsCompleteRca}
use ims_prakash.States.{WorkItemLike, TransitionResult, transition}
use ims_prakash.States.Gate.{closing, transition-closed_iff}
use ims_prakash.Storage.PostgresRepo.{state_values}
use ims_prakash.IncidentsApi.{seen_by_states, optional_rca}
use ims_prakash.IncidentsApi.Race.{
  Incident, has_item, storing, stored, with_result, read_item, accept, store, Request,
  transition_to, System, Reach, arriving,
}
use ims_prakash.Interleaving.{update, moved, here, next, Reach-trans}
use native.Mathlib.Decide.{ℕ_discrete}

-- `TransitionResult` of the bounce.
abbrev bounced : TransitionResult
bounced = record { new_state = investigating; end_time = none; mttr_seconds = none }

-- The close is request 0, the bounce request 1.
abbrev pub close_and_bounce : {p : Pydantic} → ℕ → Request p
close_and_bounce zero = transition_to closed
close_and_bounce (suc i) = transition_to investigating

bounce_accepted :
    (wi : WorkItemLike) (s : Incident) (now : Datetime)
    → wi.state ≡ resolved
    → transition wi investigating (optional_rca s.rca) now ≡ ok bounced
unfolding transition
bounce_accepted wi s now h = ground arith

module _ (p : Pydantic) (s : Incident) (now : Datetime) where
  abbrev pub start : System
  start = arriving s (close_and_bounce {p = p})

  -- Both requests have read the item, then both are accepted, then the close is stored, and then the
  -- bounce.
  abbrev one_read : System
  one_read = record { shared = s; phase = update start.phase 0 (has_item closed s.item) }

  abbrev both_read : System
  both_read = record { shared = s; phase = update one_read.phase 1 (has_item investigating s.item) }

  abbrev pub result : TransitionResult
  result = closing (seen_by_states s.item) now

  abbrev pub one_accepted : System
  one_accepted = record { shared = s; phase = update both_read.phase 0 (storing result) }

  abbrev pub both_accepted : System
  both_accepted = record { shared = s; phase = update one_accepted.phase 1 (storing bounced) }

  abbrev pub is_closed : System
  is_closed = record {
    shared = with_result result now s;
    phase = update both_accepted.phase 0 stored;
  }

  abbrev is_reopened : System
  is_reopened = record {
    shared = with_result bounced now is_closed.shared;
    phase = update is_closed.phase 1 stored;
  }

  reads : Reach start both_read
  unfolding update ℕ_discrete
  reads = next (next here (moved 0 (read_item refl))) (moved 1 (read_item refl))

  module _ (at_rest : s.item.state ≡ resolved) (complete : IsCompleteRca (optional_rca s.rca))
      (aware : now.tzinfo ≡ some utc) where
    close_accepted : transition (seen_by_states s.item) closed (optional_rca s.rca) now ≡ ok result
    close_accepted =
        (transition-closed_iff (optional_rca s.rca) now aware (seen_by_states s.item) result).1
          (at_rest, complete, refl)

    accepts : Reach both_read both_accepted
    unfolding update ℕ_discrete
    accepts =
        next (next here (moved 0 (accept now aware close_accepted)))
          (moved 1 (accept now aware (bounce_accepted (seen_by_states s.item) s now at_rest)))

    pub closes : Reach start is_closed
    unfolding update ℕ_discrete
    closes = next (Reach-trans _ reads accepts) (moved 0 (store now refl))

    reopens : Reach is_closed is_reopened
    unfolding update ℕ_discrete
    reopens = next here (moved 1 (store now refl))

  -- A close and a bounce of a resolved incident with a complete RCA, which run at the same time with
  -- a clock in UTC, can reach a state where the item is closed, and from there one where it is under
  -- investigation again and still has the end time of the close: the update does not look at the
  -- state that it overwrites.
  pub closed_reopens :
      s.item.state ≡ resolved
      → IsCompleteRca (optional_rca s.rca)
      → now.tzinfo ≡ some utc
      → (y z : System) × Reach start y
        × (y.shared.item.state ≡ closed)
        × Reach y z
        × (z.shared.item.state ≡ investigating)
        × (z.shared.item.end_time ≡ some now)
  unfolding state_values
  closed_reopens at_rest complete aware = (
    is_closed,
    is_reopened,
    closes at_rest complete aware,
    refl,
    reopens at_rest complete aware,
    refl,
    refl,
  )

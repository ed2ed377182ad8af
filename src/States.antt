-- ===== src/States.antt =====
-- backend/app/patterns/states.py. A `State` object is a record of its four methods: a subclass is the
-- base record with the methods that it overrides.
pub mod Graph
pub mod Gate
use ims_prakash.Base.{Bool, Option, none, some, if◌then◌else◌}
use ims_prakash.Base.Int.{ℤ}
use ims_prakash.Datetime.{Datetime, assume_utc, elapsed}
use ims_prakash.Enums.{WorkItemState, open_state, investigating, resolved, closed, state_eq}
use ims_prakash.Errors.{Result, ok, err, ◌>>=◌, ◌>>◌, illegal_transition_error}
use ims_prakash.RcaValidator.{RcaLike, validate}

-- The fields of `WorkItemLike` that a transition reads.
pub record WorkItemLike : Type 0 where
  pub state : WorkItemState
  pub start_time : Datetime

pub record TransitionResult : Type 0 where
  pub new_state : WorkItemState
  pub end_time : Option Datetime
  pub mttr_seconds : Option ℤ

-- `TransitionResult(new_state=…)`.
abbrev plain : WorkItemState → TransitionResult
plain s = record { new_state = s; end_time = none; mttr_seconds = none }

-- `to_closed` also takes the reading of the clock, `datetime.now(timezone.utc)`.
pub record State : Type 0 where
  pub name : WorkItemState
  pub to_open : WorkItemLike → Result TransitionResult
  pub to_investigating : WorkItemLike → Result TransitionResult
  pub to_resolved : WorkItemLike → Result TransitionResult
  pub to_closed : WorkItemLike → Option RcaLike → Datetime → Result TransitionResult

-- The base class: every transition is illegal.
unfoldable pub base_state : WorkItemState → State
base_state name = record {
  name = name;
  to_open = λ _. err (illegal_transition_error name open_state);
  to_investigating = λ _. err (illegal_transition_error name investigating);
  to_resolved = λ _. err (illegal_transition_error name resolved);
  to_closed = λ _ _ _. err (illegal_transition_error name closed);
}

unfoldable pub open_object : State
unfolding base_state
open_object = record (base_state open_state) { to_investigating = λ _. ok (plain investigating) }

unfoldable pub investigating_object : State
unfolding base_state
investigating_object = record (base_state investigating) {
  to_resolved = λ _. ok (plain resolved);
  to_open = λ _. ok (plain open_state);
}

-- `ResolvedState.to_closed`: the RCA gate, then the time to repair.
unfoldable pub close_resolved : WorkItemLike → Option RcaLike → Datetime → Result TransitionResult
close_resolved wi rca now = do
  validate rca
  mttr ← elapsed now (assume_utc wi.start_time)
  ok (record { new_state = closed; end_time = some now; mttr_seconds = some mttr })

unfoldable pub resolved_object : State
unfolding base_state close_resolved
resolved_object = record (base_state resolved) {
  to_closed = close_resolved;
  to_investigating = λ _. ok (plain investigating);
}

unfoldable pub closed_object : State
unfolding base_state
closed_object = base_state closed

unfoldable pub state_for : WorkItemState → State
unfolding open_object investigating_object resolved_object closed_object
state_for open_state = open_object
state_for investigating = investigating_object
state_for resolved = resolved_object
state_for closed = closed_object

unfoldable pub transition :
    WorkItemLike → WorkItemState → Option RcaLike → Datetime → Result TransitionResult
unfolding state_for state_eq
transition wi target rca now =
    let current = state_for wi.state in
    if state_eq target open_state
    then current.to_open wi
    else if state_eq target investigating
    then current.to_investigating wi
    else if state_eq target resolved
    then current.to_resolved wi
    else if state_eq target closed
    then current.to_closed wi rca now
    else err (illegal_transition_error current.name target)

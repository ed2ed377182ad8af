-- ===== src/States/Graph.antt =====
-- The transition diagram of backend/app/patterns/states.py.
use ims_prakash.Base.{◌≡◌, refl, Option, arith}
use ims_prakash.Datetime.{Datetime}
use ims_prakash.Enums.{WorkItemState, open_state, investigating, resolved, closed}
use ims_prakash.Errors.{ok, err, illegal_transition_error}
use ims_prakash.RcaValidator.{RcaLike}
use ims_prakash.States.{WorkItemLike, TransitionResult, transition}

infix 40 ◌⟶◌
pub data ◌⟶◌ : WorkItemState → WorkItemState → Type 0 where
  claim : open_state ⟶ investigating
  unclaim : investigating ⟶ open_state
  resolve : investigating ⟶ resolved
  bounce : resolved ⟶ investigating
  close : resolved ⟶ closed

module _ (start : Datetime) (rca : Option RcaLike) (now : Datetime) where
  abbrev from : WorkItemState → WorkItemLike
  from s = record { state = s; start_time = start }

  follows_edge :
      (s target : WorkItemState) (r : TransitionResult)
      → transition (from s) target rca now ≡ ok r
      → (s ⟶ target) × (r.new_state ≡ target)
  unfolding transition
  follows_edge open_state investigating r h = (claim, ground arith)
  follows_edge investigating open_state r h = (unclaim, ground arith)
  follows_edge investigating resolved r h = (resolve, ground arith)
  follows_edge resolved investigating r h = (bounce, ground arith)
  follows_edge resolved closed r h = (close, ground arith)
  follows_edge closed closed r h = cc
  follows_edge _ _ r h = cc

  refused :
      (s target : WorkItemState)
      → ¬ (s ⟶ target)
      → transition (from s) target rca now ≡ err (illegal_transition_error s target)
  unfolding transition
  refused open_state investigating h = absurd (h claim)
  refused investigating open_state h = absurd (h unclaim)
  refused investigating resolved h = absurd (h resolve)
  refused resolved investigating h = absurd (h bounce)
  refused resolved closed h = absurd (h close)
  refused closed closed h = refl
  refused _ _ h = refl

-- An accepted transition goes to its target, along an edge of the diagram.
pub transition-⟶ :
    (wi : WorkItemLike) (target : WorkItemState) (rca : Option RcaLike) (now : Datetime)
    {r : TransitionResult}
    → transition wi target rca now ≡ ok r
    → (wi.state ⟶ target) × (r.new_state ≡ target)
transition-⟶ wi target rca now h = follows_edge wi.start_time rca now wi.state target _ h

-- A pair of states without an edge is refused as illegal, with those two states, whatever the RCA.
pub transition_illegal :
    (wi : WorkItemLike) (target : WorkItemState) (rca : Option RcaLike) (now : Datetime)
    → ¬ (wi.state ⟶ target)
    → transition wi target rca now ≡ err (illegal_transition_error wi.state target)
transition_illegal wi target rca now h = refused wi.start_time rca now wi.state target h

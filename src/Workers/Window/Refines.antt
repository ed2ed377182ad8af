-- ===== src/Workers/Window/Refines.antt =====
-- The dedup window of backend/app/workers.py against its specification: a window is free, then claimed,
-- and then it holds one work item for good.
use ims_prakash.Base.{ℕ, ◌≡◌, refl, ◌⊎◌, inl, inr, Option, none, some, List, [], ◌∷◌}
use ims_prakash.Base.Int.{ℤ}
use ims_prakash.Text.{Text}
use ims_prakash.Workers.Window.{
  Shared, Phase, set_present, Move, win, lose, claim_raises, claim_lost_reply, create,
  create_raises, replace, replace_raises, replace_lost_reply, read_none, read_item, read_raises,
  open_item, open_raises, set_item, set_raises, set_lost_reply, count, count_raises, expires,
  deletes, System, Step, free_window, Reach,
}
use ims_prakash.Interleaving.{moved}
use ims_prakash.Workers.Window.Invariant.{KeyOk, PhaseOk, free-IsWindow, free_items}
use ims_prakash.Workers.Window.OneItem.{Reach-IsWindow}

pub data Window : Type 0 where
  free claimed : Window
  holds : ℤ → Window

infix 40 ◌⇒◌
pub data ◌⇒◌ : Window → Window → Type 0 where
  claim : free ⇒ claimed
  open_one : {z : ℤ} → claimed ⇒ holds z

-- The window that a shared state stands for.
abbrev pub window_of : Option Text → List ℤ → Window
window_of none items = free
window_of (some v) [] = claimed
window_of (some v) (z ∷ rest) = holds z

abbrev pub seen : Shared → Window
seen s = window_of s.key s.items

-- A move does nothing that the specification sees, or one of its steps.
Move-refines :
    {s t : Shared} {p q : Phase}
    → Move s p t q
    → KeyOk s
    → PhaseOk s p
    → (seen t ≡ seen s) ⊎ (seen s ⇒ seen t)
Move-refines {s} (win k e) key_ok h =
    let none_yet = free_items s key_ok k in rw (e, k, none_yet) (inr claim)
Move-refines (lose k) key_ok h = inl refl
Move-refines claim_raises key_ok h = inl refl
Move-refines {s} (claim_lost_reply k e) key_ok h =
    let none_yet = free_items s key_ok k in rw (e, k, none_yet) (inr claim)
Move-refines (create e) key_ok h = rw (e, h.1, h.0) (inr open_one)
Move-refines create_raises key_ok h = inl refl
Move-refines (replace e) key_ok h = rw (e, h.0, h.1) (unfold set_present in inl refl)
Move-refines replace_raises key_ok h = inl refl
Move-refines (replace_lost_reply e) key_ok h = rw (e, h.0, h.1) (unfold set_present in inl refl)
Move-refines (read_none r) key_ok h = inl refl
Move-refines (read_item r) key_ok h = inl refl
Move-refines read_raises key_ok h = inl refl
Move-refines (open_item e) key_ok h = absurd h
Move-refines open_raises key_ok h = inl refl
Move-refines (set_item e) key_ok h = absurd h
Move-refines set_raises key_ok h = inl refl
Move-refines (set_lost_reply e) key_ok h = absurd h
Move-refines count key_ok h = inl refl
Move-refines count_raises key_ok h = inl refl
Move-refines (expires e) key_ok h = absurd h
Move-refines (deletes e) key_ok h = absurd h

-- From a free window, while its key neither expires nor is deleted by a close, in every state that
-- the workers can reach, the next move of any worker is a step of the specification or one that it
-- does not see: so a window that was claimed is never free again, and one that holds an item holds
-- it for good.
pub window_refines :
    (ids : ℕ → Text) (x y : System)
    → Reach (free_window ids) x
    → Step x y
    → (seen y.shared ≡ seen x.shared) ⊎ (seen x.shared ⇒ seen y.shared)
window_refines ids x y r (moved i mv) =
    let w = Reach-IsWindow (free-IsWindow ids) r in Move-refines mv w.key_ok (w.phases i)

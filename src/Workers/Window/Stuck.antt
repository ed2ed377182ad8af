-- ===== src/Workers/Window/Stuck.antt =====
-- A dedup window whose winner failed (backend/app/workers.py): the placeholder stays until it expires.
use ims_prakash.Base.{ℕ, ◌≡◌, ◌≢◌, refl, ap, ◌∙◌, inl, inr, none, some}
use ims_prakash.Base.Int.{ℤ}
use ims_prakash.Text.{Text}
use ims_prakash.Text.Decimal.{str_int}
use ims_prakash.Workers.{placeholder}
use ims_prakash.Workers.Window.{
  Shared, Phase, attached, window_value, Move, win, lose, claim_raises, claim_lost_reply, create,
  create_raises, replace, replace_raises, replace_lost_reply, read_none, read_item, read_raises,
  open_item, open_raises, set_item, set_raises, set_lost_reply, count, count_raises, expires,
  deletes, System, Step, free_window, Reach,
}
use ims_prakash.Interleaving.{update, moved, here, next}
use ims_prakash.Workers.Window.Invariant.{
  PhaseOk, Owns, IsWindow, window_value-placeholder, window_value-str_int, free-IsWindow,
}
use ims_prakash.Workers.Window.OneItem.{Step-IsWindow, Reach-IsWindow, new_owner}
use mathlib.Core.Logic.{ite}
use native.Mathlib.Decide.{ℕ_discrete}

-- The window has a placeholder, and no worker is there to replace it.
pub record IsAbandoned (x : System) : Type 0 where
  pub id : Text
  pub claimed_by : x.shared.key ≡ some (placeholder id)
  pub no_owner : (i : ℕ) → ¬ Owns (x.phase i)

-- A placeholder is not the number of an item.
placeholder-ne-str_int : (id : Text) (z : ℤ) → placeholder id ≢ str_int z
placeholder-ne-str_int id z e = cc (
  ap (λ (v : Text). window_value (some v)) e,
  window_value-placeholder id,
  window_value-str_int z,
)

-- A move in such a window changes nothing in it.
Move-still :
    {s t : Shared} {p q : Phase} → Move s p t q → s.key ≢ none → PhaseOk s p → ¬ Owns p → t ≡ s
Move-still (win k e) claimed h apart = absurd (claimed k)
Move-still (lose k) claimed h apart = refl
Move-still claim_raises claimed h apart = refl
Move-still (claim_lost_reply k e) claimed h apart = absurd (claimed k)
Move-still (create e) claimed h apart = absurd (apart tt)
Move-still create_raises claimed h apart = refl
Move-still (replace e) claimed h apart = absurd (apart tt)
Move-still replace_raises claimed h apart = refl
Move-still (replace_lost_reply e) claimed h apart = absurd (apart tt)
Move-still (read_none r) claimed h apart = refl
Move-still (read_item r) claimed h apart = refl
Move-still read_raises claimed h apart = refl
Move-still (open_item e) claimed h apart = absurd h
Move-still open_raises claimed h apart = refl
Move-still (set_item e) claimed h apart = absurd h
Move-still set_raises claimed h apart = refl
Move-still (set_lost_reply e) claimed h apart = absurd h
Move-still count claimed h apart = refl
Move-still count_raises claimed h apart = refl
Move-still (expires e) claimed h apart = absurd h
Move-still (deletes e) claimed h apart = absurd h

module _ {x : System} (w : IsWindow x) (a : IsAbandoned x) where
  claimed : x.shared.key ≢ none
  claimed k = cc (k, a.claimed_by)

  Step-still : {y : System} → Step x y → (y.shared ≡ x.shared) × ((i : ℕ) → ¬ Owns (y.phase i))
  unfolding update
  Step-still (moved {p = p} i mv) = (Move-still mv claimed (w.phases i) (a.no_owner i), disowned)
    where
      disowned : (j : ℕ) → ¬ Owns (update x.phase i p j)
      disowned j = elim (ℕ_discrete i j) as (λ d. ¬ Owns (ite d p (x.phase j))) [
        | yes e ↦
            λ o. elim (new_owner mv o) [ inl before ↦ a.no_owner i before | inr k ↦ claimed k ]
        | no ne ↦ a.no_owner j
      ]

  -- No worker has its signal attached there.
  none_attached : (i : ℕ) (id : Text) (z : ℤ) → x.phase i ≢ attached id z
  none_attached i id z e =
      let number = (rw e at (w.phases i)).1 in
      placeholder-ne-str_int a.id z (cc (a.claimed_by, number))

Reach-IsAbandoned :
    {x y : System}
    → IsWindow x
    → IsAbandoned x
    → Reach x y
    → IsWindow y × IsAbandoned y × (y.shared ≡ x.shared)
Reach-IsAbandoned w a here = (w, a, refl)
Reach-IsAbandoned w a (next r st) =
    let (wy, ay, same) = Reach-IsAbandoned w a r in
    let (still, disowned) = Step-still wy ay st in
    (
      Step-IsWindow st wy,
      record {
        id = ay.id;
        claimed_by = ap (λ (s : Shared). s.key) still ∙ ay.claimed_by;
        no_owner = disowned;
      },
      still ∙ same,
    )

-- A window that is claimed and whose winner failed stays as it is until it expires: whatever the
-- other workers do, no item is created in it and no signal of the component is attached to one.
pub abandoned_window :
    (ids : ℕ → Text) (x y : System) (i : ℕ) (id : Text) (z : ℤ)
    → Reach (free_window ids) x
    → IsAbandoned x
    → Reach x y
    → (y.shared ≡ x.shared) × (y.phase i ≢ attached id z)
abandoned_window ids x y i id z r a later =
    let (wy, ay, same) = Reach-IsAbandoned (Reach-IsWindow (free-IsWindow ids) r) a later in
    (same, none_attached wy ay i id z)

-- ===== src/Examples/Windows.antt =====
-- Two workers in one dedup window.
use ims_prakash.Base.{ℕ, zero, suc, ◌≤◌, ◌≡◌, ◌≢◌, ◌⊎◌, refl, some, [], ◌∷◌, length}
use ims_prakash.Base.Int.{pos}
use ims_prakash.Text.{Text, codes}
use ims_prakash.Text.Decimal.{str_int}
use ims_prakash.Errors.{operational_error}
use ims_prakash.Workers.{placeholder}
use ims_prakash.Workers.Window.{
  System, storing, creating, replacing, reading, attached, failed, set_present, win, lose, create,
  create_raises, replace, Step, free_window, Reach,
}
use ims_prakash.Interleaving.{update, moved, here, next}
use ims_prakash.Workers.Window.Invariant.{Owns}
use ims_prakash.Workers.Window.OneItem.{one_item}
use ims_prakash.Workers.Window.Refines.{seen, ◌⇒◌, window_refines}
use ims_prakash.Workers.Window.Stuck.{IsAbandoned, abandoned_window}
use mathlib.Core.Logic.{ite}
use native.Mathlib.Decide.{ℕ_discrete}

abbrev ids : ℕ → Text
ids zero = codes "a"
ids (suc i) = codes "b"

-- Worker 0 has claimed the window, then created its item, and then replaced the placeholder, while
-- worker 1 lost the window.
abbrev claimed : System
claimed = record {
  shared = record { key = some (placeholder (codes "a")); items = [] };
  phase = update (free_window ids).phase 0 (creating (codes "a"));
}

abbrev created : System
created = record {
  shared = record { key = some (placeholder (codes "a")); items = pos 7 ∷ [] };
  phase = update claimed.phase 0 (replacing (codes "a") (pos 7));
}

abbrev contended : System
contended = record { shared = created.shared; phase = update created.phase 1 (reading (codes "b")) }

abbrev replaced : System
replaced = record {
  shared = record { key = some (str_int (pos 7)); items = pos 7 ∷ [] };
  phase = update contended.phase 0 (attached (codes "a") (pos 7));
}

abbrev raised : System
raised = record {
  shared = claimed.shared;
  phase = update claimed.phase 0 (failed operational_error);
}

abbrev waiting : System
waiting = record { shared = raised.shared; phase = update raised.phase 1 (reading (codes "b")) }

claims : Step (free_window ids) claimed
claims = moved 0 (win refl refl)

creates : Step claimed created
unfolding update ℕ_discrete
creates = moved 0 (create refl)

loses : Step created contended
unfolding update ℕ_discrete
loses = moved 1 (lose (λ e. cc))

replaces : Step contended replaced
unfolding update ℕ_discrete set_present
replaces = moved 0 (replace refl)

raises : Step claimed raised
unfolding update ℕ_discrete
raises = moved 0 create_raises

waits : Step raised waiting
unfolding update ℕ_discrete
waits = moved 1 (lose (λ e. cc))

replaced_reached : Reach (free_window ids) replaced
replaced_reached = next (next (next (next here claims) creates) loses) replaces

one_item_example : length replaced.shared.items ≤ 1
one_item_example = one_item ids replaced replaced_reached

window_refines_example :
    (seen created.shared ≡ seen claimed.shared) ⊎ (seen claimed.shared ⇒ seen created.shared)
window_refines_example = window_refines ids claimed created (next here claims) creates

raised-no_owner : (i : ℕ) → ¬ Owns (raised.phase i)
unfolding update
raised-no_owner i =
    elim (ℕ_discrete 0 i)
      as (λ d.
        ¬ Owns
          (ite d (failed operational_error) (ite d (creating (codes "a")) (storing (ids i))))) [
            | yes same ↦ λ o. o
            | no differ ↦ λ o. o
          ]

raised-IsAbandoned : IsAbandoned raised
raised-IsAbandoned = record { id = codes "a"; claimed_by = refl; no_owner = raised-no_owner }

abandoned_window_example :
    (waiting.shared ≡ raised.shared) × (waiting.phase 1 ≢ attached (codes "b") (pos 7))
abandoned_window_example =
    abandoned_window ids raised waiting 1 (codes "b") (pos 7) (next (next here claims) raises)
      raised-IsAbandoned (next here waits)

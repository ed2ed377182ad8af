-- ===== src/Workers/Window/Invariant.antt =====
-- What holds in every state of a dedup window (backend/app/workers.py).
use ims_prakash.Base.{ℕ, ◌≤◌, ◌≡◌, ◌≢◌, refl, none, some, [], ◌∷◌, ◌++◌, length, arith}
use ims_prakash.Base.Int.{ℤ}
use ims_prakash.Text.{Text}
use ims_prakash.Text.Decimal.{str_int}
use ims_prakash.Text.Decimal.RoundTrip.{int_of-str_int, str_int-truthy}
use ims_prakash.Errors.{ok, err, value_error}
use ims_prakash.Workers.{placeholder}
use ims_prakash.Workers.Placeholder.{int_of-placeholder}
use ims_prakash.Workers.Window.{
  Shared, Phase, storing, creating, replacing, reading, opening, setting, counting, attached,
  failed, clearing, window_value, set_present, System, free_window,
}

-- The value of a window that was claimed.
pub data KeyOk (s : Shared) : Type 0 where
  is_free : s.key ≡ none → s.items ≡ [] → KeyOk s
  is_claimed : (id : Text) → s.key ≡ some (placeholder id) → KeyOk s
  is_held : (z : ℤ) → s.key ≡ some (str_int z) → s.items ≡ z ∷ [] → KeyOk s

-- What a worker in the phase knows of the window.
abbrev pub PhaseOk : Shared → Phase → Type 0
PhaseOk s (storing id) = Unit
PhaseOk s (creating id) = (s.items ≡ []) × (s.key ≡ some (placeholder id))
PhaseOk s (replacing id z) = (s.items ≡ z ∷ []) × (s.key ≡ some (placeholder id))
PhaseOk s (reading id) = s.key ≢ none
PhaseOk s (opening id) = ⊥
PhaseOk s (setting id z) = ⊥
PhaseOk s (counting id z) = (s.items ≡ z ∷ []) × (s.key ≡ some (str_int z))
PhaseOk s (attached id z) = (s.items ≡ z ∷ []) × (s.key ≡ some (str_int z))
PhaseOk s (failed e) = Unit
PhaseOk s clearing = ⊥

-- The worker has won the window and has not yet replaced its placeholder.
abbrev pub Owns : Phase → Type 0
Owns (creating id) = Unit
Owns (replacing id z) = Unit
Owns _ = ⊥

pub record IsWindow (x : System) : Type 0 where
  pub few : length x.shared.items ≤ 1
  pub key_ok : KeyOk x.shared
  pub phases : (i : ℕ) → PhaseOk x.shared (x.phase i)
  pub owner : (i j : ℕ) → Owns (x.phase i) → Owns (x.phase j) → i ≡ j

pub window_value-placeholder : (id : Text) → window_value (some (placeholder id)) ≡ err value_error
unfolding window_value
window_value-placeholder id = rw (int_of-placeholder id)

pub window_value-str_int : (z : ℤ) → window_value (some (str_int z)) ≡ ok (some z)
unfolding window_value
window_value-str_int z = rw (str_int-truthy z, int_of-str_int z)

-- A window that is not free never reads as free.
pub never_none : (s : Shared) → KeyOk s → s.key ≢ none → window_value s.key ≢ ok none
never_none s (is_free k e) h r = h k
never_none s (is_claimed id k) h r = cc (rw k at r, window_value-placeholder id)
never_none s (is_held z k e) h r = cc (rw k at r, window_value-str_int z)

-- What a number in the window says.
pub held_item :
    (s : Shared) (z : ℤ)
    → KeyOk s
    → window_value s.key ≡ ok (some z)
    → (s.items ≡ z ∷ []) × (s.key ≡ some (str_int z))
unfolding window_value
held_item s z (is_free k e) r = cc (rw k at r)
held_item s z (is_claimed id k) r = cc (rw k at r, window_value-placeholder id)
held_item s z (is_held y k e) r =
    let same : y ≡ z = cc (rw k at r, window_value-str_int y) in (rw (← same) e, rw (← same) k)

pub free-IsWindow : (ids : ℕ → Text) → IsWindow (free_window ids)
free-IsWindow ids = record {
  few = omega arith;
  key_ok = is_free refl refl;
  phases = λ i. tt;
  owner = λ i j h. absurd h;
}

pub free_items : (s : Shared) → KeyOk s → s.key ≡ none → s.items ≡ []
free_items s (is_free k e) h = e
free_items s (is_claimed id k) h = cc (rw h at k)
free_items s (is_held z k e) h = cc (rw h at k)

module _ (s : Shared) where
  -- A worker while another claims the free window,
  pub claimed_ok :
      (v : Text) → s.key ≡ none → (o : Phase) → PhaseOk s o → PhaseOk (record s { key = some v }) o
  claimed_ok v free (storing id) h = tt
  claimed_ok v free (creating id) h = cc (free, h.1)
  claimed_ok v free (replacing id z) h = cc (free, h.1)
  claimed_ok v free (reading id) h = absurd (h free)
  claimed_ok v free (opening id) h = absurd h
  claimed_ok v free (setting id z) h = absurd h
  claimed_ok v free (counting id z) h = cc (free, h.1)
  claimed_ok v free (attached id z) h = cc (free, h.1)
  claimed_ok v free (failed e) h = tt
  claimed_ok v free clearing h = absurd h

  -- creates its item,
  pub created_ok :
      (z : ℤ)
      → s.items ≡ []
      → (o : Phase) → PhaseOk s o
      → ¬ Owns o
      → PhaseOk (record s { items = s.items ++ z ∷ [] }) o
  created_ok z none_yet (storing id) h apart = tt
  created_ok z none_yet (creating id) h apart = absurd (apart tt)
  created_ok z none_yet (replacing id y) h apart = absurd (apart tt)
  created_ok z none_yet (reading id) h apart = h
  created_ok z none_yet (opening id) h apart = absurd h
  created_ok z none_yet (setting id y) h apart = absurd h
  created_ok z none_yet (counting id y) h apart = cc (none_yet, h.0)
  created_ok z none_yet (attached id y) h apart = cc (none_yet, h.0)
  created_ok z none_yet (failed e) h apart = tt
  created_ok z none_yet clearing h apart = absurd h

  -- and writes its number.
  pub replaced_ok :
      (z : ℤ) {v : Text}
      → s.items ≡ z ∷ []
      → s.key ≡ some v
      → (o : Phase) → PhaseOk s o
      → ¬ Owns o
      → PhaseOk (record s { key = set_present (str_int z) s.key }) o
  unfolding set_present
  replaced_ok z one k (storing id) h apart = tt
  replaced_ok z one k (creating id) h apart = absurd (apart tt)
  replaced_ok z one k (replacing id y) h apart = absurd (apart tt)
  replaced_ok z one k (reading id) h apart = rw k (λ e. cc)
  replaced_ok z one k (opening id) h apart = absurd h
  replaced_ok z one k (setting id y) h apart = absurd h
  replaced_ok z one k (counting id y) h apart = let same : z ≡ y = cc in rw (k, ← same) (one, refl)
  replaced_ok z one k (attached id y) h apart = let same : z ≡ y = cc in rw (k, ← same) (one, refl)
  replaced_ok z one k (failed e) h apart = tt
  replaced_ok z one k clearing h apart = absurd h

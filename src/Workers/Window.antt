-- ===== src/Workers/Window.antt =====
-- The dedup window of one component while several workers run between each other's awaits
-- (`_process_one` of backend/app/workers.py, steps 2 and 3). A phase is the await that a worker has
-- reached, with the id of the document that it stored; a move is what happens up to its next await.
-- A call that raises may have been applied, since its reply can be lost.
-- What follows the moves here, from the live feed to the metrics, does not touch the window.
pub mod Invariant
pub mod Reading
pub mod OneItem
pub mod Refines
pub mod Stuck
use ims_prakash.Base.{ℕ, ◌≡◌, ◌≢◌, Option, none, some, List, [], ◌∷◌, ◌++◌, if◌then◌else◌}
use ims_prakash.Base.Int.{ℤ}
use ims_prakash.Text.{Text, truthy}
use ims_prakash.Text.Decimal.{int_of, str_int}
use ims_prakash.Errors.{Error, Result, ok, err, ◌>>=◌}
use ims_prakash.Workers.{placeholder}
use ims_prakash.Interleaving

-- The key of the window in Redis, and the work items of the component whose creation returned since
-- the window was free.
pub record Shared : Type 0 where
  pub key : Option Text
  pub items : List ℤ

pub data Phase : Type 0 where
  -- Before the SET NX of its placeholder.
  storing : Text → Phase
  -- It won; before `create_work_item`, and before the SET XX of the item's number.
  creating : Text → Phase
  replacing : Text → ℤ → Phase
  -- It lost; before the GET, and then by what the GET found.
  reading : Text → Phase
  opening : Text → Phase
  setting : Text → ℤ → Phase
  counting : Text → ℤ → Phase
  -- The signal belongs to the item, or its processing raised.
  attached : Text → ℤ → Phase
  failed : Error → Phase
  -- Not a worker: the clock of Redis and the closes of the component's work items.
  clearing : Phase

-- `get_open_work_item`, on the value that the GET returned.
unfoldable pub window_value : Option Text → Result (Option ℤ)
window_value none = ok none
window_value (some v) = if truthy v then (do z ← int_of v; ok (some z)) else ok none

-- SET XX writes only where there is a value.
unfoldable pub set_present : Text → Option Text → Option Text
set_present v none = none
set_present v (some old) = some v

pub data Move : Shared → Phase → Shared → Phase → Type 0 where
  win :
      {s t : Shared} {id : Text}
      → s.key ≡ none
      → t ≡ record s { key = some (placeholder id) }
      → Move s (storing id) t (creating id)
  lose : {s : Shared} {id : Text} → s.key ≢ none → Move s (storing id) s (reading id)
  claim_raises : {s : Shared} {id : Text} {e : Error} → Move s (storing id) s (failed e)
  claim_lost_reply :
      {s t : Shared} {id : Text} {e : Error}
      → s.key ≡ none
      → t ≡ record s { key = some (placeholder id) }
      → Move s (storing id) t (failed e)
  create :
      {s t : Shared} {id : Text} {z : ℤ}
      → t ≡ record s { items = s.items ++ z ∷ [] }
      → Move s (creating id) t (replacing id z)
  create_raises : {s : Shared} {id : Text} {e : Error} → Move s (creating id) s (failed e)
  replace :
      {s t : Shared} {id : Text} {z : ℤ}
      → t ≡ record s { key = set_present (str_int z) s.key }
      → Move s (replacing id z) t (attached id z)
  replace_raises :
      {s : Shared} {id : Text} {z : ℤ} {e : Error} → Move s (replacing id z) s (failed e)
  replace_lost_reply :
      {s t : Shared} {id : Text} {z : ℤ} {e : Error}
      → t ≡ record s { key = set_present (str_int z) s.key }
      → Move s (replacing id z) t (failed e)
  read_none :
      {s : Shared} {id : Text} → window_value s.key ≡ ok none → Move s (reading id) s (opening id)
  read_item :
      {s : Shared} {id : Text} {z : ℤ}
      → window_value s.key ≡ ok (some z)
      → Move s (reading id) s (counting id z)
  read_raises : {s : Shared} {id : Text} {e : Error} → Move s (reading id) s (failed e)
  open_item :
      {s t : Shared} {id : Text} {z : ℤ}
      → t ≡ record s { items = s.items ++ z ∷ [] }
      → Move s (opening id) t (setting id z)
  open_raises : {s : Shared} {id : Text} {e : Error} → Move s (opening id) s (failed e)
  set_item :
      {s t : Shared} {id : Text} {z : ℤ}
      → t ≡ record s { key = some (str_int z) }
      → Move s (setting id z) t (attached id z)
  set_raises : {s : Shared} {id : Text} {z : ℤ} {e : Error} → Move s (setting id z) s (failed e)
  set_lost_reply :
      {s t : Shared} {id : Text} {z : ℤ} {e : Error}
      → t ≡ record s { key = some (str_int z) }
      → Move s (setting id z) t (failed e)
  count : {s : Shared} {id : Text} {z : ℤ} → Move s (counting id z) s (attached id z)
  count_raises : {s : Shared} {id : Text} {z : ℤ} {e : Error} → Move s (counting id z) s (failed e)
  -- The time to live of the SETs has run out, or a close has deleted the key.
  expires : {s t : Shared} → t ≡ record s { key = none } → Move s clearing t clearing
  deletes : {s t : Shared} → t ≡ record s { key = none } → Move s clearing t clearing

-- The signals of the component by number, each with the phase of the worker that processes it; the
-- clock and the closes are a coroutine of their own.
abbrev pub System : Type 0
System = Interleaving.System Shared Phase

abbrev pub Step : System → System → Type 0
Step = Interleaving.Step Move

abbrev pub Reach : System → System → Type 0
Reach = Interleaving.Reach Move

-- Every signal is stored, and the window is free. Workers alone: from here the key neither expires
-- nor is it deleted.
abbrev pub free_window : (ℕ → Text) → System
free_window ids = record {
  shared = record { key = none; items = [] };
  phase = λ i. storing (ids i);
}

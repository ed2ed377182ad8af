-- ===== src/Workers/Window/OneItem.antt =====
-- Every move of a worker keeps the invariant of the dedup window (backend/app/workers.py), so a window
-- opens at most one work item.
use ims_prakash.Base.{
  ℕ, ◌≤◌, ◌≡◌, ◌≢◌, refl, sym, ◌∙◌, ◌⊎◌, inl, inr, none, some, [], ◌∷◌, ◌++◌, length, arith,
}
use ims_prakash.Base.Int.{ℤ}
use ims_prakash.Text.{Text}
use ims_prakash.Text.Decimal.{str_int}
use ims_prakash.Workers.Window.{
  Shared, Phase, creating, replacing, attached, set_present, Move, win, lose, claim_raises,
  claim_lost_reply, create, create_raises, replace, replace_raises, replace_lost_reply, read_none,
  read_item, read_raises, open_item, open_raises, set_item, set_raises, set_lost_reply, count,
  count_raises, expires, deletes, System, Step, free_window, Reach,
}
use ims_prakash.Interleaving.{update, moved, here, next}
use native.Mathlib.Decide.{ℕ_discrete}
use mathlib.Core.Logic.{ite}
use ims_prakash.Workers.Window.Invariant.{
  KeyOk, is_claimed, is_held, PhaseOk, Owns, IsWindow, never_none, held_item, free-IsWindow,
  free_items, claimed_ok, created_ok, replaced_ok,
}

-- The window and the worker that moved.
mover_ok :
    {s t : Shared} {p q : Phase}
    → Move s p t q
    → length s.items ≤ 1
    → KeyOk s
    → PhaseOk s p
    → (length t.items ≤ 1) × KeyOk t × PhaseOk t q
mover_ok {s} (win {id = id} k e) few key_ok h =
    let free : s.items ≡ [] = free_items s key_ok k in rw e (few, is_claimed id refl, (free, refl))
mover_ok (lose k) few key_ok h = (few, key_ok, k)
mover_ok claim_raises few key_ok h = (few, key_ok, tt)
mover_ok {s} (claim_lost_reply {id = id} k e) few key_ok h = rw e (few, is_claimed id refl, tt)
mover_ok {s} (create {id = id} {z = z} e) few key_ok h =
    let one : s.items ++ z ∷ [] ≡ z ∷ [] = rw h.0 refl in
    rw (e, one) (omega arith, is_claimed id h.1, (refl, h.1))
mover_ok create_raises few key_ok h = (few, key_ok, tt)
mover_ok {s} (replace {z = z} e) few key_ok h =
    let written : set_present (str_int z) s.key ≡ some (str_int z) =
      rw h.1 (unfold set_present in refl) in
    rw (e, written) (few, is_held z refl h.0, (h.0, refl))
mover_ok replace_raises few key_ok h = (few, key_ok, tt)
mover_ok {s} (replace_lost_reply {z = z} e) few key_ok h =
    let written : set_present (str_int z) s.key ≡ some (str_int z) =
      rw h.1 (unfold set_present in refl) in
    rw (e, written) (few, is_held z refl h.0, tt)
mover_ok {s} (read_none r) few key_ok h = absurd (never_none s key_ok h r)
mover_ok {s} (read_item {z = z} r) few key_ok h = (few, key_ok, held_item s z key_ok r)
mover_ok read_raises few key_ok h = (few, key_ok, tt)
mover_ok (open_item e) few key_ok h = absurd h
mover_ok open_raises few key_ok h = absurd h
mover_ok (set_item e) few key_ok h = absurd h
mover_ok set_raises few key_ok h = absurd h
mover_ok (set_lost_reply e) few key_ok h = absurd h
mover_ok count few key_ok h = (few, key_ok, h)
mover_ok count_raises few key_ok h = (few, key_ok, tt)
mover_ok (expires e) few key_ok h = absurd h
mover_ok (deletes e) few key_ok h = absurd h

-- Any other worker, which does not own the window where the mover does.
other_ok :
    {s t : Shared} {p q : Phase}
    → Move s p t q
    → PhaseOk s p
    → (o : Phase) → PhaseOk s o
    → (Owns p → ¬ Owns o)
    → PhaseOk t o
other_ok (win k e) h o ok_o apart = rw e (claimed_ok _ _ k o ok_o)
other_ok (lose k) h o ok_o apart = ok_o
other_ok claim_raises h o ok_o apart = ok_o
other_ok (claim_lost_reply k e) h o ok_o apart = rw e (claimed_ok _ _ k o ok_o)
other_ok (create e) h o ok_o apart = rw e (created_ok _ _ h.0 o ok_o (apart tt))
other_ok create_raises h o ok_o apart = ok_o
other_ok (replace e) h o ok_o apart = rw e (replaced_ok _ _ h.0 h.1 o ok_o (apart tt))
other_ok replace_raises h o ok_o apart = ok_o
other_ok (replace_lost_reply e) h o ok_o apart = rw e (replaced_ok _ _ h.0 h.1 o ok_o (apart tt))
other_ok (read_none r) h o ok_o apart = ok_o
other_ok (read_item r) h o ok_o apart = ok_o
other_ok read_raises h o ok_o apart = ok_o
other_ok (open_item e) h o ok_o apart = absurd h
other_ok open_raises h o ok_o apart = ok_o
other_ok (set_item e) h o ok_o apart = absurd h
other_ok set_raises h o ok_o apart = ok_o
other_ok (set_lost_reply e) h o ok_o apart = absurd h
other_ok count h o ok_o apart = ok_o
other_ok count_raises h o ok_o apart = ok_o
other_ok (expires e) h o ok_o apart = absurd h
other_ok (deletes e) h o ok_o apart = absurd h

-- A worker owns the window after its move only if it did before or found the window free.
pub new_owner : {s t : Shared} {p q : Phase} → Move s p t q → Owns q → Owns p ⊎ (s.key ≡ none)
new_owner (win k e) o = inr k
new_owner (lose k) o = absurd o
new_owner claim_raises o = absurd o
new_owner (claim_lost_reply k e) o = absurd o
new_owner (create e) o = inl tt
new_owner create_raises o = absurd o
new_owner (replace e) o = absurd o
new_owner replace_raises o = absurd o
new_owner (replace_lost_reply e) o = absurd o
new_owner (read_none r) o = absurd o
new_owner (read_item r) o = absurd o
new_owner read_raises o = absurd o
new_owner (open_item e) o = absurd o
new_owner open_raises o = absurd o
new_owner (set_item e) o = absurd o
new_owner set_raises o = absurd o
new_owner (set_lost_reply e) o = absurd o
new_owner count o = absurd o
new_owner count_raises o = absurd o
new_owner (expires e) o = absurd o
new_owner (deletes e) o = absurd o

pub owned_not_free : (s : Shared) (p : Phase) → PhaseOk s p → Owns p → s.key ≢ none
owned_not_free s (creating id) h o k = cc (k, h.1)
owned_not_free s (replacing id z) h o k = cc (k, h.1)
owned_not_free s _ h o k = absurd o

module _ {x : System} {t : Shared} {p : Phase} (i : ℕ) (mv : Move x.shared (x.phase i) t p)
    (h : IsWindow x) where
  -- The mover owns the window now, so no other worker does.
  others_disown : Owns p → (j : ℕ) → i ≢ j → ¬ Owns (x.phase j)
  others_disown o j ne oj = elim (new_owner mv o) [
    | inl before ↦ ne (h.owner i j before oj)
    | inr free ↦ owned_not_free x.shared (x.phase j) (h.phases j) oj free
  ]

  moved-PhaseOk : PhaseOk t p → (j : ℕ) → PhaseOk t (update x.phase i p j)
  unfolding update
  moved-PhaseOk own j = elim (ℕ_discrete i j) as (λ d. PhaseOk t (ite d p (x.phase j))) [
    | yes e ↦ own
    | no ne ↦ other_ok mv (h.phases i) (x.phase j) (h.phases j) (λ oi oj. ne (h.owner i j oi oj))
  ]

  moved-owner : (a b : ℕ) → Owns (update x.phase i p a) → Owns (update x.phase i p b) → a ≡ b
  unfolding update
  moved-owner a b =
      elim (ℕ_discrete i a)
        as (λ d. Owns (ite d p (x.phase a)) → Owns (ite (ℕ_discrete i b) p (x.phase b)) → a ≡ b) [
          | yes ea ↦ elim (ℕ_discrete i b) as (λ d. Owns p → Owns (ite d p (x.phase b)) → a ≡ b) [
            | yes eb ↦ λ oa ob. sym ea ∙ eb
            | no nb ↦ λ oa ob. absurd (others_disown oa b nb ob)
          ]
          | no na ↦
              elim (ℕ_discrete i b)
                as (λ d. Owns (x.phase a) → Owns (ite d p (x.phase b)) → a ≡ b) [
                  | yes eb ↦ λ oa ob. absurd (others_disown ob a na oa)
                  | no nb ↦ λ oa ob. h.owner a b oa ob
                ]
        ]

pub Step-IsWindow : {x y : System} → Step x y → IsWindow x → IsWindow y
Step-IsWindow {x} (moved i mv) h =
    let (few, key_ok, own) = mover_ok mv h.few h.key_ok (h.phases i) in
    record {
      few = few;
      key_ok = key_ok;
      phases = moved-PhaseOk i mv h own;
      owner = moved-owner i mv h;
    }

pub Reach-IsWindow : {start y : System} → IsWindow start → Reach start y → IsWindow y
Reach-IsWindow h here = h
Reach-IsWindow h (next r st) = Step-IsWindow st (Reach-IsWindow h r)

-- From a free window, while its key neither expires nor is deleted by a close, whatever the
-- interleaving of the workers that process the component's signals, and whichever of their calls
-- raise, at most one creation of a work item returns.
pub one_item : (ids : ℕ → Text) (y : System) → Reach (free_window ids) y → length y.shared.items ≤ 1
one_item ids y r = (Reach-IsWindow (free-IsWindow ids) r).few

-- There, a signal that is attached is attached to the one item that was created, and that item's
-- number stands in the window.
pub attached_item :
    (ids : ℕ → Text) (y : System) (i : ℕ) (id : Text) (z : ℤ)
    → Reach (free_window ids) y
    → y.phase i ≡ attached id z
    → (y.shared.items ≡ z ∷ []) × (y.shared.key ≡ some (str_int z))
attached_item ids y i id z r e =
    let w : IsWindow y = Reach-IsWindow (free-IsWindow ids) r in rw e at (w.phases i)

-- ===== src/IncidentsApi/Race/Settled.antt =====
-- A closed incident whose other requests have not read it yet (backend/app/incidents_api.py).
use ims_prakash.Base.{ℕ, ◌≡◌, refl, Option}
use ims_prakash.Datetime.{Datetime}
use ims_prakash.Enums.{WorkItemState, closed}
use ims_prakash.Errors.{ok}
use ims_prakash.Models.{WorkItem}
use ims_prakash.RcaValidator.{RcaLike}
use ims_prakash.States.{WorkItemLike, TransitionResult, transition}
use ims_prakash.States.Graph.{◌⟶◌, transition-⟶}
use ims_prakash.IncidentsApi.{seen_by_states, optional_rca}
use ims_prakash.IncidentsApi.Race.{
  Incident, Phase, has_item, storing, Move, read_item, accept, refuse, store, store_lost_reply,
  store_again, answer, find, late, select_none, select_row, insert, insert_lost_reply, insert_again,
  overwrite, overwrite_lost_reply, overwrite_again, retry_insert, retry_overwrite, raises, System,
  Reach,
}
use ims_prakash.Interleaving.{Kept, Reach-Holds}

-- No transition is about to be stored, and what was read of the item says that it is closed.
abbrev pub IsSettled : Phase → Type 0
IsSettled (has_item target wi) = wi.state ≡ closed
IsSettled (storing r) = ⊥
IsSettled _ = Unit

nothing_accepted :
    (wi : WorkItemLike) (target : WorkItemState) (rca : Option RcaLike) (now : Datetime)
    (r : TransitionResult)
    → wi.state ≡ closed
    → ¬ (transition wi target rca now ≡ ok r)
nothing_accepted wi target rca now r is_closed h =
    let edge : closed ⟶ target = rw is_closed at (transition-⟶ wi target rca now h).0 in
    elim edge [ ]

abbrev Same : WorkItem → Incident → Type 0
Same item s = s.item ≡ item

module _ (item : WorkItem) (is_closed : item.state ≡ closed) where
  own_ok :
      {s t : Incident} {a b : Phase}
      → Move s a t b
      → Same item s
      → IsSettled a
      → Same item t × IsSettled b
  own_ok (read_item e) same h = (same, rw (e, same) is_closed)
  own_ok {s} (accept {target = target} {wi = wi} {r = r} now aware accepted) same h =
      absurd (nothing_accepted (seen_by_states wi) target (optional_rca s.rca) now r h accepted)
  own_ok (refuse now e) same h = (same, tt)
  own_ok (store now e) same h = absurd h
  own_ok (store_lost_reply now e) same h = absurd h
  own_ok (store_again now e) same h = absurd h
  own_ok answer same h = (same, tt)
  own_ok (find order) same h = (same, tt)
  own_ok (late order) same h = (same, tt)
  own_ok (select_none e) same h = (same, tt)
  own_ok (select_row e) same h = (same, tt)
  own_ok (insert row w) same h = rw w.after (same, tt)
  own_ok (insert_lost_reply row w) same h = rw w.after (same, tt)
  own_ok (insert_again row w) same h = rw w.after (same, tt)
  own_ok (overwrite read current row w) same h = rw w.after (same, tt)
  own_ok (overwrite_lost_reply read current row w) same h = rw w.after (same, tt)
  own_ok (overwrite_again read current row w) same h = rw w.after (same, tt)
  own_ok retry_insert same h = (same, tt)
  own_ok retry_overwrite same h = (same, tt)
  own_ok (raises waits) same h = (same, tt)

  kept : Kept Move (Same item) (λ s. IsSettled)
  kept = record { own = own_ok; other = λ mv same h o ok_o. ok_o }

-- Where the item is closed, no transition is about to be stored, and every transition that has read
-- the item has read that it is closed: whatever requests do from there, the item's row stays as it is.
pub closed_stays :
    (x y : System)
    → x.shared.item.state ≡ closed
    → ((i : ℕ) → IsSettled (x.phase i))
    → Reach x y
    → y.shared.item ≡ x.shared.item
closed_stays x y is_closed settled r =
    (Reach-Holds Move (Same x.shared.item) (λ s. IsSettled) (kept x.shared.item is_closed) r
      (record { good = refl; each = settled })).good

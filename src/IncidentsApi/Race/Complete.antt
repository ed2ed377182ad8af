-- ===== src/IncidentsApi/Race/Complete.antt =====
-- The RCA on file while requests against one incident run at the same time
-- (backend/app/incidents_api.py).
use ims_prakash.Base.{ℕ, ◌≡◌, ◌≢◌, sym, ◌∙◌, true, false, some, inl, inr, [], arith}
use ims_prakash.Base.Int.{ℤ}
use ims_prakash.Datetime.{Datetime, earlier}
use ims_prakash.Enums.{closed}
use ims_prakash.Errors.{ok, Result-cases}
use mathlib.Core.Path.{subst}
use ims_prakash.Text.{Text, strip}
use ims_prakash.RcaValidator.{rca_like}
use ims_prakash.Models.{Rca, RcaIn, Pydantic, rca_in, at_or_after}
use ims_prakash.RcaValidator.Complete.{IsComplete, IsCompleteRca}
use ims_prakash.States.{TransitionResult}
use ims_prakash.States.Gate.{accepted-closed}
use ims_prakash.Services.Laws.{HasValues}
use ims_prakash.Storage.PostgresRepo.UpdateState.{state_values-state}
use ims_prakash.IncidentsApi.{seen_by_states, optional_rca, new_rca}
use ims_prakash.IncidentsApi.Submissions.{submitted-IsComplete, texts_complete}
use ims_prakash.IncidentsApi.Race.{
  Incident, Phase, wants, has_item, storing, stored, submits, upserting, answered, failed,
  with_result, Move, read_item, accept, refuse, store, store_lost_reply, store_again, answer, find,
  late, inserting, updating, Updated, IsMerged, select_none, select_row, insert, insert_lost_reply,
  insert_again, overwrite, overwrite_lost_reply, overwrite_again, retry_insert, retry_overwrite,
  raises, Request, transition_to, submission, System, Reach, arriving, first_phase,
}
use ims_prakash.Interleaving.{Kept, Reach-Holds}

-- A complete RCA is on file.
abbrev pub Reported : Incident → Type 0
Reported s = IsCompleteRca (optional_rca s.rca)

-- A closed item has one.
abbrev pub ClosedOk : Incident → Type 0
ClosedOk s = s.item.state ≡ closed → Reported s

module _ (p : Pydantic) where
  -- The form is one that the schema accepted.
  abbrev Accepted : RcaIn → Type 0
  Accepted body = (raw : RcaIn) × (rca_in p raw ≡ ok body)

  abbrev PhaseOk : Incident → Phase → Type 0
  PhaseOk s (storing r) = r.new_state ≡ closed → Reported s
  PhaseOk s (submits body) = Accepted body
  PhaseOk s (upserting body) =
      Accepted body × (earlier body.rca_end_time body.rca_start_time ≡ ok false)
  PhaseOk s (inserting body) =
      Accepted body × (earlier body.rca_end_time body.rca_start_time ≡ ok false)
  PhaseOk s (updating body read) =
      Accepted body × (earlier body.rca_end_time body.rca_start_time ≡ ok false)
  PhaseOk s _ = Unit

  -- Other requests keep what they know while no complete RCA is lost.
  other_ok : (s t : Incident) → (Reported s → Reported t) → (o : Phase) → PhaseOk s o → PhaseOk t o
  other_ok s t keeps (storing r) h = λ e. keeps (h e)
  other_ok s t keeps (submits body) h = h
  other_ok s t keeps (upserting body) h = h
  other_ok s t keeps (inserting body) h = h
  other_ok s t keeps (updating body read) h = h
  other_ok s t keeps (wants target) h = tt
  other_ok s t keeps (has_item target wi) h = tt
  other_ok s t keeps stored h = tt
  other_ok s t keeps answered h = tt
  other_ok s t keeps (failed e) h = tt

  upserted :
      (i : ℤ) (body : RcaIn) (row : Rca)
      → Accepted body
      → earlier body.rca_end_time body.rca_start_time ≡ ok false
      → HasValues (new_rca i body) row
      → IsCompleteRca (optional_rca (some row))
  unfolding optional_rca
  upserted i body row (raw, accepted) order values =
      submitted-IsComplete p raw body i row accepted order values

  merged :
      (B : Text → Type 0) {given read current x : Text}
      → IsMerged (λ y. y ≡ given) read current x
      → B given
      → B current
      → B x
  merged B (inl e) new old = subst B (sym e) new
  merged B (inr (e, same)) new old = subst B (sym same) old

  checked_order : (s e : Datetime) → at_or_after e s ≡ true → earlier e s ≡ ok false
  unfolding at_or_after
  checked_order s e h = elim (Result-cases (earlier e s)) [
    | inl (before, r) ↦ ground (arith, r, h)
    | inr (x, r) ↦ cc (rw (r, at_or_after) at h)
  ]

  overwritten :
      (i : ℤ) (body : RcaIn) (read current row : Rca) (s t : Incident)
      → Accepted body
      → Updated (new_rca i body) read current s t row
      → Reported s
      → IsCompleteRca (optional_rca (some row))
  unfolding optional_rca rca_like new_rca
  overwritten i body read current row s t (raw, accepted) w complete =
      let was : IsComplete (rca_like current) = rw w.there at complete in
      let (category, fix, prevention) = texts_complete p raw body accepted in
      record {
        has_category = merged (λ x. strip x ≢ []) w.category category was.has_category;
        has_fix = merged (λ x. strip x ≢ []) w.fix fix was.has_fix;
        has_prevention = merged (λ x. strip x ≢ []) w.prevention prevention was.has_prevention;
        has_span = checked_order row.rca_start_time row.rca_end_time w.checked;
      }

  stored_ok :
      (r : TransitionResult) (now : Datetime) (s t : Incident)
      → t ≡ with_result r now s
      → (r.new_state ≡ closed → Reported s)
      → ClosedOk t
  stored_ok r now s t e h is_closed =
      let new : (with_result r now s).item.state ≡ r.new_state =
        state_values-state r.new_state r.end_time r.mttr_seconds s.item in
      let was : r.new_state ≡ closed = sym new ∙ (rw e at is_closed) in rw e (h was)

  own_ok :
      {s t : Incident} {a b : Phase}
      → Move s a t b
      → ClosedOk s
      → PhaseOk s a
      → ClosedOk t × PhaseOk t b
  own_ok (read_item e) good h = (good, tt)
  own_ok {s} (accept {target = target} {wi = wi} {r = r} now aware accepted) good h =
      (good, accepted-closed (optional_rca s.rca) now aware (seen_by_states wi) target r accepted)
  own_ok (refuse now e) good h = (good, tt)
  own_ok {s} {t} (store {r = r} now e) good h = (stored_ok r now s t e h, tt)
  own_ok {s} {t} (store_lost_reply {r = r} now e) good h = (stored_ok r now s t e h, tt)
  own_ok {s} {t} (store_again {r = r} now e) good h = (stored_ok r now s t e h, λ c. rw e (h c))
  own_ok answer good h = (good, tt)
  own_ok (find order) good h = (good, (h, order))
  own_ok (late order) good h = (good, tt)
  own_ok (select_none e) good h = (good, h)
  own_ok (select_row e) good h = (good, h)
  own_ok {s} (insert {body = body} row w) good h =
      rw w.after ((λ c. upserted s.item.id body row h.0 h.1 w.values), tt)
  own_ok {s} (insert_lost_reply {body = body} row w) good h =
      rw w.after ((λ c. upserted s.item.id body row h.0 h.1 w.values), tt)
  own_ok {s} (insert_again {body = body} row w) good h =
      rw w.after ((λ c. upserted s.item.id body row h.0 h.1 w.values), h)
  own_ok {s} {t} (overwrite {body = body} read current row w) good h =
      rw w.after ((λ c. overwritten s.item.id body read current row s t h.0 w (good c)), tt)
  own_ok {s} {t} (overwrite_lost_reply {body = body} read current row w) good h =
      rw w.after ((λ c. overwritten s.item.id body read current row s t h.0 w (good c)), tt)
  own_ok {s} {t} (overwrite_again {body = body} read current row w) good h =
      rw w.after ((λ c. overwritten s.item.id body read current row s t h.0 w (good c)), h)
  own_ok retry_insert good h = (good, h)
  own_ok retry_overwrite good h = (good, h)
  own_ok (raises waits) good h = (good, tt)

  -- A move loses no complete RCA.
  keeps_report :
      {s t : Incident} {a b : Phase} → Move s a t b → PhaseOk s a → Reported s → Reported t
  keeps_report (read_item e) h c = c
  keeps_report (accept now aware accepted) h c = c
  keeps_report (refuse now e) h c = c
  keeps_report (store now e) h c = rw e c
  keeps_report (store_lost_reply now e) h c = rw e c
  keeps_report (store_again now e) h c = rw e c
  keeps_report answer h c = c
  keeps_report (find order) h c = c
  keeps_report (late order) h c = c
  keeps_report (select_none e) h c = c
  keeps_report (select_row e) h c = c
  keeps_report {s} (insert {body = body} row w) h c =
      rw w.after (upserted s.item.id body row h.0 h.1 w.values)
  keeps_report {s} (insert_lost_reply {body = body} row w) h c =
      rw w.after (upserted s.item.id body row h.0 h.1 w.values)
  keeps_report {s} (insert_again {body = body} row w) h c =
      rw w.after (upserted s.item.id body row h.0 h.1 w.values)
  keeps_report {s} {t} (overwrite {body = body} read current row w) h c =
      rw w.after (overwritten s.item.id body read current row s t h.0 w c)
  keeps_report {s} {t} (overwrite_lost_reply {body = body} read current row w) h c =
      rw w.after (overwritten s.item.id body read current row s t h.0 w c)
  keeps_report {s} {t} (overwrite_again {body = body} read current row w) h c =
      rw w.after (overwritten s.item.id body read current row s t h.0 w c)
  keeps_report retry_insert h c = c
  keeps_report retry_overwrite h c = c
  keeps_report (raises waits) h c = c

  others_ok :
      {s t : Incident} {a b : Phase}
      → Move s a t b
      → ClosedOk s
      → PhaseOk s a
      → (o : Phase) → PhaseOk s o
      → PhaseOk t o
  others_ok {s} {t} mv good h o = other_ok s t (keeps_report mv h) o

  kept : Kept Move ClosedOk PhaseOk
  kept = record { own = own_ok; other = others_ok }

  first_ok : (s : Incident) (q : Request p) → PhaseOk s (first_phase q)
  first_ok s (transition_to target) = tt
  first_ok s (submission raw body accepted) = (raw, accepted)

  -- From an incident that is not closed, in every state that concurrent transitions and submissions
  -- can reach, whichever of their calls raise: if the item is closed, a complete RCA of it is on file.
  pub closed-IsCompleteRca :
      (s : Incident) (requests : ℕ → Request p) (y : System)
      → s.item.state ≢ closed
      → Reach (arriving s requests) y
      → y.shared.item.state ≡ closed
      → IsCompleteRca (optional_rca y.shared.rca)
  closed-IsCompleteRca s requests y open_ r is_closed =
      (Reach-Holds Move ClosedOk PhaseOk kept r
          (record { good = λ c. absurd (open_ c); each = λ i. first_ok s (requests i) })).good
        is_closed

-- ===== src/IncidentsApi/Reads.antt =====
-- What the reads of backend/app/incidents_api.py keep.
use ims_prakash.Base.{ℕ, Option, none, some}
use ims_prakash.Base.Int.{ℤ}
use ims_prakash.Enums.{WorkItemState, Severity}
use ims_prakash.Effects.Ensures.{
  Ensures-catch, Keeps, Keeps-bind, Keeps-pure, Keeps-raise, Keeps-lift,
}
use ims_prakash.Models.{WorkItem}
use ims_prakash.Services.{Services}
use ims_prakash.World.Tables.{IsReadable}
use ims_prakash.World.{World}
use ims_prakash.World.Frame.{Keeps-emit, Keeps-on_redis, Keeps-on_mongo}
use ims_prakash.IncidentsApi.{
  clean_up, find_item, or_not_found, or_assert, list_incidents, live_feed, get_incident,
  get_incident_signals,
}

module _ (s : Services) (P : World s → Type 0) (readable : IsReadable {s = s} P) where
  pub or_not_found-Keeps : (i : ℤ) (o : Option WorkItem) → Keeps P (or_not_found s i o)
  unfolding or_not_found
  or_not_found-Keeps i none = Keeps-raise _
  or_not_found-Keeps i (some wi) = Keeps-pure wi

  pub or_assert-Keeps : (o : Option WorkItem) → Keeps P (or_assert s o)
  unfolding or_assert
  or_assert-Keeps none = Keeps-raise _
  or_assert-Keeps (some wi) = Keeps-pure _

  pub find_item-Keeps : (i : ℤ) → Keeps P (find_item s i)
  unfolding find_item
  find_item-Keeps i = Keeps-bind (readable.item i) (or_not_found-Keeps i)

  pub list_incidents-Keeps :
      (state : Option WorkItemState) (severity : Option Severity) (limit : ℕ)
      → Keeps P (list_incidents s state severity limit)
  unfolding list_incidents
  list_incidents-Keeps state severity limit =
      Keeps-bind (readable.items state severity limit) (λ rows. Keeps-pure _)

  pub live_feed-Keeps : (limit : ℕ) → Keeps P (live_feed s limit)
  unfolding live_feed
  live_feed-Keeps limit = Keeps-bind (Keeps-on_redis readable.aside _) (λ entries. Keeps-lift _)

  pub get_incident-Keeps : (i : ℤ) → Keeps P (get_incident s i)
  unfolding get_incident
  get_incident-Keeps i =
      Keeps-bind (find_item-Keeps i) (λ wi. Keeps-bind (readable.rca i) (λ rca. Keeps-pure _))

  pub get_incident_signals-Keeps : (i : ℤ) (limit : ℕ) → Keeps P (get_incident_signals s i limit)
  unfolding get_incident_signals
  get_incident_signals-Keeps i limit =
      Keeps-bind (find_item-Keeps i)
        (λ wi. Keeps-bind (Keeps-on_mongo readable.aside _) (λ raw. Keeps-pure _))

  pub clean_up-Keeps : (wi : WorkItem) (i : ℤ) → Keeps P (clean_up s wi i)
  unfolding clean_up
  clean_up-Keeps wi i =
      Ensures-catch
        (Keeps-bind (Keeps-on_redis readable.aside _) (λ u. Keeps-on_redis readable.aside _))
        (λ e. Keeps-emit readable.aside _)

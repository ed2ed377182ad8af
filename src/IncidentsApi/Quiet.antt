-- ===== src/IncidentsApi/Quiet.antt =====
-- The handlers of backend/app/incidents_api.py leave the ingestion queue alone.
use ims_prakash.Base.{ℕ, Option, none, some}
use ims_prakash.Base.Int.{ℤ}
use ims_prakash.Enums.{WorkItemState, Severity}
use ims_prakash.Models.{WorkItem, RcaIn}
use ims_prakash.Services.{Services}
use ims_prakash.States.{TransitionResult}
use ims_prakash.World.Quiet.{IsQuiet, quiet_rules}
use ims_prakash.IncidentsApi.{
  find_item, or_not_found, or_assert, clean_up, store_transition, transition_incident, submit_rca,
  list_incidents, live_feed, get_incident, get_incident_signals,
}

module _ (s : Services) where
  or_not_found-IsQuiet : (i : ℤ) (o : Option WorkItem) → IsQuiet (or_not_found s i o)
  unfolding or_not_found
  or_not_found-IsQuiet i none = search quiet_rules
  or_not_found-IsQuiet i (some wi) = search quiet_rules

  or_assert-IsQuiet : (o : Option WorkItem) → IsQuiet (or_assert s o)
  unfolding or_assert
  or_assert-IsQuiet none = search quiet_rules
  or_assert-IsQuiet (some wi) = search quiet_rules

  find_item-IsQuiet : (i : ℤ) → IsQuiet (find_item s i)
  unfolding find_item
  find_item-IsQuiet i = search (quiet_rules, or_not_found-IsQuiet)

  clean_up-IsQuiet : (wi : WorkItem) (i : ℤ) → IsQuiet (clean_up s wi i)
  unfolding clean_up
  clean_up-IsQuiet wi i = search quiet_rules

  store_transition-IsQuiet :
      (wi : WorkItem) (i : ℤ) (r : TransitionResult) → IsQuiet (store_transition s wi i r)
  unfolding store_transition
  store_transition-IsQuiet wi i r = search (quiet_rules, clean_up-IsQuiet, or_assert-IsQuiet)

  pub transition_incident-IsQuiet :
      (target : WorkItemState) (i : ℤ) → IsQuiet (transition_incident s target i)
  unfolding transition_incident
  transition_incident-IsQuiet target i =
      search (quiet_rules, find_item-IsQuiet, store_transition-IsQuiet)

  pub submit_rca-IsQuiet : (body : RcaIn) (i : ℤ) → IsQuiet (submit_rca s body i)
  unfolding submit_rca
  submit_rca-IsQuiet body i = search (quiet_rules, find_item-IsQuiet)

  pub list_incidents-IsQuiet :
      (state : Option WorkItemState) (severity : Option Severity) (limit : ℕ)
      → IsQuiet (list_incidents s state severity limit)
  unfolding list_incidents
  list_incidents-IsQuiet state severity limit = search quiet_rules

  pub live_feed-IsQuiet : (limit : ℕ) → IsQuiet (live_feed s limit)
  unfolding live_feed
  live_feed-IsQuiet limit = search quiet_rules

  pub get_incident-IsQuiet : (i : ℤ) → IsQuiet (get_incident s i)
  unfolding get_incident
  get_incident-IsQuiet i = search (quiet_rules, find_item-IsQuiet)

  pub get_incident_signals-IsQuiet : (i : ℤ) (limit : ℕ) → IsQuiet (get_incident_signals s i limit)
  unfolding get_incident_signals
  get_incident_signals-IsQuiet i limit = search (quiet_rules, find_item-IsQuiet)

-- ===== src/IncidentsApi.antt =====
-- backend/app/incidents_api.py: the handlers. FastAPI has checked the path and the query.
pub mod Race
pub mod Checks
pub mod Transitions
pub mod Accepted
pub mod Closing
pub mod SubmitThenClose
pub mod Submissions
pub mod Feed
pub mod Reads
pub mod Gated
pub mod Quiet
pub mod Diagram
use ims_prakash.Base.{
  ℕ, Bool, true, false, not, Option, none, some, List, [], ◌∷◌, map, length, if◌then◌else◌,
}
use ims_prakash.Base.Int.{ℤ}
use ims_prakash.Text.{Text, contains_code, partition}
use ims_prakash.Text.Decimal.{int_of}
use ims_prakash.Datetime.{Datetime, earlier}
use ims_prakash.Enums.{WorkItemState, Severity, closed, state_eq, category_value}
use ims_prakash.Errors.{
  Error, Result, ok, err, http_exception, rca_required_error, rca_incomplete_error,
  illegal_transition_error, assertion_error, work_item_not_found, rca_required, rca_incomplete,
  illegal_transition, rca_time_range,
}
use ims_prakash.Effects.{Action, pure, raise, lift, catch, ◌>>=◌, ◌>>◌}
use ims_prakash.Models.{WorkItem, Rca, RcaIn, WorkItemOut, work_item_out, RcaOut, IncidentDetailOut}
use ims_prakash.RcaValidator.{RcaLike, rca_like}
use ims_prakash.States.{WorkItemLike, TransitionResult, transition}
use ims_prakash.Services.{Services, Document, NewRca, Clock}
use ims_prakash.World.{World, cleanup_failed, on_redis, on_mongo, on_db, emit, clock_now}
use ims_prakash.Storage.PostgresRepo.{
  get_work_item, get_rca, list_work_items, update_state, upsert_rca,
}
use ims_prakash.Storage.RedisCache.{get_live_feed, remove_from_live_feed, clear_dedup}
use ims_prakash.Storage.MongoStore.{find_signals_by_work_item}

pub record FeedEntry : Type 0 where
  pub work_item_id : ℤ
  pub component_id : Text
  pub severity_score : ℕ

entry_of : Result ℤ → Text → ℕ → Result FeedEntry
entry_of (ok wid) comp score =
    ok (record { work_item_id = wid; component_id = comp; severity_score = score })
entry_of (err e) comp score = err e

unfoldable pub feed_entry : Text → ℕ → Result FeedEntry
unfolding entry_of
feed_entry member score =
    let parts = partition b'|' member in entry_of (int_of parts.0) parts.1 score

-- `out.append(…)`, where the entry and what follows did not raise.
append_entry : Result FeedEntry → Result (List FeedEntry) → Result (List FeedEntry)
append_entry (ok e) (ok es) = ok (e ∷ es)
append_entry (ok e) (err x) = err x
append_entry (err x) _ = err x

-- The loop of `live_feed`: a member without a bar is skipped.
unfoldable pub feed_entries : List (Text × ℕ) → Result (List FeedEntry)
unfolding append_entry
feed_entries [] = ok []
feed_entries ((member, score) ∷ rest) =
    let others = feed_entries rest in
    if not (contains_code b'|' member)
    then others
    else append_entry (feed_entry member score) others

-- The two `isoformat` of `get_incident_signals`.
pub record SignalOut : Type 0 where
  pub id : Text
  pub document : Document
  pub timestamp : Text
  pub ingested_at : Text

pub record SignalsOut : Type 0 where
  pub work_item_id : ℤ
  pub count : ℕ
  pub signals : List SignalOut

-- The `except` clauses of `transition_incident`; any other exception goes on.
unfoldable pub http_error : Error → Error
http_error rca_required_error = http_exception 400 rca_required
http_error (rca_incomplete_error missing) = http_exception 400 (rca_incomplete missing)
http_error (illegal_transition_error from to) = http_exception 409 (illegal_transition from to)
http_error e = e

unfoldable pub with_http_errors : {A : Type 0} → Result A → Result A
unfolding http_error
with_http_errors (ok a) = ok a
with_http_errors (err e) = err (http_error e)

abbrev pub seen_by_states : WorkItem → WorkItemLike
seen_by_states wi = record { state = wi.state; start_time = wi.start_time }

unfoldable pub optional_rca : Option Rca → Option RcaLike
optional_rca none = none
optional_rca (some r) = some (rca_like r)

unfoldable pub new_rca : ℤ → RcaIn → NewRca
unfolding category_value
new_rca work_item_id body = record {
  work_item_id = work_item_id;
  root_cause_category = category_value body.root_cause_category;
  fix_applied = body.fix_applied;
  prevention = body.prevention;
  rca_start_time = body.rca_start_time;
  rca_end_time = body.rca_end_time;
}

module _ (s : Services) where
  unfoldable pub or_not_found : ℤ → Option WorkItem → Action (World s) WorkItem
  or_not_found work_item_id none = raise (http_exception 404 (work_item_not_found work_item_id))
  or_not_found work_item_id (some wi) = pure wi

  unfoldable pub find_item : ℤ → Action (World s) WorkItem
  unfolding or_not_found
  find_item work_item_id = do
    wi ← on_db (get_work_item s.sql work_item_id)
    or_not_found work_item_id wi

  unfoldable pub list_incidents :
      Option WorkItemState → Option Severity → ℕ → Action (World s) (List WorkItemOut)
  list_incidents state severity limit = do
    rows ← on_db (list_work_items s.sql state severity limit)
    pure (map work_item_out rows)

  unfoldable pub live_feed : ℕ → Action (World s) (List FeedEntry)
  unfolding feed_entries feed_entry
  live_feed limit = do entries ← on_redis (get_live_feed s.redis limit); lift (feed_entries entries)

  unfoldable pub get_incident : ℤ → Action (World s) IncidentDetailOut
  unfolding find_item
  get_incident work_item_id = do
    wi ← find_item work_item_id
    rca ← on_db (get_rca s.sql work_item_id)
    pure (record { work_item = work_item_out wi; rca = rca })

  signal_out : Text × Document → SignalOut
  signal_out (id, d) = record {
    id = id;
    document = d;
    timestamp = Clock.isoformat s.clock d.timestamp;
    ingested_at = Clock.isoformat s.clock d.ingested_at;
  }

  unfoldable pub get_incident_signals : ℤ → ℕ → Action (World s) SignalsOut
  unfolding find_item signal_out
  get_incident_signals work_item_id limit = do
    find_item work_item_id
    raw ← on_mongo (find_signals_by_work_item s.mongo work_item_id limit)
    let coerced = map signal_out raw
    pure (record { work_item_id = work_item_id; count = length coerced; signals = coerced })

  -- Once closed, the item leaves the live feed and its window; a failure is only logged.
  unfoldable pub clean_up : WorkItem → ℤ → Action (World s) (Unit {0})
  clean_up wi work_item_id =
      catch
        (do
          on_redis (remove_from_live_feed s.redis work_item_id)
          on_redis (clear_dedup s.redis wi.component_id))
        (λ e. emit (cleanup_failed work_item_id e))

  unfoldable pub or_assert : Option WorkItem → Action (World s) WorkItemOut
  or_assert none = raise assertion_error
  or_assert (some fresh) = pure (work_item_out fresh)

  -- What follows an accepted transition.
  unfoldable pub store_transition : WorkItem → ℤ → TransitionResult → Action (World s) WorkItemOut
  unfolding clean_up or_assert
  store_transition wi work_item_id result = do
    on_db (update_state s.sql work_item_id result.new_state result.end_time result.mttr_seconds)
    if state_eq result.new_state closed then clean_up wi work_item_id else pure tt
    fresh ← on_db (get_work_item s.sql work_item_id)
    or_assert fresh

  -- The clock is read by the close alone; reading it has no effect on anything else.
  unfoldable pub transition_incident : WorkItemState → ℤ → Action (World s) WorkItemOut
  unfolding find_item store_transition
  transition_incident target work_item_id = do
    wi ← find_item work_item_id
    rca ← on_db (get_rca s.sql work_item_id)
    now ← clock_now
    result ← lift (with_http_errors (transition (seen_by_states wi) target (optional_rca rca) now))
    store_transition wi work_item_id result

  unfoldable pub submit_rca : RcaIn → ℤ → Action (World s) RcaOut
  unfolding find_item new_rca
  submit_rca body work_item_id = do
    find_item work_item_id
    late ← lift (earlier body.rca_end_time body.rca_start_time)
    if late
        then raise (http_exception 400 rca_time_range)
        else on_db (upsert_rca s.sql (new_rca work_item_id body))

  unfoldable pub close_incident : ℤ → Action (World s) WorkItemOut
  unfolding transition_incident
  close_incident work_item_id = transition_incident closed work_item_id

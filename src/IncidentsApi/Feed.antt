-- ===== src/IncidentsApi/Feed.antt =====
-- The live feed of backend/app/incidents_api.py reads what backend/app/storage/redis_cache.py writes.
use ims_prakash.Base.{ℕ, ◌≡◌, refl, true, List, [], ◌∷◌, map}
use ims_prakash.Text.{Text, contains_code}
use ims_prakash.Text.Decimal.{str_int}
use ims_prakash.Text.Decimal.RoundTrip.{str_int-NotBar, int_of-str_int}
use ims_prakash.Errors.{ok}
use ims_prakash.Storage.RedisCache.{feed_member}
use ims_prakash.Storage.RedisCache.LiveFeed.{partition-bar, contains-bar}
use ims_prakash.IncidentsApi.{FeedEntry, feed_entry, feed_entries}

-- The member that a worker pushes for an entry, and its score.
abbrev pub pushed : FeedEntry → Text × ℕ
pushed e = (feed_member e.work_item_id e.component_id, e.severity_score)

feed_entry-pushed :
    (e : FeedEntry) → feed_entry (feed_member e.work_item_id e.component_id) e.severity_score ≡ ok e
unfolding feed_entry feed_member
feed_entry-pushed e = rw (
  partition-bar (str_int e.work_item_id) e.component_id (str_int-NotBar e.work_item_id),
  int_of-str_int e.work_item_id,
)

contains_bar_pushed :
    (e : FeedEntry) → contains_code b'|' (feed_member e.work_item_id e.component_id) ≡ true
unfolding feed_member
contains_bar_pushed e = contains-bar (str_int e.work_item_id) e.component_id

-- `live_feed` turns the members that workers pushed back into their items, components and scores, in
-- order and without an error, also where a component id holds the separator.
pub feed_entries-pushed : (es : List FeedEntry) → feed_entries (map pushed es) ≡ ok es
unfolding feed_entries
feed_entries-pushed [] = refl
feed_entries-pushed (e ∷ es) =
    rw (contains_bar_pushed e, feed_entry-pushed e, feed_entries-pushed es)

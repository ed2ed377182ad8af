-- ===== src/Examples/Memory.antt =====
-- Servers that are kept in memory, with which the parameters of the model are filled.
pub mod Laws
use ims_prakash.Base.{
  ◌++◌, ℕ, zero, suc, ◌+◌, ◌≡◌, ◌≢◌, refl, sym, ap, ◌∙◌, arith, Bool, true, false, ◌&&◌, not,
  Option, none, some, List, [], ◌∷◌, map, length, if◌then◌else◌,
}
use ims_prakash.Base.Int.{ℤ, pos, negsuc, ◌-ℤ◌}
use ims_prakash.Text.{Text, codes, text_eq}
use ims_prakash.Text.Decimal.{str_of}
use ims_prakash.Datetime.{Datetime, utc, instant, zone_of, IsStored}
use ims_prakash.Errors.{Error, Result, ok, err, value_error, operational_error, ◌>>=◌, >>=-eq-ok}
use ims_prakash.Effects.{Action}
use ims_prakash.Models.{WorkItem, Rca}
use ims_prakash.Services.{
  Services, Redis, Mongo, Sql, Clock, SetOptions, Document, NewWorkItem, NewRca, RcaAssignment,
  set_root_cause_category, set_fix_applied, set_prevention, set_rca_start_time, set_rca_end_time,
}
use ims_prakash.Services.Laws.{
  SqlLaws, RetryLaws, Tables, update_row, find_row, find_rca, HasValues, IsAssigned, IsRowOf,
  replace_rca,
}

abbrev pub at : ℕ → Datetime
at n = record { wall = n; tzinfo = some utc }

-- Redis: its string keys, the members of the one sorted set, and the fields of the one hash.
pub record Shelf : Type 0 where
  pub keys : List (Text × Text)
  pub feed : List (Text × ℕ)
  pub hash : List (Text × Text)

abbrev pub lookup : Text → List (Text × Text) → Option Text
lookup k [] = none
lookup k ((j, v) ∷ rest) = if text_eq k j then some v else lookup k rest

abbrev pub is_some : Option Text → Bool
is_some none = false
is_some (some _) = true

abbrev pub put : Text → Text → SetOptions → Shelf → Result Bool × Shelf
put k v o t =
    let there = is_some (lookup k t.keys) in
    if (o.nx && there)
    then (ok false, t)
    else if (o.xx && not there)
    then (ok false, t)
    else (ok true, record t { keys = (k, v) ∷ t.keys })

abbrev done : {W : Type 0} → (W → W) → Action W (Unit {0})
done f w = (ok tt, f w)

unfoldable pub without : Text → List (Text × ℕ) → List (Text × ℕ)
without m [] = []
without m ((x, n) ∷ rest) =
    let kept = without m rest in if not (text_eq x m) then (x, n) ∷ kept else kept

abbrev shelf_redis : Redis
shelf_redis = record {
  Store = Shelf;
  set = put;
  get = λ k t. (ok (lookup k t.keys), t);
  delete = λ k. done (λ t. record t { keys = [] });
  zadd = λ k m n. done (λ t. record t { feed = (m, n) ∷ t.feed });
  zrange_all = λ k t. (ok (map (λ (e : Text × ℕ). e.0) t.feed), t);
  zrem = λ k m. done (λ t. record t { feed = without m t.feed });
  zrevrange = λ k a b t. (ok t.feed, t);
  hset = λ k kvs. done (λ t. record t { hash = kvs ++ t.hash });
  hgetall = λ k t. (ok t.hash, t);
  ping = λ t. (ok true, t);
}

abbrev list_mongo : Mongo
list_mongo = record {
  Store = List (Text × Document);
  insert_one = λ d t. (ok (str_of (length t)), (str_of (length t), d) ∷ t);
  set_work_item_id = λ i z. done (λ t. t);
  find_by_work_item = λ z n t. (ok t, t);
  create_index = λ k. done (λ t. t);
  ping = λ t. (ok true, t);
}

-- PostgreSQL: a session is the tables committed and the tables it sees.
pub record Session : Type 0 where
  pub committed : Tables
  pub seen : Tables

again : {W A : Type 0} → Result A × W → Action W A → Result A × W
again (err operational_error, w) rest = rest w
again o rest = o

unfoldable pub attempts : {W A : Type 0} → ℕ → Action W A → Action W A
unfolding again
attempts zero body d = body d
attempts (suc zero) body d = body d
attempts (suc (suc n)) body d = let rest = attempts (suc n) body in again (body d) rest

-- `timestamptz`, where the process runs in UTC; an instant before the year 1 is refused.
stored_instant : ℤ → Result Datetime
stored_instant (pos n) = ok (at n)
stored_instant (negsuc n) = err value_error

unfoldable pub stored_time : Datetime → Result Datetime
unfolding stored_instant
stored_time d = stored_instant (instant d.wall (zone_of utc d.tzinfo))

abbrev row_of : NewRca → Datetime → Datetime → Rca
row_of n start end = record {
  id = pos 1;
  work_item_id = n.work_item_id;
  root_cause_category = n.root_cause_category;
  fix_applied = n.fix_applied;
  prevention = n.prevention;
  rca_start_time = start;
  rca_end_time = end;
  submitted_at = at 0;
}

abbrev new_rca_row : NewRca → Result Rca
new_rca_row n = do
  start ← stored_time n.rca_start_time
  end ← stored_time n.rca_end_time
  ok (row_of n start end)

abbrev pub assigned_row : List RcaAssignment → Rca → Result Rca
assigned_row [] x = ok x
assigned_row (set_root_cause_category v ∷ vs) x =
    assigned_row vs (record x { root_cause_category = v })
assigned_row (set_fix_applied v ∷ vs) x = assigned_row vs (record x { fix_applied = v })
assigned_row (set_prevention v ∷ vs) x = assigned_row vs (record x { prevention = v })
assigned_row (set_rca_start_time v ∷ vs) x = do
  d ← stored_time v
  assigned_row vs (record x { rca_start_time = d })
assigned_row (set_rca_end_time v ∷ vs) x = do
  d ← stored_time v
  assigned_row vs (record x { rca_end_time = d })

abbrev new_row : NewWorkItem → Datetime → List WorkItem → WorkItem
new_row n start rows = record {
  id = pos (suc (length rows));
  component_id = n.component_id;
  component_type = n.component_type;
  severity = n.severity;
  state = n.state;
  start_time = start;
  end_time = none;
  mttr_seconds = none;
  signal_count = 1;
  summary = n.summary;
  created_at = at 0;
  updated_at = at 0;
}

abbrev see : (Tables → Tables) → Session → Session
see f t = record t { seen = f t.seen }

-- A write that is refused changes nothing.
abbrev pub write_with :
    {A B : Type 0} → (A → B) → (A → Tables → Tables) → Result A → Action Session B
write_with result f (ok a) t = (ok (result a), see (f a) t)
write_with result f (err e) t = (err e, t)

abbrev pub add_item : NewWorkItem → Datetime → Tables → Tables
add_item n start d = record d { work_items = d.work_items ++ new_row n start d.work_items ∷ [] }

abbrev pub add_rca : Rca → Tables → Tables
add_rca r d = record d { rcas = d.rcas ++ r ∷ [] }

abbrev pub put_rca : Rca → Rca → Tables → Tables
put_rca row r d = record d { rcas = map (replace_rca row r) d.rcas }

abbrev table_sql : Sql
table_sql = record {
  Db = Tables;
  Session = Session;
  begin = λ d. record { committed = d; seen = d };
  commit = done (λ t. record { committed = t.seen; seen = t.seen });
  rollback = λ t. record { committed = t.committed; seen = t.committed };
  close = λ t. t.committed;
  insert_work_item = λ n t.
      write_with (λ d. pos (suc (length t.seen.work_items))) (add_item n) (stored_time n.start_time)
        t;
  update_work_item = λ i values. done (
      see
        (λ (d : Tables). record d { work_items = map (update_row i values (at 9)) d.work_items }));
  select_work_item = λ i t. (ok (find_row i t.seen.work_items), t);
  select_work_items = λ s v n t. (ok t.seen.work_items, t);
  insert_link = λ n. done (λ t. t);
  select_links = λ i n t. (ok [], t);
  upsert_metric = λ b c s n. done (λ t. t);
  select_rca = λ i t. (ok (find_rca i t.seen.rcas), t);
  insert_rca = λ n. write_with (λ r. r) add_rca (new_rca_row n);
  update_rca = λ row values. write_with (λ r. r) (put_rca row) (assigned_row values row);
  select_one = λ d. (ok 1, d);
  retrying = λ A n body. attempts n body;
}

abbrev tick_clock : Clock
tick_clock = record { Time = ℕ; now = λ n. (at n, n + 1); isoformat = λ d. codes "T" }

abbrev pub memory : Services
memory = record { redis = shelf_redis; mongo = list_mongo; sql = table_sql; clock = tick_clock }

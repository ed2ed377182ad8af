-- ===== src/Services/Laws.antt =====
-- The documented behaviour of the servers that proofs rely on, as hypotheses on the parameters. What
-- a server holds is observed through functions of its state. A call that raises promises nothing,
-- but where a line says so.
use ims_prakash.Base.{
  ℕ, suc, ◌+◌, ◌≡◌, ◌≢◌, ◌⊎◌, Bool, not, ◌&&◌, Option, none, some, List, [], ◌∷◌, ◌++◌, map, ◌==◌,
  if◌then◌else◌,
}
use ims_prakash.Base.Int.{ℤ, pos_part, neg_part}
use ims_prakash.Text.{Text, text_eq}
use ims_prakash.Datetime.{Datetime, IsStored}
use ims_prakash.Enums.{WorkItemState, Severity}
use ims_prakash.Errors.{Error, ok, err, operational_error}
use ims_prakash.Effects.{Action}
use ims_prakash.Models.{WorkItem, Rca}
use ims_prakash.Services.{
  RcaAssignment, set_root_cause_category, set_fix_applied, set_prevention, set_rca_start_time,
  set_rca_end_time, NewWorkItem, NewLink, NewRca, Redis, Sql, Assignment, set_state, set_end_time,
  set_mttr_seconds, add_signal_count,
}

-- The members of `l` that pass the test, in order.
unfoldable pub keep : {A : Type 0} → (A → Bool) → List A → List A
keep p [] = []
keep p (x ∷ xs) = let rest = keep p xs in if p x then x ∷ rest else rest

-- Redis, as far as the proofs look: the members of a sorted set, in order. A set that is read is
-- left as it is.
pub record RedisLaws (r : Redis) : Type 0 where
  pub members : Text → r.Store → List Text
  pub zrange_all_members :
      (k : Text) (t u : r.Store) (ms : List Text)
      → r.zrange_all k t ≡ (ok ms, u)
      → (ms ≡ members k t) × (members k u ≡ members k t)
  pub zrem_members :
      (k m : Text) (t u : r.Store)
      → r.zrem k m t ≡ (ok tt, u)
      → members k u ≡ keep (λ x. not (text_eq x m)) (members k t)

-- What PostgreSQL holds, as far as the proofs look.
pub record Tables : Type 0 where
  pub work_items : List WorkItem
  pub rcas : List Rca

abbrev pub int_eq : ℤ → ℤ → Bool
int_eq a b = pos_part a == pos_part b && neg_part a == neg_part b

abbrev pub assign : Assignment → WorkItem → WorkItem
assign (set_state x) w = record w { state = x }
assign (set_end_time x) w = record w { end_time = some x }
assign (set_mttr_seconds x) w = record w { mttr_seconds = some x }
assign (add_signal_count n) w = record w { signal_count = w.signal_count + n }

abbrev pub assign_all : List Assignment → WorkItem → WorkItem
assign_all [] w = w
assign_all (a ∷ as_) w = assign_all as_ (assign a w)

-- An UPDATE of the row with the id; the trigger of init-db/01_schema.sql stamps `updated_at`.
abbrev pub update_row : ℤ → List Assignment → Datetime → WorkItem → WorkItem
update_row i values now w =
    if int_eq w.id i then record (assign_all values w) { updated_at = now } else w

unfoldable pub find_row : ℤ → List WorkItem → Option WorkItem
find_row i [] = none
find_row i (w ∷ ws) = if int_eq w.id i then some w else find_row i ws

unfoldable pub find_rca : ℤ → List Rca → Option Rca
find_rca i [] = none
find_rca i (r ∷ rs) = if int_eq r.work_item_id i then some r else find_rca i rs

-- The row has the values that an RCA is given; its times are stored as `timestamptz`.
pub record HasValues (n : NewRca) (r : Rca) : Type 0 where
  pub item : r.work_item_id ≡ n.work_item_id
  pub category : r.root_cause_category ≡ n.root_cause_category
  pub fix : r.fix_applied ≡ n.fix_applied
  pub prevention : r.prevention ≡ n.prevention
  pub local : ℤ
  pub starts : IsStored local n.rca_start_time r.rca_start_time
  pub ends : IsStored local n.rca_end_time r.rca_end_time

-- The row has the values that a work item is created with; its time is stored as `timestamptz`.
pub record IsRowOf (n : NewWorkItem) (w : WorkItem) : Type 0 where
  pub component : w.component_id ≡ n.component_id
  pub kind : w.component_type ≡ n.component_type
  pub severity : w.severity ≡ n.severity
  pub state : w.state ≡ n.state
  pub local : ℤ
  pub starts : IsStored local n.start_time w.start_time
  pub summary : w.summary ≡ n.summary

-- `r` is the row with the columns set, one after the other.
abbrev pub IsAssigned : ℤ → List RcaAssignment → Rca → Rca → Type 0
IsAssigned local [] x r = x ≡ r
IsAssigned local (set_root_cause_category v ∷ vs) x r =
    IsAssigned local vs (record x { root_cause_category = v }) r
IsAssigned local (set_fix_applied v ∷ vs) x r = IsAssigned local vs (record x { fix_applied = v }) r
IsAssigned local (set_prevention v ∷ vs) x r = IsAssigned local vs (record x { prevention = v }) r
IsAssigned local (set_rca_start_time v ∷ vs) x r =
    (d : Datetime) × IsStored local v d × IsAssigned local vs (record x { rca_start_time = d }) r
IsAssigned local (set_rca_end_time v ∷ vs) x r =
    (d : Datetime) × IsStored local v d × IsAssigned local vs (record x { rca_end_time = d }) r

-- `row` is replaced by `r`. The item's id is unique in the table, so it names the row as the primary
-- key does.
abbrev pub replace_rca : Rca → Rca → Rca → Rca
replace_rca row r x = if int_eq x.work_item_id row.work_item_id then r else x

-- PostgreSQL under SQLAlchemy. A session sees its own changes; `base` is the database that it would
-- leave if it closed now. A commit that raises may have been applied or not.
pub record SqlLaws (q : Sql) : Type 0 where
  pub tables : q.Db → Tables
  pub view : q.Session → Tables
  pub base : q.Session → Tables
  pub view-begin : (d : q.Db) → view (q.begin d) ≡ tables d
  pub base-begin : (d : q.Db) → base (q.begin d) ≡ tables d
  pub tables-close : (t : q.Session) → tables (q.close t) ≡ base t
  pub base-rollback : (t : q.Session) → base (q.rollback t) ≡ base t
  pub commit_ok : (t u : q.Session) → q.commit t ≡ (ok tt, u) → base u ≡ view t
  pub commit_err :
      (t u : q.Session) (e : Error)
      → q.commit t ≡ (err e, u)
      → (base u ≡ base t) ⊎ (base u ≡ view t)
  pub base-update_work_item :
      (i : ℤ) (values : List Assignment) (t : q.Session)
      → base (q.update_work_item i values t).1 ≡ base t
  pub view-update_work_item :
      (i : ℤ) (values : List Assignment) (t u : q.Session)
      → q.update_work_item i values t ≡ (ok tt, u)
      → (now : Datetime) × (view u
          ≡ record (view t) { work_items = map (update_row i values now) (view t).work_items })
  -- The flush, which gives the new row its id, is part of the insertion.
  pub base-insert_work_item :
      (n : NewWorkItem) (t : q.Session) → base (q.insert_work_item n t).1 ≡ base t
  pub insert_work_item_row :
      (n : NewWorkItem) (t u : q.Session) (i : ℤ)
      → q.insert_work_item n t ≡ (ok i, u)
      → (row : WorkItem) × (row.id ≡ i)
        × IsRowOf n row
        × (view u ≡ record (view t) { work_items = (view t).work_items ++ row ∷ [] })
  -- The links and the buckets have tables of their own.
  pub base-insert_link : (n : NewLink) (t : q.Session) → base (q.insert_link n t).1 ≡ base t
  pub view-insert_link : (n : NewLink) (t : q.Session) → view (q.insert_link n t).1 ≡ view t
  pub base-upsert_metric :
      (b : Datetime) (component_id : Text) (severity : Severity) (n : ℕ) (t : q.Session)
      → base (q.upsert_metric b component_id severity n t).1 ≡ base t
  pub view-upsert_metric :
      (b : Datetime) (component_id : Text) (severity : Severity) (n : ℕ) (t : q.Session)
      → view (q.upsert_metric b component_id severity n t).1 ≡ view t
  pub base-select_work_item : (i : ℤ) (t : q.Session) → base (q.select_work_item i t).1 ≡ base t
  pub select_work_item_row :
      (i : ℤ) (t u : q.Session) (o : Option WorkItem)
      → q.select_work_item i t ≡ (ok o, u)
      → (o ≡ find_row i (view t).work_items) × (view u ≡ view t)
  pub view-select_work_item : (i : ℤ) (t : q.Session) → view (q.select_work_item i t).1 ≡ view t
  pub base-select_work_items :
      (state : Option WorkItemState) (severity : Option Severity) (limit : ℕ) (t : q.Session)
      → base (q.select_work_items state severity limit t).1 ≡ base t
  pub view-select_work_items :
      (state : Option WorkItemState) (severity : Option Severity) (limit : ℕ) (t : q.Session)
      → view (q.select_work_items state severity limit t).1 ≡ view t
  pub tables-select_one : (d : q.Db) → tables (q.select_one d).1 ≡ tables d
  pub base-select_rca : (i : ℤ) (t : q.Session) → base (q.select_rca i t).1 ≡ base t
  pub view-select_rca : (i : ℤ) (t : q.Session) → view (q.select_rca i t).1 ≡ view t
  pub select_rca_row :
      (i : ℤ) (t u : q.Session) (o : Option Rca)
      → q.select_rca i t ≡ (ok o, u)
      → o ≡ find_rca i (view t).rcas
  -- The flush and the refresh are part of the two writes of an RCA.
  pub base-insert_rca : (n : NewRca) (t : q.Session) → base (q.insert_rca n t).1 ≡ base t
  pub insert_rca_row :
      (n : NewRca) (t u : q.Session) (r : Rca)
      → q.insert_rca n t ≡ (ok r, u)
      → HasValues n r × (view u ≡ record (view t) { rcas = (view t).rcas ++ r ∷ [] })
  pub base-update_rca :
      (row : Rca) (values : List RcaAssignment) (t : q.Session)
      → base (q.update_rca row values t).1 ≡ base t
  -- The row is the one that the session sees.
  pub update_rca_row :
      (row : Rca) (values : List RcaAssignment) (t u : q.Session) (r : Rca)
      → find_rca row.work_item_id (view t).rcas ≡ some row
      → q.update_rca row values t ≡ (ok r, u)
      → (local : ℤ) × IsAssigned local values row r
        × (view u ≡ record (view t) { rcas = map (replace_rca row r) (view t).rcas })

-- tenacity: a first attempt that returns is the result, and one that raises another exception than
-- `OperationalError` is not repeated; after an `OperationalError` there is another attempt, unless
-- it was the last.
pub record RetryLaws (q : Sql) : Type 1 where
  pub retrying_ok :
      (A : Type 0) (n : ℕ) (body : Action q.Db A) (d e : q.Db) (a : A)
      → body d ≡ (ok a, e)
      → q.retrying A (suc n) body d ≡ (ok a, e)
  pub retrying_other :
      (A : Type 0) (n : ℕ) (body : Action q.Db A) (d e : q.Db) (x : Error)
      → x ≢ operational_error
      → body d ≡ (err x, e)
      → q.retrying A (suc n) body d ≡ (err x, e)
  pub retrying_again :
      (A : Type 0) (n : ℕ) (body : Action q.Db A) (d e : q.Db)
      → body d ≡ (err operational_error, e)
      → q.retrying A (suc (suc n)) body d ≡ q.retrying A (suc n) body e
  pub retrying_last :
      (A : Type 0) (body : Action q.Db A) (d e : q.Db)
      → body d ≡ (err operational_error, e)
      → q.retrying A 1 body d ≡ (err operational_error, e)

-- ===== src/IncidentsApi/Accepted.antt =====
-- What a transition of backend/app/incidents_api.py that was answered has done to the database.
use ims_prakash.Base.{
  ◌≡◌, refl, sym, ap, ◌∙◌, inl, inr, Bool, true, false, Option, none, some, All, if◌then◌else◌,
}
use ims_prakash.Base.Int.{ℤ}
use ims_prakash.Datetime.{Datetime}
use ims_prakash.Enums.{WorkItemState, closed, state_eq}
use ims_prakash.Errors.{Result, ok, err}
use ims_prakash.Effects.{pure, lift, raise, ◌>>=◌, catch, Outcome-cases, >>=-eq-ok}
use ims_prakash.Models.{WorkItem, WorkItemOut, Rca, work_item_out}
use ims_prakash.States.{TransitionResult, transition}
use ims_prakash.States.Graph.{transition-⟶}
use ims_prakash.Services.{Services, Clock, Sql}
use ims_prakash.Services.Laws.{SqlLaws, RetryLaws, Tables, find_row, find_rca}
use ims_prakash.World.{World, on_db, on_db-eq, on_redis, emit, clock_now}
use ims_prakash.Storage.PostgresRepo.{get_work_item, get_rca, update_state}
use ims_prakash.Storage.PostgresRepo.Reads.{
  tables-get_work_item, get_work_item_row, tables-get_rca, get_rca_row,
}
use ims_prakash.Storage.PostgresRepo.UpdateState.{
  update_state_lem, find_row-All, HasState, OthersKept, Updated,
}
use ims_prakash.Storage.RedisCache.{remove_from_live_feed, clear_dedup}
use ims_prakash.IncidentsApi.{
  transition_incident, find_item, store_transition, clean_up, or_assert, or_not_found,
  with_http_errors, seen_by_states, optional_rca,
}

module _ {s : Services} {A : Type 0} where
  pub lift-eq : (r : Result A) (a : A) (w v : World s) → lift r w ≡ (ok a, v) → (r ≡ ok a) × (w ≡ v)
  unfolding lift
  lift-eq r a w v h = ((λ j. (h j).0), (λ j. (h j).1))

module _ (s : Services) where
  pub clock_now-db :
      (d : Datetime) (w v : World s)
      → clock_now w ≡ (ok d, v)
      → (ok (Clock.now s.clock w.time).0 ≡ ok d) × (w.db ≡ v.db)
  unfolding clock_now
  clock_now-db d w v h = ((λ j. (h j).0), (λ j. (h j).1.db))

  or_not_found-eq :
      (i : ℤ) (o : Option WorkItem) (wi : WorkItem) (w v : World s)
      → or_not_found s i o w ≡ (ok wi, v)
      → (o ≡ some wi) × (w ≡ v)
  unfolding or_not_found raise pure
  or_not_found-eq i none wi w v h = cc
  or_not_found-eq i (some x) wi w v h = (cc, cc)

  pub or_assert-eq :
      (o : Option WorkItem) (out : WorkItemOut) (w v : World s)
      → or_assert s o w ≡ (ok out, v)
      → (fresh : WorkItem) × (o ≡ some fresh) × (work_item_out fresh ≡ out) × (w ≡ v)
  unfolding or_assert raise pure
  or_assert-eq none out w v h = cc
  or_assert-eq (some x) out w v h = (x, refl, cc, cc)

  -- The clean-up never raises and leaves the database alone.
  clean_up-db : (wi : WorkItem) (i : ℤ) (w : World s) → (clean_up s wi i w).1.db ≡ w.db
  unfolding clean_up catch ◌>>=◌ on_redis emit
  clean_up-db wi i w = elim (Outcome-cases (remove_from_live_feed s.redis i w.redis)) [
    | inl (a, t, eq) ↦ elim (Outcome-cases (clear_dedup s.redis wi.component_id t)) [
      | inl (b, u, eq2) ↦ rw (eq, eq2) refl
      | inr (e, u, eq2) ↦ rw (eq, eq2) refl
    ]
    | inr (e, t, eq) ↦ rw eq refl
  ]

module _ (s : Services) where
  pub clean_step-db :
      (b : Bool) (wi : WorkItem) (i : ℤ) (w v : World s) (u : Unit {0})
      → (if b then clean_up s wi i else pure tt) w ≡ (ok u, v)
      → v.db ≡ w.db
  unfolding pure
  clean_step-db true wi i w v u h =
      ap (λ (x : Result (Unit {0}) × World s). x.1.db) (sym h) ∙ clean_up-db s wi i w
  clean_step-db false wi i w v u h = λ j. (sym h j).1.db

pub with_http_errors-ok : {A : Type 0} (r : Result A) (a : A) → with_http_errors r ≡ ok a → r ≡ ok a
unfolding with_http_errors
with_http_errors-ok (ok b) a h = h
with_http_errors-ok (err e) a h = cc

module _ (s : Services) (laws : SqlLaws s.sql) where
  abbrev pub tables_of : World s → Tables
  tables_of w = laws.tables w.db

  pub tables-read_item :
      (i : ℤ) (w v : World s) (o : Option WorkItem)
      → on_db (get_work_item s.sql i) w ≡ (ok o, v)
      → (o ≡ find_row i (tables_of w).work_items) × (tables_of v ≡ tables_of w)
  tables-read_item i w v o h =
      let ret = on_db-eq (get_work_item s.sql i) w v (ok o) h in
      (
        get_work_item_row s.sql laws i w.db v.db o ret,
        ap (λ (x : Result (Option WorkItem) × Sql.Db s.sql). laws.tables x.1) (sym ret)
            ∙ tables-get_work_item s.sql laws i w.db,
      )

  pub tables-read_rca :
      (i : ℤ) (w v : World s) (o : Option Rca)
      → on_db (get_rca s.sql i) w ≡ (ok o, v)
      → (o ≡ find_rca i (tables_of w).rcas) × (tables_of v ≡ tables_of w)
  tables-read_rca i w v o h =
      let ret = on_db-eq (get_rca s.sql i) w v (ok o) h in
      (
        get_rca_row s.sql laws i w.db v.db o ret,
        ap (λ (x : Result (Option Rca) × Sql.Db s.sql). laws.tables x.1) (sym ret)
            ∙ tables-get_rca s.sql laws i w.db,
      )

  pub find_item-ok :
      (i : ℤ) (wi : WorkItem) (w v : World s)
      → find_item s i w ≡ (ok wi, v)
      → (find_row i (tables_of w).work_items ≡ some wi) × (tables_of v ≡ tables_of w)
  unfolding find_item
  find_item-ok i wi w v h =
      let (o, u, get, found) = >>=-eq-ok (on_db (get_work_item s.sql i)) (or_not_found s i) w h in
      let (is_some, same) = or_not_found-eq s i o wi u v found in
      let (row, kept) = tables-read_item i w u o get in
      (sym row ∙ is_some, ap tables_of (sym same) ∙ kept)

  -- The database from the first read to the store.
  still :
      (w w1 w2 w3 w4 : World s)
      → w3 ≡ w4
      → w2.db ≡ w3.db
      → tables_of w2 ≡ tables_of w1
      → tables_of w1 ≡ tables_of w
      → tables_of w4 ≡ tables_of w
  still w w1 w2 w3 w4 lifted clock read2 read =
      ap tables_of (sym lifted) ∙ ap laws.tables (sym clock) ∙ read2 ∙ read

  module _ (retry : RetryLaws s.sql) where
    tables-update_state :
        (i : ℤ) (r : TransitionResult) (w v : World s)
        → on_db (update_state s.sql i r.new_state r.end_time r.mttr_seconds) w ≡ (ok tt, v)
        → Updated i r.new_state r.end_time r.mttr_seconds (tables_of w) (tables_of v)
    tables-update_state i r w v h =
        rw (on_db-eq (update_state s.sql i r.new_state r.end_time r.mttr_seconds) w v (ok tt) h) at
          (update_state_lem i r.new_state r.end_time r.mttr_seconds s.sql laws retry w.db)

    store_transition-ok :
        (wi : WorkItem) (i : ℤ) (r : TransitionResult) (out : WorkItemOut) (w v : World s)
        → store_transition s wi i r w ≡ (ok out, v)
        → Updated i r.new_state r.end_time r.mttr_seconds (tables_of w) (tables_of v)
          × (fresh : WorkItem) × (find_row i (tables_of v).work_items ≡ some fresh)
          × (work_item_out fresh ≡ out)
    unfolding store_transition
    store_transition-ok wi i r out w v h =
        let (u1, w1, upd, h1) =
          >>=-eq-ok (on_db (update_state s.sql i r.new_state r.end_time r.mttr_seconds)) _ w h in
        let (u2, w2, clean, h2) =
          >>=-eq-ok (if state_eq r.new_state closed then clean_up s wi i else pure tt) _ w1 h1 in
        let (o, w3, get, h3) = >>=-eq-ok (on_db (get_work_item s.sql i)) (or_assert s) w2 h2 in
        let (fresh, is_some, same_out, same) = or_assert-eq s o out w3 v h3 in
        let (row, read) = tables-read_item i w2 w3 o get in
        let kept = ap laws.tables (clean_step-db s _ wi i w1 w2 u2 clean) in
        let after = ap tables_of (sym same) ∙ read in
        (
          rw (after ∙ kept) (tables-update_state i r w w1 upd),
          fresh,
          rw after (sym row ∙ is_some),
          same_out,
        )

    -- What an answered transition has found and done.
    pub record Answered (i : ℤ) (target : WorkItemState) (before after : Tables) (out : WorkItemOut)
        : Type 0 where
      pub item : WorkItem
      pub now : Datetime
      pub result : TransitionResult
      pub on_file : find_row i before.work_items ≡ some item
      pub accepted :
          transition (seen_by_states item) target (optional_rca (find_rca i before.rcas)) now
          ≡ ok result
      pub others_kept : OthersKept i target result.end_time result.mttr_seconds before after
      pub written : All (HasState i target) after.work_items
      pub answer : out.state ≡ target

    -- With the documented behaviour of PostgreSQL and tenacity: where `transition_incident` answers,
    -- the item was on file, the state machine had accepted the move of that row with the RCA on
    -- file, every row of the item is now in the target state, the other items and the RCAs are as
    -- before, and the answer has the target state.
    pub transition_incident-ok :
        (i : ℤ) (target : WorkItemState) (out : WorkItemOut) (w v : World s)
        → transition_incident s target i w ≡ (ok out, v)
        → Answered i target (tables_of w) (tables_of v) out
    unfolding transition_incident work_item_out
    transition_incident-ok i target out w v h =
        let (wi, w1, find, h1) = >>=-eq-ok (find_item s i) _ w h in
        let (rca, w2, get, h2) = >>=-eq-ok (on_db (get_rca s.sql i)) _ w1 h1 in
        let (now, w3, clock, h3) = >>=-eq-ok clock_now _ w2 h2 in
        let (result, w4, lifted, h4) =
          >>=-eq-ok
            (lift (with_http_errors (transition (seen_by_states wi) target (optional_rca rca) now)))
            (store_transition s wi i) w3 h3 in
        let (row, read) = find_item-ok i wi w w1 find in
        let (row2, read2) = tables-read_rca i w1 w2 rca get in
        let (same, w34) = lift-eq _ result w3 w4 lifted in
        let accepted = with_http_errors-ok _ result same in
        let before = still w w1 w2 w3 w4 w34 (clock_now-db s now w2 w3 clock).1 read2 read in
        let (upd, fresh, found, answer) = store_transition-ok wi i result out w4 v h4 in
        let (edge, new) = transition-⟶ (seen_by_states wi) target (optional_rca rca) now accepted in
        let rca_same = row2 ∙ ap (λ (t : Tables). find_rca i t.rcas) read in
        let (has_state, mine) = find_row-All (HasState i result.new_state) i _ fresh upd.1 found in
        record {
          item = wi;
          now = now;
          result = result;
          on_file = row;
          accepted = rw (sym rca_same) accepted;
          others_kept = rw before at upd.0;
          written = rw new at upd.1;
          answer = ap (λ (x : WorkItemOut). x.state) (sym answer) ∙ has_state mine ∙ new;
        }

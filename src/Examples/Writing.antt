-- ===== src/Examples/Writing.antt =====
-- Writes to the servers in memory: the live feed, the signal count and the RCA of an item.
use ims_prakash.Base.{
  ℕ, ◌≡◌, refl, sym, ◌∙◌, inl, inr, not, List, [], ◌∷◌, map, none, some, Bool-cases,
}
use ims_prakash.Base.Int.{ℤ, pos}
use ims_prakash.Text.{Text, codes, text_eq, startswith}
use ims_prakash.Text.Decimal.{str_int}
use ims_prakash.Datetime.{earlier}
use ims_prakash.Enums
use ims_prakash.Enums.{resolved, closed}
use ims_prakash.Errors.{Result, ok}
use ims_prakash.Effects.{◌>>=◌, Outcome}
use ims_prakash.Models.{Rca, RcaOut}
use ims_prakash.States.{transition}
use ims_prakash.States.Gate.{closing}
use ims_prakash.Services.{NewRca, NewWorkItem}
use ims_prakash.Services.Laws.{int_eq, keep, RedisLaws, find_row, find_rca}
use ims_prakash.World.{World, on_db}
use ims_prakash.Storage.Postgres.{session_scope}
use ims_prakash.Storage.PostgresRepo.{
  create_work_item, get_work_item, increment_signal_count, upsert_rca,
}
use ims_prakash.Storage.PostgresRepo.Creation.{
  new_values, AddedSome, AddedLast, create_work_item_lem,
}
use ims_prakash.Storage.PostgresRepo.SignalCount.{CountedWithin, increment_signal_count_lem}
use ims_prakash.Storage.RedisCache.{feed_member, remove_from_live_feed}
use ims_prakash.Storage.RedisCache.Removal.{remove_from_live_feed_lem}
use ims_prakash.IncidentsApi.{submit_rca, new_rca, find_item, optional_rca, seen_by_states}
use ims_prakash.IncidentsApi.SubmitThenClose.{submit_rca-closes}
use ims_prakash.Examples.Memory.{stored_time, memory, attempts, at, Shelf, without}
use ims_prakash.Examples.Memory.Laws.{table_laws, attempt_laws}
use ims_prakash.Examples.Fixtures.{item, holding}
use ims_prakash.Examples.Stores.{by_length, form, trimmed, form_accepted}

abbrev names : List (Text × ℕ) → List Text
names = map (λ (e : Text × ℕ). e.0)

names-without :
    (m : Text) (l : List (Text × ℕ)) → names (without m l) ≡ keep (λ x. not (text_eq x m)) (names l)
unfolding without keep
names-without m [] = refl
names-without m ((x, n) ∷ rest) = elim (Bool-cases (text_eq x m)) [
  | inl same ↦ rw same (names-without m rest)
  | inr differ ↦ rw (differ, names-without m rest)
]

ok_inj : (x y : List Text) → ok x ≡ ok y → x ≡ y
ok_inj x y h = cc

abbrev shelf_laws : RedisLaws memory.redis
shelf_laws = record {
  members = λ k t. names t.feed;
  zrange_all_members = λ k t u ms h. (sym (ok_inj _ _ (λ j. (h j).0)), λ j. names (sym h j).1.feed);
  zrem_members = λ k m t u h. (λ j. names (sym h j).1.feed) ∙ names-without m t.feed;
}

abbrev feed : Shelf
feed = record {
  keys = [];
  feed = (codes "1|db", 4) ∷ (codes "12|api", 3) ∷ (codes "1|mcp", 2) ∷ [];
  hash = [];
}

abbrev removal_run : Result (Unit {0}) × Shelf
removal_run = remove_from_live_feed memory.redis (pos 1) feed

removal_run_ok : removal_run ≡ (ok tt, removal_run.1)
unfolding remove_from_live_feed ◌>>=◌ startswith str_int
removal_run_ok = refl

abbrev entries : List (ℤ × Text)
entries = (pos 1, codes "db") ∷ (pos 12, codes "api") ∷ (pos 1, codes "mcp") ∷ []

feed_entries : names feed.feed ≡ map (λ (e : ℤ × Text). feed_member e.0 e.1) entries
unfolding feed_member str_int
feed_entries = refl

remove_from_live_feed_lem_example :
    names removal_run.1.feed
    ≡ map (λ (e : ℤ × Text). feed_member e.0 e.1) (keep (λ e. not (int_eq e.0 (pos 1))) entries)
remove_from_live_feed_lem_example =
    remove_from_live_feed_lem memory.redis shelf_laws (pos 1) feed removal_run.1 entries
      feed_entries removal_run_ok

increment_signal_count_lem_example :
    Outcome
      (λ e. CountedWithin (pos 7) (holding resolved).db 0 5 e)
      (λ _ e. CountedWithin (pos 7) (holding resolved).db 1 5 e)
      (increment_signal_count memory.sql (pos 7) (holding resolved).db)
increment_signal_count_lem_example =
    increment_signal_count_lem (pos 7) memory.sql table_laws attempt_laws (holding resolved).db

abbrev values : NewRca
values = new_rca (pos 7) (trimmed 5)

abbrev submission : Result RcaOut × World memory
submission = submit_rca memory (trimmed 5) (pos 7) (holding resolved)

abbrev submitted : Rca
submitted = record {
  id = pos 1;
  work_item_id = pos 7;
  root_cause_category = codes "CONFIG";
  fix_applied = codes "restart";
  prevention = codes "limits";
  rca_start_time = at 3;
  rca_end_time = at 5;
  submitted_at = at 6;
}

submission_ok : submission ≡ (ok submitted, submission.1)
unfolding submit_rca ◌>>=◌ on_db find_item get_work_item session_scope find_row earlier upsert_rca
    attempts find_rca new_rca stored_time
submission_ok = refl

found_before : find_row (pos 7) (holding resolved).db.work_items ≡ some (item resolved)
unfolding find_row
found_before = refl

submit_rca-closes_example :
    (find_row (pos 7) submission.1.db.work_items ≡ some (item resolved))
    × (transition
          (seen_by_states (item resolved))
          closed
          (optional_rca (find_rca (pos 7) submission.1.db.rcas))
          (at 20)
        ≡ ok (closing (seen_by_states (item resolved)) (at 20)))
submit_rca-closes_example =
    submit_rca-closes memory table_laws attempt_laws (trimmed 5) (pos 7) submitted
      (holding resolved) submission.1 submission_ok by_length (form 5) (at 20) (item resolved)
      form_accepted refl found_before refl

abbrev created_values : NewWorkItem
created_values =
    new_values (codes "db-1") Enums.ComponentType.rdbms Enums.Severity.error (at 3) none

create_work_item_lem_example :
    Outcome
      (λ e. AddedSome created_values (holding resolved).db e)
      (λ i e. AddedLast created_values (holding resolved).db i e)
      (create_work_item memory.sql
        (codes "db-1")
        Enums.ComponentType.rdbms
        Enums.Severity.error
        (at 3)
        none
        (holding resolved).db)
create_work_item_lem_example =
    create_work_item_lem (codes "db-1") Enums.ComponentType.rdbms Enums.Severity.error (at 3) none
      memory.sql table_laws attempt_laws (holding resolved).db

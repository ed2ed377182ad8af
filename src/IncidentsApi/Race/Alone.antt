-- ===== src/IncidentsApi/Race/Alone.antt =====
-- `transition_incident` of backend/app/incidents_api.py as one run, and as a path of its moves in
-- IncidentsApi/Race.
use ims_prakash.Base.{
  some-injective, ℕ, ◌≡◌, refl, sym, ap, ◌∙◌, inl, inr, true, Option, some, List, [], ◌∷◌, map,
  Bool-cases, if◌then◌else◌,
}
use ims_prakash.Base.Int.{ℤ}
use ims_prakash.Datetime.{Datetime, utc}
use ims_prakash.Enums.{WorkItemState, closed, state_eq}
use ims_prakash.Errors.{ok}
use ims_prakash.Effects.{pure, lift, >>=-eq-ok, Outcome}
use ims_prakash.Models.{WorkItem, WorkItemOut, Rca}
use ims_prakash.States.{TransitionResult, transition}
use ims_prakash.Services.{Services, Sql, Clock, Assignment}
use ims_prakash.Services.Laws.{
  SqlLaws, RetryLaws, Tables, find_row, find_rca, update_row, assign_all, int_eq,
}
use ims_prakash.World.{World, on_db, on_db-eq, clock_now}
use ims_prakash.Storage.PostgresRepo.{state_values, update_state, get_work_item, get_rca}
use ims_prakash.Storage.PostgresRepo.Writes.{transact_rule}
use ims_prakash.Storage.PostgresRepo.UpdateState.{assign_all-id}
use ims_prakash.IncidentsApi.{
  transition_incident, store_transition, find_item, clean_up, or_assert, seen_by_states,
  optional_rca, with_http_errors,
}
use ims_prakash.IncidentsApi.Accepted.{
  tables_of, find_item-ok, tables-read_item, tables-read_rca, lift-eq, clock_now-db, or_assert-eq,
  clean_step-db, with_http_errors-ok,
}
use ims_prakash.IncidentsApi.Race.{
  Incident, Phase, wants, has_item, storing, stored, answered, with_result, read_item, accept,
  store, store_again, answer, Move, System, Reach,
}
use mathlib.Core.Path.{subst}
use ims_prakash.Interleaving.{advance}

now_inj : (a b : Datetime) → ok a ≡ ok b → a ≡ b
now_inj a b e = cc

find_row-update :
    (i : ℤ) (vs : List Assignment) (now : Datetime) (rows : List WorkItem) (item : WorkItem)
    → find_row i rows ≡ some item
    → find_row i (map (update_row i vs now) rows)
      ≡ some (record (assign_all vs item) { updated_at = now })
unfolding find_row
find_row-update i vs now [] item h = cc
find_row-update i vs now (r ∷ rows) item h = elim (Bool-cases (int_eq r.id i)) [
  | inl mine ↦
      let same = some-injective r item (rw mine at h) in
      let still_mine : int_eq (assign_all vs r).id i ≡ true = rw (assign_all-id vs r) mine in
      rw (mine, still_mine)
        (ap (λ (w : WorkItem). some (record (assign_all vs w) { updated_at = now })) same)
  | inr other ↦ rw (other, other) (find_row-update i vs now rows item (rw other at h))
]

-- The incident's row and its RCA in the tables.
abbrev pub Sees : ℤ → Tables → Incident → Type 0
Sees i t s = (find_row i t.work_items ≡ some s.item) × (find_rca i t.rcas ≡ s.rca)

-- A state that the requests can reach, with request `k` in this phase and the tables as they are.
abbrev pub At : ℤ → ℕ → System → Phase → Tables → Type 0
At i k x p t = (y : System) × Reach x y × (y.phase k ≡ p) × Sees i t y.shared

moves :
    (i : ℤ) (k : ℕ) (x y : System) (p q : Phase) (s : Incident) (t : Tables)
    → Reach x y
    → y.phase k ≡ p
    → Move y.shared p s q
    → Sees i t s
    → At i k x q t
moves i k x y p q s t r at mv sees =
    let (z, reached, arrived, same) = advance Move k r at mv in (z, reached, arrived, rw same sees)

module _ (q : Sql) (laws : SqlLaws q) (retry : RetryLaws q) (i : ℤ) (k : ℕ) (x : System)
    (r : TransitionResult) where
  open laws use {tables, view}

  abbrev values : List Assignment
  values = state_values r.new_state r.end_time r.mttr_seconds

  -- An attempt whose update was applied.
  applied :
      (p : Phase) (t : q.Session)
      → ((a b : Incident) (now : Datetime) → b ≡ with_result r now a → Move a (storing r) b p)
      → At i k x (storing r) (view t)
      → (q.update_work_item i values t).0 ≡ ok tt
      → At i k x p (view (q.update_work_item i values t).1)
  applied p t mv (y, reached, at, sees) ret =
      let (now, e) =
        laws.view-update_work_item i values t _ (λ j. (ret j, (q.update_work_item i values t).1)) in
      moves i k x y (storing r) p (with_result r now y.shared) _ reached at (mv y.shared _ now refl)
        (rw e (find_row-update i values now (view t).work_items y.shared.item sees.0, sees.1))

  -- Every attempt of `update_state` is a move.
  update_state-At :
      (d : q.Db)
      → At i k x (storing r) (tables d)
      → Outcome
          (λ e. At i k x (storing r) (tables e))
          (λ _ e. At i k x stored (tables e))
          (update_state q i r.new_state r.end_time r.mttr_seconds d)
  unfolding update_state
  update_state-At d h =
      transact_rule q laws retry (λ _. At i k x (storing r)) (At i k x (storing r))
        (λ _. At i k x stored) (q.update_work_item i values)
        (record {
          stays = laws.base-update_work_item i values;
          writes = λ m t a h ret. (
            applied stored t (λ a b now e. store now e) h ret,
            applied (storing r) t (λ a b now e. store_again now e) h ret,
          );
          weaken = λ m t h. h;
          fails = λ m t h. h;
        })
        d h

module _ (s : Services) (laws : SqlLaws s.sql) (retry : RetryLaws s.sql)
    (utc_clock : (t : Clock.Time s.clock) → (Clock.now s.clock t).0.tzinfo ≡ some utc) (i : ℤ)
    (k : ℕ) (x : System) where
  abbrev AtWorld : Phase → World s → Type 0
  AtWorld p w = At i k x p (tables_of s laws w)

  store_transition-At :
      (wi : WorkItem) (r : TransitionResult) (out : WorkItemOut) (w v : World s)
      → store_transition s wi i r w ≡ (ok out, v)
      → AtWorld (storing r) w
      → AtWorld answered v
  unfolding store_transition
  store_transition-At wi r out w v h at =
      let (u1, w1, upd, h1) =
        >>=-eq-ok (on_db (update_state s.sql i r.new_state r.end_time r.mttr_seconds)) _ w h in
      let (u2, w2, clean, h2) =
        >>=-eq-ok (if state_eq r.new_state closed then clean_up s wi i else pure tt) _ w1 h1 in
      let (o, w3, get, h3) = >>=-eq-ok (on_db (get_work_item s.sql i)) (or_assert s) w2 h2 in
      let (fresh, is_some, same_out, same) = or_assert-eq s o out w3 v h3 in
      let kept = ap laws.tables (clean_step-db s _ wi i w1 w2 u2 clean) in
      let after =
        ap (tables_of s laws) (sym same) ∙ (tables-read_item s laws i w2 w3 o get).1 ∙ kept in
      let at_stored : AtWorld stored w1 =
        rw (on_db-eq (update_state s.sql i r.new_state r.end_time r.mttr_seconds) w w1 (ok tt) upd)
          at (update_state-At s.sql laws retry i k x r w.db at) in
      let (y, reached, arrived, sees) = at_stored in
      rw after
        (moves i k x y stored answered y.shared (tables_of s laws w1) reached arrived answer sees)

  -- With the documented behaviour of PostgreSQL and tenacity and a clock in UTC: where one run of
  -- `transition_incident` answers, and before it the tables had the item and the RCA of a state that
  -- concurrent requests can reach, in which request `k` waits to begin that transition, the requests
  -- can reach a state in which request `k` has answered, with the item and the RCA that the tables
  -- have after the run.
  pub transition_incident-At :
      (target : WorkItemState) (out : WorkItemOut) (w v : World s)
      → transition_incident s target i w ≡ (ok out, v)
      → At i k x (wants target) (tables_of s laws w)
      → At i k x answered (tables_of s laws v)
  unfolding transition_incident
  transition_incident-At target out w v h (y, reached, at, sees) =
      let (wi, w1, find, h1) = >>=-eq-ok (find_item s i) _ w h in
      let (rca, w2, get, h2) = >>=-eq-ok (on_db (get_rca s.sql i)) _ w1 h1 in
      let (now, w3, clock, h3) = >>=-eq-ok clock_now _ w2 h2 in
      let (result, w4, lifted, h4) =
        >>=-eq-ok
          (lift (with_http_errors (transition (seen_by_states wi) target (optional_rca rca) now)))
          (store_transition s wi i) w3 h3 in
      let (row, read) = find_item-ok s laws i wi w w1 find in
      let (row2, read2) = tables-read_rca s laws i w1 w2 rca get in
      let (same, w34) = lift-eq _ result w3 w4 lifted in
      let (is_now, clock_db) = clock_now-db s now w2 w3 clock in
      let kept = ap (tables_of s laws) (sym w34) ∙ ap laws.tables (sym clock_db) ∙ read2 ∙ read in
      let item_same : wi ≡ y.shared.item = some-injective wi y.shared.item (sym row ∙ sees.0) in
      let aware =
        subst (λ (d : Datetime). d.tzinfo ≡ some utc) (now_inj _ now is_now) (utc_clock w2.time) in
      let accepted = with_http_errors-ok _ result same in
      let (y1, reached1, at1, sees1) =
        moves i k x y (wants target) (has_item target wi) y.shared (tables_of s laws w) reached at
          (read_item item_same) sees in
      let rca_same : rca ≡ y1.shared.rca =
        row2 ∙ ap (λ (t : Tables). find_rca i t.rcas) read ∙ sees1.1 in
      let accepts =
        subst
          (λ (o : Option Rca).
            transition (seen_by_states wi) target (optional_rca o) now ≡ ok result)
          rca_same accepted in
      let at_storing =
        moves i k x y1 (has_item target wi) (storing result) y1.shared (tables_of s laws w) reached1
          at1 (accept now aware accepts) sees1 in
      store_transition-At wi result out w4 v h4
        (subst (λ (t : Tables). At i k x (storing result) t) (sym kept) at_storing)

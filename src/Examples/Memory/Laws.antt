-- ===== src/Examples/Memory/Laws.antt =====
-- Proofs that the servers kept in memory have the documented behaviour.
use ims_prakash.Base.{
  ◌++◌, ℕ, zero, suc, ◌≡◌, ◌≢◌, refl, sym, ap, ◌∙◌, arith, some, List, [], ◌∷◌, map, length,
}
use ims_prakash.Base.Int.{ℤ, pos, negsuc, ◌-ℤ◌}
use ims_prakash.Datetime.{Datetime, utc, instant, zone_of, IsStored}
use ims_prakash.Errors.{Error, Result, ok, err, operational_error, ◌>>=◌, >>=-eq-ok}
use ims_prakash.Effects.{Action}
use ims_prakash.Models.{WorkItem, Rca}
use ims_prakash.Services.{
  Sql, NewWorkItem, NewRca, RcaAssignment, set_root_cause_category, set_fix_applied, set_prevention,
  set_rca_start_time, set_rca_end_time,
}
use ims_prakash.Services.Laws.{
  SqlLaws, RetryLaws, Tables, HasValues, IsAssigned, IsRowOf, replace_rca,
}
use ims_prakash.Examples.Memory.{
  Session, add_item, add_rca, again, assigned_row, at, attempts, new_rca_row, new_row, put_rca,
  row_of, stored_instant, stored_time, table_sql, write_with,
}

pub inj : {A : Type 0} (x y : A) → ok x ≡ ok y → x ≡ y
inj x y h = cc

stored_instant-eq :
    (z : ℤ) (d : Datetime)
    → stored_instant z ≡ ok d
    → (d.tzinfo ≡ some utc) × (instant d.wall utc ≡ z)
unfolding stored_instant instant ◌-ℤ◌
stored_instant-eq (pos n) d h = let same = inj (at n) d h in rw (← same) (refl, ground arith)
stored_instant-eq (negsuc n) d h = cc

stored_time-IsStored : (v d : Datetime) → stored_time v ≡ ok d → IsStored utc v d
unfolding stored_time
stored_time-IsStored v d h = stored_instant-eq (instant v.wall (zone_of utc v.tzinfo)) d h

pub no_error : {P : Type 0} (a : Unit {0}) (e : Error) → ok a ≡ err e → P
no_error a e h = cc

pub write_with-committed :
    {A B : Type 0} (result : A → B) (f : A → Tables → Tables) (o : Result A) (t : Session)
    → (write_with result f o t).1.committed ≡ t.committed
write_with-committed result f (ok a) t = refl
write_with-committed result f (err e) t = refl

write_with-ok :
    {A B : Type 0} (result : A → B) (f : A → Tables → Tables) (o : Result A) (t u : Session) (b : B)
    → write_with result f o t ≡ (ok b, u)
    → (a : A) × (o ≡ ok a) × (result a ≡ b) × (u.seen ≡ f a t.seen)
write_with-ok result f (ok a) t u b h =
    (a, refl, inj (result a) b (λ j. (h j).0), λ j. (sym h j).1.seen)
write_with-ok result f (err e) t u b h = cc

pub created :
    (n : NewWorkItem) (t u : Session) (i : ℤ)
    → Sql.insert_work_item table_sql n t ≡ (ok i, u)
    → (row : WorkItem) × (row.id ≡ i)
      × IsRowOf n row
      × (u.seen ≡ record t.seen { work_items = t.seen.work_items ++ row ∷ [] })
created n t u i h =
    let (d, stored, id, seen) =
      write_with-ok (λ d. pos (suc (length t.seen.work_items))) (add_item n)
        (stored_time n.start_time) t u i h in
    (
      new_row n d t.seen.work_items,
      id,
      record {
        component = refl;
        kind = refl;
        severity = refl;
        state = refl;
        local = utc;
        starts = stored_time-IsStored n.start_time d stored;
        summary = refl;
      },
      seen,
    )

pub inserted :
    (n : NewRca) (t u : Session) (r : Rca)
    → Sql.insert_rca table_sql n t ≡ (ok r, u)
    → HasValues n r × (u.seen ≡ record t.seen { rcas = t.seen.rcas ++ r ∷ [] })
inserted n t u r h =
    let (a, made, same, seen) = write_with-ok (λ r. r) add_rca (new_rca_row n) t u r h in
    let (s, es, h1) =
      >>=-eq-ok (stored_time n.rca_start_time)
        (λ s. do e ← stored_time n.rca_end_time; ok (row_of n s e)) a made in
    let (e, ee, h2) = >>=-eq-ok (stored_time n.rca_end_time) (λ e. ok (row_of n s e)) a h1 in
    let row : row_of n s e ≡ r = inj (row_of n s e) a h2 ∙ same in
    (
      rw (← row) (record {
        item = refl;
        category = refl;
        fix = refl;
        prevention = refl;
        local = utc;
        starts = stored_time-IsStored n.rca_start_time s es;
        ends = stored_time-IsStored n.rca_end_time e ee;
      }),
      seen ∙ ap (λ x. add_rca x t.seen) same,
    )

assigned_row-IsAssigned :
    (values : List RcaAssignment) (x r : Rca)
    → assigned_row values x ≡ ok r
    → IsAssigned utc values x r
assigned_row-IsAssigned [] x r h = inj x r h
assigned_row-IsAssigned (set_root_cause_category v ∷ vs) x r h = assigned_row-IsAssigned vs _ r h
assigned_row-IsAssigned (set_fix_applied v ∷ vs) x r h = assigned_row-IsAssigned vs _ r h
assigned_row-IsAssigned (set_prevention v ∷ vs) x r h = assigned_row-IsAssigned vs _ r h
assigned_row-IsAssigned (set_rca_start_time v ∷ vs) x r h =
    let (d, e, rest) =
      >>=-eq-ok (stored_time v) (λ d. assigned_row vs (record x { rca_start_time = d })) r h in
    (d, stored_time-IsStored v d e, assigned_row-IsAssigned vs _ r rest)
assigned_row-IsAssigned (set_rca_end_time v ∷ vs) x r h =
    let (d, e, rest) =
      >>=-eq-ok (stored_time v) (λ d. assigned_row vs (record x { rca_end_time = d })) r h in
    (d, stored_time-IsStored v d e, assigned_row-IsAssigned vs _ r rest)

pub replaced :
    (row : Rca) (values : List RcaAssignment) (t u : Session) (r : Rca)
    → Sql.update_rca table_sql row values t ≡ (ok r, u)
    → (local : ℤ) × IsAssigned local values row r
      × (u.seen ≡ record t.seen { rcas = map (replace_rca row r) t.seen.rcas })
replaced row values t u r h =
    let (a, set, same, seen) =
      write_with-ok (λ r. r) (put_rca row) (assigned_row values row) t u r h in
    (
      utc,
      assigned_row-IsAssigned values row r (rw same at set),
      seen ∙ ap (λ x. put_rca row x t.seen) same,
    )

abbrev pub table_laws : SqlLaws table_sql
table_laws = record {
  tables = λ d. d;
  view = λ t. t.seen;
  base = λ t. t.committed;
  view-begin = λ d. refl;
  base-begin = λ d. refl;
  tables-close = λ t. refl;
  base-rollback = λ t. refl;
  commit_ok = λ t u h j. (sym h j).1.committed;
  commit_err = λ t u e h. no_error tt e (λ j. (h j).0);
  base-update_work_item = λ i values t. refl;
  view-update_work_item = λ i values t u h. (at 9, λ j. (sym h j).1.seen);
  base-insert_work_item = λ n t. write_with-committed _ _ (stored_time n.start_time) t;
  insert_work_item_row = created;
  base-insert_link = λ n t. refl;
  view-insert_link = λ n t. refl;
  base-upsert_metric = λ b c v n t. refl;
  view-upsert_metric = λ b c v n t. refl;
  base-select_work_item = λ i t. refl;
  select_work_item_row = λ i t u o h. (inj _ _ (λ j. (sym h j).0), λ j. (sym h j).1.seen);
  view-select_work_item = λ i t. refl;
  base-select_work_items = λ state severity limit t. refl;
  view-select_work_items = λ state severity limit t. refl;
  tables-select_one = λ d. refl;
  base-select_rca = λ i t. refl;
  view-select_rca = λ i t. refl;
  base-insert_rca = λ n t. write_with-committed _ _ (new_rca_row n) t;
  insert_rca_row = inserted;
  base-update_rca = λ row values t. write_with-committed _ _ (assigned_row values row) t;
  update_rca_row = λ row values t u r found h. replaced row values t u r h;
  select_rca_row = λ i t u o h. inj _ _ (λ j. (sym h j).0);
}

module _ (A : Type 0) (body : Action Tables A) (d e : Tables) where
  attempts_ok : (n : ℕ) (a : A) → body d ≡ (ok a, e) → attempts (suc n) body d ≡ (ok a, e)
  unfolding attempts again
  attempts_ok zero a h = h
  attempts_ok (suc n) a h = rw h

  attempts_other :
      (n : ℕ) (x : Error)
      → x ≢ operational_error
      → body d ≡ (err x, e)
      → attempts (suc n) body d ≡ (err x, e)
  unfolding attempts again
  attempts_other zero x ne h = h
  attempts_other (suc n) operational_error ne h = absurd (ne refl)
  attempts_other (suc n) x ne h = rw h

  attempts_again :
      (n : ℕ)
      → body d ≡ (err operational_error, e)
      → attempts (suc (suc n)) body d ≡ attempts (suc n) body e
  unfolding attempts again
  attempts_again n h = rw h

pub attempt_laws : RetryLaws table_sql
unfolding attempts
attempt_laws = record {
  retrying_ok = λ A n body d e a h. attempts_ok A body d e n a h;
  retrying_other = λ A n body d e x ne h. attempts_other A body d e n x ne h;
  retrying_again = λ A n body d e h. attempts_again A body d e n h;
  retrying_last = λ A body d e h. h;
}

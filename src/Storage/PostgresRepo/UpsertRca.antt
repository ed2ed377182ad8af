-- ===== src/Storage/PostgresRepo/UpsertRca.antt =====
-- `upsert_rca` of backend/app/storage/postgres_repo.py, with its repeated attempts: a second attempt
-- finds the row that the first may have left.
use ims_prakash.Base.{
  some-injective, ◌≡◌, refl, sym, ap, ◌∙◌, inl, inr, true, false, not, List, [], ◌∷◌, ◌++◌, map,
  Option, none, some, Bool-cases, arith, ==_refl,
}
use ims_prakash.Base.Int.{ℤ, pos, negsuc, pos_part, neg_part}
use ims_prakash.Errors.{Result, ok}
use ims_prakash.Effects.{Action, ◌>>=◌, Outcome-cases, >>=-eq-ok, Outcome}
use ims_prakash.Models.{Rca}
use ims_prakash.Services.{Sql, NewRca}
use ims_prakash.Services.Laws.{
  SqlLaws, RetryLaws, Tables, IsAssigned, HasValues, replace_rca, int_eq, keep, find_rca,
}
use ims_prakash.Storage.PostgresRepo.{upsert_rca, write_rca, rca_values}
use ims_prakash.Storage.PostgresRepo.Writes.{transact_rule}

pub int_eq→≡ : (a b : ℤ) → int_eq a b ≡ true → a ≡ b
int_eq→≡ (pos m) (pos n) h = ground arith
int_eq→≡ (negsuc m) (negsuc n) h = ground arith
int_eq→≡ (pos m) (negsuc n) h = ground arith
int_eq→≡ (negsuc m) (pos n) h = ground arith

pub int_eq_refl : (a : ℤ) → int_eq a a ≡ true
int_eq_refl a = rw (==_refl (pos_part a), ==_refl (neg_part a)) refl

-- An RCA that is found is of the item.
pub find_rca-item :
    (i : ℤ) (rows : List Rca) (r : Rca) → find_rca i rows ≡ some r → r.work_item_id ≡ i
unfolding find_rca
find_rca-item i [] r e = cc
find_rca-item i (x ∷ rows) r e = elim (Bool-cases (int_eq x.work_item_id i)) [
  | inl mine ↦
      let same = some-injective x r (rw mine at e) in
      ap (λ (y : Rca). y.work_item_id) (sym same) ∙ int_eq→≡ x.work_item_id i mine
  | inr other ↦ find_rca-item i rows r (rw other at e)
]

-- The RCAs of the other items.
pub other_rcas : ℤ → List Rca → List Rca
other_rcas i = keep (λ r. not (int_eq r.work_item_id i))

-- The RCA of another item is found among the RCAs of the others.
pub find_rca-other :
    (i j : ℤ)
    → int_eq j i ≡ false
    → (rows : List Rca) → find_rca j rows ≡ find_rca j (other_rcas i rows)
unfolding find_rca other_rcas keep
find_rca-other i j differ [] = refl
find_rca-other i j differ (r ∷ rows) = elim (Bool-cases (int_eq r.work_item_id j)) [
  | inl mine ↦
      let same = int_eq→≡ r.work_item_id j mine in
      let not_i : int_eq r.work_item_id i ≡ false = rw same differ in rw (mine, not_i, mine)
  | inr other ↦ elim (Bool-cases (int_eq r.work_item_id i)) [
    | inl is_i ↦ rw (other, is_i) (find_rca-other i j differ rows)
    | inr no_ ↦ rw (other, no_, other) (find_rca-other i j differ rows)
  ]
]

module _ (i : ℤ) (r : Rca) (mine : r.work_item_id ≡ i) where
  is_mine : int_eq r.work_item_id i ≡ true
  is_mine = rw mine (int_eq_refl i)

  find_rca-append :
      (rows : List Rca) → find_rca i rows ≡ none → find_rca i (rows ++ r ∷ []) ≡ some r
  unfolding find_rca
  find_rca-append [] h = rw is_mine
  find_rca-append (x ∷ rows) h = elim (Bool-cases (int_eq x.work_item_id i)) [
    | inl yes_ ↦ cc (rw yes_ at h)
    | inr no_ ↦ rw no_ (find_rca-append rows (rw no_ at h))
  ]

  other_rcas-append : (rows : List Rca) → other_rcas i (rows ++ r ∷ []) ≡ other_rcas i rows
  unfolding other_rcas keep
  other_rcas-append [] = rw is_mine
  other_rcas-append (x ∷ rows) = rw (other_rcas-append rows)

  module _ (row : Rca) (row_mine : row.work_item_id ≡ i) where
    find_rca-replace :
        (rows : List Rca) (old : Rca)
        → find_rca i rows ≡ some old
        → find_rca i (map (replace_rca row r) rows) ≡ some r
    unfolding find_rca
    find_rca-replace [] old h = cc
    find_rca-replace (x ∷ rows) old h = elim (Bool-cases (int_eq x.work_item_id i)) [
      | inl yes_ ↦ rw (row_mine, yes_, is_mine)
      | inr no_ ↦ rw (row_mine, no_, no_) (find_rca-replace rows old (rw no_ at h))
    ]

    other_rcas-replace :
        (rows : List Rca) → other_rcas i (map (replace_rca row r) rows) ≡ other_rcas i rows
    unfolding other_rcas keep
    other_rcas-replace [] = refl
    other_rcas-replace (x ∷ rows) = elim (Bool-cases (int_eq x.work_item_id i)) [
      | inl yes_ ↦ rw (row_mine, yes_, is_mine) (other_rcas-replace rows)
      | inr no_ ↦ rw (row_mine, no_, no_, other_rcas-replace rows)
    ]

-- The row that was found has the values once they are set.
assigned-HasValues :
    (n : NewRca) (row r : Rca) (local : ℤ)
    → row.work_item_id ≡ n.work_item_id
    → IsAssigned local (rca_values n) row r
    → HasValues n r
assigned-HasValues n row r local mine (s, starts, (e, ends, same)) = rw (← same) (record {
  item = mine;
  category = refl;
  fix = refl;
  prevention = refl;
  local = local;
  starts = starts;
  ends = ends;
})

module _ (n : NewRca) where
  -- The RCAs of the other items and the work items are as before.
  abbrev pub OtherRcasKept : Tables → Tables → Type 0
  OtherRcasKept before t =
      (other_rcas n.work_item_id t.rcas ≡ other_rcas n.work_item_id before.rcas)
      × (t.work_items ≡ before.work_items)

  -- `r` is the RCA of its item, with the values given, and the others are as before.
  abbrev pub Submitted : Tables → Rca → Tables → Type 0
  Submitted before r t =
      OtherRcasKept before t × (find_rca n.work_item_id t.rcas ≡ some r) × HasValues n r

  module _ (q : Sql) (laws : SqlLaws q) where
    open laws use {view, base}

    abbrev pub upsert_body : Action q.Session Rca
    upsert_body = q.select_rca n.work_item_id >>= write_rca q n

    write_rca-stays : (o : Option Rca) (t : q.Session) → base (write_rca q n o t).1 ≡ base t
    unfolding write_rca
    write_rca-stays none t = laws.base-insert_rca n t
    write_rca-stays (some row) t = laws.base-update_rca row (rca_values n) t

    pub upsert_body-stays : (t : q.Session) → base (upsert_body t).1 ≡ base t
    unfolding ◌>>=◌
    upsert_body-stays t =
        let read = laws.base-select_rca n.work_item_id t in
        elim (Outcome-cases (q.select_rca n.work_item_id t)) [
          | inl (o, u, e) ↦ rw e (write_rca-stays o u ∙ (rw e at read))
          | inr (x, u, e) ↦ rw e (rw e at read)
        ]

    write_rca-Submitted :
        (before : Tables) (o : Option Rca) (t u : q.Session) (r : Rca)
        → OtherRcasKept before (view t)
        → o ≡ find_rca n.work_item_id (view t).rcas
        → write_rca q n o t ≡ (ok r, u)
        → Submitted before r (view u)
    unfolding write_rca
    write_rca-Submitted before none t u r kept found h =
        let (values, after) = laws.insert_rca_row n t u r h in
        let rows = (view t).rcas in
        rw after (
          (other_rcas-append n.work_item_id r values.item rows ∙ kept.0, kept.1),
          find_rca-append n.work_item_id r values.item rows (sym found),
          values,
        )
    write_rca-Submitted before (some row) t u r kept found h =
        let rows = (view t).rcas in
        let mine = find_rca-item n.work_item_id rows row (sym found) in
        let (local, set, after) =
          laws.update_rca_row row (rca_values n) t u r (ap (λ k. find_rca k rows) mine ∙ sym found)
            h in
        let values = assigned-HasValues n row r local mine set in
        rw after (
          (other_rcas-replace n.work_item_id r values.item row mine rows ∙ kept.0, kept.1),
          find_rca-replace n.work_item_id r values.item row mine rows row (sym found),
          values,
        )

    pub upsert_body-Submitted :
        (before : Tables) (t : q.Session) (r : Rca)
        → OtherRcasKept before (view t)
        → (upsert_body t).0 ≡ ok r
        → Submitted before r (view (upsert_body t).1)
    upsert_body-Submitted before t r kept ret =
        let (o, u, read, written) =
          >>=-eq-ok (q.select_rca n.work_item_id) (write_rca q n) t
            (λ j. (ret j, (upsert_body t).1)) in
        let found = laws.select_rca_row n.work_item_id t u o read in
        let same : view u ≡ view t =
          ap (λ (x : Result (Option Rca) × q.Session). view x.1) (sym read)
          ∙ laws.view-select_rca n.work_item_id t in
        write_rca-Submitted before o u (upsert_body t).1 r (rw same kept) (rw same found) written

    module _ (retry : RetryLaws q) where
      -- With the documented behaviour of PostgreSQL and tenacity: when `upsert_rca` returns a row,
      -- that row is the RCA of its item, with the values given. Whether it returns or raises, and
      -- however many attempts it made, the RCAs of other items and the work items are as before.
      pub upsert_rca_lem :
          (d : q.Db)
          → let before = laws.tables d in
            Outcome
              (λ e. OtherRcasKept before (laws.tables e))
              (λ r e. Submitted before r (laws.tables e))
              (upsert_rca q n d)
      unfolding upsert_rca
      upsert_rca_lem d =
          transact_rule q laws retry (λ _. OtherRcasKept (laws.tables d))
            (OtherRcasKept (laws.tables d)) (Submitted (laws.tables d)) upsert_body
            (record {
              stays = upsert_body-stays;
              writes = λ m t r h ret.
                  let w = upsert_body-Submitted (laws.tables d) t r h ret in (w, w.0);
              weaken = λ m t h. h;
              fails = λ m t h. h;
            })
            d (refl, refl)

-- ===== src/World/Tables.antt =====
-- Conditions on the tables of the database, in the world, and what reads and retried writes keep of
-- them.
use ims_prakash.Base.{ℕ, ◌≡◌, inl, inr, Option}
use ims_prakash.Base.Int.{ℤ}
use ims_prakash.Enums.{WorkItemState, Severity}
use ims_prakash.Effects.{Action, Outcome-cases}
use ims_prakash.Effects.Ensures.{Keeps}
use ims_prakash.Services.{Services, Sql}
use ims_prakash.Services.Laws.{RetryLaws, SqlLaws, Tables}
use ims_prakash.Storage.PostgresRepo.Writes.{KeepsTables}
use ims_prakash.World.{World, on_db}
use ims_prakash.World.Frame.{Ensures-on_db, IsAside}
use ims_prakash.Storage.Postgres
use ims_prakash.Storage.PostgresRepo.{get_work_item, get_rca, list_work_items}
use ims_prakash.Storage.PostgresRepo.Reads.{
  tables-get_work_item, tables-get_rca, tables-list_work_items, tables-ping,
}

-- The condition is kept by the reads of the database and does not look at the other servers, the log
-- and the clock.
pub record IsReadable {s : Services} (P : World s → Type 0) : Type 0 where
  pub aside : IsAside {s = s} P
  pub item : (i : ℤ) → Keeps P (on_db (get_work_item s.sql i))
  pub items :
      (state : Option WorkItemState) (severity : Option Severity) (limit : ℕ)
      → Keeps P (on_db (list_work_items s.sql state severity limit))
  pub rca : (i : ℤ) → Keeps P (on_db (get_rca s.sql i))
  pub ping : Keeps P (on_db (Postgres.ping s.sql))

module _ (s : Services) (laws : SqlLaws s.sql) (Q : Tables → Type 0) where
  -- The tables of the database in the world have the property.
  abbrev pub InTables : World s → Type 0
  InTables w = Q (laws.tables w.db)

  -- A call that leaves the tables alone.
  read-Keeps :
      {A : Type 0} (m : Action (Sql.Db s.sql) A)
      → ((d : Sql.Db s.sql) → laws.tables (m d).1 ≡ laws.tables d)
      → Keeps InTables (on_db m)
  unfolding on_db
  read-Keeps m same = record {
    at = λ w h. elim (Outcome-cases (m w.db)) [
      | inl (a, d, e) ↦ rw e (rw (rw e at (same w.db)) h)
      | inr (x, d, e) ↦ rw e (rw (rw e at (same w.db)) h)
    ];
  }

  pub InTables-IsReadable : IsReadable {s = s} InTables
  InTables-IsReadable = record {
    aside = record {
      redis = λ w t h. h;
      mongo = λ w t h. h;
      time = λ w t h. h;
      effects = λ w t h. h;
    };
    item = λ i. read-Keeps (get_work_item s.sql i) (tables-get_work_item s.sql laws i);
    items = λ state severity limit.
        read-Keeps (list_work_items s.sql state severity limit)
          (tables-list_work_items s.sql laws state severity limit);
    rca = λ i. read-Keeps (get_rca s.sql i) (tables-get_rca s.sql laws i);
    ping = read-Keeps (Postgres.ping s.sql) (tables-ping s.sql laws);
  }

module _ (s : Services) (laws : SqlLaws s.sql) (retry : RetryLaws s.sql) (Q : Tables → Type 0) where
  -- A retried write.
  pub write-Keeps :
      {A : Type 0} (m : Action (Sql.Db s.sql) A)
      → KeepsTables s.sql laws retry Q m
      → Keeps (InTables s laws Q) (on_db m)
  write-Keeps m k =
      Ensures-on_db (λ d. Q (laws.tables d)) (λ d. Q (laws.tables d)) (λ a d. Q (laws.tables d)) m k

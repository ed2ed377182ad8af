-- ===== src/Storage/MongoStore.antt =====
-- backend/app/storage/mongo.py.
use ims_prakash.Base.{ℕ, List}
use ims_prakash.Base.Int.{ℤ}
use ims_prakash.Text.{Text, codes}
use ims_prakash.Effects.{Action, ◌>>◌}
use ims_prakash.Services.{Mongo, Document}

module _ (m : Mongo) where
  unfoldable pub ensure_indexes : Action m.Store (Unit {0})
  ensure_indexes = do
    m.create_index (codes "component_id")
    m.create_index (codes "timestamp")
    m.create_index (codes "work_item_id")

  unfoldable pub insert_signal : Document → Action m.Store Text
  insert_signal doc = m.insert_one doc

  unfoldable pub find_signals_by_work_item : ℤ → ℕ → Action m.Store (List (Text × Document))
  find_signals_by_work_item work_item_id limit = m.find_by_work_item work_item_id limit

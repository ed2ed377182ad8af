-- ===== src/Storage/Postgres.antt =====
-- `session_scope` and `ping` of backend/app/storage/postgres.py.
pub mod Atomic
use ims_prakash.Base.{ℕ, Bool, ◌==◌}
use ims_prakash.Errors.{Error, Result, ok, err}
use ims_prakash.Effects.{Action, pure, ◌>>=◌}
use ims_prakash.Base.Int.{ℤ}
use ims_prakash.Services.{Sql}

module _ (q : Sql) where
  module _ {A : Type 0} where
    -- `except Exception: await session.rollback(); raise`, and the session closes.
    roll_back : Error → q.Session → Result A × q.Db
    roll_back e t = (err e, q.close (q.rollback t))

    after_commit : A → Result (Unit {0}) × q.Session → Result A × q.Db
    after_commit a (ok done, t) = (ok a, q.close t)
    after_commit a (err e, t) = roll_back e t

    after_body : Result A × q.Session → Result A × q.Db
    after_body (ok a, t) = after_commit a (q.commit t)
    after_body (err e, t) = roll_back e t

    -- `async with session_scope() as s: body`.
    unfoldable pub session_scope : Action q.Session A → Action q.Db A
    unfolding roll_back after_commit after_body
    session_scope body d = after_body (body (q.begin d))

  unfoldable pub ping : Action q.Db Bool
  ping = do n ← q.select_one; pure (n == 1)

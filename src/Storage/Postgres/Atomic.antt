-- ===== src/Storage/Postgres/Atomic.antt =====
-- `session_scope` (backend/app/storage/postgres.py) is all or nothing.
use ims_prakash.Base.{◌≡◌, refl, ◌∙◌, inl, inr}
use ims_prakash.Errors.{Error, Result, ok, err}
use ims_prakash.Effects.{Action, Outcome-cases}
use ims_prakash.Services.{Sql}
use ims_prakash.Services.Laws.{SqlLaws, Tables}
use ims_prakash.Storage.Postgres.{session_scope}

module _ (q : Sql) (laws : SqlLaws q) where
  open laws use {tables, view, base}

  -- The statements of a body write to the session alone.
  abbrev pub StaysInSession : {A : Type 0} → Action q.Session A → Type 0
  StaysInSession body = (t : q.Session) → base (body t).1 ≡ base t

  -- The result `r` of a scope and the tables `after` it, for a body that runs on a new session.
  pub data Applied {A : Type 0} (run : Result A × q.Session) (before : Tables) (r : Result A)
      (after : Tables) : Type 0 where
    committed : (a : A) → run.0 ≡ ok a → r ≡ ok a → after ≡ view run.1 → Applied run before r after
    nothing_done : (e : Error) → r ≡ err e → after ≡ before → Applied run before r after
    commit_raised :
        (a : A) (e : Error)
        → run.0 ≡ ok a
        → r ≡ err e
        → after ≡ view run.1
        → Applied run before r after

  undone : (t : q.Session) (d : Tables) → base t ≡ d → tables (q.close (q.rollback t)) ≡ d
  undone t d h = laws.tables-close (q.rollback t) ∙ laws.base-rollback t ∙ h

  -- For a body that writes to its session alone: after `session_scope` either the body and the
  -- commit returned, and the database holds what the session held at the end of the body; or it
  -- raised, and the database holds what it held before, or, where the commit itself raised, that
  -- or all that the session held.
  pub session_scope_lem :
      {A : Type 0} (body : Action q.Session A) (d : q.Db)
      → StaysInSession body
      → Applied
          (body (q.begin d))
          (tables d)
          (session_scope q body d).0
          (tables (session_scope q body d).1)
  unfolding session_scope
  session_scope_lem body d stays =
      let start = stays (q.begin d) ∙ laws.base-begin d in
      elim (Outcome-cases (body (q.begin d))) [
        | inr (x, t, e) ↦
            let start' = rw e at start in rw e (nothing_done x refl (undone t (tables d) start'))
        | inl (a, t, e) ↦
            let start' = rw e at start in
            elim (Outcome-cases (q.commit t)) [
              | inl (done, u, c) ↦
                  rw (e, c) (committed a refl refl (laws.tables-close u ∙ laws.commit_ok t u c))
              | inr (x, u, c) ↦ elim (laws.commit_err t u x c) [
                | inl same ↦ rw (e, c) (nothing_done x refl (undone u (tables d) (same ∙ start')))
                | inr all ↦ rw (e, c) (commit_raised a x refl refl (undone u (view t) all))
              ]
            ]
      ]

  -- A scope that returned: the body returned the same, and its session was committed.
  pub session_scope-eq-ok :
      {A : Type 0} (body : Action q.Session A) (d e : q.Db) (a : A)
      → StaysInSession body
      → session_scope q body d ≡ (ok a, e)
      → ((body (q.begin d)).0 ≡ ok a) × (tables e ≡ view (body (q.begin d)).1)
  session_scope-eq-ok {A} body d e a stays h = go (rw h at (session_scope_lem body d stays)) refl
    where
      go :
          {r : Result A} {t : Tables}
          → Applied (body (q.begin d)) (tables d) r t
          → r ≡ ok a
          → ((body (q.begin d)).0 ≡ ok a) × (t ≡ view (body (q.begin d)).1)
      go (committed b x y z) k = (cc (x, y, k), z)
      go (nothing_done b y z) k = cc (y, k)
      go (commit_raised b x y z u) k = cc (z, k)

-- ===== src/Storage/PostgresRepo/Writes.antt =====
-- What the retried writes of backend/app/storage/postgres_repo.py leave in the tables. A commit that
-- raised may have been applied, so an attempt that is repeated may write twice.
use ims_prakash.Base.{ℕ, zero, suc, ◌≡◌, ◌≢◌, refl, ◌⊎◌, inl, inr}
use ims_prakash.Errors.{Error, Result, ok, err, operational_error}
use ims_prakash.Effects.{Action, Outcome, Outcome-cases}
use ims_prakash.Services.{Sql}
use ims_prakash.Services.Laws.{SqlLaws, RetryLaws, Tables}
use ims_prakash.Storage.Postgres.{session_scope}
use ims_prakash.Storage.Postgres.Atomic.{
  Applied, committed, nothing_done, commit_raised, session_scope_lem,
}
use ims_prakash.Storage.PostgresRepo.{transact}

is_operational : (e : Error) → (e ≡ operational_error) ⊎ (e ≢ operational_error)
is_operational operational_error = inl refl
is_operational e = inr (λ h. cc)

module _ (q : Sql) (retry : RetryLaws q) {A : Type 0} (Inv : ℕ → q.Db → Type 0)
    (Fail : q.Db → Type 0) (Post : A → q.Db → Type 0) (body : Action q.Db A)
    (step : (m : ℕ) (d : q.Db) → Inv (suc m) d → Outcome (Inv m) Post (body d))
    (fails : (m : ℕ) (d : q.Db) → Inv m d → Fail d) where
  -- `Inv m` is what holds with `m` attempts left.
  retrying_rule :
      (n : ℕ) (d : q.Db) → Inv (suc n) d → Outcome Fail Post (q.retrying A (suc n) body d)
  retrying_rule zero d h = elim (Outcome-cases (body d)) [
    | inl (a, e, eq) ↦ rw (retry.retrying_ok A zero body d e a eq) (rw eq at (step zero d h))
    | inr (x, e, eq) ↦
        let failed = fails zero e (rw eq at (step zero d h)) in
        elim (is_operational x) [
          | inl op ↦ rw (retry.retrying_last A body d e (rw op at eq)) failed
          | inr ne ↦ rw (retry.retrying_other A zero body d e x ne eq) failed
        ]
  ]
  retrying_rule (suc n) d h = elim (Outcome-cases (body d)) [
    | inl (a, e, eq) ↦ rw (retry.retrying_ok A (suc n) body d e a eq) (rw eq at (step (suc n) d h))
    | inr (x, e, eq) ↦
        let left = rw eq at (step (suc n) d h) in
        elim (is_operational x) [
          | inl op ↦ rw (retry.retrying_again A n body d e (rw op at eq)) (retrying_rule n e left)
          | inr ne ↦ rw (retry.retrying_other A (suc n) body d e x ne eq) (fails (suc n) e left)
        ]
  ]

module _ (q : Sql) (laws : SqlLaws q) (retry : RetryLaws q) where
  open laws use {tables, view, base}

  -- A body that, run with `suc m` attempts left on tables with `Inv (suc m)`, leads to tables with
  -- `Post` if it returned. Whether or not its commit was applied, `Inv m` holds after it.
  pub record Writes {A : Type 0} (Inv : ℕ → Tables → Type 0) (Fail : Tables → Type 0)
      (Post : A → Tables → Type 0) (body : Action q.Session A) : Type 0 where
    pub stays : (t : q.Session) → base (body t).1 ≡ base t
    pub writes :
        (m : ℕ) (t : q.Session) (a : A)
        → Inv (suc m) (view t)
        → (body t).0 ≡ ok a
        → Post a (view (body t).1) × Inv m (view (body t).1)
    pub weaken : (m : ℕ) (t : Tables) → Inv (suc m) t → Inv m t
    pub fails : (m : ℕ) (t : Tables) → Inv m t → Fail t

  -- A retried transaction that returned has `Post`; one that raised has `Fail`.
  pub transact_rule :
      {A : Type 0} (Inv : ℕ → Tables → Type 0) (Fail : Tables → Type 0) (Post : A → Tables → Type 0)
      (body : Action q.Session A)
      → Writes Inv Fail Post body
      → (d : q.Db) → Inv 5 (tables d)
      → Outcome (λ e. Fail (tables e)) (λ a e. Post a (tables e)) (transact q body d)
  unfolding transact
  transact_rule {A} Inv Fail Post body rules =
      retrying_rule q retry (λ m e. Inv m (tables e)) (λ e. Fail (tables e))
        (λ a e. Post a (tables e)) (session_scope q body) once (λ m d. rules.fails m (tables d)) 4
    where
      judge :
          (m : ℕ) (d : q.Db) (o : Result A × q.Db)
          → Inv (suc m) (tables d)
          → Applied q laws (body (q.begin d)) (tables d) o.0 (tables o.1)
          → Outcome (λ e. Inv m (tables e)) (λ a e. Post a (tables e)) o
      judge m d (ok b, e) h (committed a x y z) =
          let same : a ≡ b = cc in
          rw (z, ← same) (rules.writes m (q.begin d) a (rw laws.view-begin h) x).0
      judge m d (ok b, e) h (nothing_done a y z) = cc
      judge m d (ok b, e) h (commit_raised a x y z u) = cc
      judge m d (err b, e) h (committed a x y z) = cc
      judge m d (err b, e) h (nothing_done a y z) = rw z (rules.weaken m (tables d) h)
      judge m d (err b, e) h (commit_raised a x y z u) =
          rw u (rules.writes m (q.begin d) a (rw laws.view-begin h) y).1

      once :
          (m : ℕ) (d : q.Db)
          → Inv (suc m) (tables d)
          → Outcome (λ e. Inv m (tables e)) (λ a e. Post a (tables e)) (session_scope q body d)
      once m d h =
          judge m d (session_scope q body d) h (session_scope_lem q laws body d rules.stays)

  -- However the call ends, the tables have the property if they had it before.
  abbrev pub KeepsTables : (Tables → Type 0) → {A : Type 0} → Action q.Db A → Type 0
  KeepsTables Q m =
      (d : q.Db) → Q (tables d) → Outcome (λ e. Q (tables e)) (λ _ e. Q (tables e)) (m d)

  -- A transaction keeps what each run of its body that returns keeps of what the session sees.
  pub transact-KeepsTables :
      (Q : Tables → Type 0) {A : Type 0} (body : Action q.Session A)
      → ((t : q.Session) → base (body t).1 ≡ base t)
      → ((t : q.Session) (a : A) → Q (view t) → (body t).0 ≡ ok a → Q (view (body t).1))
      → KeepsTables Q (transact q body)
  transact-KeepsTables Q body stays writes =
      transact_rule (λ _ t. Q t) Q (λ _ t. Q t) body
        (record {
          stays = stays;
          writes = λ m t a h ret. let k = writes t a h ret in (k, k);
          weaken = λ m t h. h;
          fails = λ m t h. h;
        })

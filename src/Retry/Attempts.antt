-- ===== src/Retry/Attempts.antt =====
-- How often `retry_async` (backend/app/utils/retry.py) calls, and what it returns.
use ims_prakash.Base.{
  ℕ, zero, suc, ◌+◌, ◌*◌, ◌≤◌, ◌≡◌, refl, inl, inr, true, [], ◌∷◌, ◌++◌, arith, leb, Bool-cases,
}
use mathlib.Core.List.{append_assoc}
use ims_prakash.Errors.{Error, Result, ok, err}
use ims_prakash.Effects.{Action, Outcome-cases, ◌>>=◌, catch}
use ims_prakash.Services.{Services}
use ims_prakash.World.{World, Effect, emit, retry_attempt, retry_failed, slept}
use ims_prakash.Retry.{after_failure, retry_loop, retry_async}

last_round : (retries attempt : ℕ) → retries ≤ attempt + 1 → leb retries (attempt + 1) ≡ true
last_round retries attempt h = ground arith

-- The milliseconds that are slept after `n` attempts have failed and one more does.
abbrev delay_after : ℕ → ℕ
delay_after zero = 100
delay_after (suc n) = delay_after n * 2

module _ {s : Services} {A : Type 0} (fn : Action (World s) A) where
  -- The world when attempt `n + 1` is made: `n` calls have failed, one after the other, and after
  -- each the log has the attempt and the sleep, which doubles.
  pub data Failed : ℕ → World s → World s → Type 0 where
    none_yet : {w : World s} → Failed 0 w w
    once_more :
        {n : ℕ} {w v u : World s} {e : Error}
        → Failed n w v
        → fn v ≡ (err e, u)
        → Failed (suc n) w (record u {
          effects = (u.effects ++ retry_attempt (suc n) e ∷ []) ++ slept (delay_after n) ∷ [];
        })

  -- Fewer than three calls fail and the next returns, or the third fails too and its exception is
  -- raised.
  pub data Retried (w : World s) (o : Result A × World s) : Type 0 where
    returned :
        {n : ℕ} {v u : World s} {a : A}
        → n ≤ 2
        → Failed n w v
        → fn v ≡ (ok a, u)
        → o ≡ (ok a, u)
        → Retried w o
    gave_up :
        {v u : World s} {e : Error} → Failed 2 w v → fn v ≡ (err e, u) → o.0 ≡ err e → Retried w o

  third : (w v : World s) → Failed 2 w v → Retried w (retry_loop 2 2 3 400 2 fn v)
  unfolding retry_loop after_failure ◌>>=◌ catch emit
  third w v f = elim (Outcome-cases (fn v)) [
    | inl (a, u, e) ↦ rw e (returned (omega arith) f e refl)
    | inr (x, u, e) ↦ rw e (gave_up f e refl)
  ]

  second : (w v : World s) → Failed 1 w v → Retried w (retry_loop 3 1 3 200 2 fn v)
  unfolding retry_loop after_failure ◌>>=◌ catch emit
  second w v f = elim (Outcome-cases (fn v)) [
    | inl (a, u, e) ↦ rw e (returned (omega arith) f e refl)
    | inr (x, u, e) ↦ rw e (third w _ (once_more f e))
  ]

  -- `retry_async` ends after at most three calls, with a sleep of 100 and then of 200 milliseconds
  -- between them: with the result of the first call that returns, each before it having raised, or
  -- with the exception of the third.
  pub retry_async_result : (w : World s) → Retried w (retry_async fn w)
  unfolding retry_async retry_loop after_failure ◌>>=◌ catch emit
  retry_async_result w = elim (Outcome-cases (fn w)) [
    | inl (a, u, e) ↦ rw e (returned (omega arith) none_yet e refl)
    | inr (x, u, e) ↦ rw e (second w _ (once_more none_yet e))
  ]

module _ {s : Services} {A : Type 0} (fn : Action (World s) A) (μ : World s → ℕ) where
  -- `μ` does not see the log, and grows by at most one with a call.
  abbrev pub CountsCalls : Type 0
  CountsCalls =
      ((w : World s) (x : Effect) → μ (record w { effects = w.effects ++ x ∷ [] }) ≡ μ w)
      × ((w : World s) → μ (fn w).1 ≤ suc (μ w))

  loop_calls :
      CountsCalls
      → (f k attempt retries delay backoff : ℕ) (w : World s) → retries ≤ attempt + suc k
      → μ (retry_loop f attempt retries delay backoff fn w).1 ≤ μ w + suc k
  unfolding retry_loop after_failure ◌>>=◌ catch emit
  loop_calls (quiet, once) zero k attempt retries delay backoff w h = omega arith
  loop_calls (quiet, once) (suc f) zero attempt retries delay backoff w h =
      elim (Outcome-cases (fn w)) [
        | inl (a, v, e) ↦ rw e (omega (arith, rw e at (once w)))
        | inr (x, v, e) ↦
            let v' : World s = record v {
              effects = v.effects ++ retry_attempt (attempt + 1) x ∷ [];
            } in
            rw (e, last_round retries attempt h)
              (omega (
                arith,
                rw e at (once w),
                quiet v (retry_attempt (attempt + 1) x),
                quiet v' (retry_failed x),
              ))
      ]
  loop_calls (quiet, once) (suc f) (suc k) attempt retries delay backoff w h =
      elim (Outcome-cases (fn w)) [
        | inl (a, v, e) ↦ rw e (omega (arith, rw e at (once w)))
        | inr (x, v, e) ↦
            let one = rw e at (once w) in
            let v' : World s = record v {
              effects = v.effects ++ retry_attempt (attempt + 1) x ∷ [];
            } in
            elim (Bool-cases (leb retries (attempt + 1))) [
              | inl last ↦
                  rw (e, last)
                    (omega (
                      arith,
                      one,
                      quiet v (retry_attempt (attempt + 1) x),
                      quiet v' (retry_failed x),
                    ))
              | inr more ↦
                  rw (e, more)
                    (omega (
                      arith,
                      one,
                      quiet v (retry_attempt (attempt + 1) x),
                      quiet v' (slept delay),
                      loop_calls (quiet, once) f k (attempt + 1) retries (delay * backoff) backoff
                          (record v' { effects = v'.effects ++ slept delay ∷ [] }) (omega arith),
                    ))
            ]
      ]

  -- `retry_async` makes at most three calls: any count that ignores the log and grows by at most
  -- one with a call grows by at most three.
  pub retry_async_calls : CountsCalls → (w : World s) → μ (retry_async fn w).1 ≤ μ w + 3
  unfolding retry_async
  retry_async_calls count w = loop_calls count 4 2 0 3 100 2 w (omega arith)

module _ {s : Services} {A : Type 0} (fn : Action (World s) A) where
  -- Where every call raises the same exception and changes nothing, `retry_async` raises it, and the
  -- log shows three attempts with sleeps of 100 and 200 milliseconds between them.
  pub retry_async_fails :
      (e : Error)
      → ((w : World s) → fn w ≡ (err e, w))
      → (w : World s)
      → retry_async fn w ≡ (
        err e,
        record w {
          effects =
              w.effects
              ++ (retry_attempt 1 e
                  ∷ slept 100
                  ∷ retry_attempt 2 e
                  ∷ slept 200
                  ∷ retry_attempt 3 e
                  ∷ retry_failed e
                  ∷ []);
        },
      )
  unfolding retry_async retry_loop after_failure ◌>>=◌ catch emit
  retry_async_fails e h w = simp (h, append_assoc)

  -- Where the first call returns, `retry_async` returns the same with no further effect.
  pub retry_async_first : (w v : World s) (a : A) → fn w ≡ (ok a, v) → retry_async fn w ≡ (ok a, v)
  unfolding retry_async retry_loop catch
  retry_async_first w v a h = rw h

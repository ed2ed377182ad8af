-- ===== src/Workers/Counters.antt =====
-- What one signal does to the backend's counters (backend/app/workers.py), whatever the servers do.
use ims_prakash.Base.{
  ℕ, zero, suc, ◌≡◌, refl, sym, ap, ◌∙◌, ◌⊎◌, inl, inr, List, [], ◌∷◌, List-cases, drop,
}
use ims_prakash.Errors.{Error, Result, ok, err}
use ims_prakash.Effects.{Action, pure, ◌>>=◌, catch, continue, Outcome-cases}
use ims_prakash.Config.{Settings}
use ims_prakash.Models.{SignalIn}
use ims_prakash.Ingestion
use ims_prakash.Ingestion.{IngestQueueState, Queue}
use ims_prakash.Ingestion.Accounts.{get_empty, get_first}
use ims_prakash.Services.{Services}
use ims_prakash.World.{World, on_ingest, emit}
use ims_prakash.Workers.{
  process_one, count_processed, with_queue, handle, worker_round, worker_loop, serve_first,
}
use ims_prakash.World.Quiet.{
  IsQuiet, IsQuiet-clock_now, IsQuiet-on_redis, IsQuiet-on_mongo, IsQuiet-on_db, IsQuiet-if,
}
use ims_prakash.Workers.Quiet.{
  retry_async-IsQuiet, open_incident-IsQuiet, find_incident-IsQuiet, link_signal-IsQuiet,
}

ok_or_err : (a : Unit {0}) (x : Error) → ¬ (◌≡◌ {A = Result (Unit {0})} (ok a) (err x))
ok_or_err a x h = cc

-- A run from the ingest state `i` either returned with the processed counter one up, or raised with
-- the state as it was.
abbrev pub Counted : {s : Services} → IngestQueueState → Result (Unit {0}) × World s → Type 0
Counted i o =
    ((o.0 ≡ ok tt) × (o.1.ingest ≡ count_processed i))
    ⊎ ((e : Error) × (o.0 ≡ err e) × (o.1.ingest ≡ i))

module _ {s : Services} where
  record IsCounting (m : Action (World s) (Unit {0})) : Type 0 where
    at : (w : World s) → Counted w.ingest (m w)

  IsCounting-bind :
      {A : Type 0} {m : Action (World s) A} {f : A → Action (World s) (Unit {0})}
      → IsQuiet m
      → ((a : A) → IsCounting (f a))
      → IsCounting (m >>= f)
  unfolding ◌>>=◌
  IsCounting-bind {A} {m = m} {f = f} qm cf = record { at = λ w. go (m w) (qm.at w) }
    where
      go :
          {i : IngestQueueState} (o : Result A × World s)
          → o.1.ingest ≡ i
          → Counted i (continue o f)
      go (ok a, v) h = rw (← h) ((cf a).at v)
      go (err e, v) h = inr (e, refl, h)

  IsCounting-count : IsCounting (on_ingest count_processed)
  unfolding on_ingest
  IsCounting-count = record { at = λ w. inl (refl, refl) }

module _ (s : Services) (c : Settings) (sig : SignalIn) where
  process_one-IsCounting : IsCounting (process_one s c sig)
  unfolding process_one
  process_one-IsCounting = IsCounting-bind IsQuiet-clock_now λ now.
      IsCounting-bind (retry_async-IsQuiet _ (IsQuiet-on_mongo _)) λ id.
        IsCounting-bind (IsQuiet-on_redis _) λ won.
          IsCounting-bind
            (IsQuiet-if won (open_incident-IsQuiet s c sig) (find_incident-IsQuiet s c sig))
            λ item.
              IsCounting-bind (link_signal-IsQuiet s c sig id item)
                λ _. IsCounting-bind (retry_async-IsQuiet _ (IsQuiet-on_db _)) λ _. IsCounting-count

  -- Whatever the servers answer, `_process_one` counts a signal as processed exactly when it
  -- returns; when it raises, the queue and every counter are as they were.
  pub process_one_counts : (w : World s) → Counted w.ingest (process_one s c sig w)
  process_one_counts w = process_one-IsCounting.at w

  pub handle_done :
      (w : World s)
      → ((handle s c sig w).0 ≡ ok tt)
        × (((handle s c sig w).1.ingest ≡ with_queue Ingestion.task_done (count_processed w.ingest))
            ⊎ ((e : Error) × ((process_one s c sig w).0 ≡ err e)
                × ((handle s c sig w).1.ingest ≡ with_queue Ingestion.task_done w.ingest)))
  unfolding handle catch ◌>>=◌ emit on_ingest
  handle_done w = elim (Outcome-cases (process_one s c sig w)) [
    | inl (a, v, e) ↦ elim (process_one_counts w) [
      | inl (r, i) ↦ rw e (refl, inl (ap (with_queue Ingestion.task_done) (rw e at i)))
      | inr (x, r, i) ↦ absurd (ok_or_err a x (rw e at r))
    ]
    | inr (x, v, e) ↦ elim (process_one_counts w) [
      | inl (r, i) ↦ absurd (ok_or_err tt x (sym (rw e at r)))
      | inr (y, r, i) ↦ rw e (refl, inr (x, refl, ap (with_queue Ingestion.task_done) (rw e at i)))
    ]
  ]

drop-drop_one : (n : ℕ) (xs : List SignalIn) → drop n (drop 1 xs) ≡ drop (suc n) xs
drop-drop_one zero [] = refl
drop-drop_one (suc n) [] = refl
drop-drop_one n (x ∷ xs) = refl

module _ (s : Services) (c : Settings) where
  handle-items :
      (sig : SignalIn) (w : World s)
      → (handle s c sig w).1.ingest.queue.items ≡ w.ingest.queue.items
  unfolding with_queue Ingestion.task_done count_processed
  handle-items sig w = elim (handle_done s c sig w).1 [
    | inl e ↦ ap (λ (i : IngestQueueState). i.queue.items) e
    | inr (x, r, e) ↦ ap (λ (i : IngestQueueState). i.queue.items) e
  ]

  -- What a round does to the queue and the counters.
  abbrev pub Round : IngestQueueState → IngestQueueState → Type 0
  Round i j =
      ((i.queue.items ≡ []) × (j ≡ i))
      ⊎ ((x : SignalIn) × (rest : List SignalIn) × (i.queue.items ≡ x ∷ rest)
          × (let taken =
                with_queue Ingestion.task_done (with_queue (λ q. record q { items = rest }) i) in
              (j ≡ taken) ⊎ (j ≡ count_processed taken)))

  pub worker_round_lem :
      (w : World s)
      → ((worker_round s c w).0 ≡ ok tt) × Round w.ingest (worker_round s c w).1.ingest
  unfolding serve_first worker_round ◌>>=◌ on_ingest with_queue pure count_processed
  worker_round_lem w = elim (List-cases w.ingest.queue.items) [
    | inl e ↦ rw (get_empty w.ingest.queue e) (refl, inl (e, refl))
    | inr (x, rest, e) ↦
        let q : Queue = record w.ingest.queue { items = rest } in
        let v : World s = record w { ingest = with_queue (λ _. q) w.ingest } in
        let (fine, counted) = handle_done s c x v in
        rw (get_first w.ingest.queue x rest e)
          (fine, inr (x, rest, e, elim counted [ inl i ↦ inr i | inr (y, r, i) ↦ inl i ]))
  ]

  after_round :
      (w : World s)
      → ((worker_round s c w).0 ≡ ok tt)
        × ((worker_round s c w).1.ingest.queue.items ≡ drop 1 w.ingest.queue.items)
  unfolding serve_first worker_round ◌>>=◌ on_ingest with_queue
  after_round w = elim (List-cases w.ingest.queue.items) [
    | inl e ↦ rw (get_empty w.ingest.queue e) (refl, e ∙ ap (drop 1) (sym e))
    | inr (x, rest, e) ↦
        let q : Queue = record w.ingest.queue { items = rest } in
        let v : World s = record w { ingest = with_queue (λ _. q) w.ingest } in
        rw (get_first w.ingest.queue x rest e)
          ((handle_done s c x v).0, handle-items x v ∙ ap (drop 1) (sym e))
  ]

  after_first :
      (n : ℕ)
      → ((v : World s)
          → ((worker_loop s c n v).0 ≡ ok tt)
            × ((worker_loop s c n v).1.ingest.queue.items ≡ drop n v.ingest.queue.items))
      → (items : List SignalIn) (o : Result (Unit {0}) × World s) → o.0 ≡ ok tt
      → o.1.ingest.queue.items ≡ drop 1 items
      → let o' = continue o (λ _. worker_loop s c n) in
        (o'.0 ≡ ok tt) × (o'.1.ingest.queue.items ≡ drop (suc n) items)
  after_first n ih items (ok a, v) fine gone =
      ((ih v).0, (ih v).1 ∙ ap (drop n) gone ∙ drop-drop_one n items)
  after_first n ih items (err e, v) fine gone = absurd (ok_or_err tt e (sym fine))

  -- The worker loop never raises, whatever the servers do, and each round takes the oldest waiting
  -- signal: after `n` rounds with none offered meanwhile the first `n` are gone and the others wait.
  pub worker_loop_drains :
      (n : ℕ) (w : World s)
      → ((worker_loop s c n w).0 ≡ ok tt)
        × ((worker_loop s c n w).1.ingest.queue.items ≡ drop n w.ingest.queue.items)
  unfolding worker_loop ◌>>=◌
  worker_loop_drains zero w = (refl, refl)
  worker_loop_drains (suc n) w =
      let (fine, gone) = after_round w in
      after_first n (worker_loop_drains n) w.ingest.queue.items (worker_round s c w) fine gone

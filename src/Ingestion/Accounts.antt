-- ===== src/Ingestion/Accounts.antt =====
-- Any interleaving of offers and of workers that take a signal (backend/app/ingestion.py and the
-- `queue.get` of backend/app/workers.py).
use ims_prakash.Base.{
  ℕ, ◌+◌, ◌*◌, ◌<◌, ◌≡◌, refl, inl, inr, ap, Option, none, some, List, [], ◌∷◌, ◌++◌, length,
  List-cases, length-append, arith, if◌then◌else◌,
}
use mathlib.Core.List.{append_assoc}
use ims_prakash.Config.{Settings}
use ims_prakash.Models.{SignalIn}
use ims_prakash.Ingestion.{Queue, IngestQueueState, get, offer, fresh_state, qsize}
use ims_prakash.Ingestion.Offers.{Admits, offer_cases, pct_bounded}

pub data Event : Type 0 where
  offered : SignalIn → Event
  taken : Event

-- The state, with the signals that were accepted and those that workers have taken, in order.
pub record Run : Type 0 where
  pub state : IngestQueueState
  pub accepted_signals : List SignalIn
  pub taken_signals : List SignalIn
  pub offers : ℕ

after_get : Run → Option (SignalIn × Queue) → Run
after_get r none = r
after_get r (some (x, q)) = record r {
  state = record r.state { queue = q };
  taken_signals = r.taken_signals ++ x ∷ [];
}

unfoldable pub step : Settings → Run → Event → Run
unfolding after_get
step c r (offered x) =
    let (s, ok) = offer c x r.state in
    record r {
      state = s;
      accepted_signals = if ok then r.accepted_signals ++ x ∷ [] else r.accepted_signals;
      offers = r.offers + 1;
    }
step c r taken = after_get r (get r.state.queue)

unfoldable pub run : Settings → Run → List Event → Run
run c r [] = r
run c r (e ∷ es) = run c (step c r e) es

unfoldable pub start : Settings → Run
unfolding fresh_state
start c = record { state = fresh_state c; accepted_signals = []; taken_signals = []; offers = 0 }

pub record IsSound (c : Settings) (r : Run) : Type 0 where
  pub fifo : r.taken_signals ++ r.state.queue.items ≡ r.accepted_signals
  pub counted : r.state.accepted ≡ length r.accepted_signals
  pub balanced : r.state.accepted + r.state.dropped ≡ r.offers
  pub bound : r.state.queue.maxsize ≡ c.queue_maxsize
  pub below :
      let t = c.queue_backpressure_threshold in
      qsize r.state.queue * t.den < t.num * c.queue_maxsize + t.den

pub get_empty : (q : Queue) → q.items ≡ [] → get q ≡ none
unfolding get
get_empty q e = rw e

pub get_first :
    (q : Queue) (x : SignalIn) (rest : List SignalIn)
    → q.items ≡ x ∷ rest
    → get q ≡ some (x, record q { items = rest })
unfolding get
get_first q x rest e = rw e

fifo-get :
    (done : List SignalIn) (x : SignalIn) (rest all : List SignalIn)
    → done ++ x ∷ rest ≡ all
    → (done ++ x ∷ []) ++ rest ≡ all
fifo-get done x rest all h = rw append_assoc h

module _ (c : Settings) where
  offered-IsSound :
      (r : Run) (x : SignalIn)
      → 0 < c.queue_maxsize
      → IsSound c r
      → IsSound c (step c r (offered x))
  unfolding step
  offered-IsSound r x p h = elim (offer_cases c x r.state) [
    | inl (e, room) ↦ rw e (record {
      fifo = rw (← append_assoc) (ap (λ (l : List SignalIn). l ++ x ∷ []) h.fifo);
      counted = omega (arith, h.counted, length-append r.accepted_signals (x ∷ []));
      balanced = omega (arith, h.balanced);
      bound = h.bound;
      below = grow room;
    })
    | inr (e, full) ↦ rw e (record {
      fifo = h.fifo;
      counted = h.counted;
      balanced = omega (arith, h.balanced);
      bound = h.bound;
      below = h.below;
    })
  ]
    where
      grow :
          Admits c r.state
          → let t = c.queue_backpressure_threshold in
            length (r.state.queue.items ++ x ∷ []) * t.den < t.num * c.queue_maxsize + t.den
      grow room =
          let bounded : 0 < r.state.queue.maxsize = rw h.bound p in
          let below = rw (pct_bounded r.state bounded) at room.0 in
          let below' = rw h.bound at below in
          omega (
            arith,
            below',
            ap (λ (n : ℕ). n * c.queue_backpressure_threshold.den)
                (length-append r.state.queue.items (x ∷ [])),
          )

  taken-IsSound : (r : Run) → IsSound c r → IsSound c (step c r taken)
  unfolding step
  taken-IsSound r h = elim (List-cases r.state.queue.items) [
    | inl e ↦ rw (get_empty r.state.queue e) h
    | inr (x, rest, e) ↦ rw (get_first r.state.queue x rest e) (record {
      fifo = fifo-get r.taken_signals x rest r.accepted_signals (rw e at h.fifo);
      counted = h.counted;
      balanced = h.balanced;
      bound = h.bound;
      below = omega (
        arith,
        h.below,
        ap (λ (l : List SignalIn). length l * c.queue_backpressure_threshold.den) e,
      );
    })
  ]

  step-IsSound : (r : Run) (e : Event) → 0 < c.queue_maxsize → IsSound c r → IsSound c (step c r e)
  step-IsSound r (offered x) p h = offered-IsSound r x p h
  step-IsSound r taken p h = taken-IsSound r h

  run_from :
      (r : Run) (es : List Event) → 0 < c.queue_maxsize → IsSound c r → IsSound c (run c r es)
  unfolding run
  run_from r [] p h = h
  run_from r (e ∷ es) p h = run_from (step c r e) es p (step-IsSound r e p h)

  -- From a fresh state with a bounded queue, after any offers and takes in any order: the signals
  -- taken and those waiting are, in order, the signals accepted; the counters count them; and the
  -- queue is less than one signal above the threshold's share of its bound.
  pub run-IsSound :
      (es : List Event)
      → 0 < c.queue_maxsize
      → 0 < c.queue_backpressure_threshold.den
      → IsSound c (run c (start c) es)
  run-IsSound es p d = run_from (start c) es p (
      unfold start in
      record { fifo = refl; counted = refl; balanced = refl; bound = refl; below = omega arith })

-- ===== src/App/Signals.antt =====
-- The handler of `POST /signals` of backend/app/main.py.
use ims_prakash.Base.{◌+◌, ◌≡◌, ◌⊎◌, inl, inr, true, length-append, [], ◌∷◌, refl}
use ims_prakash.Config.{Settings}
use ims_prakash.Models.{SignalIn, SignalAccepted}
use ims_prakash.Ingestion.{IngestQueueState, qsize, snapshot, queue_pct_full}
use ims_prakash.Ingestion.Offers.{admitted, refused, Admits, offer_cases}
use ims_prakash.App.{accepted_202, backpressure_503, post_signal}

module _ (c : Settings) (x : SignalIn) (s : IngestQueueState) where
  -- The depth of the answer counts the new signal.
  depth_admitted : (snapshot (admitted x s)).queue_depth ≡ qsize s.queue + 1
  unfolding snapshot
  depth_admitted = length-append s.queue.items (x ∷ [])

  -- Of a signal that the schema and the rate limit let through, which is what the handler of POST
  -- /signals is called with. Where the queue has room below its threshold, the signal is enqueued,
  -- and the answer is 202 with the depth that counts it. Elsewhere the answer is 503 with the share
  -- of the queue that is used, and the queue is left as it was, with one more drop counted.
  pub post_signal_answers :
      (Admits c s
        × (out : SignalAccepted) × (post_signal c x s ≡ (admitted x s, accepted_202 out))
        × (out.queue_depth ≡ qsize s.queue + 1))
      ⊎ (¬ Admits c s × (post_signal c x s ≡ (refused s, backpressure_503 (queue_pct_full s))))
  unfolding post_signal queue_pct_full
  post_signal_answers = elim (offer_cases c x s) [
    | inl (e, room) ↦
        let snap = snapshot (admitted x s) in
        let out : SignalAccepted = record {
          accepted = true;
          queue_depth = snap.queue_depth;
          queue_pct_full = snap.queue_pct_full;
        } in
        inl (room, out, rw e refl, depth_admitted)
    | inr (e, full) ↦ inr (full, rw e refl)
  ]

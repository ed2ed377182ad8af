-- ===== src/Scripts/Outage/Posts.antt =====
-- One post of scripts/simulate_outage.py and the counters of the queue (backend/app/ingestion.py).
use ims_prakash.Base.{ℕ, ◌+◌, ◌≤◌, ◌≡◌, refl, inl, inr, ◌==◌, if◌then◌else◌, arith}
use ims_prakash.Ingestion.{IngestQueueState}
use ims_prakash.App.Signals.{post_signal_answers}
use ims_prakash.Scripts.Outage.{Reply, SignalDoc, status_and_body}
use ims_prakash.Scripts.Outage.Backend.{
  Fate, delivered, reply_lost, request_lost, turned_away, Setting, served,
}

-- `sent` of `count` posts were answered by 202.
pub record Adds (sent count : ℕ) (s t : IngestQueueState) : Type 0 where
  pub accepted : s.accepted + sent ≤ t.accepted
  pub accepted_grows : s.accepted ≤ t.accepted
  pub dropped_grows : s.dropped ≤ t.dropped
  pub total : t.accepted + t.dropped ≤ s.accepted + s.dropped + count

-- Every post was answered.
pub record AddsAll (sent count : ℕ) (s t : IngestQueueState) : Type 0 where
  pub accepted : t.accepted ≡ s.accepted + sent
  pub dropped : t.dropped + sent ≡ s.dropped + count

abbrev pub one_if_accepted : Reply → ℕ
one_if_accepted r = if (status_and_body r).0 == 202 then 1 else 0

AddsAll-Adds : {b : ℕ} {s t : IngestQueueState} → b ≤ 1 → AddsAll b 1 s t → Adds b 1 s t
AddsAll-Adds few h = record {
  accepted = omega (arith, h.accepted);
  accepted_grows = omega (arith, h.accepted);
  dropped_grows = omega (arith, h.dropped, few);
  total = omega (arith, h.accepted, h.dropped);
}

one_if_accepted-le : (r : Reply) → one_if_accepted r ≤ 1
unfolding status_and_body
one_if_accepted-le r = ground arith

module _ (e : Setting) where
  pub served-delivered :
      (doc : SignalDoc) (s : IngestQueueState)
      → AddsAll (one_if_accepted (served e delivered doc s).0) 1 s (served e delivered doc s).1
  unfolding served status_and_body
  served-delivered doc s = elim (post_signal_answers e.config (e.read doc) s) [
    | inl (room, out, h, depth) ↦ rw h (record { accepted = refl; dropped = refl })
    | inr (full, h) ↦ rw h (record { accepted = omega arith; dropped = omega arith })
  ]

  -- Where the reply is lost, the backend did the same.
  pub served-Adds :
      (fate : Fate) (doc : SignalDoc) (s : IngestQueueState)
      → Adds (one_if_accepted (served e fate doc s).0) 1 s (served e fate doc s).1
  unfolding served status_and_body
  served-Adds delivered doc s =
      AddsAll-Adds (one_if_accepted-le (served e delivered doc s).0) (served-delivered doc s)
  served-Adds (reply_lost message) doc s =
      let h =
        AddsAll-Adds (one_if_accepted-le (served e delivered doc s).0) (served-delivered doc s) in
      record {
        accepted = omega (arith, h.accepted_grows);
        accepted_grows = h.accepted_grows;
        dropped_grows = h.dropped_grows;
        total = h.total;
      }
  served-Adds (request_lost message) doc s = record {
    accepted = omega arith;
    accepted_grows = omega arith;
    dropped_grows = omega arith;
    total = omega arith;
  }
  served-Adds (turned_away n body) doc s = record {
    accepted = ground arith;
    accepted_grows = omega arith;
    dropped_grows = omega arith;
    total = omega arith;
  }

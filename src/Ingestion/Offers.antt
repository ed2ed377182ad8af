-- ===== src/Ingestion/Offers.antt =====
-- What one `offer` (backend/app/ingestion.py) does on each of its branches.
use ims_prakash.Base.{
  ℕ, ◌+◌, ◌*◌, ◌≤◌, ◌<◌, ◌≡◌, ◌⊎◌, true, false, not, ◌∷◌, [], ◌++◌, arith, Bool-cases, inl, inr,
}
use ims_prakash.Config.{Settings}
use ims_prakash.Models.{SignalIn}
use ims_prakash.Ingestion.{IngestQueueState, qsize, is_backpressured, offer, queue_pct_full}

abbrev pub admitted : SignalIn → IngestQueueState → IngestQueueState
admitted x s = record s {
  queue = record s.queue { items = s.queue.items ++ x ∷ []; unfinished = s.queue.unfinished + 1 };
  accepted = s.accepted + 1;
}

abbrev pub refused : IngestQueueState → IngestQueueState
refused s = record s { dropped = s.dropped + 1 }

-- The queue is below its threshold, and not full.
abbrev pub Admits : Settings → IngestQueueState → Type 0
Admits c s =
    let t = c.queue_backpressure_threshold in
    let pct = queue_pct_full s in
    (pct.num * t.den < t.num * pct.den)
    × ((s.queue.maxsize ≡ 0) ⊎ (qsize s.queue < s.queue.maxsize))

-- Below the threshold's share of the bound is below the bound.
share_lt : (n num den cap : ℕ) → num ≤ den → n * den < num * cap → n < cap
share_lt n num den cap h k = grind arith

pub pct_bounded :
    (s : IngestQueueState)
    → 0 < s.queue.maxsize
    → queue_pct_full s ≡ record { num = qsize s.queue; den = s.queue.maxsize }
unfolding queue_pct_full
pct_bounded s h = ground arith

module _ (c : Settings) (x : SignalIn) (s : IngestQueueState) where
  -- An offer either puts the signal at the end of the queue and counts it as accepted, and then
  -- the queue was below its threshold and not full; or it counts a drop and leaves the queue
  -- alone, and then it was not so.
  pub offer_cases :
      ((offer c x s ≡ (admitted x s, true)) × Admits c s)
      ⊎ ((offer c x s ≡ (refused s, false)) × ¬ Admits c s)
  unfolding offer
  offer_cases = ground arith

  -- With a threshold of at most 1 and a bounded queue, the answer of an offer is that of the
  -- backpressure test alone: the queue is not full where that passes.
  pub offer_below_full :
      let t = c.queue_backpressure_threshold in
      0 < t.den → t.num ≤ t.den → 0 < s.queue.maxsize → (offer c x s).1 ≡ not (is_backpressured c s)
  offer_below_full p h b = elim offer_cases [
    | inl (e, admits) ↦ rw e (unfold is_backpressured in ground (arith, admits.0))
    | inr (e, full) ↦ elim (Bool-cases (is_backpressured c s)) [
      | inl pressed ↦ rw (e, pressed)
      | inr free ↦ absurd (full (room free))
    ]
  ]
    where
      room : is_backpressured c s ≡ false → Admits c s
      room free =
          let t = c.queue_backpressure_threshold in
          let below : qsize s.queue * t.den < t.num * s.queue.maxsize =
            unfold is_backpressured in ground (arith, pct_bounded s b) in
          (
            rw (pct_bounded s b) below,
            inr (share_lt (qsize s.queue) t.num t.den s.queue.maxsize h below),
          )

-- ===== src/Workers/Windows.antt =====
-- The counters of the queue under the rounds of the two loops of backend/app/workers.py and under
-- `offer` of backend/app/ingestion.py.
use ims_prakash.Base.{
  ◌<◌, ◌==◌, Bool-cases, if◌then◌else◌, ◌+◌, ◌-◌, ◌≤◌, ◌≡◌, refl, ap, List, [], ◌∷◌, inl, inr,
  length, length-append, arith,
}
use ims_prakash.Config.{Settings}
use ims_prakash.Effects.{◌>>=◌, catch, Outcome-cases}
use ims_prakash.Errors.{ok, err, zero_division_error}
use ims_prakash.Ingestion
use ims_prakash.Ingestion.{IngestQueueState, offer, qsize}
use ims_prakash.Ingestion.Offers.{offer_cases}
use ims_prakash.Models.{SignalIn}
use ims_prakash.Services.{Services}
use ims_prakash.World.{World, emit, on_ingest}
use ims_prakash.Workers.{
  throughput_round, roll_windows, publish, worker_round, with_queue, count_processed,
}
use ims_prakash.Workers.Quiet.{publish-IsQuiet}
use ims_prakash.Workers.Counters.{Round, worker_round_lem}

module _ (s : Services) (c : Settings) where
  rolled :
      (w : World s)
      → ((throughput_round s c w).0
          ≡ (if c.throughput_log_interval == 0 then err zero_division_error else ok tt))
        × ((throughput_round s c w).1.ingest ≡ roll_windows w.ingest)
  unfolding throughput_round ◌>>=◌ catch emit on_ingest
  rolled w =
      let i = w.ingest in
      let v : World s = record w { ingest = roll_windows w.ingest } in
      let published =
        publish s c i (i.accepted - i.last_accepted_window)
          (i.processed - i.last_processed_window) in
      let quiet =
        (publish-IsQuiet s c i (i.accepted - i.last_accepted_window)
            (i.processed - i.last_processed_window)).at
          v in
      elim (Bool-cases (c.throughput_log_interval == 0)) [
        | inl zero_interval ↦ rw zero_interval (refl, refl)
        | inr more ↦ elim (Outcome-cases (published v)) [
          | inl (a, u, e) ↦ rw (more, e) (refl, rw e at quiet)
          | inr (x, u, e) ↦ rw (more, e) (refl, rw e at quiet)
        ]
      ]

  -- With an interval that is not 0, a round never raises, also where Redis does; it closes the
  -- windows at the totals and changes no other counter.
  pub throughput_round_rolls :
      (w : World s)
      → 0 < c.throughput_log_interval
      → ((throughput_round s c w).0 ≡ ok tt)
        × ((throughput_round s c w).1.ingest ≡ roll_windows w.ingest)
  throughput_round_rolls w h = (ground (arith, (rolled w).0), (rolled w).1)

-- Every accepted signal waits, was processed or failed; none is counted twice; what is unfinished is
-- what waits; and the last windows do not pass the totals.
pub record IsAccounted (i : IngestQueueState) : Type 0 where
  pub processed_bound : i.processed + qsize i.queue ≤ i.accepted
  pub unfinished : i.queue.unfinished ≡ qsize i.queue
  pub accepted_window : i.last_accepted_window ≤ i.accepted
  pub processed_window : i.last_processed_window ≤ i.processed

pub offer-IsAccounted :
    (c : Settings) (x : SignalIn) (i : IngestQueueState)
    → IsAccounted i
    → IsAccounted (offer c x i).0
offer-IsAccounted c x i h =
    let grown = length-append i.queue.items (x ∷ []) in
    elim (offer_cases c x i) [
      | inl (e, room) ↦ rw e (omega (arith, grown))
      | inr (e, full) ↦ rw e (omega arith)
    ]

Round-IsAccounted :
    (s : Services) (c : Settings) (i j : IngestQueueState)
    → Round s c i j
    → IsAccounted i
    → IsAccounted j
unfolding with_queue Ingestion.task_done count_processed
Round-IsAccounted s c i j (inl (e, same)) h = rw same h
Round-IsAccounted s c i j (inr (x, rest, e, inl left)) h =
    rw left (omega (arith, ap (λ (l : List SignalIn). length l) e))
Round-IsAccounted s c i j (inr (x, rest, e, inr left)) h =
    rw left (omega (arith, ap (λ (l : List SignalIn). length l) e))

module _ (s : Services) (c : Settings) where
  pub worker_round-IsAccounted :
      (w : World s) → IsAccounted w.ingest → IsAccounted (worker_round s c w).1.ingest
  worker_round-IsAccounted w h = Round-IsAccounted s c w.ingest _ (worker_round_lem s c w).1 h

  pub throughput_round-IsAccounted :
      (w : World s) → IsAccounted w.ingest → IsAccounted (throughput_round s c w).1.ingest
  throughput_round-IsAccounted w h = rw (rolled s c w).1 (unfold roll_windows in omega arith)

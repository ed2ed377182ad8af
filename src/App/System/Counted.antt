-- ===== src/App/System/Counted.antt =====
-- The queue and its counters in a run of requests and rounds.
use ims_prakash.Base.{List, [], ◌∷◌}
use ims_prakash.Config.{Settings}
use ims_prakash.Models.{SignalIn, Pydantic}
use ims_prakash.Ingestion.{IngestQueueState, offer}
use ims_prakash.Services.{Services}
use ims_prakash.Workers.Windows.{
  IsAccounted, offer-IsAccounted, worker_round-IsAccounted, throughput_round-IsAccounted,
}
use ims_prakash.App.Server.{Limiter, Server}
use ims_prakash.App.Server.Queue.{passed_by, offer_each, serve-Offers}
use ims_prakash.App.System.{Step, served, worked, measured, Reach, Reach-keeps}

offer_each-IsAccounted :
    (c : Settings) (xs : List SignalIn) (st : IngestQueueState)
    → IsAccounted st
    → IsAccounted (offer_each c xs st)
unfolding offer_each
offer_each-IsAccounted c [] st h = h
offer_each-IsAccounted c (x ∷ xs) st h =
    offer_each-IsAccounted c xs (offer c x st).0 (offer-IsAccounted c x st h)

module _ (s : Services) (l : Limiter) (p : Pydantic) (c : Settings) where
  Step-IsAccounted :
      {x y : Server s l}
      → Step s l p c x y
      → IsAccounted x.world.ingest
      → IsAccounted y.world.ingest
  Step-IsAccounted (served r x) h =
      let o = passed_by l p c r.client r.endpoint x.counters in
      rw ((serve-Offers s l p c r x).0) (offer_each-IsAccounted c o.0 x.world.ingest h)
  Step-IsAccounted (worked x) h = worker_round-IsAccounted s c x.world h
  Step-IsAccounted (measured x) h = throughput_round-IsAccounted s c x.world h

  -- From a balanced state, after any run of requests of any kind, worker rounds and measuring rounds,
  -- whatever the servers do: what waits and what was processed are at most what was accepted, the
  -- unfinished tasks are what waits, and the windows do not pass the totals.
  pub Reach-IsAccounted :
      {x y : Server s l}
      → Reach s l p c x y
      → IsAccounted x.world.ingest
      → IsAccounted y.world.ingest
  Reach-IsAccounted r h =
      Reach-keeps s l p c (λ z. IsAccounted z.world.ingest) (λ _ _ st k. Step-IsAccounted st k) _ _
        r h

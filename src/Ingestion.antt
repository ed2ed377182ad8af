-- ===== src/Ingestion.antt =====
-- backend/app/ingestion.py. `asyncio.Queue` is its waiting items, its
-- bound, where 0 is no bound, and its unfinished tasks.
-- A fraction is kept as numerator and denominator, so a threshold is compared exactly; `round(…, 4)`
-- gives ten-thousandths and breaks a tie to even.
pub mod Offers
pub mod Accounts
use ims_prakash.Base.{
  ℕ, ◌+◌, ◌-◌, ◌*◌, ◌/◌, ◌%◌, Bool, true, false, ◌&&◌, Option, none, some, List, [], ◌∷◌, ◌++◌,
  length, leb, ltb, ◌==◌, if◌then◌else◌,
}
use ims_prakash.Config.{Ratio, Settings}
use ims_prakash.Errors.{Result, ok, err, queue_full}
use ims_prakash.Models.{SignalIn}

pub record Queue : Type 0 where
  pub items : List SignalIn
  pub maxsize : ℕ
  -- Put and not yet `task_done`.
  pub unfinished : ℕ

pub record IngestQueueState : Type 0 where
  pub queue : Queue
  pub accepted : ℕ
  pub dropped : ℕ
  pub processed : ℕ
  pub last_accepted_window : ℕ
  pub last_processed_window : ℕ

abbrev pub qsize : Queue → ℕ
qsize q = length q.items

-- `asyncio.Queue.put_nowait`, on the items: it raises where the queue is full.
abbrev pub put_nowait : SignalIn → Queue → Result Queue
put_nowait s q =
    if ltb 0 q.maxsize && leb q.maxsize (qsize q)
    then err queue_full
    else ok (record q { items = q.items ++ s ∷ []; unfinished = q.unfinished + 1 })

-- `asyncio.Queue.get`, where an item waits.
unfoldable pub get : Queue → Option (SignalIn × Queue)
get q = elim q.items [ [] ↦ none | x ∷ rest ↦ some (x, record q { items = rest }) ]

-- `asyncio.Queue.task_done`, after a `get`.
unfoldable pub task_done : Queue → Queue
task_done q = record q { unfinished = q.unfinished - 1 }

-- The state that `get_state` makes on its first call.
unfoldable pub fresh_state : Settings → IngestQueueState
fresh_state s = record {
  queue = record { items = []; maxsize = s.queue_maxsize; unfinished = 0 };
  accepted = 0;
  dropped = 0;
  processed = 0;
  last_accepted_window = 0;
  last_processed_window = 0;
}

-- `get_state`: the module's variable, made when it is missing.
unfoldable pub get_state : Settings → Option IngestQueueState → IngestQueueState
unfolding fresh_state
get_state s none = fresh_state s
get_state s (some st) = st

-- `_state = None`.
unfoldable pub reset_state_for_tests : Option IngestQueueState → Option IngestQueueState
reset_state_for_tests s = none

-- `s.queue.qsize() / cap` if there is a bound, else 0.
unfoldable pub queue_pct_full : IngestQueueState → Ratio
queue_pct_full s =
    if s.queue.maxsize == 0
    then record { num = 0; den = 1 }
    else record { num = qsize s.queue; den = s.queue.maxsize }

-- `a >= b` of two fractions.
abbrev pub ratio_ge : Ratio → Ratio → Bool
ratio_ge a b = leb (b.num * a.den) (a.num * b.den)

unfoldable pub is_backpressured : Settings → IngestQueueState → Bool
unfolding queue_pct_full
is_backpressured c s = ratio_ge (queue_pct_full s) c.queue_backpressure_threshold

drop_one : IngestQueueState → IngestQueueState × Bool
drop_one s = (record s { dropped = s.dropped + 1 }, false)

enqueue : IngestQueueState → Result Queue → IngestQueueState × Bool
unfolding drop_one
enqueue s (err e) = drop_one s
enqueue s (ok q) = (record s { queue = q; accepted = s.accepted + 1 }, true)

unfoldable pub offer : Settings → SignalIn → IngestQueueState → IngestQueueState × Bool
unfolding is_backpressured enqueue
offer c signal s =
    if is_backpressured c s then drop_one s else enqueue s (put_nowait signal s.queue)

-- Python's `round` of a fraction: to the nearest whole number, a tie to even.
unfoldable pub round_half_even : ℕ → ℕ → ℕ
round_half_even a b =
    let q = a / b in
    let r = a % b in
    if ltb (2 * r) b then q else if ltb b (2 * r) then q + 1 else if q % 2 == 0 then q else q + 1

pub record Snapshot : Type 0 where
  pub queue_depth : ℕ
  pub queue_pct_full : ℕ
  pub accepted_total : ℕ
  pub dropped_total : ℕ
  pub processed_total : ℕ

unfoldable pub snapshot : IngestQueueState → Snapshot
unfolding round_half_even queue_pct_full
snapshot s =
    let pct = queue_pct_full s in
    record {
      queue_depth = qsize s.queue;
      queue_pct_full = round_half_even (10000 * pct.num) pct.den;
      accepted_total = s.accepted;
      dropped_total = s.dropped;
      processed_total = s.processed;
    }

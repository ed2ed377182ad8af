-- ===== src/Workers/Tasks.antt =====
-- `start_workers` and `stop_workers` of backend/app/workers.py. A task is its loop and its status; the
-- tasks that the module no longer refers to are kept in a list of their own.
use ims_prakash.Base.{
  ℕ, zero, suc, ◌+◌, Bool, true, false, Option, none, some, List, [], ◌∷◌, ◌++◌, map,
}
use ims_prakash.Config.{Settings}

pub data Status : Type 0 where
  -- `cancel` asks for the end, which comes when the task runs again.
  running cancel_requested ended : Status

pub data Loop : Type 0 where
  worker_task : ℕ → Loop
  throughput_task : Loop

pub record Task : Type 0 where
  pub loop : Loop
  pub status : Status

-- `_workers`, `_throughput_task` and `_shutdown`.
pub record Pool : Type 0 where
  pub workers : List Task
  pub throughput : Option Task
  pub shutdown : Bool
  pub released : List Task

abbrev pub create_task : Loop → Task
create_task loop = record { loop = loop; status = running }

unfoldable pub cancel : Task → Task
cancel t = elim t.status [ running ↦ record t { status = cancel_requested } | _ ↦ t ]

-- `await t`, with every exception of the task swallowed.
unfoldable pub await_end : Task → Task
await_end t = record t { status = ended }

-- The tasks of `for i in range(n)`, from `i` on.
unfoldable pub new_workers : ℕ → ℕ → List Task
new_workers i zero = []
new_workers i (suc n) = create_task (worker_task i) ∷ new_workers (i + 1) n

abbrev pub optional_task : Option Task → List Task
optional_task none = []
optional_task (some t) = t ∷ []

unfoldable pub start_workers : Settings → Pool → Pool
unfolding new_workers
start_workers c p = record {
  workers = p.workers ++ new_workers 0 c.worker_count;
  throughput = some (create_task throughput_task);
  shutdown = false;
  released = p.released ++ optional_task p.throughput;
}

abbrev pub cancel_throughput : Option Task → Option Task
cancel_throughput none = none
cancel_throughput (some t) = some (cancel t)

-- The throughput task is cancelled and not awaited.
unfoldable pub stop_workers : Pool → Pool
unfolding cancel await_end
stop_workers p = record {
  workers = [];
  throughput = cancel_throughput p.throughput;
  shutdown = true;
  released = p.released ++ map await_end (map cancel p.workers);
}

unfoldable pub no_tasks : Pool
no_tasks = record { workers = []; throughput = none; shutdown = false; released = [] }
